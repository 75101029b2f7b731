-- ===== src/Dedup/Batch/Loop.antt =====
-- `dedup_groups` as a list of batches, one for each round that gives any: each fits the budget that was
-- read before its round or is one pair of files, and together they carry the work of the groups, in
-- order.
use dupion.Base.{
  ℕ, zero, suc, ◌+◌, ◌<◌, ◌≤◌, ◌≡◌, refl, sym, ap, ◌∙◌, fun_ext, inl, inr, List, [], ◌∷◌, ◌++◌,
  length, sum_of, u64_mod, All, Outcome, ok, ◌>>=◌, arith,
}
use dupion.Dedup.{DedupGroup}
use dupion.Dedup.Batch.{Marked, Queues, fill, load, commit_some, dedup_loop, dedup_groups}
use dupion.Dedup.Batch.Fill.{Work, input_work, buffer_work, volume, IsSized, IsBatch}
use dupion.Dedup.Batch.Rounds.{fill-Filled}

abbrev pub batches_work : List (List Marked) → List Work
batches_work [] = []
batches_work (b ∷ bs) = buffer_work b ++ batches_work bs

-- The specification: one call for each batch, up to the first error.
unfoldable pub commit_all :
    {S : Type 0} → (List Marked → S → Outcome S) → List (List Marked) → S → Outcome S
commit_all commit [] s = ok s
commit_all commit (b ∷ bs) s = do s' ← commit b s; commit_all commit bs s'

module _ {S : Type 0} (commit : List Marked → S → Outcome S) (cache : ℕ → Outcome ℕ)
    (budgets : ℕ → ℕ) (steady : (k : ℕ) → cache k ≡ ok (budgets k)) where
  -- Each batch has a round of its own, from round `k` on and in order. It is not empty, and fits the
  -- budget that was read for its round or is one pair of files.
  abbrev pub InRounds : ℕ → List (List Marked) → Type 0
  InRounds k [] = Unit {0}
  InRounds k (b ∷ bs) =
      (j : ℕ) × (k ≤ j) × (0 < length b) × IsBatch (budgets j) b × InRounds (j + 1) bs

  InRounds-earlier : (k : ℕ) (bs : List (List Marked)) → InRounds (k + 1) bs → InRounds k bs
  InRounds-earlier k [] h = tt
  InRounds-earlier k (b ∷ bs) (j, later, some_buffer, batch, rest) =
      (j, omega (arith, later), some_buffer, batch, rest)

  -- A run from the groups and round `from` on is the calls for a list of batches.
  pub record Batched (from : ℕ) (groups : List DedupGroup) (run : S → Outcome S) : Type 0 where
    pub batches : List (List Marked)
    pub batch : InRounds from batches
    pub work : batches_work batches ≡ input_work groups
    pub runs : (s : S) → run s ≡ commit_all commit batches s

  commit_some_lem :
      (ms : List Marked) (s : S) → 0 < length ms → commit_some commit cache ms s ≡ commit ms s
  commit_some_lem [] s h = absurd (omega arith)
  commit_some_lem (m ∷ ms) s h = refl

  -- What the round does behind the inner loop.
  abbrev finish_round : ℕ → ℕ → Queues → S → Outcome S
  finish_round fuel k q s = do
    s' ← commit_some commit cache q.buffer s
    next_max ← cache (k + 1)
    dedup_loop commit cache fuel (k + 1) next_max q.groups s'

  dedup_loop_step :
      (fuel k c : ℕ) (g : DedupGroup) (gs : List DedupGroup) (q : Queues) (s : S)
      → fill (suc (load (g ∷ gs) [])) c (g ∷ gs) [] ≡ ok q
      → dedup_loop commit cache (suc fuel) k c (g ∷ gs) s ≡ finish_round fuel k q s
  unfolding dedup_loop
  dedup_loop_step fuel k c g gs q s h = ap (λ r. r >>= λ x. finish_round fuel k x s) h

  finish_round_lem :
      (fuel k : ℕ) (groups : List DedupGroup) (ms : List Marked) (s : S)
      (ih : Batched (k + 1) groups (dedup_loop commit cache fuel (k + 1) (budgets (k + 1)) groups))
      → finish_round fuel k (record { groups = groups; buffer = ms }) s
        ≡ (do s' ← commit_some commit cache ms s; commit_all commit ih.batches s')
  finish_round_lem fuel k groups ms s ih =
      ap (λ rest. commit_some commit cache ms s >>= rest)
        (fun_ext λ s'.
          ap (λ r. r >>= λ m. dedup_loop commit cache fuel (k + 1) m groups s') (steady (k + 1))
          ∙ ih.runs s')

  dedup_loop-Batched :
      (fuel k : ℕ) (groups : List DedupGroup)
      → load groups [] < fuel
      → All IsSized groups
      → sum_of volume groups < u64_mod
      → Batched k groups (dedup_loop commit cache fuel k (budgets k) groups)
  unfolding dedup_loop commit_all
  dedup_loop-Batched zero k groups enough sized small = absurd (omega arith)
  dedup_loop-Batched (suc fuel) k [] enough sized small = record {
    batches = [];
    batch = tt;
    work = refl;
    runs = λ s. refl;
  }
  dedup_loop-Batched (suc fuel) k (g ∷ gs) enough sized small =
      let f =
        fill-Filled (suc (load (g ∷ gs) [])) (budgets k) (g ∷ gs) []
          (record {
            sized = sized;
            live = tt;
            small = omega (arith, small);
            single = inl (omega arith);
          })
          (omega arith) in
      let less = f.starts refl (omega arith) in
      let ih =
        dedup_loop-Batched fuel (k + 1) f.out.groups (omega (arith, less, enough)) f.sized
          f.small in
      elim f.batch [
        | inl (no_groups, no_buffer) ↦ record {
          batches = ih.batches;
          batch = InRounds-earlier k ih.batches ih.batch;
          work =
              ih.work
              ∙ ap (λ ms. buffer_work ms ++ input_work f.out.groups) (sym no_buffer)
              ∙ f.work;
          runs = λ s.
              dedup_loop_step fuel k (budgets k) g gs f.out s f.returns
              ∙ finish_round_lem fuel k f.out.groups f.out.buffer s ih
              ∙ ap (λ ms. commit_some commit cache ms s >>= commit_all commit ih.batches) no_buffer;
        }
        | inr (some_buffer, batch) ↦ record {
          batches = f.out.buffer ∷ ih.batches;
          batch = (k, omega arith, some_buffer, batch, ih.batch);
          work = ap (λ ws. buffer_work f.out.buffer ++ ws) ih.work ∙ f.work;
          runs = λ s.
              dedup_loop_step fuel k (budgets k) g gs f.out s f.returns
              ∙ finish_round_lem fuel k f.out.groups f.out.buffer s ih
              ∙ ap (λ r. r >>= commit_all commit ih.batches)
                  (commit_some_lem f.out.buffer s some_buffer);
        }
      ]

  -- If the free memory gives a budget each time it is asked for (the call returns), no range is empty and
  -- twice the bytes of all dups are less than `2 ^ 64`, `dedup_groups` ends and no assertion of it fails:
  -- it is one call of `commit` after the other, up to the first error, for batches of different rounds,
  -- in the order of the rounds, that each fit the budget of their round or are one pair of files. The
  -- batches together have each dup of each group once, with its senpai and range, in the order of the
  -- groups.
  pub dedup_groups-Batched :
      (groups : List DedupGroup)
      → All IsSized groups
      → sum_of volume groups < u64_mod
      → Batched 0 groups (dedup_groups commit cache groups)
  unfolding dedup_groups
  dedup_groups-Batched groups sized small =
      let b = dedup_loop-Batched (suc (load groups [])) 0 groups (omega arith) sized small in
      record {
        batches = b.batches;
        batch = b.batch;
        work = b.work;
        runs = λ s.
            ap (λ r. r >>= λ c. dedup_loop commit cache (suc (load groups [])) 0 c groups s)
              (steady 0)
            ∙ b.runs s;
      }
