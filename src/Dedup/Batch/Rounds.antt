-- ===== src/Dedup/Batch/Rounds.antt =====
-- The rounds of the inner loop of `dedup_groups`, and their end.
use dupion.Base.{
  ℕ, zero, suc, ◌≤◌, ◌<◌, ◌≡◌, refl, sym, ap, ◌∙◌, ◌⊎◌, inl, inr, true, false, Bool-cases, List, [],
  ◌∷◌, ◌++◌, append_assoc, length, is_empty, sum_of, ltb, u64_mod, All, All-append, Outcome, ok,
  arith,
}
use dupion.Vfs.{VfsId}
use dupion.Dedup.{DedupGroup, sum, range_len}
use dupion.Dedup.Batch.{
  Marked, Queues, max_group_files, Verdict, leave, again, shrink, fits, settle, joins, fill_round,
  fill, buffer_weight, load,
}
use dupion.Dedup.Batch.Fill.{
  work_of, group_work, input_work, buffer_work, volume, marked_volume, IsBatch, IsFilling, IsLive,
  IsSized, Decides, buffer_usage-append, sum_of-append, buffer_work-append, shrink-cut, shrink-pair,
}

fits-IsBatch : (cache : ℕ) (ms : List Marked) → fits cache ms ≡ true → IsBatch cache ms
fits-IsBatch cache ms h = inl (ground (arith, h))

abbrev Decided : ℕ → List DedupGroup → List Marked → Outcome Verdict → Type 0
Decided cache groups buffer r = (v : Verdict) × (r ≡ ok v) × Decides cache groups buffer v

settle_large :
    (cache : ℕ) (groups : List DedupGroup) (m : Marked) (ms : List Marked)
    → IsFilling cache groups (m ∷ ms)
    → fits cache (m ∷ ms) ≡ false
    → Decided cache groups (m ∷ ms) (shrink cache groups (m ∷ ms))
unfolding Decides
settle_large cache groups m (n ∷ ms) inv large = elim inv.single [
  | inl short ↦ absurd (omega (arith, short))
  | inr fit ↦ cc
]
settle_large cache groups (g, last) [] inv large =
    elim (Bool-cases (ltb (max_group_files cache (range_len g)) (sum g))) [
      | inl many ↦ shrink-cut cache groups g last inv many
      | inr few ↦
          let (returns, one) = shrink-pair cache groups g last inv large few in
          (leave, returns, inr (omega arith, inr ((g, last), refl, one)))
    ]

settle-Decided :
    (cache : ℕ) (groups : List DedupGroup) (m : Marked) (ms : List Marked)
    → IsFilling cache groups (m ∷ ms)
    → Decided cache groups (m ∷ ms) (settle cache groups (m ∷ ms))
unfolding settle Decides
settle-Decided cache groups m ms inv = elim (Bool-cases (fits cache (m ∷ ms))) [
  | inl fit ↦ (leave, rw fit refl, inr (omega arith, fits-IsBatch cache (m ∷ ms) fit))
  | inr large ↦ rw large (settle_large cache groups m ms inv large)
]

skip-Decides :
    (cache : ℕ) (g : DedupGroup) (rest : List DedupGroup) (buffer : List Marked)
    → IsFilling cache (g ∷ rest) buffer
    → g.dups ≡ []
    → Decides cache (g ∷ rest) buffer (again rest buffer)
unfolding Decides
skip-Decides cache g rest buffer inv none_left = (
  record {
    sized = inv.sized.1;
    live = inv.live;
    small = omega (arith, inv.small);
    single = inv.single;
  },
  omega arith,
  ap (λ ws. buffer_work buffer ++ ws) (sym (ap (λ ds. work_of g ds ++ input_work rest) none_left)),
)

some_dup_length : (g : DedupGroup) → is_empty g.dups ≡ false → 0 < length g.dups
some_dup_length g h = by_dups g.dups h
  where
    by_dups : (ds : List VfsId) → is_empty ds ≡ false → 0 < length ds
    by_dups [] e = cc
    by_dups (d ∷ ds) e = omega arith

join-single :
    (cache : ℕ) (g : DedupGroup) (buffer : List Marked)
    → joins cache g buffer ≡ true
    → (length (buffer ++ (g, true) ∷ []) ≤ 1) ⊎ (fits cache (buffer ++ (g, true) ∷ []) ≡ true)
join-single cache g [] join = inl (omega arith)
join-single cache g (m ∷ ms) join =
    let total = sum_of-append (λ (x : Marked). sum x.0) (m ∷ ms) ((g, true) ∷ []) in
    let used = buffer_usage-append (m ∷ ms) (g, true) in inr (ground (arith, total, used, join))

join-Decides :
    (cache : ℕ) (g : DedupGroup) (rest : List DedupGroup) (buffer : List Marked)
    → IsFilling cache (g ∷ rest) buffer
    → is_empty g.dups ≡ false
    → joins cache g buffer ≡ true
    → Decides cache (g ∷ rest) buffer (again rest (buffer ++ (g, true) ∷ []))
unfolding Decides
join-Decides cache g rest buffer inv some_dup join =
    let long = some_dup_length g some_dup in
    (
      record {
        sized = inv.sized.1;
        live = All-append IsLive buffer ((g, true) ∷ []) inv.live ((inv.sized.0, long), tt);
        small = omega (arith, inv.small, sum_of-append marked_volume buffer ((g, true) ∷ []));
        single = join-single cache g buffer join;
      },
      omega (arith, long, sum_of-append buffer_weight buffer ((g, true) ∷ [])),
      ap (λ ws. ws ++ input_work rest) (buffer_work-append buffer g true)
          ∙ append_assoc (buffer_work buffer) (group_work g) (input_work rest),
    )

-- A round decides without a failed assertion.
fill_round-Decided :
    (cache : ℕ) (groups : List DedupGroup) (buffer : List Marked)
    → IsFilling cache groups buffer
    → Decided cache groups buffer (fill_round cache groups buffer)
unfolding fill_round Decides
fill_round-Decided cache [] [] inv = (leave, refl, inl (refl, refl))
fill_round-Decided cache [] (m ∷ ms) inv = settle-Decided cache [] m ms inv
fill_round-Decided cache (g ∷ rest) buffer inv = elim (Bool-cases (is_empty g.dups)) [
  | inl none_left ↦ (
    again rest buffer,
    rw none_left refl,
    skip-Decides cache g rest buffer inv (nil_of_empty g.dups none_left),
  )
  | inr some_dup ↦ elim (Bool-cases (joins cache g buffer)) [
    | inl join ↦ (
      again rest (buffer ++ (g, true) ∷ []),
      rw (some_dup, join) refl,
      join-Decides cache g rest buffer inv some_dup join,
    )
    | inr full ↦ rw (some_dup, full) (by_buffer buffer inv full)
  ]
]
  where
    nil_of_empty : (ds : List VfsId) → is_empty ds ≡ true → ds ≡ []
    nil_of_empty [] e = refl
    nil_of_empty (d ∷ ds) e = cc

    by_buffer :
        (ms : List Marked)
        → IsFilling cache (g ∷ rest) ms
        → joins cache g ms ≡ false
        → Decided cache (g ∷ rest) ms (settle cache (g ∷ rest) ms)
    by_buffer [] h e = cc
    by_buffer (m ∷ ms) h e = settle-Decided cache (g ∷ rest) m ms h

-- What the inner loop leaves: the rest of the input, and a batch if there was anything to do.
pub record Filled (cache : ℕ) (groups : List DedupGroup) (buffer : List Marked) (r : Outcome Queues)
    : Type 0 where
  pub out : Queues
  pub returns : r ≡ ok out
  pub sized : All IsSized out.groups
  pub small : sum_of volume out.groups < u64_mod
  pub batch :
      ((out.groups ≡ []) × (out.buffer ≡ [])) ⊎ ((0 < length out.buffer) × IsBatch cache out.buffer)
  pub work :
      buffer_work out.buffer ++ input_work out.groups ≡ buffer_work buffer ++ input_work groups
  pub lighter : load out.groups out.buffer ≤ load groups buffer
  pub starts : buffer ≡ [] → 0 < length groups → load out.groups out.buffer < load groups buffer

-- From queues without an empty range, an overflow or more than one group that is too large, the inner
-- loop ends if its fuel is more than their load, and no assertion fails. It leaves no work at all, or a
-- batch that fits the cache or is one pair of files; the work and its order are kept, and some of the
-- load is gone if it had anything to start from.
pub fill-Filled :
    (fuel cache : ℕ) (groups : List DedupGroup) (buffer : List Marked)
    → IsFilling cache groups buffer
    → load groups buffer < fuel
    → Filled cache groups buffer (fill fuel cache groups buffer)
unfolding fill Decides
fill-Filled zero cache groups buffer inv enough = absurd (omega arith)
fill-Filled (suc fuel) cache groups buffer inv enough =
    let (v, returns, decides) = fill_round-Decided cache groups buffer inv in
    rw returns (by_verdict (λ gs ms. fill-Filled fuel cache gs ms) v decides)
  where
    by_verdict :
        ((gs : List DedupGroup) (ms : List Marked)
          → IsFilling cache gs ms
          → load gs ms < fuel
          → Filled cache gs ms (fill fuel cache gs ms))
        → (v : Verdict) → Decides cache groups buffer v
        → Filled cache groups buffer (elim v [
          | leave ↦ ok (record { groups = groups; buffer = buffer })
          | again gs ms ↦ fill fuel cache gs ms
        ])
    by_verdict more leave d = record {
      out = record { groups = groups; buffer = buffer };
      returns = refl;
      sized = inv.sized;
      small = omega (arith, inv.small);
      batch = d;
      work = refl;
      lighter = omega arith;
      starts = λ no_buffer busy. elim d [
        | inl (no_groups, _) ↦ absurd (omega (arith, busy, ap length no_groups))
        | inr (some_buffer, _) ↦ absurd (omega (arith, some_buffer, ap length no_buffer))
      ];
    }
    by_verdict more (again gs ms) (inv', less, same) =
        let ih = more gs ms inv' (omega arith) in
        record {
          out = ih.out;
          returns = ih.returns;
          sized = ih.sized;
          small = ih.small;
          batch = ih.batch;
          work = ih.work ∙ same;
          lighter = omega (arith, less, ih.lighter);
          starts = λ no_buffer busy. omega (arith, less, ih.lighter);
        }
