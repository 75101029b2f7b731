-- ===== src/Readahead/Order.antt =====
-- What `next` of reapfrog hands out, and what it skips.
use dupion.Base.{
  suc, ◌≤◌, ◌<◌, ◌≡◌, refl, ap, ◌∙◌, inl, inr, Option, none, some, List, [], ◌∷◌, ◌++◌, Bool-cases,
  length, eq_nil_of_length, cons_of_length, sym, subst, Outcome, ok, arith,
}
use dupion.Readahead.{
  Readahead, Slot, ready, broken, Probe, Delivery, reader, io_error, ensure_open, advance, discard,
  front, next, prefetch_block,
}
use dupion.Readahead.Queue.{
  Content, file, failure, pending, queued, contents, Advanced, advance-Advanced, ensure_open-Keeps,
  ensure_open-true, ensure_open-false,
}

abbrev pub tail_of {ℓ} : {A : Type ℓ} → List A → List A
tail_of [] = []
tail_of (x ∷ xs) = xs

-- `next` on the deliveries that are pending: the content handed out, and what is pending then.
-- After an error the failed file is already gone from the queue.
abbrev pub Delivers :
    {U : Type 0} → List (Content U) → Option (Delivery U) → List (Content U) → Type 0
Delivers [] d after = (d ≡ none) × (after ≡ [])
Delivers (file u ∷ rest) d after = (d ≡ some (reader u)) × (after ≡ file u ∷ rest)
Delivers (failure e ∷ rest) d after = (d ≡ some (io_error e)) × (after ≡ rest)

module _ {U : Type 0} (probe : U → Probe) where
  -- What a call of `next` leaves and hands out.
  pub record Next (s : Readahead U) (r : Outcome (Readahead U × Option (Delivery U))) : Type 0 where
    pub out : Readahead U
    pub handed : Option (Delivery U)
    pub returns : r ≡ ok (out, handed)
    pub budget : out.budget ≡ s.budget
    pub kept : length (tail_of s.open_files) ≤ suc (length out.open_files)
    pub at_file : (u : U) → handed ≡ some (reader u) → 0 < length out.open_files
    pub delivers :
        prefetch_block ≤ s.budget
        → Delivers
            (queued probe (tail_of s.open_files) ++ contents probe s.source)
            handed
            (pending probe out)

  discard-pending :
      (s : Readahead U)
      → (pending probe (discard s.open_files s)
          ≡ queued probe (tail_of s.open_files) ++ contents probe s.source)
        × ((discard s.open_files s).source ≡ s.source)
        × ((discard s.open_files s).budget ≡ s.budget)
  unfolding discard
  discard-pending s = by_front s.open_files s refl
    where
      by_front :
          (xs : List (Slot U)) (t : Readahead U)
          → t.open_files ≡ xs
          → (pending probe (discard xs t) ≡ queued probe (tail_of xs) ++ contents probe t.source)
            × ((discard xs t).source ≡ t.source)
            × ((discard xs t).budget ≡ t.budget)
      by_front [] t e = (rw e refl, refl, refl)
      by_front (x ∷ xs) t e = (refl, refl, refl)

  tail-discard : (s : Readahead U) → (discard s.open_files s).open_files ≡ tail_of s.open_files
  unfolding discard
  tail-discard s = by_front s.open_files s refl
    where
      by_front :
          (xs : List (Slot U)) (t : Readahead U)
          → t.open_files ≡ xs
          → (discard xs t).open_files ≡ tail_of xs
      by_front [] t e = e
      by_front (x ∷ xs) t e = refl

  -- The last step of `next`, on a queue that is not empty.
  front-Delivers :
      (s : Readahead U) (x : Slot U) (xs : List (Slot U))
      → s.open_files ≡ x ∷ xs
      → (out : Readahead U) × (handed : Option (Delivery U)) × (front s ≡ ok (out, handed))
        × (out.budget ≡ s.budget)
        × ((length xs ≤ length out.open_files)
            × ((u : U) → handed ≡ some (reader u) → 0 < length out.open_files))
        × Delivers (pending probe s) handed (pending probe out)
  unfolding front
  front-Delivers s (ready p) xs e = (
    s,
    some (reader p.item),
    simp (e, front),
    refl,
    (rw e (omega arith), λ u h. rw e (omega arith)),
    rw e (refl, refl),
  )
  front-Delivers s (broken n) xs e = (
    record s { open_files = xs },
    some (io_error n),
    simp (e, front),
    refl,
    (omega arith, λ u h. cc),
    rw e (refl, refl),
  )

  at_end :
      (d : Readahead U) (a : Advanced probe d (advance probe d))
      → prefetch_block ≤ d.budget
      → length a.out.open_files ≤ 0
      → pending probe d ≡ []
  at_end d a h e =
      let out_empty = eq_nil_of_length a.out.open_files e in
      let empty = eq_nil_of_length d.open_files (omega (arith, a.keeps.grows)) in
      rw (empty, a.ended h empty out_empty)

  -- `next` returns, whatever the kernel answers, and keeps the budget. The front of the queue is
  -- dropped, whatever it was, and with a budget of a block what stands behind it is handed out.
  pub next-Next : (s : Readahead U) → Next s (next probe s)
  unfolding next
  next-Next s =
      let d = discard s.open_files s in
      let (same, source, budget) = discard-pending s in
      let a = advance-Advanced probe d in
      let opening = ensure_open probe 0 a.out in
      let k = ensure_open-Keeps probe 0 a.out in
      let all = k.same ∙ a.keeps.same ∙ same in
      elim (Bool-cases opening.1) [
        | inr stop ↦
            let none_open = ensure_open-false probe 0 a.out stop in
            rw (a.returns, stop)
              (record {
                out = opening.0;
                handed = none;
                returns = refl;
                budget = k.budget ∙ a.keeps.budget ∙ budget;
                kept = omega (arith, k.grows, a.keeps.grows, ap length (tail-discard s));
                at_file = λ u e. cc;
                delivers = λ h.
                    let ended = at_end d a (rw budget h) (omega arith) in
                    rw (sym same ∙ ended, k.same ∙ a.keeps.same ∙ ended) (refl, refl);
              })
        | inl go ↦
            let (x, xs, e) =
              cons_of_length opening.0.open_files
                (ensure_open-true probe 0 a.out (omega arith) go) in
            let (out, handed, returned, budget', left, delivered) =
              front-Delivers opening.0 x xs e in
            rw (a.returns, go, returned)
              (record {
                out = out;
                handed = handed;
                returns = refl;
                budget = budget' ∙ k.budget ∙ a.keeps.budget ∙ budget;
                kept = omega (
                  arith,
                  ap length e,
                  k.grows,
                  a.keeps.grows,
                  ap length (tail-discard s),
                  left.0,
                );
                at_file = left.1;
                delivers = λ h. subst (λ p. Delivers p handed (pending probe out)) all delivered;
              })
      ]
