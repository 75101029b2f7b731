-- ===== src/Readahead/Bounds.antt =====
-- How far reapfrog reads ahead: the hints stay inside the files, and within the budget up to one
-- block.
use dupion.Base.{
  ℕ, zero, suc, ◌+◌, ◌-◌, ◌/◌, ◌%◌, ◌≤◌, ◌<◌, ◌≡◌, refl, ◌⊎◌, inl, inr, Bool, false, ◌||◌, ltb, leb,
  some, if◌then◌else◌, subst, err, List, [], ◌∷◌, ◌++◌, All, All-append, length, get_elem?, set,
  Bool-cases, Outcome, ok, arith, u64_mod, ◌==◌, Option-cases, sum_of,
}
use dupion.Readahead.Queue.{advance-Advanced}
use dupion.Readahead.{
  Readahead, Slot, ready, broken, Probe, opened, refused, Advice, sequential, will_need, dont_need,
  prefetch_block, prefetch_end, old_position, add_files, add_file, ensure_open, prefetch_file,
  prefetch_slot, advance_from, advance, take_in, slot_of, max_open, outstanding, is_ready,
}

-- From a position inside a file that ends a block before the largest offset, with a budget of a
-- block or more: a hint ends inside the file, past the position by at least a byte, at a block's
-- end or the file's, and less than a block over the budget.
pub prefetch_end_bounds :
    (budget old_pos size : ℕ)
    → old_pos < size
    → prefetch_block ≤ budget
    → size + prefetch_block < u64_mod
    → (old_pos < prefetch_end budget old_pos size)
      × (prefetch_end budget old_pos size ≤ size)
      × ((prefetch_end budget old_pos size ≡ size)
          ⊎ (prefetch_end budget old_pos size % prefetch_block ≡ 0))
      × (prefetch_end budget old_pos size < old_pos + budget + prefetch_block)
unfolding prefetch_end
prefetch_end_bounds budget old_pos size inside rich small =
    (omega arith, omega arith, omega arith, omega arith)

-- A file position is safe if it lies in the file, and the file is no longer than `off_t` allows.
abbrev pub IsSafe : {U : Type 0} → Slot U → Type 0
IsSafe (ready p) = (p.prefetch_pos ≤ p.size) × (p.size + prefetch_block < u64_mod)
IsSafe (broken e) = Unit {0}

-- The bytes that the kernel was asked to read.
abbrev pub asked : {U : Type 0} → Advice U → ℕ
asked (sequential u) = 0
asked (will_need u offset len) = len
asked (dont_need u offset len) = 0

abbrev pub advised : {U : Type 0} → List (Advice U) → ℕ
advised = sum_of asked

advised-append :
    {U : Type 0} (xs ys : List (Advice U)) → advised (xs ++ ys) ≡ advised xs + advised ys
advised-append [] ys = omega arith
advised-append (x ∷ xs) ys = omega (arith, advised-append xs ys)

All-set :
    {U : Type 0} (xs : List (Slot U)) (i : ℕ) (x : Slot U)
    → All IsSafe xs
    → IsSafe x
    → All IsSafe (set xs i x)
All-set [] i x h hx = tt
All-set (y ∷ xs) zero x h hx = (hx, h.1)
All-set (y ∷ xs) (suc i) x h hx = (h.0, All-set xs i x h.1 hx)

All-get_elem? :
    {U : Type 0} (xs : List (Slot U)) (i : ℕ) (x : Slot U)
    → All IsSafe xs
    → get_elem? xs i ≡ some x
    → IsSafe x
All-get_elem? [] i x h e = cc
All-get_elem? (y ∷ xs) zero x h e = let e' : y ≡ x = cc in subst IsSafe e' h.0
All-get_elem? (y ∷ xs) (suc i) x h e = All-get_elem? xs i x h.1 e

-- From `s`, at most `b` more bytes were asked for, and every position is safe.
pub record Within {U : Type 0} (b : ℕ) (s out : Readahead U) : Type 0 where
  pub safe : All IsSafe out.open_files
  pub asked_for : advised out.log ≤ advised s.log + b

abbrev HoldsOk : {A : Type 0} → (A → Type 0) → Outcome A → Type 0
HoldsOk P (ok a) = P a
HoldsOk P (err e) = Unit {0}

-- What one run of the loop may ask for.
abbrev allowance : ℕ → ℕ
allowance budget = if ltb budget prefetch_block then 0 else budget + prefetch_block

HoldsOk-map :
    {A : Type 0} {P Q : A → Type 0}
    → ((a : A) → P a → Q a)
    → (r : Outcome A) → HoldsOk P r
    → HoldsOk Q r
HoldsOk-map f (ok a) h = f a h
HoldsOk-map f (err e) h = tt

spent :
    (budget old end before after : ℕ)
    → prefetch_block ≤ budget
    → old < end
    → end < old + budget + prefetch_block
    → after ≡ before + (end - old + 0)
    → after + allowance (budget - (end - old)) ≤ before + budget + prefetch_block
spent budget old end before after rich inside near e = ground arith

module _ {U : Type 0} (probe : U → Probe) where
  abbrev pub SmallFiles : Type 0
  SmallFiles = (u : U) (len : ℕ) → probe u ≡ opened len → len + prefetch_block < u64_mod

  module _ (small : SmallFiles) where
    take_in-Within :
        (p : U) (rest : List U) (s : Readahead U)
        → All IsSafe s.open_files
        → Within 0 s (take_in p rest (probe p) s)
    take_in-Within p rest s safe = by_answer (probe p) refl
      where
        by_answer : (a : Probe) → probe p ≡ a → Within 0 s (take_in p rest a s)
        by_answer (opened len) e = record {
          safe = All-append IsSafe s.open_files _ safe ((omega arith, small p len e), tt);
          asked_for = omega (arith, advised-append s.log (sequential p ∷ []));
        }
        by_answer (refused n) e = record {
          safe = All-append IsSafe s.open_files _ safe (tt, tt);
          asked_for = omega (arith, advised-append s.log []);
        }

    add_files-Within :
        (rounds : ℕ) (src : List U) (s : Readahead U) (read : Bool)
        → All IsSafe s.open_files
        → Within 0 s (add_files probe rounds (record s { source = src }) read).0
    unfolding add_files
    add_files-Within zero src s read safe = record { safe = safe; asked_for = omega arith }
    add_files-Within (suc rounds) [] s read safe = record { safe = safe; asked_for = omega arith }
    add_files-Within (suc rounds) (p ∷ rest) s read safe =
        let one = take_in-Within p rest s safe in
        let more =
          add_files-Within rounds rest (take_in p rest (probe p) s)
            (read || is_ready (slot_of p (probe p))) one.safe in
        record { safe = more.safe; asked_for = omega (arith, one.asked_for, more.asked_for) }

    ensure_open-Within :
        (i : ℕ) (s : Readahead U) → All IsSafe s.open_files → Within 0 s (ensure_open probe i s).0
    unfolding ensure_open add_file
    ensure_open-Within i s safe = elim (Bool-cases (i == length s.open_files)) [
      | inl e ↦ rw e (add_files-Within (max_open / 4) s.source s false safe)
      | inr e ↦ rw e (record { safe = safe; asked_for = omega arith })
    ]

    -- One hint: what it asks for is taken off the budget, or uses it up and ends the loop.
    prefetch_slot-Within :
        (i budget : ℕ) (slot : Slot U) (s : Readahead U)
        → prefetch_block ≤ budget
        → All IsSafe s.open_files
        → IsSafe slot
        → let (t, left) = prefetch_slot i budget slot s in
          All IsSafe t.open_files
          × (advised t.log + allowance left ≤ advised s.log + budget + prefetch_block)
    unfolding prefetch_file
    prefetch_slot-Within i budget (broken e) s rich safe one = (safe, ground arith)
    prefetch_slot-Within i budget (ready p) s rich safe one =
        let old = old_position p in
        let end = prefetch_end budget old p.size in
        elim (Bool-cases (leb p.size old)) [
          | inl e ↦ rw e (safe, ground arith)
          | inr e ↦
              let b = prefetch_end_bounds budget old p.size (ground arith) rich one.1 in
              rw e (
                All-set s.open_files i (ready (record p { prefetch_pos = end })) safe (b.1, one.1),
                spent budget old end (advised s.log) _ rich b.0 b.3
                    (advised-append s.log (will_need p.item old (end - old) ∷ [])),
              )
        ]

    advance_from-Within :
        (fuel i budget : ℕ) (s : Readahead U)
        → All IsSafe s.open_files
        → HoldsOk (Within (allowance budget) s) (advance_from probe fuel i budget s)
    unfolding advance_from
    advance_from-Within zero i budget s safe = tt
    advance_from-Within (suc fuel) i budget s safe =
        let opening = ensure_open probe i s in
        let w = ensure_open-Within i s safe in
        let stays : Within (allowance budget) s opening.0 = record {
          safe = w.safe;
          asked_for = omega (arith, w.asked_for);
        } in
        elim (Bool-cases (ltb budget prefetch_block)) [
          | inl poor ↦ rw poor (record { safe = safe; asked_for = omega arith })
          | inr rich ↦ elim (Bool-cases opening.1) [
            | inr stop ↦
                rw (rich, stop) (record { safe = w.safe; asked_for = omega (arith, w.asked_for) })
            | inl go ↦ elim (Bool-cases (ltb max_open i)) [
              | inl full ↦
                  rw (rich, go, full)
                    (record { safe = w.safe; asked_for = omega (arith, w.asked_for) })
              | inr room ↦ elim (Option-cases (get_elem? opening.0.open_files i)) [
                | inl missing ↦ rw (rich, go, room, missing) tt
                | inr (slot, found) ↦
                    let (t, left) = prefetch_slot i budget slot opening.0 in
                    let one =
                      prefetch_slot-Within i budget slot opening.0 (ground arith) w.safe
                        (All-get_elem? opening.0.open_files i slot w.safe found) in
                    rw (rich, go, room, found)
                      (HoldsOk-map {Q = Within (budget + prefetch_block) s}
                        (λ out more. record {
                          safe = more.safe;
                          asked_for = omega (arith, w.asked_for, one.1, more.asked_for);
                        })
                        _ (advance_from-Within fuel (i + 1) left t one.0))
              ]
            ]
          ]
        ]

    advance-HoldsOk :
        (s : Readahead U)
        → All IsSafe s.open_files
        → HoldsOk (Within (s.budget + prefetch_block) s) (advance probe s)
    unfolding advance
    advance-HoldsOk s safe =
        let consumed = sum_of outstanding s.open_files % u64_mod in
        let budget = s.budget - consumed in
        elim (Bool-cases (ltb budget consumed)) [
          | inl poor ↦ rw poor (record { safe = safe; asked_for = omega arith })
          | inr rich ↦ rw rich (
              HoldsOk-map {P = Within (allowance budget) s}
                {Q = Within (s.budget + prefetch_block) s}
                (λ out w. record { safe = w.safe; asked_for = ground (arith, w.asked_for) })
                (advance_from probe (max_open + 2) 0 budget s)
                (advance_from-Within (max_open + 2) 0 budget s safe))
        ]

    -- If every prefetch position is inside its file, and no file comes within a block of the largest
    -- offset, `advance` returns, keeps it so, and asks the kernel for at most the budget and a block.
    pub advance-Within :
        (s : Readahead U)
        → All IsSafe s.open_files
        → (out : Readahead U) × (advance probe s ≡ ok out)
          × Within (s.budget + prefetch_block) s out
    advance-Within s safe =
        let a = advance-Advanced probe s in
        (
          a.out,
          a.returns,
          subst (HoldsOk (Within (s.budget + prefetch_block) s)) a.returns (advance-HoldsOk s safe),
        )
