-- ===== src/Readahead/Queue.antt =====
-- The queue of reapfrog against the source: what has been opened and what is still to come.
use dupion.Base.{
  ℕ, zero, suc, ◌+◌, ◌-◌, ◌/◌, ◌≤◌, ◌<◌, ◌≡◌, refl, sym, ap, ◌∙◌, inl, inr, Bool, true, false, ◌||◌,
  some, List, [], ◌∷◌, ◌++◌, map, append_assoc, length, get_elem?, set, ltb, leb, ◌==◌, Bool-cases,
  ==→≡, Outcome, ok, arith, length-set, length-append, get_elem?-lt, sum_of, u64_mod, ◌%◌,
  eq_nil_of_length,
}
use dupion.Readahead.{
  Readahead, Slot, ready, broken, Probe, take_in, is_ready, slot_of, add_files, add_file,
  ensure_open, max_open, prefetch_slot, prefetch_file, prefetch_block, advance_from, advance,
  old_position, prefetch_end, outstanding,
}

-- What a slot delivers: its file, or its error.
pub data Content (U : Type 0) : Type 0 where
  file : U → Content U
  failure : ℕ → Content U

abbrev pub content : {U : Type 0} → Slot U → Content U
content (ready p) = file p.item
content (broken e) = failure e

module _ {U : Type 0} (probe : U → Probe) where
  abbrev pub contents : List U → List (Content U)
  contents [] = []
  contents (p ∷ rest) = content (slot_of p (probe p)) ∷ contents rest

  abbrev pub queued : List (Slot U) → List (Content U)
  queued = map content

  -- Everything that is still to be delivered, in order.
  abbrev pub pending : Readahead U → List (Content U)
  pending s = queued s.open_files ++ contents s.source

  queued-append :
      (xs : List (Slot U)) (x : Slot U) → queued (xs ++ x ∷ []) ≡ queued xs ++ content x ∷ []
  queued-append [] x = refl
  queued-append (y ∷ ys) x = ap (λ t. content y ∷ t) (queued-append ys x)

  pending-take_in :
      (p : U) (rest : List U) (s : Readahead U)
      → pending (take_in p rest (probe p) s) ≡ pending (record s { source = p ∷ rest })
  pending-take_in p rest s =
      rw (queued-append s.open_files (slot_of p (probe p)))
        (append_assoc (queued s.open_files) (content (slot_of p (probe p)) ∷ []) (contents rest))

  -- What opening files keeps: everything that is to be delivered, and the settings.
  pub record Keeps (s out : Readahead U) : Type 0 where
    pub same : pending out ≡ pending s
    pub grows : length s.open_files ≤ length out.open_files
    pub budget : out.budget ≡ s.budget

  Keeps-trans : {s t u : Readahead U} → Keeps s t → Keeps t u → Keeps s u
  Keeps-trans h k = record {
    same = k.same ∙ h.same;
    grows = omega arith;
    budget = k.budget ∙ h.budget;
  }

  take_in-Keeps :
      (p : U) (rest : List U) (s : Readahead U)
      → Keeps (record s { source = p ∷ rest }) (take_in p rest (probe p) s)
  take_in-Keeps p rest s = record {
    same = pending-take_in p rest s;
    grows = omega (arith, length-append s.open_files (slot_of p (probe p) ∷ []));
    budget = refl;
  }

  add_files-Keeps :
      (rounds : ℕ) (src : List U) (s : Readahead U) (read : Bool)
      → Keeps
          (record s { source = src })
          (add_files probe rounds (record s { source = src }) read).0
  unfolding add_files
  add_files-Keeps zero src s read = record { same = refl; grows = omega arith; budget = refl }
  add_files-Keeps (suc rounds) [] s read = record {
    same = refl;
    grows = omega arith;
    budget = refl;
  }
  add_files-Keeps (suc rounds) (p ∷ rest) s read =
      Keeps-trans (take_in-Keeps p rest s)
        (add_files-Keeps rounds rest (take_in p rest (probe p) s) _)

  -- If it reports an opened file, the queue has grown.
  add_files-true :
      (rounds : ℕ) (src : List U) (s : Readahead U)
      → (add_files probe rounds (record s { source = src }) false).1 ≡ true
      → suc (length s.open_files)
        ≤ length (add_files probe rounds (record s { source = src }) false).0.open_files
  unfolding add_files
  add_files-true zero src s h = cc
  add_files-true (suc rounds) [] s h = cc
  add_files-true (suc rounds) (p ∷ rest) s h = omega (
    arith,
    length-append s.open_files (slot_of p (probe p) ∷ []),
    (add_files-Keeps rounds rest (take_in p rest (probe p) s)
        (false || is_ready (slot_of p (probe p)))).grows,
  )

  add_file-Keeps : (s : Readahead U) → Keeps s (add_file probe s).0
  unfolding add_file
  add_file-Keeps s = add_files-Keeps (max_open / 4) s.source s false

  pub ensure_open-Keeps : (i : ℕ) (s : Readahead U) → Keeps s (ensure_open probe i s).0
  unfolding ensure_open
  ensure_open-Keeps i s = elim (Bool-cases (i == length s.open_files)) [
    | inl e ↦ rw e (add_file-Keeps s)
    | inr e ↦ rw e (record { same = refl; grows = omega arith; budget = refl })
  ]

  -- Where it lets the loop go on there is a slot at `i`.
  pub ensure_open-true :
      (i : ℕ) (s : Readahead U)
      → i ≤ length s.open_files
      → (ensure_open probe i s).1 ≡ true
      → i < length (ensure_open probe i s).0.open_files
  unfolding ensure_open add_file
  ensure_open-true i s le h = elim (Bool-cases (i == length s.open_files)) [
    | inl e ↦
        let at_end = ==→≡ i (length s.open_files) e in
        rw e (omega (arith, add_files-true (max_open / 4) s.source s (rw e at h)))
    | inr e ↦ rw e (ground arith)
  ]

  -- It stops the loop only on an empty rest of the queue.
  pub ensure_open-false :
      (i : ℕ) (s : Readahead U) → (ensure_open probe i s).1 ≡ false → length s.open_files ≡ i
  unfolding ensure_open
  ensure_open-false i s h = elim (Bool-cases (i == length s.open_files)) [
    | inl e ↦ sym (==→≡ i (length s.open_files) e)
    | inr e ↦ let h' : true ≡ false = rw e at h in cc
  ]

  add_files_empty :
      (rounds : ℕ) (src : List U) (s : Readahead U)
      → (add_files probe (suc rounds) (record s { source = src }) false).0.open_files ≡ []
      → src ≡ []
  unfolding add_files
  add_files_empty rounds [] s h = refl
  add_files_empty rounds (p ∷ rest) s h = absurd (
      omega (
        arith,
        ap length h,
        length-append s.open_files (slot_of p (probe p) ∷ []),
        (add_files-Keeps rounds rest (take_in p rest (probe p) s)
            (false || is_ready (slot_of p (probe p)))).grows,
      ))

  -- An empty queue stays empty only at the end of the source.
  pub ensure_open_empty :
      (s : Readahead U) → (ensure_open probe 0 s).0.open_files ≡ [] → s.source ≡ []
  unfolding ensure_open add_file
  ensure_open_empty s h = ground (arith, add_files_empty 127 s.source s, ap length h)

  -- How `advance` leaves the queue, from index `i`: it returns, delivers what was pending, and with
  -- enough budget it has looked for a file at `i`.
  pub record Advances (i budget : ℕ) (s : Readahead U) (r : Outcome (Readahead U)) : Type 0 where
    pub out : Readahead U
    pub returns : r ≡ ok out
    pub keeps : Keeps s out
    pub looked :
        prefetch_block ≤ budget
        → length (ensure_open probe i s).0.open_files ≤ length out.open_files

  queued-set :
      (xs : List (Slot U)) (i : ℕ) (x y : Slot U)
      → get_elem? xs i ≡ some x
      → content y ≡ content x
      → queued (set xs i y) ≡ queued xs
  queued-set [] i x y e c = refl
  queued-set (z ∷ xs) zero x y e c = ground arith
  queued-set (z ∷ xs) (suc i) x y e c = ap (λ t. content z ∷ t) (queued-set xs i x y e c)

  prefetch_slot-Keeps :
      (i budget : ℕ) (slot : Slot U) (s : Readahead U)
      → get_elem? s.open_files i ≡ some slot
      → Keeps s (prefetch_slot i budget slot s).0
  unfolding prefetch_file
  prefetch_slot-Keeps i budget (broken e) s h = record {
    same = refl;
    grows = omega arith;
    budget = refl;
  }
  prefetch_slot-Keeps i budget (ready p) s h =
      let new_pos = prefetch_end budget (old_position p) p.size in
      let p' : Slot U = ready (record p { prefetch_pos = new_pos }) in
      elim (Bool-cases (leb p.size (old_position p))) [
        | inl e ↦ rw e (record { same = refl; grows = omega arith; budget = refl })
        | inr e ↦ rw e (record {
          same = ap (λ t. t ++ contents s.source) (queued-set s.open_files i (ready p) p' h refl);
          grows = omega (arith, length-set s.open_files i p');
          budget = refl;
        })
      ]

  pub advance_from-Advances :
      (fuel i budget : ℕ) (s : Readahead U)
      → max_open + 2 ≤ fuel + i
      → i ≤ max_open + 1
      → i ≤ length s.open_files
      → Advances i budget s (advance_from probe fuel i budget s)
  unfolding advance_from
  advance_from-Advances zero i budget s enough low le = absurd (omega arith)
  advance_from-Advances (suc fuel) i budget s enough low le =
      let opening = ensure_open probe i s in
      let kept = ensure_open-Keeps i s in
      elim (Bool-cases (ltb budget prefetch_block)) [
        | inl poor ↦ rw poor (record {
          out = s;
          returns = refl;
          keeps = record { same = refl; grows = omega arith; budget = refl };
          looked = λ h. ground arith;
        })
        | inr rich ↦ elim (Bool-cases opening.1) [
          | inr stop ↦
              rw (rich, stop)
                (record {
                  out = opening.0;
                  returns = refl;
                  keeps = kept;
                  looked = λ h. omega arith;
                })
          | inl go ↦ elim (Bool-cases (ltb max_open i)) [
            | inl full ↦
                rw (rich, go, full)
                  (record {
                    out = opening.0;
                    returns = refl;
                    keeps = kept;
                    looked = λ h. omega arith;
                  })
            | inr room ↦
                let (slot, found) =
                  get_elem?-lt opening.0.open_files i (ensure_open-true i s le go) in
                let done = prefetch_slot i budget slot opening.0 in
                let kept' = prefetch_slot-Keeps i budget slot opening.0 found in
                let ih =
                  advance_from-Advances fuel (i + 1) done.1 done.0 (omega arith) (ground arith)
                    (omega (arith, ensure_open-true i s le go)) in
                rw (rich, go, room, found)
                  (record {
                    out = ih.out;
                    returns = ih.returns;
                    keeps = Keeps-trans kept (Keeps-trans kept' ih.keeps);
                    looked = λ h. omega (arith, kept'.grows, ih.keeps.grows);
                  })
          ]
        ]
      ]

  -- `advance` returns, keeps what is pending, and with enough budget an empty queue means the end
  -- of the source.
  pub record Advanced (s : Readahead U) (r : Outcome (Readahead U)) : Type 0 where
    pub out : Readahead U
    pub returns : r ≡ ok out
    pub keeps : Keeps s out
    pub ended : prefetch_block ≤ s.budget → s.open_files ≡ [] → out.open_files ≡ [] → s.source ≡ []

  pub advance-Advanced : (s : Readahead U) → Advanced s (advance probe s)
  unfolding advance
  advance-Advanced s =
      let consumed = sum_of outstanding s.open_files % u64_mod in
      let budget = s.budget - consumed in
      let nothing : s.open_files ≡ [] → consumed ≡ 0 =
        λ e. ap (λ xs. sum_of outstanding xs % u64_mod) e in
      elim (Bool-cases (ltb budget consumed)) [
        | inl poor ↦ rw poor (record {
          out = s;
          returns = refl;
          keeps = record { same = refl; grows = omega arith; budget = refl };
          ended = λ rich e _. absurd (ground (arith, nothing e));
        })
        | inr rich ↦
            let run =
              advance_from-Advances (max_open + 2) 0 budget s (omega arith) (omega arith)
                (omega arith) in
            rw rich (record {
              out = run.out;
              returns = run.returns;
              keeps = run.keeps;
              ended = λ h e stays.
                  let found = run.looked (omega (arith, nothing e)) in
                  ensure_open_empty s (
                    eq_nil_of_length (ensure_open probe 0 s).0.open_files
                      (omega (arith, ap length stays)));
            })
      ]
