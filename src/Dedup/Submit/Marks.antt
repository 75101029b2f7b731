-- ===== src/Dedup/Submit/Marks.antt =====
-- What `dedup_group_batch` does to the tree: it marks files as deduplicated, and no more.
use dupion.Base.{
  ℕ, ◌≡◌, refl, sym, ap, subst, ◌∙◌, inl, inr, Bool, true, false, ◌||◌, Bool-cases, some, List, [],
  ◌∷◌, get_elem?, set, get_elem?-set_self, get_elem?-set_ne, lt-get_elem?, ◌==◌, ==_iff,
  if◌then◌else◌, All, Outcome, ok, add64,
}
use dupion.Vfs.{VfsId, VfsEntry, update}
use dupion.State.{State, Counters, modify}
use dupion.Dedup.Submit.{
  DedupeRangeStatus, same, differs, DedupeRangeDestInfo, mark_deduped, record_status, mark_infos,
  with_disp,
}

-- `t` is `s` with the entries marked that `m` tells, and other counters.
pub record MarkedBy (m : VfsId → Bool) (s t : State) : Type 0 where
  pub sizes : t.sizes ≡ s.sizes
  pub hashes : t.hashes ≡ s.hashes
  pub cache_allowed : t.cache_allowed ≡ s.cache_allowed
  pub kept :
      (id : VfsId) (e : VfsEntry)
      → get_elem? s.tree.entries id ≡ some e
      → get_elem? t.tree.entries id ≡ some (if m id then mark_deduped e else e)

abbrev pub IsKnown : State → VfsId → Type 0
IsKnown s id = (e : VfsEntry) × (get_elem? s.tree.entries id ≡ some e)

abbrev pub either : (VfsId → Bool) → (VfsId → Bool) → VfsId → Bool
either a b id = a id || b id

abbrev pub no_file : VfsId → Bool
no_file id = false

mark_twice :
    (a b : Bool) (e : VfsEntry)
    → (if b
        then mark_deduped (if a then mark_deduped e else e)
        else (if a then mark_deduped e else e))
      ≡ (if a || b then mark_deduped e else e)
mark_twice true true e = refl
mark_twice true false e = refl
mark_twice false b e = refl

pub MarkedBy-refl : (s : State) (c : Counters) → MarkedBy no_file s (with_disp s c)
MarkedBy-refl s c = record { sizes = refl; hashes = refl; cache_allowed = refl; kept = λ id e h. h }

-- The counters do not matter.
pub MarkedBy-disp :
    {m : VfsId → Bool} {s t : State} {c : Counters} → MarkedBy m s t → MarkedBy m s (with_disp t c)
MarkedBy-disp x = record {
  sizes = x.sizes;
  hashes = x.hashes;
  cache_allowed = x.cache_allowed;
  kept = x.kept;
}

pub MarkedBy-start :
    {m : VfsId → Bool} {s t : State} {c : Counters} → MarkedBy m (with_disp s c) t → MarkedBy m s t
MarkedBy-start x = record {
  sizes = x.sizes;
  hashes = x.hashes;
  cache_allowed = x.cache_allowed;
  kept = x.kept;
}

pub MarkedBy-trans :
    {a b : VfsId → Bool} {s t u : State}
    → MarkedBy a s t
    → MarkedBy b t u
    → MarkedBy (either a b) s u
MarkedBy-trans {a} {b} x y = record {
  sizes = y.sizes ∙ x.sizes;
  hashes = y.hashes ∙ x.hashes;
  cache_allowed = y.cache_allowed ∙ x.cache_allowed;
  kept = λ id e h.
      y.kept id (if a id then mark_deduped e else e) (x.kept id e h)
      ∙ ap some (mark_twice (a id) (b id) e);
}

pub IsKnown-MarkedBy :
    {m : VfsId → Bool} {s t : State} (id : VfsId) → MarkedBy m s t → IsKnown s id → IsKnown t id
IsKnown-MarkedBy {m} id x (e, found) = (if m id then mark_deduped e else e, x.kept id e found)

pub All-IsKnown-MarkedBy :
    {m : VfsId → Bool} {s t : State} (ids : List VfsId)
    → MarkedBy m s t
    → All (IsKnown s) ids
    → All (IsKnown t) ids
All-IsKnown-MarkedBy [] x h = tt
All-IsKnown-MarkedBy (id ∷ ids) x h = (IsKnown-MarkedBy id x h.0, All-IsKnown-MarkedBy ids x h.1)

-- A step that returns, and the marks it sets.
pub record Marks (m : VfsId → Bool) (s : State) (r : Outcome State) : Type 0 where
  pub out : State
  pub returns : r ≡ ok out
  pub marked : MarkedBy m s out
  pub disp : out.disp ≡ s.disp

abbrev pub marks_one : VfsId → DedupeRangeStatus → VfsId → Bool
marks_one id same j = id == j
marks_one id differs j = false

pub record_status-Marks :
    (id : VfsId) (status : DedupeRangeStatus) (s : State)
    → IsKnown s id
    → Marks (marks_one id status) s (record_status id status s)
unfolding modify update
record_status-Marks id differs s (e, found) = record {
  out = s;
  returns = rw found refl;
  marked = MarkedBy-refl s s.disp;
  disp = refl;
}
record_status-Marks id same s (e, found) = record {
  out = record s { tree = record { entries = set s.tree.entries id (mark_deduped e) } };
  returns = rw found refl;
  marked = record {
    sizes = refl;
    hashes = refl;
    cache_allowed = refl;
    kept = λ j x h. elim (Bool-cases (id == j)) [
      | inl here ↦
          let it : some x ≡ some e =
            sym h ∙ ap (get_elem? s.tree.entries) (sym ((==_iff id j).0 here)) ∙ found in
          let x_e : x ≡ e = cc in
          rw here (
            subst
              (λ k. get_elem? (set s.tree.entries id (mark_deduped e)) k ≡ some (mark_deduped x))
              ((==_iff id j).0 here)
              (get_elem?-set_self s.tree.entries id (mark_deduped e)
                  (lt-get_elem? s.tree.entries id found)
                ∙ ap (λ y. some (mark_deduped y)) (sym x_e)))
      | inr there ↦ rw there (
          get_elem?-set_ne s.tree.entries (mark_deduped e)
            (λ same_id. let yes : (id == j) ≡ true = (==_iff id j).1 same_id in cc)
          ∙ h)
    ];
  };
  disp = refl;
}

-- Which files an answer marks, each file by the status that stands at its place.
abbrev pub marked_in : List DedupeRangeDestInfo → List VfsId → VfsId → Bool
marked_in [] ids = no_file
marked_in (i ∷ is) [] = no_file
marked_in (i ∷ is) (id ∷ ids) = either (marks_one id i.status) (marked_in is ids)

abbrev pub bytes_in : List DedupeRangeDestInfo → List VfsId → ℕ → ℕ
bytes_in [] ids n = n
bytes_in (i ∷ is) [] n = n
bytes_in (i ∷ is) (id ∷ ids) n = bytes_in is ids (add64 n i.bytes_deduped)

-- A loop over files that returns, with the marks it sets and the bytes it counts.
pub record MarksAll (m : VfsId → Bool) (bytes : ℕ) (s : State) (r : Outcome (State × ℕ))
    : Type 0 where
  pub out : State
  pub returns : r ≡ ok (out, bytes)
  pub marked : MarkedBy m s out
  pub disp : out.disp ≡ s.disp

pub mark_infos-MarksAll :
    (is : List DedupeRangeDestInfo) (ids : List VfsId) (n : ℕ) (s : State)
    → All (IsKnown s) ids
    → MarksAll (marked_in is ids) (bytes_in is ids n) s (mark_infos is ids n s)
unfolding mark_infos
mark_infos-MarksAll [] ids n s h = record {
  out = s;
  returns = refl;
  marked = MarkedBy-refl s s.disp;
  disp = refl;
}
mark_infos-MarksAll (i ∷ is) [] n s h = record {
  out = s;
  returns = refl;
  marked = MarkedBy-refl s s.disp;
  disp = refl;
}
mark_infos-MarksAll (i ∷ is) (id ∷ ids) n s h =
    let first = record_status-Marks id i.status s h.0 in
    let rest =
      mark_infos-MarksAll is ids (add64 n i.bytes_deduped) first.out
        (All-IsKnown-MarkedBy ids first.marked h.1) in
    record {
      out = rest.out;
      returns = rw first.returns rest.returns;
      marked = MarkedBy-trans first.marked rest.marked;
      disp = rest.disp ∙ first.disp;
    }
