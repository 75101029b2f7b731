-- ===== src/Driver/Filter/Wanted.antt =====
-- Which files the filter of `hash_files` takes, and that counting the ones it took makes no difference.
use dupion.Base.{
  ℕ, ◌≡◌, ◌≤◌, ◌⊎◌, refl, sym, ap, ◌∙◌, subst, inl, inr, Bool, true, false, not, ◌&&◌, ◌||◌, Option,
  some, is_some, List, [], ◌∷◌, get_elem?, Bool-cases, Outcome, ok, unwrap, >>=-ok, add64, All,
  ℕ_discrete, arith,
}
use dupion.FilePath.{FilePath}
use dupion.Opts.{Opts, zip_by_extension}
use dupion.Vfs.{VfsEntry, VfsId, Hash}
use dupion.State.{State, disp_add_relevant, is_file_read_candidate, more_than_one_size}
use dupion.State.Sound.{modify_lem, with_entry, with_entry_found, with_entry_other}
use dupion.Driver.Size.{IsListed}

-- Whether a file is read: one that may be an archive, if it has no hash or has not been found to be an
-- archive; any other, if it has no hash and shares its size, which is within the bounds.
abbrev pub IsMissing : Bool → Opts → Option Hash → Bool → Bool → ℕ → Type 0
IsMissing true opts hash is_dir shares size = (is_some hash ≡ false) ⊎ (is_dir ≡ false)
IsMissing false opts hash is_dir shares size =
    (is_some hash ≡ false)
    × (shares ≡ true)
    × (opts.scan_size_min ≤ size)
    × (size ≤ opts.scan_size_max)

abbrev pub IsWanted : State → Opts → VfsEntry → ℕ → Type 0
IsWanted s opts e size =
    (e.is_file ≡ true)
    × IsMissing (zip_by_extension opts e.path) opts e.file_hash e.is_dir (more_than_one_size s size)
        size

-- A test that returns, and decides `P`.
abbrev pub Decides : Outcome Bool → Type 0 → Type 0
Decides r P = (b : Bool) × (r ≡ ok b) × ((b ≡ true) × P ⊎ (b ≡ false) × ¬ P)

decides : (P : Type 0) (b : Bool) → (b ≡ true → P) → (P → b ≡ true) → Decides (ok b) P
decides P true to from = (true, refl, inl (refl, to refl))
decides P false to from = (false, refl, inr (refl, λ p. let bad = from p in cc))

archive_read :
    (hash file dir : Bool)
    → (not hash && file || file && not dir) ≡ true
    → (file ≡ true) × ((hash ≡ false) ⊎ (dir ≡ false))
archive_read false true dir h = (refl, inl refl)
archive_read hash true false h = (refl, inr refl)
archive_read true true true h = cc
archive_read true false dir h = cc
archive_read false false dir h = cc

archive_wanted :
    (hash file dir : Bool)
    → (file ≡ true) × ((hash ≡ false) ⊎ (dir ≡ false))
    → (not hash && file || file && not dir) ≡ true
archive_wanted hash file dir (is_file, inl no_hash) = ground (arith, is_file, no_hash)
archive_wanted hash file dir (is_file, inr no_dir) = ground (arith, is_file, no_dir)

pub is_file_read_candidate-Decides :
    (s : State) (id : VfsId) (opts : Opts) (e : VfsEntry) (size : ℕ)
    → get_elem? s.tree.entries id ≡ some e
    → e.file_size ≡ some size
    → Decides (is_file_read_candidate s id opts) (IsWanted s opts e size)
unfolding is_file_read_candidate
is_file_read_candidate-Decides s id opts e size found known =
    elim (Bool-cases (zip_by_extension opts e.path)) [
      | inl zip ↦
          rw (found, zip)
            (decides _ (not (is_some e.file_hash) && e.is_file || e.is_file && not e.is_dir)
              (λ h. archive_read (is_some e.file_hash) e.is_file e.is_dir h)
              (λ p. archive_wanted (is_some e.file_hash) e.is_file e.is_dir p))
      | inr plain ↦
          rw (found, plain, known) (decides _ _ (λ h. ground (arith, h)) (λ p. ground (arith, p)))
    ]

-- Nothing is another but the counters, and which entries have been counted.
pub record Counted (s t : State) : Type 0 where
  pub others : t ≡ record s { tree = t.tree; disp = t.disp }
  pub kept :
      (j : VfsId) (e : VfsEntry)
      → get_elem? s.tree.entries j ≡ some e
      → (e' : VfsEntry) × (get_elem? t.tree.entries j ≡ some e')
        × (e' ≡ record e { disp_relevated = e'.disp_relevated })

pub Counted-refl : (s : State) → Counted s s
Counted-refl s = record { others = refl; kept = λ j e found. (e, found, refl) }

pub Counted-trans : {s t u : State} → Counted s t → Counted t u → Counted s u
Counted-trans {s} {t} {u} x y = record {
  others = y.others ∙ ap (λ (w : State). record w { tree = u.tree; disp = u.disp }) x.others;
  kept = λ j e found.
      let (e', found', same) = x.kept j e found in
      let (e'', found'', same') = y.kept j e' found' in
      (
        e'',
        found'',
        same' ∙ ap (λ (w : VfsEntry). record w { disp_relevated = e''.disp_relevated }) same,
      );
}

abbrev relevated : VfsEntry → VfsEntry
relevated e = record e { disp_relevated = true }

with_entry-Counted :
    (s : State) (id : VfsId) (e : VfsEntry)
    → get_elem? s.tree.entries id ≡ some e
    → Counted s (with_entry s id (relevated e))
with_entry-Counted s id e found = record {
  others = refl;
  kept = λ j y there. elim (ℕ_discrete id j) [
    | yes same ↦
        let found_j : get_elem? s.tree.entries j ≡ some e =
          subst (λ i. get_elem? s.tree.entries i ≡ some e) same found in
        let it : some e ≡ some y = sym found_j ∙ there in
        let e_y : e ≡ y = cc in
        (
          relevated e,
          subst (λ i. get_elem? (with_entry s id (relevated e)).tree.entries i ≡ some (relevated e))
              same (with_entry_found s id e (relevated e) found),
          ap relevated e_y,
        )
    | no apart ↦ (y, with_entry_other s id j (relevated e) apart ∙ there, refl)
  ];
}

pub disp_add_relevant-Counted :
    (s : State) (id : VfsId) (e : VfsEntry) (size : ℕ)
    → get_elem? s.tree.entries id ≡ some e
    → e.file_size ≡ some size
    → (t : State) × (disp_add_relevant s id ≡ ok t) × Counted s t
unfolding disp_add_relevant
disp_add_relevant-Counted s id e size found known =
    elim (Bool-cases (not e.disp_relevated && not (is_some e.file_hash))) [
      | inr counted ↦ (s, >>=-ok _ (ap unwrap found) (rw counted refl), Counted-refl s)
      | inl fresh ↦
          let t = with_entry s id (relevated e) in
          let x = with_entry-Counted s id e found in
          (
            record t {
              disp = record (t.disp) {
                relevant_bytes = add64 t.disp.relevant_bytes size;
                relevant_files = add64 t.disp.relevant_files 1;
              };
            },
            >>=-ok _ (ap unwrap found) (
                rw fresh
                  (>>=-ok _ (ap unwrap known) (>>=-ok _ (modify_lem s id e relevated found) refl))),
            record { others = refl; kept = x.kept },
          )
    ]

IsWanted-Counted :
    (s t : State) (opts : Opts) (e e' : VfsEntry) (size : ℕ)
    → Counted s t
    → e' ≡ record e { disp_relevated = e'.disp_relevated }
    → IsWanted t opts e' size ≡ IsWanted s opts e size
unfolding more_than_one_size
IsWanted-Counted s t opts e e' size x same =
    ap (λ y. IsWanted t opts y size) same ∙ ap (λ u. IsWanted u opts e size) x.others

-- The files that are wanted, in order, each with its path.
unfoldable pub Takes : State → Opts → List VfsId → List (VfsId × FilePath) → Type 0
Takes s opts [] taken = taken ≡ []
Takes s opts (id ∷ ids) taken =
    (e : VfsEntry) × (size : ℕ) × (rest : List (VfsId × FilePath)) × (get_elem? s.tree.entries id
      ≡ some e)
    × (e.file_size ≡ some size)
    × Takes s opts ids rest
    × (IsWanted s opts e size × (taken ≡ (id, e.path) ∷ rest)
        ⊎ (¬ IsWanted s opts e size) × (taken ≡ rest))

pub Takes-Counted :
    (s t : State) (opts : Opts) (ids : List VfsId) (taken : List (VfsId × FilePath))
    → Counted s t
    → All (IsListed s) ids
    → Takes t opts ids taken
    → Takes s opts ids taken
unfolding Takes
Takes-Counted s t opts [] taken x listed h = h
Takes-Counted s t opts (id ∷ ids) taken x ((e, size, found, valid, known), more)
      (e', size', rest, found', known', takes, choice) =
    let (e'', found'', same) = x.kept id e found in
    let e''_e' : e'' ≡ e' = let it : some e'' ≡ some e' = sym found'' ∙ found' in cc in
    let same' : e' ≡ record e { disp_relevated = e'.disp_relevated } =
      subst (λ y. y ≡ record e { disp_relevated = y.disp_relevated }) e''_e' same in
    let wanted = IsWanted-Counted s t opts e e' size' x same' in
    (
      e,
      size',
      rest,
      found,
      sym (ap VfsEntry.file_size same') ∙ known',
      Takes-Counted s t opts ids rest x more takes,
      subst
          (λ p.
            IsWanted s opts e size' × (taken ≡ (id, p) ∷ rest)
            ⊎ (¬ IsWanted s opts e size') × (taken ≡ rest))
          (ap VfsEntry.path same')
          (subst (λ T. T × (taken ≡ (id, e'.path) ∷ rest) ⊎ (¬ T) × (taken ≡ rest)) wanted choice),
    )
