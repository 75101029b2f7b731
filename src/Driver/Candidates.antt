-- ===== src/Driver/Candidates.antt =====
-- The tests on an entry that has its size return, and counting it keeps the invariant of the state.
use dupion.Base.{
  ◌≡◌, refl, ap, inl, inr, Bool, true, false, not, ◌&&◌, some, is_some, get_elem?, Bool-cases,
  Outcome, ok, ◌>>=◌, add64, unwrap, >>=-ok, if◌then◌else◌, ℕ,
}
use dupion.Opts.{Opts, zip_by_extension}
use dupion.Vfs.{VfsEntry, VfsId, Hash}
use dupion.State.{State, is_file_read_candidate, disp_add_relevant, Counters}
use dupion.State.Sound.{
  IsSound, IsSound-disp, Refreshes, Refreshes-refl, Refreshed, Gives, modify_lem, with_entry,
  with_entry-Refreshes,
}
use dupion.Driver.{add_if_candidate}

-- A test after two that return.
either_returns :
    (b x y : Bool) (r : Outcome Bool) (after : Bool → Bool)
    → r ≡ ok y
    → (z : Bool) × (((if b then ok x else r) >>= λ d. ok (after d)) ≡ ok z)
either_returns true x y r after returns = (after x, refl)
either_returns false x y r after returns = (after y, >>=-ok _ returns refl)

pub is_file_read_candidate-returns :
    (s : State) (id : VfsId) (opts : Opts) {e : VfsEntry} {size : ℕ}
    → get_elem? s.tree.entries id ≡ some e
    → e.file_size ≡ some size
    → (b : Bool) × (is_file_read_candidate s id opts ≡ ok b)
unfolding is_file_read_candidate
is_file_read_candidate-returns s id opts {e} found known =
    let (tested, returns) =
      either_returns (zip_by_extension opts e.path) _ _ _ _ (>>=-ok _ (ap unwrap known) refl) in
    (tested, >>=-ok _ (ap unwrap found) returns)

pub with_disp-Refreshes :
    {content : Hash → ℕ} (s t : State) (c : Counters)
    → Refreshes content s t
    → Refreshes content s (record t { disp = c })
with_disp-Refreshes s t c x = record {
  sound = IsSound-disp t c x.sound;
  count = x.count;
  kept = x.kept;
  members = x.members;
}

relevant-Refreshed : (e : VfsEntry) → Refreshed e (record e { disp_relevated = true })
relevant-Refreshed e = record {
  path = refl;
  plc = refl;
  childs = refl;
  file_size = refl;
  file_hash = refl;
  phys = refl;
  n_extends = refl;
  unique = refl;
  valid = λ h. h;
  is_file = λ h. h;
}

pub disp_add_relevant-Refreshes :
    {content : Hash → ℕ} (s : State) (id : VfsId) (e : VfsEntry) {size : ℕ}
    → IsSound content s
    → get_elem? s.tree.entries id ≡ some e
    → e.file_size ≡ some size
    → Gives (disp_add_relevant s id) (Refreshes content s)
unfolding disp_add_relevant
disp_add_relevant-Refreshes s id e {size} sound found known =
    elim (Bool-cases (not e.disp_relevated && not (is_some e.file_hash))) [
      | inr counted ↦ (s, >>=-ok _ (ap unwrap found) (rw counted refl), Refreshes-refl s sound)
      | inl fresh ↦
          let relevant = λ (x : VfsEntry). record x { disp_relevated = true } in
          let t = with_entry s id (relevant e) in
          let c = record (t.disp) {
            relevant_bytes = add64 t.disp.relevant_bytes size;
            relevant_files = add64 t.disp.relevant_files 1;
          } in
          (
            record t { disp = c },
            >>=-ok _ (ap unwrap found) (
                rw fresh
                  (>>=-ok _ (ap unwrap known) (>>=-ok _ (modify_lem s id e relevant found) refl))),
            with_disp-Refreshes s t c
                (with_entry-Refreshes s id e (relevant e) sound found (relevant-Refreshed e)),
          )
    ]

pub add_if_candidate-Refreshes :
    {content : Hash → ℕ} (s : State) (id : VfsId) (opts : Opts) (e : VfsEntry) {size : ℕ}
    → IsSound content s
    → get_elem? s.tree.entries id ≡ some e
    → e.file_size ≡ some size
    → Gives (add_if_candidate s id opts) (Refreshes content s)
add_if_candidate-Refreshes {content} s id opts e sound found known =
    let (candidate, tested) = is_file_read_candidate-returns s id opts found known in
    let (t, returns, x) = by_test candidate in (t, >>=-ok _ tested returns, x)
  where
    by_test : (b : Bool) → Gives (if b then disp_add_relevant s id else ok s) (Refreshes content s)
    by_test true = disp_add_relevant-Refreshes s id e sound found known
    by_test false = (s, refl, Refreshes-refl s sound)
