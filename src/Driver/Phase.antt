-- ===== src/Driver/Phase.antt =====
-- The size phase as a whole.
use dupion.Base.{
  ℕ, ◌≡◌, refl, sym, ap, ◌∙◌, subst, List, [], ◌∷◌, ◌++◌, append_assoc, append-nil, map, Outcome,
  ok, >>=-ok, All, All-append, Perm, sort_by_key, sort_by_key-perm, sort_by_key-IsSortedBy,
  IsSortedBy, All-sort_by_key,
}
use mathlib.Core.List.Perm
use dupion.Opts.{Opts}
use dupion.Vfs.{VfsId, Hash}
use dupion.Vfs.Resolve.{IsCanonical}
use dupion.State.{State}
use dupion.State.Sound.{IsSound, Refreshes, Refreshes-refl, Refreshes-trans, Gives}
use dupion.Driver.{Found, Scan, size_files, add_candidates, size_phase}
use dupion.Driver.Size.{IsListed, IsListed-Refreshes, size_file-SizedFile}
use dupion.Driver.Candidates.{add_if_candidate-Refreshes}

abbrev pub AllListed : State → List (ℕ × VfsId) → Type 0
AllListed s = All λ d. IsListed s d.1

abbrev pub offset : ℕ × VfsId → ℕ
offset d = d.0

All-IsListed :
    (s t : State) (ds : List (ℕ × VfsId))
    → ((id : VfsId) → IsListed s id → IsListed t id)
    → AllListed s ds
    → AllListed t ds
All-IsListed s t [] f h = tt
All-IsListed s t (d ∷ ds) f h = (f d.1 h.0, All-IsListed s t ds f h.1)

map-append : (xs ys : List (ℕ × VfsId)) → map offset (xs ++ ys) ≡ map offset xs ++ map offset ys
map-append [] ys = refl
map-append (x ∷ xs) ys = ap (λ zs. offset x ∷ zs) (map-append xs ys)

-- What the walk over the files leaves.
record SizedFiles (content : Hash → ℕ) (fs : List Found) (scan : Scan) (r : Outcome Scan)
    : Type 0 where
  pub out : Scan
  pub returns : r ≡ ok out
  pub sound : IsSound content out.state
  pub listed : AllListed out.state out.dest
  pub offsets : map offset out.dest ≡ map offset scan.dest ++ map Found.phy_off fs

size_files-SizedFiles :
    {content : Hash → ℕ} (fs : List Found) (scan : Scan) (opts : Opts)
    → IsSound content scan.state
    → All (λ f. IsCanonical f.path) fs
    → AllListed scan.state scan.dest
    → SizedFiles content fs scan (size_files fs scan opts)
unfolding size_files
size_files-SizedFiles [] scan opts sound canonical listed = record {
  out = scan;
  returns = refl;
  sound = sound;
  listed = listed;
  offsets = sym (append-nil (map offset scan.dest));
}
size_files-SizedFiles (f ∷ fs) scan opts sound canonical listed =
    let first = size_file-SizedFile f scan opts sound canonical.0 in
    let here : AllListed first.out.state ((f.phy_off, first.id) ∷ []) =
      ((first.entry, f.size, first.found, first.valid, first.size), tt) in
    let all : AllListed first.out.state first.out.dest =
      subst (AllListed first.out.state) (sym first.dest) (
        All-append (λ d. IsListed first.out.state d.1) scan.dest ((f.phy_off, first.id) ∷ [])
          (All-IsListed scan.state first.out.state scan.dest first.listed listed) here) in
    let rest = size_files-SizedFiles fs first.out opts first.sound canonical.1 all in
    record {
      out = rest.out;
      returns = >>=-ok _ first.returns rest.returns;
      sound = rest.sound;
      listed = rest.listed;
      offsets =
          rest.offsets
          ∙ ap (λ xs. map offset xs ++ map Found.phy_off fs) first.dest
          ∙ ap (λ xs. xs ++ map Found.phy_off fs)
              (map-append scan.dest ((f.phy_off, first.id) ∷ []))
          ∙ append_assoc (map offset scan.dest) (f.phy_off ∷ []) (map Found.phy_off fs);
    }

add_candidates-Refreshes :
    {content : Hash → ℕ} (ds : List (ℕ × VfsId)) (s : State) (opts : Opts)
    → IsSound content s
    → AllListed s ds
    → Gives (add_candidates ds s opts) (Refreshes content s)
unfolding add_candidates
add_candidates-Refreshes [] s opts sound listed = (s, refl, Refreshes-refl s sound)
add_candidates-Refreshes ((o, id) ∷ ds) s opts sound ((e, size, found, valid, known), more) =
    let (t, returns, x) = add_if_candidate-Refreshes s id opts e sound found known in
    let (u, rest, y) =
      add_candidates-Refreshes ds t opts x.sound
        (All-IsListed s t ds (λ j. IsListed-Refreshes j x) more) in
    (u, >>=-ok _ returns rest, Refreshes-trans x y)

-- What the size phase leaves.
pub record Phase (content : Hash → ℕ) (fs : List Found) (r : Outcome (State × List (ℕ × VfsId)))
    : Type 0 where
  pub out : State
  pub dest : List (ℕ × VfsId)
  pub returns : r ≡ ok (out, dest)
  pub sound : IsSound content out
  pub listed : AllListed out dest
  pub sorted : IsSortedBy offset dest
  pub offsets : Perm (map offset dest) (map Found.phy_off fs)

-- On a sound state, and for files with canonical paths, the size phase returns. The state is sound,
-- the entries are in the order of their offsets, each is valid and has its size, and their offsets
-- are those of the files.
pub size_phase-Phase :
    {content : Hash → ℕ} (fs : List Found) (s : State) (opts : Opts)
    → IsSound content s
    → All (λ f. IsCanonical f.path) fs
    → Phase content fs (size_phase fs s opts)
unfolding size_phase
size_phase-Phase fs s opts sound canonical =
    let w =
      size_files-SizedFiles fs (record { state = s; dest = []; hash_now = [] }) opts sound canonical
        tt in
    let sorted = sort_by_key offset w.out.dest in
    let all = All-sort_by_key offset (λ d. IsListed w.out.state d.1) w.out.dest w.listed in
    let (t, returns, x) = add_candidates-Refreshes sorted w.out.state opts w.sound all in
    record {
      out = t;
      dest = sorted;
      returns = >>=-ok _ w.returns (>>=-ok _ returns refl);
      sound = x.sound;
      listed = All-IsListed w.out.state t sorted (λ j. IsListed-Refreshes j x) all;
      sorted = sort_by_key-IsSortedBy offset w.out.dest;
      offsets =
          subst (Perm (map offset sorted)) w.offsets
            (Perm.map offset (sort_by_key-perm offset w.out.dest));
    }
