-- ===== src/Dedup/Submit/Loaded.antt =====
-- The files of a batch: in the tree with a known offset, and they open or their paths can be printed.
use dupion.Base.{
  ℕ, ◌≡◌, ◌⊎◌, refl, sym, ap, unwrap, >>=-ok, ◌∙◌, subst, none, inl, inr, Bool, true, false, Option,
  some, List, [], ◌∷◌, get_elem?, if◌then◌else◌, All, All-map, ok,
}
use dupion.FilePath.{FilePath, Bytes}
use dupion.Opts.{Opts, path_disp}
use dupion.Vfs.{VfsId, VfsEntry}
use dupion.State.{State}
use dupion.Dedup.{DedupGroup}
use dupion.Dedup.Batch.{Marked}
use dupion.Dedup.Submit.{open_dup, check_length, mark_deduped}
use dupion.Dedup.Submit.Marks.{MarkedBy}

-- The entry is in the tree and its physical offset is known.
abbrev pub IsLoaded : State → VfsId → Type 0
IsLoaded s id =
    (e : VfsEntry) × (p : ℕ) × (get_elem? s.tree.entries id ≡ some e) × (e.phys ≡ some p)

-- For each pair of files of the group. A group without dups is skipped.
abbrev pub InPairs : (VfsId → Type 0) → Marked → Type 0
InPairs P m = All (λ d. P m.0.senpai × P d) m.0.dups

abbrev pub IsLoadedGroup : State → Marked → Type 0
IsLoadedGroup s = InPairs (IsLoaded s)

-- The entry is in the tree, and its path can be printed.
abbrev pub IsShown : Opts → State → VfsId → Type 0
IsShown opts s id =
    (e : VfsEntry) × (text : Bytes) × (get_elem? s.tree.entries id ≡ some e)
    × (path_disp opts e.path ≡ ok text)

abbrev pub IsLoadedShown : Opts → State → VfsId → Type 0
IsLoadedShown opts s id = IsLoaded s id × IsShown opts s id

pub IsLoaded-MarkedBy :
    {m : VfsId → Bool} {s t : State} (id : VfsId) → MarkedBy m s t → IsLoaded s id → IsLoaded t id
IsLoaded-MarkedBy {m} id x (e, p, found, phys) =
    (if m id then mark_deduped e else e, p, x.kept id e found, phys_lem (m id))
  where
    phys_lem : (b : Bool) → (if b then mark_deduped e else e).phys ≡ some p
    phys_lem true = phys
    phys_lem false = phys

pub IsShown-MarkedBy :
    (opts : Opts) {m : VfsId → Bool} {s t : State} (id : VfsId)
    → MarkedBy m s t
    → IsShown opts s id
    → IsShown opts t id
IsShown-MarkedBy opts {m} id x (e, text, found, shown) =
    (if m id then mark_deduped e else e, text, x.kept id e found, path_lem (m id))
  where
    path_lem : (b : Bool) → path_disp opts (if b then mark_deduped e else e).path ≡ ok text
    path_lem true = shown
    path_lem false = shown

module _ {W : Type 0} (opts : Opts) (open_file : FilePath → W → Option (ℕ × ℕ) × W) where
  -- Whenever it is opened for the group, that succeeds, or its path can be printed.
  abbrev pub Answers : State → DedupGroup → VfsId → Type 0
  Answers s g id =
      (e : VfsEntry)
      → get_elem? s.tree.entries id ≡ some e
      → (w : W)
      → ((fd : ℕ) × (check_length g (open_file e.path w).0 ≡ some fd))
        ⊎ ((text : Bytes) × (path_disp opts e.path ≡ ok text))

  abbrev pub IsUsable : State → DedupGroup → VfsId → Type 0
  IsUsable s g id = IsLoaded s id × Answers s g id

  IsShown-Answers : (s : State) (g : DedupGroup) (id : VfsId) → IsShown opts s id → Answers s g id
  IsShown-Answers s g id (e, text, found, shown) e' found' w =
      let it : some e ≡ some e' = sym found ∙ found' in
      let same : e ≡ e' = cc in inr (text, subst (λ x. path_disp opts x.path ≡ ok text) same shown)

  IsLoadedShown-IsUsable :
      (s : State) (m : Marked) → InPairs (IsLoadedShown opts s) m → InPairs (IsUsable s m.0) m
  IsLoadedShown-IsUsable s (g, last) h =
      All-map _ _
        (λ d l. ((l.0.0, IsShown-Answers s g g.senpai l.0.1), (l.1.0, IsShown-Answers s g d l.1.1)))
        g.dups h

  unfoldable pub AllUsable : State → List Marked → Type 0
  AllUsable s [] = Unit {0}
  AllUsable s (m ∷ ms) = InPairs (IsUsable s m.0) m × AllUsable s ms

  pub AllShown-AllUsable :
      (s : State) (ms : List Marked) → All (InPairs (IsLoadedShown opts s)) ms → AllUsable s ms
  unfolding AllUsable
  AllShown-AllUsable s [] h = tt
  AllShown-AllUsable s (m ∷ ms) h = (IsLoadedShown-IsUsable s m h.0, AllShown-AllUsable s ms h.1)

  -- What is printed when it does not open.
  printed :
      (s : State) (g : DedupGroup) (id : VfsId) (e : VfsEntry) (w : W)
      → Answers s g id
      → get_elem? s.tree.entries id ≡ some e
      → check_length g (open_file e.path w).0 ≡ none
      → (text : Bytes) × (path_disp opts e.path ≡ ok text)
  printed s g id e w answers found closed = elim (answers e found w) [
    | inl (fd, opened) ↦ absurd cc
    | inr shown ↦ shown
  ]

  pub open_dup_opened :
      (s : State) (g : DedupGroup) (id : VfsId) (w : W) (e : VfsEntry) (fd : ℕ)
      → get_elem? s.tree.entries id ≡ some e
      → check_length g (open_file e.path w).0 ≡ some fd
      → open_dup opts open_file s g id w ≡ ok (some fd, (open_file e.path w).1)
  unfolding open_dup
  open_dup_opened s g id w e fd found opened = >>=-ok _ (ap unwrap found) (rw opened refl)

  pub open_dup_closed :
      (s : State) (g : DedupGroup) (id : VfsId) (w : W) (e : VfsEntry)
      → Answers s g id
      → get_elem? s.tree.entries id ≡ some e
      → check_length g (open_file e.path w).0 ≡ none
      → open_dup opts open_file s g id w ≡ ok (none, (open_file e.path w).1)
  unfolding open_dup
  open_dup_closed s g id w e answers found closed =
      let (text, shown) = printed s g id e w answers found closed in
      >>=-ok _ (ap unwrap found) (rw (closed, shown) refl)
