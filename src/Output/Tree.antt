-- ===== src/Output/Tree.antt =====
-- dupion/src/output/tree.rs: the rows of a directory in the tree that is printed, and the views of
-- an entry in dupion/src/vfs/entry.rs that they show.
use dupion.Base.{
  ℕ, ◌≡◌, ◌≤◌, ◌<◌, ◌⊎◌, ◌↔◌, min, max, Bool, false, not, ◌&&◌, ◌||◌, Option, none, some, List, [],
  ◌∷◌, ltb, leb, ◌==◌, if◌then◌else◌, Outcome, ok, ◌>>=◌, ◌>>◌, assert, sort_by, Perm, All,
  get_elem?,
}
use dupion.Vfs.{VfsEntry, VfsId, Hash}
use dupion.State.{State, entry, num_hashes}
use dupion.Output.{exists}

abbrev pub file_props : VfsEntry → Option ℕ × Option Hash
file_props e = (e.file_size, e.file_hash)

abbrev pub dir_props : VfsEntry → Option ℕ × Option Hash
dir_props e = (e.dir_size, e.dir_hash)

abbrev pub file_or_dir_props : VfsEntry → Option ℕ × Option Hash
file_or_dir_props e = if e.is_file then file_props e else dir_props e

-- `icon3` and `icon_prio2`: what is both a file and a directory is an archive.
abbrev pub icon3 : VfsEntry → ℕ
icon3 e = if e.is_dir then if e.is_file then b'A' else b'D' else if e.is_file then b'F' else b'X'

abbrev pub icon_prio2 : VfsEntry → ℕ
icon_prio2 e = if e.is_dir then if e.is_file then 1 else 0 else if e.is_file then 2 else 3

-- A child as it is sorted: the members of its group, the index, the size and the kind.
pub record Row : Type 0 where
  pub dups : ℕ
  pub id : VfsId
  pub size : ℕ
  pub prio : ℕ

abbrev pub or_zero : Option ℕ → ℕ
or_zero none = 0
or_zero (some n) = n

-- The number of members of the group of a hash; a hash without a group is a failed assertion.
unfoldable pub dups_of : State → Option Hash → Outcome ℕ
dups_of s none = ok 0
dups_of s (some h) = do assert (not (num_hashes s h == 0)); ok (num_hashes s h)

-- `childs.iter().filter(..).map(..)`.
unfoldable pub rows : State → List VfsId → Outcome (List Row)
unfolding dups_of
rows s [] = ok []
rows s (c ∷ cs) = do
  e ← entry s c
  let props = file_or_dir_props e
  let here = (do
    dups ← dups_of s props.1
    rest ← rows s cs
    let row : Row = record { dups = dups; id = c; size = or_zero props.0; prio = icon_prio2 e }
    ok (row ∷ rest))
  if exists e then here else rows s cs

-- `pos.max(1).min(2)`: whether there are duplicates.
abbrev pub rarity : ℕ → ℕ
rarity dups = min (max dups 1) 2

-- The order of the rows: directories first, then duplicates, then the largest.
unfoldable pub row_leb : Row → Row → Bool
row_leb a b =
    ltb a.prio b.prio
    || a.prio == b.prio
      && (ltb (rarity b.dups) (rarity a.dups)
          || rarity a.dups == rarity b.dups && leb b.size a.size)

-- The rows of `DirEntry`'s `serialize`, in their order.
unfoldable pub dir_rows : State → VfsId → Outcome (List Row)
unfolding rows
dir_rows s id = do e ← entry s id; assert (exists e); rs ← rows s e.childs; ok (sort_by row_leb rs)

-- A child that has a row: it is in the tree, and the hash that it shows has a group.
abbrev pub HasGroup : State → Option Hash → Type 0
HasGroup s none = Unit {0}
HasGroup s (some h) = (num_hashes s h == 0) ≡ false

abbrev pub IsRowed : State → VfsId → Type 0
IsRowed s c =
    (e : VfsEntry) × (get_elem? s.tree.entries c ≡ some e) × HasGroup s (file_or_dir_props e).1

-- The members of the group of the hash that is shown.
abbrev pub members_of : State → Option Hash → ℕ
members_of s none = 0
members_of s (some h) = num_hashes s h

-- The row of child `c` with entry `e`.
pub record IsRowOf (s : State) (c : VfsId) (e : VfsEntry) (r : Row) : Type 0 where
  pub id : r.id ≡ c
  pub dups : r.dups ≡ members_of s (file_or_dir_props e).1
  pub size : r.size ≡ or_zero (file_or_dir_props e).0
  pub prio : r.prio ≡ icon_prio2 e

-- The rows of the children that exist, in the order of the directory.
pub Lists : State → List VfsId → List Row → Type 0
Lists s [] rs = rs ≡ []
Lists s (c ∷ cs) rs =
    (e : VfsEntry) × (r : Row) × (rest : List Row) × (get_elem? s.tree.entries c ≡ some e)
    × IsRowOf s c e r
    × Lists s cs rest
    × (rs ≡ (if exists e then r ∷ rest else rest))

abbrev pub IsDuplicate : Row → Type 0
IsDuplicate r = 1 < r.dups

-- In front come the rows of the smaller kind (directories, then archives, then files); of one kind,
-- those with duplicates; and of these and of the others, the larger ones.
abbrev pub Precedes : Row → Row → Type 0
Precedes a b =
    (a.prio < b.prio)
    ⊎ (a.prio ≡ b.prio)
      × (IsDuplicate a × (b.dups ≤ 1) ⊎ (IsDuplicate a ↔ IsDuplicate b) × (b.size ≤ a.size))

-- Each row precedes all behind it.
abbrev pub InOrder : List Row → Type 0
InOrder [] = Unit {0}
InOrder (r ∷ rs) = All (Precedes r) rs × InOrder rs

-- The rows of a directory: each child that exists has one that shows its entry, and they are in order.
pub record Listed (s : State) (id : VfsId) (childs : List VfsId) : Type 0 where
  pub shown : List Row
  pub out : List Row
  pub returns : dir_rows s id ≡ ok out
  pub lists : Lists s childs shown
  pub perm : Perm out shown
  pub in_order : InOrder out
