-- ===== src/Output.antt =====
-- dupion/src/output/groups.rs, and the views of an entry in dupion/src/vfs/entry.rs that the outputs
-- use: which members of a group of equal content are printed.
pub mod Shown
pub mod TreeDiff
pub mod Tree
mod Examples
use dupion.Base.{
  ℕ, ◌+◌, Bool, true, false, not, ◌&&◌, ◌||◌, Option, none, some, option_eq, List, [], ◌∷◌, length,
  ltb, leb, ◌==◌, if◌then◌else◌, Outcome, ok, err, panic, ◌>>=◌, ◌>>◌, unwrap, assert,
}
use dupion.FilePath.{Bytes}
use dupion.Vfs.{Vfs, VfsEntry, VfsId, Hash, index}
use dupion.State.{VfsEntryType, file, dir, Member, HashGroup}
use dupion.Opts.{Opts, path_disp}

-- `VfsEntry::shadowed`, `size`, `is2`, `exists`.
abbrev pub shadowed : VfsEntry → VfsEntryType → Bool
shadowed e file = e.file_shadowed
shadowed e dir = e.dir_shadowed

abbrev pub size_of : VfsEntry → VfsEntryType → Option ℕ
size_of e file = e.file_size
size_of e dir = e.dir_size

abbrev pub is2 : VfsEntry → VfsEntryType → Bool
is2 e file = e.is_file
is2 e dir = e.is_dir

abbrev pub exists : VfsEntry → Bool
exists e = e.is_file || e.is_dir

-- `VfsEntryType::icon2`.
abbrev pub icon2 : VfsEntryType → Bool → ℕ
icon2 file is_dir = if is_dir then b'A' else b'F'
icon2 dir is_dir = b'D'

-- A member of a group with its entry.
abbrev pub Shown : Type 0
Shown = VfsEntryType × VfsEntry

-- `h.entries.iter().filter(..)`: the members that are still what they were filed as.
pub present : Vfs → List Member → Outcome (List Shown)
present v [] = ok []
present v ((t, id) ∷ ms) = do
  e ← index v id
  rest ← present v ms
  ok (if is2 e t then (t, e) ∷ rest else rest)

-- The two counters: non-shadowed and shadowed.
pub count_shadowed : List Shown → ℕ × ℕ
count_shadowed [] = (0, 0)
count_shadowed ((t, e) ∷ es) =
    let rest = count_shadowed es in
    if not (exists e)
    then rest
    else if shadowed e t
    then (rest.0, rest.1 + 1)
    else (rest.0 + 1, rest.1)

pub hide_shadowed : ℕ → ℕ → Outcome Bool
hide_shadowed rule non_shadowed =
    if rule == 0
    then ok false
    else if rule == 1
    then ok (non_shadowed == 0)
    else if rule == 2
    then ok (not (non_shadowed == 1))
    else if rule == 3
    then ok true
    else err panic

-- One printed line: the icon, the mark of a shadowed member and the path.
abbrev pub Line : Type 0
Line = record { icon : ℕ; mark : Bool; path : Bytes }

pub print_members : Opts → ℕ → Bool → List Shown → Outcome (List Line)
print_members opts size hide [] = ok []
print_members opts size hide ((t, e) ∷ es) =
    let checked = (do
      actual ← unwrap (size_of e t)
      assert (actual == size)
      path ← path_disp opts e.path
      rest ← print_members opts size hide es
      ok (record { icon = icon2 t e.is_dir; mark = shadowed e t; path = path } ∷ rest)) in
    if not hide || not (shadowed e t) then checked else print_members opts size hide es

-- The body of the loop of `print_groups`: the lines under the group's title, or no output.
pub print_group : Vfs → Opts → HashGroup → Outcome (Option (List Line))
unfolding present count_shadowed hide_shadowed print_members
print_group v opts h = do
  entries ← present v h.entries
  let counts = count_shadowed entries
  let shown = (do
    hide ← hide_shadowed opts.shadow_rule counts.0
    let lines = (do ls ← print_members opts h.size hide entries; ok (some ls))
    if hide && leb counts.0 1 then ok none else lines)
  if leb (length entries) 1 then ok none else shown

pub print_groups : Vfs → Opts → List HashGroup → Outcome (List (ℕ × List Line))
unfolding print_group
print_groups v opts [] = ok []
print_groups v opts (h ∷ hs) = do
  printed ← print_group v opts h
  rest ← print_groups v opts hs
  ok (elim printed [ none ↦ rest | some ls ↦ (h.size, ls) ∷ rest ])
