-- ===== src/Serialize.antt =====
-- dupion/src/output/tree.rs and dupion/src/output/treediff.rs: what serde is given to write. The text
-- of a key, which `format!` makes, is kept as its parts.
pub mod Tree
mod Examples
use dupion.Base.{
  ℕ, zero, suc, Bool, true, false, not, ◌&&◌, ◌||◌, Option, none, some, List, [], ◌∷◌, length, take,
  ltb, ◌==◌, lookup, if◌then◌else◌, Outcome, ok, err, panic, stuck, ◌>>=◌, ◌>>◌, unwrap, assert,
  sort_by,
}
use dupion.FilePath.{Bytes, FilePath, strip_prefix, file_name}
use dupion.FilePath.Text.{path_text, is_utf8}
use dupion.Vfs.{VfsEntry, VfsId, Hash, cid}
use dupion.State.{State, Member, HashGroup, entry, hash_key}
use dupion.Opts.{Opts}
use dupion.Output.{exists, icon2}
use dupion.Output.Tree.{Row, dir_rows, file_or_dir_props, icon3, icon_prio2, or_zero}
use dupion.Output.TreeDiff.{find_diffs}
use dupion.Process.{bytes_leb}

pub data Tag : Type 0 where
  dups supr uniq : Tag

pub data Key : Type 0 where
  root_key : (path : Bytes) → Key
  entry_key : (tag : Tag) (icon : ℕ) (name : Bytes) (size : ℕ) → Key
  member_key : (icon : ℕ) (path : Bytes) → Key

-- The values that are written: a map, the character `' '` and `None`.
mutual
  pub data Json : Type 0 where
    object : Fields → Json
    blank : Json
    null : Json

  pub data Fields : Type 0 where
    end : Fields
    field : Key → Json → Fields → Fields

-- `to_str().unwrap()`.
abbrev pub to_str : FilePath → Outcome Bytes
to_str p = if is_utf8 (path_text p) then ok (path_text p) else err panic

unfoldable pub reduce_path : FilePath → FilePath → Bool → Outcome Bytes
reduce_path path root_path force =
    if not force
    then to_str (elim (strip_prefix root_path path) [ some p ↦ p | none ↦ path ])
    else to_str path

-- `e.path.file_name().unwrap().to_str().unwrap()`.
unfoldable pub entry_name : VfsEntry → Outcome Bytes
entry_name e = do name ← unwrap (file_name e.path); if is_utf8 name then ok name else err panic

-- `Dupes`: the members that are shown of a group.
pub member_fields : State → FilePath → Bool → List Member → Outcome Fields
member_fields s root_path force [] = ok end
member_fields s root_path force ((typ, id) ∷ ms) = do
  e ← entry s id
  path ← reduce_path e.path root_path force
  rest ← member_fields s root_path force ms
  ok (field (member_key (icon2 typ e.is_dir) path) blank rest)

unfoldable pub dupes : State → FilePath → Bool → HashGroup → Outcome Json
unfolding member_fields
dupes s root_path force g = do
  members ← member_fields s root_path force (take 4 g.entries)
  ok (object members)

-- The rows of a directory, each with its value.
pub row_fields : (VfsId → Outcome Json) → State → FilePath → Bool → List Row → Outcome Fields
row_fields visit s root_path force [] = ok end
row_fields visit s root_path force (r ∷ rs) = do
  e ← entry s r.id
  name ← entry_name e
  let grouped : Outcome (Tag × Json) = (do
    hash ← unwrap (file_or_dir_props e).1
    g ← unwrap (lookup hash s.hashes)
    value ← dupes s root_path force g
    ok (dups, value))
  let single : Outcome (Tag × Json) = (do value ← visit r.id; ok (uniq, value))
  shown ← if ltb 1 r.dups then grouped else single
  rest ← row_fields visit s root_path force rs
  ok (field (entry_key shown.0 (icon3 e) name r.size) shown.1 rest)

-- `DirEntry` of the tree. The fuel bounds the depth of the calls.
pub dir_entry : ℕ → State → FilePath → Bool → VfsId → Outcome Json
unfolding row_fields
dir_entry zero s root_path force id = err stuck
dir_entry (suc fuel) s root_path force id = do
  rs ← dir_rows s id
  fields ← row_fields (dir_entry fuel s root_path force) s root_path force rs
  ok (object fields)

-- `TreeRoot` of both outputs: the roots that exist, each with its value.
pub root_fields : (VfsId → FilePath → Outcome Json) → State → List VfsId → Outcome Fields
root_fields visit s [] = ok end
root_fields visit s (id ∷ ids) = do
  e ← entry s id
  let here = (do
    name ← reduce_path e.path e.path true
    value ← visit id e.path
    rest ← root_fields visit s ids
    ok (field (root_key name) value rest))
  if exists e then here else root_fields visit s ids

-- The roots among the entries.
pub roots_of : State → List FilePath → Outcome (List VfsId)
roots_of s [] = ok []
roots_of s (p ∷ ps) = do
  found ← cid s.tree p
  id ← unwrap found
  rest ← roots_of s ps
  ok (id ∷ rest)

unfoldable pub print_tree : State → Opts → Outcome Json
unfolding dir_entry roots_of root_fields
print_tree s opts = do
  roots ← roots_of s opts.paths
  let visit = λ (id : VfsId) (path : FilePath).
      dir_entry (suc (length s.tree.entries)) s path opts.force_absolute_paths id
  fields ← root_fields visit s roots
  ok (object fields)

-- A child as the tree difference sorts it.
pub record DiffRow : Type 0 where
  pub dup : ℕ
  pub id : VfsId
  pub size : ℕ
  pub prio : ℕ
  pub name : Bytes

pub diff_rows : State → List VfsId → Outcome (List DiffRow)
diff_rows s [] = ok []
diff_rows s (c ∷ cs) = do
  e ← entry s c
  let here = (do
    name ← entry_name e
    rest ← diff_rows s cs
    let row : DiffRow = record {
      dup = e.treediff_stat;
      id = c;
      size = or_zero (file_or_dir_props e).0;
      prio = icon_prio2 e;
      name = name;
    }
    ok (row ∷ rest))
  if exists e then here else diff_rows s cs

-- By kind, the most equal first, the largest first, then by name.
unfoldable pub diff_row_leb : DiffRow → DiffRow → Bool
diff_row_leb a b =
    let by_size = ltb b.size a.size || a.size == b.size && bytes_leb a.name b.name in
    let by_mark = ltb b.dup a.dup || a.dup == b.dup && by_size in
    ltb a.prio b.prio || a.prio == b.prio && by_mark

pub diff_fields : (VfsId → Outcome Json) → State → List DiffRow → Outcome Fields
diff_fields visit s [] = ok end
diff_fields visit s (r ∷ rs) = do
  e ← entry s r.id
  let below : Tag → Outcome (Tag × Json) = λ tag. (do value ← visit r.id; ok (tag, value))
  let other : Outcome (Tag × Json) =
      if r.dup == 1 then below supr else if r.dup == 0 then below uniq else err panic
  shown ← if r.dup == 2 then ok (dups, null) else other
  rest ← diff_fields visit s rs
  ok (field (entry_key shown.0 (icon3 e) r.name r.size) shown.1 rest)

-- `DirEntry` of the tree difference.
pub diff_entry : ℕ → State → VfsId → Outcome Json
unfolding diff_rows diff_fields sort_by
diff_entry zero s id = err stuck
diff_entry (suc fuel) s id = do
  e ← entry s id
  assert (exists e)
  rs ← diff_rows s e.childs
  fields ← diff_fields (diff_entry fuel s) s (sort_by diff_row_leb rs)
  ok (object fields)

unfoldable pub print_treediff : State → Opts → Outcome (State × Json)
unfolding diff_entry roots_of root_fields
print_treediff s opts = do
  roots ← roots_of s opts.paths
  tree ← find_diffs s.tree roots
  let s' : State = record s { tree = tree }
  let visit = λ (id : VfsId) (path : FilePath). diff_entry (suc (length tree.entries)) s' id
  fields ← root_fields visit s' roots
  ok (s', object fields)
