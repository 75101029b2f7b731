-- ===== src/Vfs.antt =====
-- dupion/src/vfs/mod.rs and dupion/src/vfs/entry.rs: the tree of files and directories, a vector of
-- entries that name their children by index. An index out of range panics.
pub mod Tree
pub mod Create
pub mod Resolve
pub mod Content
pub mod Total
mod Examples
use dupion.Base.{
  ℕ, Bool, true, false, ◌&&◌, ◌||◌, Option, none, some, is_empty, List, [], ◌∷◌, ◌++◌, length,
  get_elem?, set, ◌==◌, if◌then◌else◌, Outcome, ok, err, panic, ◌>>=◌, ◌>>◌, unwrap, assert,
}
use dupion.FilePath.{
  Bytes, Component, root_dir, cur_dir, parent_dir, normal, FilePath, bytes_eq, path_eq, as_os_str,
  push, is_absolute_path, last_component,
}

-- `usize`, an index into `entries`.
abbrev pub VfsId : Type 0
VfsId = ℕ

abbrev pub root_id : VfsId
root_id = 0

-- `ctime` is an `i64`, kept as its distance above `i64::MIN`: the code only compares it.
-- A blake3 digest is the list of its bytes.
abbrev pub Hash : Type 0
Hash = List ℕ

pub record VfsEntry : Type 0 where
  pub path : FilePath
  pub plc : Bytes
  pub ctime : Option ℕ
  pub file_size : Option ℕ
  pub dir_size : Option ℕ
  pub file_hash : Option Hash
  pub dir_hash : Option Hash
  pub childs : List VfsId
  pub valid : Bool
  pub is_file : Bool
  pub is_dir : Bool
  pub was_file : Bool
  pub was_dir : Bool
  pub file_shadowed : Bool
  pub dir_shadowed : Bool
  pub unique : Bool
  pub disp_relevated : Bool
  pub failure : Option ℕ
  pub treediff_stat : ℕ
  pub dedup_state : Option Bool
  pub phys : Option ℕ
  pub n_extends : Option ℕ

pub record Vfs : Type 0 where
  pub entries : List VfsEntry

-- The name of the last component, or the empty name.
unfoldable pub to_plc : FilePath → Bytes
to_plc p = elim (last_component p) [ some c ↦ as_os_str c | none ↦ [] ]

-- `VfsEntry::new`.
unfoldable pub new_entry : FilePath → VfsEntry
unfolding to_plc
new_entry p = record {
  path = p;
  plc = to_plc p;
  ctime = none;
  file_size = none;
  dir_size = none;
  file_hash = none;
  dir_hash = none;
  childs = [];
  valid = false;
  is_file = false;
  is_dir = false;
  was_file = false;
  was_dir = false;
  file_shadowed = false;
  dir_shadowed = false;
  unique = false;
  disp_relevated = false;
  failure = none;
  treediff_stat = 0;
  dedup_state = none;
  phys = some 0;
  n_extends = none;
}

-- `Vfs::new`: the root entry, with the empty path.
pub new : Vfs
unfolding new_entry
new = record { entries = new_entry [] ∷ [] }

-- `self[id]`, read and written.
abbrev pub index : Vfs → VfsId → Outcome VfsEntry
index v id = unwrap (get_elem? v.entries id)

unfoldable pub update : Vfs → VfsId → (VfsEntry → VfsEntry) → Outcome Vfs
update v id f = do e ← index v id; ok (record v { entries = set v.entries id (f e) })

-- The free function `is_absolute`.
abbrev pub is_absolute : FilePath → Outcome (Unit {0})
is_absolute p = assert (is_absolute_path p || is_empty p)

-- The loop of `child_of`. (Its `debug_assert_eq!` is not in a release build.)
unfoldable pub find_child : Vfs → Bytes → List VfsId → Outcome (Option VfsId)
find_child v name [] = ok none
find_child v name (cid ∷ rest) = do
  e ← index v cid
  if bytes_eq e.plc name then ok (some cid) else find_child v name rest

unfoldable pub child_of : Vfs → VfsId → Component → Outcome (Option VfsId)
child_of v id parent_dir = err panic
child_of v id cur_dir = ok (some id)
child_of v id root_dir = do e ← index v id; find_child v (as_os_str root_dir) e.childs
child_of v id (normal n) = do e ← index v id; find_child v n e.childs

-- The loop of `cid`, from entry `id`.
unfoldable pub walk : Vfs → VfsId → List Component → Outcome (Option VfsId)
walk v id [] = ok (some id)
walk v id (c ∷ cs) = do
  found ← child_of v id c
  elim found [ none ↦ ok none | some i ↦ walk v i cs ]

unfoldable pub cid : Vfs → FilePath → Outcome (Option VfsId)
cid v path = do
  is_absolute path
  found ← walk v root_id path
  elim found [
    | none ↦ ok none
    | some id ↦ do e ← index v id; assert (path_eq e.path path); ok (some id)
  ]

-- `_insert_new_entry`.
unfoldable pub append_entry : Vfs → VfsEntry → Vfs × VfsId
append_entry v e = (record v { entries = v.entries ++ e ∷ [] }, length v.entries)

abbrev pub mark_dir : VfsEntry → VfsEntry
mark_dir e = record e { is_dir = true }

abbrev pub add_child : VfsId → VfsEntry → VfsEntry
add_child new e = record e { is_dir = true; childs = e.childs ++ new ∷ [] }

-- One round of the loop of `cid_and_create`, where `built` is the path so far, `c` included.
unfoldable pub create_step : Vfs → VfsId → FilePath → Component → Outcome (Vfs × VfsId)
unfolding append_entry
create_step v id built c = do
  found ← child_of v id c
  elim found [
    | some i ↦ do v' ← update v id mark_dir; ok (v', i)
    | none ↦ do
      let (v', new) = append_entry v (new_entry built)
      v'' ← update v' id (add_child new)
      ok (v'', new)
  ]

-- The loop of `cid_and_create`: the tree, the entry and the path reached.
unfoldable pub create_walk :
    Vfs → VfsId → FilePath → List Component → Outcome (Vfs × VfsId × FilePath)
create_walk v id built [] = ok (v, id, built)
create_walk v id built (c ∷ cs) = do
  next ← create_step v id (push built c) c
  create_walk next.0 next.1 (push built c) cs

unfoldable pub cid_and_create : Vfs → FilePath → Outcome (Vfs × VfsId)
cid_and_create v path = do
  is_absolute path
  done ← create_walk v root_id [] path
  assert (path_eq done.2 path)
  e ← index done.0 done.1
  assert (path_eq e.path path)
  ok (done.0, done.1)

-- `insert_new_entry`: the entry at its path is replaced.
pub insert_new_entry : Vfs → VfsEntry → Outcome (Vfs × VfsId)
insert_new_entry v e = do
  made ← cid_and_create v e.path
  v' ← update made.0 made.1 (λ _. e)
  ok (v', made.1)
