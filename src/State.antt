-- ===== src/State.antt =====
-- dupion/src/state/mod.rs, dupion/src/group/mod.rs and the `impl State` of dupion/src/vfs/entry.rs:
-- the tree with its entries grouped by size and by hash.
pub mod Groups
pub mod HashGroups
pub mod Sound
pub mod Refill
pub mod Created
pub mod Revival
pub mod Validation
mod Examples
use dupion.Base.{
  ℕ, zero, suc, ◌+◌, ◌-◌, ◌%◌, Bool, true, false, not, ◌&&◌, ◌||◌, Option, none, some, is_some,
  option_eq, List, [], ◌∷◌, ◌++◌, length, ltb, leb, ◌==◌, if◌then◌else◌, u64_mod, add64, Key,
  nat_key, lookup, insert, Outcome, ok, err, panic, stuck, ◌>>=◌, ◌>>◌, unwrap, assert, ensure,
  unwrap_result,
}
use dupion.FilePath.{bytes_eq}
use dupion.FilePath.Laws.{bytes_eq_iff}
use dupion.Vfs.{Vfs, VfsEntry, VfsId, Hash, index, update, cid_and_create}
use dupion.Vfs
use dupion.Opts.{Opts, zip_by_extension}

pub data VfsEntryType : Type 0 where
  file dir : VfsEntryType

abbrev pub type_eq : VfsEntryType → VfsEntryType → Bool
type_eq file file = true
type_eq dir dir = true
type_eq _ _ = false

abbrev pub Member : Type 0
Member = VfsEntryType × VfsId

pub record SizeGroup : Type 0 where
  pub entries : List Member
  pub size : ℕ

pub record HashGroup : Type 0 where
  pub entries : List Member
  pub size : ℕ
  pub hash : Hash

instance abbrev pub hash_key : Key Hash
hash_key = record { beq = bytes_eq; beq_iff = bytes_eq_iff }

-- The process-wide counters `DISP_*` of util/mod.rs that the operations on the state change.
pub record Counters : Type 0 where
  pub found_bytes : ℕ
  pub found_files : ℕ
  pub relevant_bytes : ℕ
  pub relevant_files : ℕ
  pub processed_bytes : ℕ
  pub processed_files : ℕ
  pub deduped_bytes : ℕ

pub record State : Type 0 where
  pub tree : Vfs
  pub sizes : List (ℕ × SizeGroup)
  pub hashes : List (Hash × HashGroup)
  pub cache_allowed : Bool
  pub disp : Counters

-- `DISP_DEDUPED_BYTES` starts at `u64::MAX`.
pub new : Bool → State
new cache_allowed = record {
  tree = Vfs.new;
  sizes = [];
  hashes = [];
  cache_allowed = cache_allowed;
  disp = record {
    found_bytes = 0;
    found_files = 0;
    relevant_bytes = 0;
    relevant_files = 0;
    processed_bytes = 0;
    processed_files = 0;
    deduped_bytes = u64_mod - 1;
  };
}

abbrev pub entry : State → VfsId → Outcome VfsEntry
entry s id = index s.tree id

-- A write to `s.tree[id]`.
unfoldable pub modify : State → VfsId → (VfsEntry → VfsEntry) → Outcome State
modify s id f = do tree ← update s.tree id f; ok (record s { tree = tree })

-- `entries.iter().any(|e| e == &(typ,id))`.
abbrev pub has_member : Member → List Member → Bool
has_member m [] = false
has_member (t, i) ((u, j) ∷ ms) = type_eq u t && j == i || has_member (t, i) ms

-- `entries.iter().any(|(_,e)| *e == id)`.
abbrev pub has_id : VfsId → List Member → Bool
has_id i [] = false
has_id i ((u, j) ∷ ms) = j == i || has_id i ms

-- `infuse` of `push_to_size_group`.
pub infuse_size : List (ℕ × SizeGroup) → VfsId → ℕ → VfsEntryType → Outcome (List (ℕ × SizeGroup))
infuse_size sizes id size typ = elim (lookup size sizes) [
  | none ↦ ok (insert size (record { entries = (typ, id) ∷ []; size = size }) sizes)
  | some g ↦ do
    assert (g.size == size)
    ok (
        if has_member (typ, id) g.entries
        then sizes
        else insert size (record g { entries = g.entries ++ (typ, id) ∷ [] }) sizes)
]

-- `infuse` of `push_to_hash_group`. (Sharing the `Arc` changes no value.)
pub infuse_hash :
    List (Hash × HashGroup) → VfsId → ℕ → Hash → VfsEntryType → Outcome (List (Hash × HashGroup))
infuse_hash hashes id size hash typ = elim (lookup hash hashes) [
  | none ↦ ok (insert hash (record { entries = (typ, id) ∷ []; size = size; hash = hash }) hashes)
  | some g ↦ do
    assert (g.size == size)
    assert (bytes_eq g.hash hash)
    ok (
        if has_id id g.entries
        then hashes
        else insert hash (record g { entries = g.entries ++ (typ, id) ∷ [] }) hashes)
]

pub push_to_size_group : State → VfsId → Bool → Bool → Outcome State
unfolding infuse_size
push_to_size_group s id as_file as_dir = do
  e ← entry s id
  ensure e.valid
  let push_file = (do size ← unwrap e.file_size; infuse_size s.sizes id size file)
  let push_dir =
      λ (sizes : List (ℕ × SizeGroup)). (do size ← unwrap e.dir_size; infuse_size sizes id size dir)
  let both = (do
    ensure (not as_file || e.is_file || is_some e.file_size)
    ensure (not as_dir || e.is_dir || is_some e.dir_size)
    sizes ← if as_file then push_file else ok s.sizes
    sizes' ← if as_dir then push_dir sizes else ok sizes
    ok (record s { sizes = sizes' }))
  if e.unique then ok s else both

pub push_to_hash_group : State → VfsId → Bool → Bool → Outcome State
unfolding infuse_hash
push_to_hash_group s id as_file as_dir = do
  e ← entry s id
  ensure e.valid
  let push_file = (do
    size ← unwrap e.file_size
    hash ← unwrap e.file_hash
    infuse_hash s.hashes id size hash file)
  let push_dir = λ (hashes : List (Hash × HashGroup)). (do
    size ← unwrap e.dir_size
    hash ← unwrap e.dir_hash
    infuse_hash hashes id size hash dir)
  let both = (do
    ensure (not as_file || e.is_file || is_some e.file_hash)
    ensure (not as_dir || e.is_dir || is_some e.dir_hash)
    hashes ← if as_file then push_file else ok s.hashes
    hashes' ← if as_dir then push_dir hashes else ok hashes
    ok (record s { hashes = hashes' }))
  if e.unique then ok s else both

unfoldable pub more_than_one_size : State → ℕ → Bool
more_than_one_size s size = elim (lookup size s.sizes) [
  | some g ↦ ltb 1 (length g.entries)
  | none ↦ false
]

unfoldable pub num_hashes : State → Hash → ℕ
num_hashes s hash = elim (lookup hash s.hashes) [ some g ↦ length g.entries | none ↦ 0 ]

abbrev pub more_than_one_hash : State → Hash → Bool
more_than_one_hash s hash = ltb 1 (num_hashes s hash)

-- The four tests of `is_file_read_candidate`, in their order.
unfoldable pub is_file_read_candidate : State → VfsId → Opts → Outcome Bool
unfolding more_than_one_size
is_file_read_candidate s id opts = do
  e ← entry s id
  let fresh = not (is_some e.file_hash) && e.is_file
  let is_zip = zip_by_extension opts e.path
  let by_size = (do
    size ← unwrap e.file_size
    ok (
        fresh
        && more_than_one_size s size
        && leb opts.scan_size_min size
        && leb size opts.scan_size_max))
  do_hash ← if is_zip then ok fresh else by_size
  ok (do_hash || is_zip && e.is_file && not e.is_dir)

-- `disp_add_relevant`: a file without a hash is counted once.
unfoldable pub disp_add_relevant : State → VfsId → Outcome State
unfolding modify
disp_add_relevant s id = do
  e ← entry s id
  let count = (do
    size ← unwrap e.file_size
    s' ← modify s id (λ x. record x { disp_relevated = true })
    ok (record s' {
      disp = record (s.disp) {
        relevant_bytes = add64 s.disp.relevant_bytes size;
        relevant_files = add64 s.disp.relevant_files 1;
      };
    }))
  if not e.disp_relevated && not (is_some e.file_hash) then count else ok s

-- The loop of `for_recursive2` over the children of `id`.
pub for_children : (State → VfsId → Outcome State) → VfsId → List VfsId → State → Outcome State
for_children visit id [] s = ok s
for_children visit id (c ∷ cs) s = do
  assert (not (c == id))
  s' ← visit s c
  for_children visit id cs s'

-- `for_recursive2` with `with_root`. The fuel bounds the depth of the calls.
pub for_recursive2 : ℕ → (State → VfsId → Outcome State) → State → VfsId → Outcome State
unfolding for_children
for_recursive2 zero f s id = err stuck
for_recursive2 (suc fuel) f s id = do
  s' ← f s id
  e ← entry s' id
  for_children (for_recursive2 fuel f) id e.childs s'

abbrev pub revive : VfsEntry → VfsEntry
revive e = record e {
  valid = true;
  is_file = e.is_file || e.was_file;
  is_dir = e.is_dir || e.was_dir;
}

-- The closure of `set_valid`.
pub set_valid_one : State → VfsId → Outcome State
unfolding modify push_to_size_group push_to_hash_group
set_valid_one s id = do
  s1 ← modify s id revive
  e ← entry s1 id
  s2 ←
      if e.is_file && is_some e.file_size
      then unwrap_result (push_to_size_group s1 id true false)
      else ok s1
  if e.is_file && is_some e.file_hash
      then unwrap_result (push_to_hash_group s2 id true false)
      else ok s2

-- A child's index lies behind its parent's, so no chain of calls is longer than the table.
pub set_valid : State → VfsId → Outcome State
set_valid s id = for_recursive2 (suc (length s.tree.entries)) set_valid_one s id

-- What `validate` leaves of an entry whose file has changed.
abbrev pub forget : ℕ → VfsEntry → VfsEntry
forget ctime e = record e {
  file_size = none;
  file_hash = none;
  dir_size = none;
  dir_hash = none;
  dedup_state = none;
  phys = some 0;
  n_extends = none;
  ctime = some ctime;
  valid = true;
}

-- `check.map_or(true, |s| size == Some(s))`.
abbrev pub agrees : Option ℕ → Option ℕ → Bool
agrees none size = true
agrees (some n) size = option_eq size (some n)

pub validate : State → VfsId → ℕ → Option ℕ → Option ℕ → Outcome (State × Bool)
unfolding set_valid modify
validate s id ctime check_file_size check_dir_size = do
  e ← entry s id
  let keep = (do s' ← set_valid s id; ok (s', true))
  let drop = (do s' ← modify s id (forget ctime); ok (s', false))
  if option_eq e.ctime (some ctime)
        && agrees check_file_size e.file_size
        && agrees check_dir_size e.dir_size
      then keep
      else drop
