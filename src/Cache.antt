-- ===== src/Cache.antt =====
-- dupion/src/vfs/deser.rs: the entries of the tree as they are stored in the cache file, and back.
-- The encodings (zstd, MessagePack, JSON, base64) are libraries' code: a stored file is the list of
-- the records that they carry, and `decode` stands for base64. Interning a hash changes no value.
pub mod Text
pub mod Reload
mod Examples
use dupion.Base.{
  ℕ, Bool, true, false, not, ◌&&◌, ◌||◌, Option, none, some, is_some, List, [], ◌∷◌, length, ltb,
  ◌==◌, if◌then◌else◌, Outcome, ok, err, panic, failed, ◌>>=◌, ◌>>◌, ensure, assert, unwrap,
}
use dupion.FilePath.{Bytes, FilePath}
use dupion.Vfs.{Vfs, VfsEntry, VfsId, Hash, to_plc}
use dupion.State.{State}
use dupion.FilePath.Text.{to_str}
use dupion.Cache.Text.{parse_path}

-- `EntryIntermediateMsgPack` and `EntryIntermediateJson`, which have the same fields.
pub record EntryIntermediate : Type 0 where
  pub path : Bytes
  pub ctime : Option ℕ
  pub file_size : Option ℕ
  pub file_hash : Option Bytes
  pub childs : List VfsId
  pub was_file : Bool
  pub was_dir : Bool
  pub upgrade : Option ℕ
  pub dedup_state : Option Bool
  pub phys : Option ℕ

abbrev pub hash_size : ℕ
hash_size = 32

abbrev pub base64_buf_in : ℕ
base64_buf_in = 44

abbrev pub cache_version : ℕ
cache_version = 4

pub from_entry : VfsEntry → Outcome EntryIntermediate
from_entry e = do
  path ← unwrap (to_str e.path)
  ok (record {
    path = path;
    ctime = e.ctime;
    file_size = e.file_size;
    file_hash = e.file_hash;
    childs = e.childs;
    was_file = e.is_file || e.was_file && not e.valid;
    was_dir = e.is_dir || e.was_dir && not e.valid;
    upgrade = e.failure;
    dedup_state = e.dedup_state;
    phys = e.phys;
  })

-- The entry of a stored record whose hash was read as `hash`.
abbrev pub with_hash : EntryIntermediate → Option Hash → VfsEntry
with_hash m hash = record {
  path = parse_path m.path;
  plc = to_plc (parse_path m.path);
  ctime = m.ctime;
  file_size = m.file_size;
  dir_size = none;
  file_hash = hash;
  dir_hash = none;
  childs = m.childs;
  valid = false;
  is_file = false;
  is_dir = false;
  was_file = m.was_file;
  was_dir = m.was_dir;
  file_shadowed = false;
  dir_shadowed = false;
  unique = false;
  disp_relevated = false;
  failure = m.upgrade;
  treediff_stat = 0;
  dedup_state = m.dedup_state;
  phys = none;
  n_extends = none;
}

-- `intern_hash_raw` under `and_then`.
pub intern_hash_raw : Option Bytes → Outcome (Option Hash)
intern_hash_raw none = ok none
intern_hash_raw (some h) = if length h == hash_size then ok (some h) else err failed

pub into_entry : EntryIntermediate → Outcome VfsEntry
unfolding intern_hash_raw
into_entry m = do hash ← intern_hash_raw m.file_hash; ok (with_hash m hash)

-- `decode_and_intern_hash_base64` under `and_then`: what is too long is an old hash, and dropped.
pub decode_hash : (Bytes → Option Bytes) → Option Bytes → Outcome (Option Hash)
decode_hash decode none = ok none
decode_hash decode (some h) =
    let decoded = (do
      ensure (is_some (decode h))
      bytes ← unwrap (decode h)
      ensure (length bytes == hash_size)
      ok (some bytes)) in
    if ltb base64_buf_in (length h) then ok none else decoded

-- `EntryIntermediateJson::into_entry`.
pub into_entry_json : (Bytes → Option Bytes) → EntryIntermediate → Outcome VfsEntry
into_entry_json decode m = do hash ← decode_hash decode m.file_hash; ok (with_hash m hash)

pub traverse : {A B : Type 0} → (A → Outcome B) → List A → Outcome (List B)
traverse f [] = ok []
traverse f (x ∷ xs) = do y ← f x; ys ← traverse f xs; ok (y ∷ ys)

-- What a cache file holds: a header, if there is one, and the records; or the old JSON form.
pub data CacheFile : Type 0 where
  packed : Option ℕ → List EntryIntermediate → CacheFile
  json : List EntryIntermediate → CacheFile

-- `VfsEntriesSerialize`.
unfoldable pub serialize : Vfs → Outcome CacheFile
unfolding from_entry traverse
serialize v = do ms ← traverse from_entry v.entries; ok (packed (some cache_version) ms)

-- `VfsEntriesMsgPack::deserialize` and `VfsEntriesJson::deserialize`. Of an empty sequence the size less
-- one is asked for, which is no capacity that a vector can have.
unfoldable pub deserialize : (Bytes → Option Bytes) → CacheFile → Outcome (List VfsEntry)
unfolding into_entry into_entry_json traverse
deserialize decode (packed none []) = err panic
deserialize decode (packed none (m ∷ ms)) = err failed
deserialize decode (packed (some version) ms) =
    if version == cache_version then traverse into_entry ms else err failed
deserialize decode (json ms) = traverse (into_entry_json decode) ms

-- `try_eventually_store_vfs`, with `VFS_STORE_NOTIF`: the flag left, and the file if one is written.
unfoldable pub store_vfs : State → Bool → Bool → Outcome (Bool × Option CacheFile)
unfolding serialize
store_vfs s force notif =
    let write = λ (left : Bool). (do file ← serialize s.tree; ok (left, some file)) in
    if not s.cache_allowed
    then ok (notif, none)
    else if force
    then write notif
    else if notif
    then write false
    else ok (false, none)

-- `try_eventually_load_vfs` on the file at the path of the cache. The groups stay as they are.
unfoldable pub load_vfs : (Bytes → Option Bytes) → State → CacheFile → Outcome State
unfolding deserialize
load_vfs decode s file =
    let read = (do
      entries ← deserialize decode file
      ok (record s { tree = record { entries = entries } })) in
    if s.cache_allowed then read else ok s
