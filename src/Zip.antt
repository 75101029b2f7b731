-- ===== src/Zip.antt =====
-- dupion/src/zip/mod.rs: `decode_zip`, which makes entries for the members of an archive. What the
-- archive's reader gives is a parameter.
pub mod Members
pub mod Errors
mod Examples
use dupion.Base.{
  ℕ, ◌+◌, Bool, true, false, not, Option, none, some, List, [], ◌∷◌, ◌++◌, length, leb,
  if◌then◌else◌, Outcome, ok, err, stuck, ◌>>=◌, ◌>>◌, assert, unwrap_result,
}
use dupion.FilePath.{FilePath, Bytes, push}
use dupion.Vfs.{VfsId, VfsEntry, Hash, cid, cid_and_create}
use dupion.State.{State, entry, modify, push_to_size_group, push_to_hash_group}

-- What a call of `read` on a member gives.
pub data MemberRead : Type 0 where
  at_end broken : MemberRead
  chunk : Bytes → MemberRead

-- What a call of `next_header2` gives: no more members, an error, or a member with what its reads
-- give. Its name is the components of the path, if it has one.
pub data Header : Type 0 where
  no_more bad_header : Header
  member : Bool → Option FilePath → List MemberRead → Header

-- `Path::join`.
abbrev pub join : FilePath → FilePath → FilePath
join p [] = p
join p (c ∷ cs) = join (push p c) cs

-- The bytes of a member, unless a read fails.
pub read_member : List MemberRead → Bytes → Outcome (Option Bytes)
read_member [] bytes = err stuck
read_member (at_end ∷ rs) bytes = ok (some bytes)
read_member (broken ∷ rs) bytes = ok none
read_member (chunk bs ∷ rs) bytes = read_member rs (bytes ++ bs)

abbrev pub set_member : Hash → ℕ → VfsEntry → VfsEntry
set_member hash size e = record e {
  is_dir = false;
  is_file = true;
  file_size = some size;
  file_hash = some hash;
  phys = none;
  valid = true;
}

-- The entry of a member that was read.
pub store_member : (Bytes → Hash) → FilePath → Bytes → State → Outcome State
store_member blake3 path bytes s = do
  made ← cid_and_create s.tree path
  let s1 = record s { tree = made.0 }
  e ← entry s1 made.1
  assert (not e.is_dir)
  s2 ← modify s1 made.1 (set_member (blake3 bytes) (length bytes))
  s3 ← unwrap_result (push_to_size_group s2 made.1 true false)
  unwrap_result (push_to_hash_group s3 made.1 true false)

-- The loop `'z`, with `error_counter`, and whether it ends without an error. `try_counted!` goes on
-- with the next header until the counter is at 16.
pub decode_members : (Bytes → Hash) → FilePath → List Header → ℕ → State → Outcome (State × Bool)
unfolding read_member store_member
decode_members blake3 zip_path [] error_counter s = err stuck
decode_members blake3 zip_path (no_more ∷ hs) error_counter s = ok (s, true)
decode_members blake3 zip_path (bad_header ∷ hs) error_counter s =
    let rest = decode_members blake3 zip_path hs (error_counter + 1) s in
    if leb 16 (error_counter + 1) then ok (s, false) else rest
decode_members blake3 zip_path (member true (some name) reads ∷ hs) error_counter s = do
  read ← read_member reads []
  let counted = decode_members blake3 zip_path hs (error_counter + 1) s
  elim read [
    | none ↦ if leb 16 (error_counter + 1) then ok (s, false) else counted
    | some bytes ↦ do
      s' ← store_member blake3 (join zip_path name) bytes s
      decode_members blake3 zip_path hs 0 s'
  ]
decode_members blake3 zip_path (member regular name reads ∷ hs) error_counter s =
    decode_members blake3 zip_path hs 0 s

abbrev pub set_failure : VfsEntry → VfsEntry
set_failure e = record e { failure = some 1 }

-- What is done when an archive cannot be opened or decoded.
pub upgrade : FilePath → State → Outcome State
upgrade zip_path s = do
  found ← cid s.tree zip_path
  elim found [ none ↦ ok s | some id ↦ modify s id set_failure ]

-- The state, and whether the result is `Ok`.
pub decode_zip : (Bytes → Hash) → FilePath → List Header → State → Outcome (State × Bool)
unfolding decode_members upgrade
decode_zip blake3 zip_path hs s = do
  done ← decode_members blake3 zip_path hs 0 s
  let marked = (do s' ← upgrade zip_path done.0; ok (s', false))
  if done.1 then ok done else marked

-- `open_zip`, where `opens` is whether the builder opens the stream.
pub open_zip : Bool → FilePath → State → Outcome (State × Bool)
unfolding upgrade
open_zip opens zip_path s =
    let marked = (do s' ← upgrade zip_path s; ok (s', false)) in
    if opens then ok (s, true) else marked
