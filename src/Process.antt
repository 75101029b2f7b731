-- ===== src/Process.antt =====
-- dupion/src/process/mod.rs: hashes of directories, which members of the groups are shadowed, and
-- the groups in the order in which they are printed; `Vfs::for_recursive` of
-- dupion/src/vfs/entry.rs. `blake3` is a parameter: the digest of the bytes it was given.
pub mod Digest
pub mod DirDigest
mod Shadow
mod Shadowed
pub mod Under
mod Walk
mod Examples
use dupion.Base.{
  ℕ, zero, suc, Bool, true, false, not, ◌&&◌, ◌||◌, Option, none, some, is_some, List, [], ◌∷◌,
  ◌++◌, map, length, ltb, leb, ◌==◌, if◌then◌else◌, add64, Outcome, ok, err, panic, stuck, ◌>>=◌,
  ◌>>◌, unwrap, assert, unwrap_result, sort_by,
}
use dupion.FilePath.{
  Bytes, Component, root_dir, cur_dir, parent_dir, normal, FilePath, file_name, bytes_eq,
  component_eq,
}
use dupion.FilePath.Text.{is_utf8}
use dupion.Vfs.{Vfs, VfsEntry, VfsId, Hash, index, update}
use dupion.State.{
  State, VfsEntryType, file, dir, Member, HashGroup, entry, modify, push_to_size_group,
  push_to_hash_group, more_than_one_hash,
}
use dupion.Output.{exists}

-- `<=` on byte strings, and on the pairs that are sorted.
abbrev pub bytes_leb : Bytes → Bytes → Bool
bytes_leb [] bs = true
bytes_leb (a ∷ as') [] = false
bytes_leb (a ∷ as') (b ∷ bs) = ltb a b || a == b && bytes_leb as' bs

abbrev pub Named : Type 0
Named = Hash × Bytes

abbrev pub named_leb : Named → Named → Bool
named_leb (h, n) (k, m) = if bytes_eq h k then bytes_leb n m else bytes_leb h k

-- What a call of `calculate_dir_hash` gives: the size and the hash, or `Err(())`.
abbrev pub Props : Type 0
Props = Option (ℕ × Hash)

-- `path.file_name().map(|s| s.to_str().unwrap()).unwrap_or("")`.
abbrev pub name_of : FilePath → Outcome Bytes
name_of p = elim (file_name p) [ none ↦ ok [] | some n ↦ if is_utf8 n then ok n else err panic ]

-- `size.ok_or(())?` and `hash.ok_or(())?`.
abbrev pub both_or_err : Option ℕ → Option Hash → Props
both_or_err (some size) (some hash) = some (size, hash)
both_or_err _ _ = none

-- The children that exist.
pub existing : State → List VfsId → Outcome (List VfsId)
existing s [] = ok []
existing s (c ∷ cs) = do
  e ← entry s c
  rest ← existing s cs
  ok (if exists e then c ∷ rest else rest)

-- Every child is hashed, also behind one that failed.
pub hash_childs :
    (State → VfsId → Outcome (State × Props))
    → State
    → List VfsId
    → Outcome (State × List (VfsId × Props))
hash_childs visit s [] = ok (s, [])
hash_childs visit s (c ∷ cs) = do
  done ← visit s c
  rest ← hash_childs visit done.0 cs
  ok (rest.0, (c, done.1) ∷ rest.1)

-- The size of all and what is hashed of each; `r?` leaves with the first error.
pub collect : State → List (VfsId × Props) → Outcome (Option (ℕ × List Named))
collect s [] = ok (some (0, []))
collect s ((c, none) ∷ rs) = ok none
collect s ((c, some (size, hash)) ∷ rs) = do
  e ← entry s c
  name ← name_of e.path
  rest ← collect s rs
  ok (elim rest [ none ↦ none | some (total, ns) ↦ some (add64 size total, (hash, name) ∷ ns) ])

-- The bytes that the hasher is given.
abbrev pub hashed_bytes : List Named → Bytes
hashed_bytes [] = []
hashed_bytes ((h, n) ∷ ns) = n ++ h ++ hashed_bytes ns

abbrev pub set_dir_hash : ℕ → Hash → VfsEntry → VfsEntry
set_dir_hash size hash e = record e { dir_size = some size; dir_hash = some hash; valid = true }

module _ (blake3 : Bytes → Hash) where
  -- What the results of the children come to: the size of the directory and its digest.
  unfoldable pub dir_digest : State → List (VfsId × Props) → Outcome Props
  unfolding collect sort_by
  dir_digest s rs = do
    all ← collect s rs
    ok (elim all [
      | none ↦ none
      | some (size, ns) ↦ some (size, blake3 (hashed_bytes (sort_by named_leb ns)))
    ])

  -- From the writes to the entry on.
  pub finish_dir : State → VfsId → ℕ → Hash → Outcome (State × Props)
  finish_dir s id size hash = do
    s1 ← modify s id (set_dir_hash size hash)
    s2 ← unwrap_result (push_to_size_group s1 id false true)
    s3 ← unwrap_result (push_to_hash_group s2 id false true)
    e ← entry s3 id
    let as_file = (do
      file_size ← unwrap e.file_size
      file_hash ← unwrap e.file_hash
      ok (s3, some (file_size, file_hash)))
    if e.is_file then as_file else ok (s3, some (size, hash))

  -- The fuel bounds the depth of the calls.
  pub calculate_dir_hash : ℕ → State → VfsId → Outcome (State × Props)
  unfolding existing hash_childs dir_digest finish_dir
  calculate_dir_hash zero s id = err stuck
  calculate_dir_hash (suc fuel) s id = do
    e ← entry s id
    assert (not (is_some e.dir_hash))
    assert (not (is_some e.dir_size))
    let as_file = (do assert (is_some e.file_size); ok (s, both_or_err e.file_size e.file_hash))
    let as_dir = (do
      cs ← existing s e.childs
      calced ← hash_childs (calculate_dir_hash fuel) s cs
      digest ← dir_digest calced.0 calced.1
      elim digest [
        | none ↦ ok (calced.0, none)
        | some (size, hash) ↦ finish_dir calced.0 id size hash
      ])
    if e.is_file && not e.is_dir then as_file else if not e.is_dir then ok (s, none) else as_dir

-- The loop of `Vfs::for_recursive` over the children of `id`.
pub visit_childs : (Vfs → VfsId → Outcome Vfs) → VfsId → List VfsId → Vfs → Outcome Vfs
visit_childs visit id [] v = ok v
visit_childs visit id (c ∷ cs) v = do
  assert (not (c == id))
  v' ← visit v c
  visit_childs visit id cs v'

pub for_recursive : ℕ → Vfs → VfsId → Bool → (VfsEntry → VfsEntry) → Outcome Vfs
unfolding visit_childs
for_recursive zero v id with_root f = err stuck
for_recursive (suc fuel) v id with_root f = do
  v' ← if with_root then update v id f else ok v
  e ← index v' id
  visit_childs (λ w c. for_recursive fuel w c true f) id e.childs v'

abbrev pub shadow : VfsEntry → VfsEntry
shadow e = record e { dir_shadowed = true; file_shadowed = true }

abbrev pub shadow_dir : VfsEntry → VfsEntry
shadow_dir e = record e { dir_shadowed = true }

-- `find_shadowed`'s two `for_recursive` calls: everything below `id`.
pub shadow_below : State → VfsId → Outcome State
unfolding for_recursive
shadow_below s id = do
  tree ← for_recursive (suc (length s.tree.entries)) s.tree id false shadow
  ok (record s { tree = tree })

abbrev pub is_common : State → Option Hash → Bool
is_common s none = false
is_common s (some hash) = more_than_one_hash s hash

pub shadow_childs : (State → VfsId → Outcome State) → VfsId → List VfsId → State → Outcome State
shadow_childs visit id [] s = ok s
shadow_childs visit id (c ∷ cs) s = do
  assert (not (c == id))
  s' ← visit s c
  shadow_childs visit id cs s'

pub find_shadowed : ℕ → State → VfsId → Outcome State
unfolding shadow_childs shadow_below
find_shadowed zero s id = err stuck
find_shadowed (suc fuel) s id = do
  e ← entry s id
  let common_file = (do s' ← modify s id shadow_dir; shadow_below s' id)
  let deeper = shadow_childs (find_shadowed fuel) id e.childs s
  if not (exists e)
      then ok s
      else if is_common s e.file_hash
      then common_file
      else if is_common s e.dir_hash
      then shadow_below s id
      else deeper

-- `Path`'s order: component by component, the root first, then `.`, `..` and names.
abbrev pub rank : Component → ℕ
rank root_dir = 1
rank cur_dir = 2
rank parent_dir = 3
rank (normal n) = 4

abbrev pub component_leb : Component → Component → Bool
component_leb (normal n) (normal m) = bytes_leb n m
component_leb c d = leb (rank c) (rank d)

abbrev pub path_leb : FilePath → FilePath → Bool
path_leb [] q = true
path_leb (c ∷ p) [] = false
path_leb (c ∷ p) (d ∷ q) = if component_eq c d then path_leb p q else component_leb c d

-- `VfsEntryType::order`.
abbrev pub order : VfsEntryType → ℕ
order file = 2
order dir = 1

abbrev pub Rank : Type 0
Rank = ℕ × FilePath

abbrev pub rank_leb : Rank → Rank → Bool
rank_leb (n, p) (m, q) = ltb n m || n == m && path_leb p q

-- The members of a group with their keys. (The index of a member is always in range.)
pub rank_members : State → List Member → Outcome (List (Rank × Member))
rank_members s [] = ok []
rank_members s ((t, id) ∷ ms) = do
  e ← entry s id
  rest ← rank_members s ms
  ok (((order t, e.path), (t, id)) ∷ rest)

-- A group with its members sorted, and the key of its first member.
pub sort_members : State → HashGroup → Outcome (Rank × HashGroup)
unfolding rank_members sort_by
sort_members s g = do
  ranked ← rank_members s g.entries
  let sorted = sort_by (λ a b. rank_leb a.0 b.0) ranked
  ok (elim sorted [ [] ↦ (0, []) | r ∷ rs ↦ r.0 ], record g { entries = map (λ r. r.1) sorted })

pub sort_groups : State → List (Hash × HashGroup) → Outcome (List (Hash × (Rank × HashGroup)))
unfolding sort_members
sort_groups s [] = ok []
sort_groups s ((hash, g) ∷ gs) = do
  sorted ← sort_members s g
  rest ← sort_groups s gs
  ok ((hash, sorted) ∷ rest)

-- The largest first.
abbrev pub group_leb : Rank × HashGroup → Rank × HashGroup → Bool
group_leb (r, g) (k, h) = ltb h.size g.size || g.size == h.size && rank_leb r k

-- `export`: the state with the members of its groups sorted, and the groups sorted.
pub export : State → Outcome (State × List HashGroup)
unfolding sort_groups sort_by
export s = do
  groups ← sort_groups s s.hashes
  ok (
    record s { hashes = map (λ x. (x.0, x.1.1)) groups },
    map (λ r. r.1) (sort_by group_leb (map (λ x. x.1) groups)),
  )
