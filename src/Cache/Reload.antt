-- ===== src/Cache/Reload.antt =====
-- What survives the cache file: the tree with its paths, and what was known of each file.
use dupion.Base.{
  ℕ, zero, suc, ◌≡◌, refl, sym, subst, Bool, true, false, not, ◌&&◌, ◌||◌, Option, none, some, List,
  [], ◌∷◌, map, length, get_elem?, All, All-map, append-nil, ok, arith,
}
use dupion.FilePath.{Bytes, FilePath}
use dupion.FilePath.Text.{path_text, is_utf8}
use dupion.Vfs.{Vfs, VfsEntry, VfsId, Hash, to_plc, cid}
use dupion.Vfs.Tree.{IsTree, IsChild, ChildsAt, Extends, to_plc-append}
use dupion.Vfs.Resolve.{cid-Extends}
use dupion.State.{State}
use dupion.Cache.Text.{StoredPath, parse_path-path_text}
use dupion.Cache.{
  EntryIntermediate, CacheFile, hash_size, from_entry, into_entry, intern_hash_raw, traverse,
  serialize, deserialize, store_vfs, load_vfs,
}

-- An entry as it is after a restart. The physical offset is not taken from the file.
abbrev pub reloaded : VfsEntry → VfsEntry
reloaded e = record {
  path = e.path;
  plc = to_plc e.path;
  ctime = e.ctime;
  file_size = e.file_size;
  dir_size = none;
  file_hash = e.file_hash;
  dir_hash = none;
  childs = e.childs;
  valid = false;
  is_file = false;
  is_dir = false;
  was_file = e.is_file || e.was_file && not e.valid;
  was_dir = e.is_dir || e.was_dir && not e.valid;
  file_shadowed = false;
  dir_shadowed = false;
  unique = false;
  disp_relevated = false;
  failure = e.failure;
  treediff_stat = 0;
  dedup_state = e.dedup_state;
  phys = none;
  n_extends = none;
}

abbrev pub HasHashSize : Option Hash → Type 0
HasHashSize none = Unit {0}
HasHashSize (some h) = length h ≡ hash_size

-- An entry with a path of the tree in UTF-8, under its own name, whose hash has its size.
pub record Storable (e : VfsEntry) : Type 0 where
  pub path : StoredPath e.path
  pub text : is_utf8 (path_text e.path) ≡ true
  pub plc : e.plc ≡ to_plc e.path
  pub hash : HasHashSize e.file_hash

intern_hash_raw-HasHashSize : (o : Option Hash) → HasHashSize o → intern_hash_raw o ≡ ok o
unfolding intern_hash_raw
intern_hash_raw-HasHashSize none h = refl
intern_hash_raw-HasHashSize (some x) h = ground (arith, h)

entry_round :
    (e : VfsEntry)
    → Storable e
    → (m : EntryIntermediate) × (from_entry e ≡ ok m) × (into_entry m ≡ ok (reloaded e))
unfolding from_entry into_entry
entry_round e h =
    let m : EntryIntermediate = record {
      path = path_text e.path;
      ctime = e.ctime;
      file_size = e.file_size;
      file_hash = e.file_hash;
      childs = e.childs;
      was_file = e.is_file || e.was_file && not e.valid;
      was_dir = e.is_dir || e.was_dir && not e.valid;
      upgrade = e.failure;
      dedup_state = e.dedup_state;
      phys = e.phys;
    } in
    (
      m,
      rw h.text refl,
      rw (intern_hash_raw-HasHashSize e.file_hash h.hash, parse_path-path_text e.path h.path) refl,
    )

entries_round :
    (es : List VfsEntry)
    → All Storable es
    → (ms : List EntryIntermediate) × (traverse from_entry es ≡ ok ms)
      × (traverse into_entry ms ≡ ok (map reloaded es))
unfolding traverse
entries_round [] h = ([], refl, refl)
entries_round (e ∷ es) h =
    let (m, to, from) = entry_round e h.0 in
    let (ms, tos, froms) = entries_round es h.1 in
    (m ∷ ms, rw (to, tos) refl, rw (from, froms) refl)

map_found :
    (f : VfsEntry → VfsEntry) (xs : List VfsEntry) (i : ℕ) (a : VfsEntry)
    → get_elem? xs i ≡ some a
    → get_elem? (map f xs) i ≡ some (f a)
map_found f [] i a h = cc
map_found f (x ∷ xs) zero a h = let e : x ≡ a = cc in rw e refl
map_found f (x ∷ xs) (suc i) a h = map_found f xs i a h

map_origin :
    (f : VfsEntry → VfsEntry) (xs : List VfsEntry) (i : ℕ) (b : VfsEntry)
    → get_elem? (map f xs) i ≡ some b
    → (a : VfsEntry) × (get_elem? xs i ≡ some a) × (b ≡ f a)
map_origin f [] i b h = cc
map_origin f (x ∷ xs) zero b h = (x, refl, cc)
map_origin f (x ∷ xs) (suc i) b h = map_origin f xs i b h

abbrev pub reloaded_tree : Vfs → Vfs
reloaded_tree v = record { entries = map reloaded v.entries }

IsChild-reloaded :
    (v : Vfs) (p : FilePath) (c : VfsId) → IsChild v p c → IsChild (reloaded_tree v) p c
IsChild-reloaded v p c h = record {
  entry = reloaded h.entry;
  found = map_found reloaded v.entries c h.entry h.found;
  name = h.name;
  plain = h.plain;
  path = h.path;
  plc = rw h.path (to_plc-append p h.name);
}

reloaded_tree-IsTree : (v : Vfs) → IsTree v → IsTree (reloaded_tree v)
reloaded_tree-IsTree v t = record {
  top = reloaded t.top;
  root = map_found reloaded v.entries 0 t.top t.root;
  root_path = t.root_path;
  childs = λ id e found.
      let (a, there, same) = map_origin reloaded v.entries id e found in
      subst (ChildsAt (reloaded_tree v) id) (sym same) (
        All-map _ _ (λ c h. (h.0, IsChild-reloaded v a.path c h.1)) a.childs (t.childs id a there));
}

All-get_elem? :
    (xs : List VfsEntry) (i : ℕ) (x : VfsEntry)
    → All Storable xs
    → get_elem? xs i ≡ some x
    → Storable x
All-get_elem? [] i x h e = cc
All-get_elem? (y ∷ xs) zero x h e = let e' : y ≡ x = cc in subst Storable e' h.0
All-get_elem? (y ∷ xs) (suc i) x h e = All-get_elem? xs i x h.1 e

reloaded_tree-Extends : (v : Vfs) → All Storable v.entries → Extends v (reloaded_tree v)
reloaded_tree-Extends v h = record {
  kept = λ id e found. (
    reloaded e,
    map_found reloaded v.entries id e found,
    record {
      path = refl;
      plc = sym (All-get_elem? v.entries id e h found).plc;
      more = [];
      childs = sym (append-nil e.childs);
    },
  );
}

-- What is left of the state `s` in `t` when its cache file is loaded there. The file is written when
-- that is forced, or when a change was notified, and not otherwise.
pub record Reloads (decode : Bytes → Option Bytes) (s t : State) : Type 0 where
  pub file : CacheFile
  pub out : State
  pub forced : (notif : Bool) → store_vfs s true notif ≡ ok (notif, some file)
  pub notified : store_vfs s false true ≡ ok (false, some file)
  pub unchanged : store_vfs s false false ≡ ok (false, none)
  pub loaded : load_vfs decode t file ≡ ok out
  pub entries : out.tree ≡ reloaded_tree s.tree
  pub tree : IsTree out.tree
  pub resolves :
      (q : FilePath) (j : VfsId) → cid s.tree q ≡ ok (some j) → cid out.tree q ≡ ok (some j)

-- If both states allow the cache, and a state has a well-formed tree of which every entry can be
-- stored, the tree is written when that is forced or a change was notified, and not otherwise. A state
-- that loads the file gets each entry as `reloaded` says: it has a well-formed tree again, in which
-- `cid` finds what it found before.
pub store_vfs-load_vfs :
    (decode : Bytes → Option Bytes) (s t : State)
    → s.cache_allowed ≡ true
    → t.cache_allowed ≡ true
    → IsTree s.tree
    → All Storable s.tree.entries
    → Reloads decode s t
unfolding store_vfs load_vfs serialize deserialize
store_vfs-load_vfs decode s t allowed allowed' tree storable =
    let (ms, to, from) = entries_round s.tree.entries storable in
    record {
      file = CacheFile.packed (some 4) ms;
      out = record t { tree = reloaded_tree s.tree };
      forced = λ notif. rw (allowed, to) refl;
      notified = rw (allowed, to) refl;
      unchanged = rw allowed refl;
      loaded = rw (allowed', from) refl;
      entries = refl;
      tree = reloaded_tree-IsTree s.tree tree;
      resolves = λ q j.
          cid-Extends s.tree (reloaded_tree s.tree) q j (reloaded_tree-Extends s.tree storable);
    }
