-- ===== src/Serialize/Tree.antt =====
-- The tree output ends, and nothing in it panics.
use dupion.Base.{
  ℕ, zero, suc, ◌+◌, ◌<◌, ◌≤◌, ◌≡◌, refl, ap, ◌∙◌, subst, inl, inr, Bool, true, false, none, some,
  Option, List, [], ◌∷◌, length, take, get_elem?, lookup, lt-get_elem?, ltb, ◌==◌, Bool-cases, All,
  Outcome, ok, sort_by, All-insert_by, arith,
}
use dupion.FilePath.{FilePath, is_absolute_path}
use dupion.Vfs.{VfsEntry, VfsId, Hash, cid}
use dupion.Vfs.Tree.{IsTree, IsChild}
use dupion.Output.TreeDiff.Returns.{append-absolute}
use dupion.State.{State, Member, HashGroup, num_hashes, hash_key}
use dupion.Opts.{Opts}
use dupion.Output.{exists, icon2}
use dupion.Output.Tree.{
  Row, rows, dups_of, row_leb, dir_rows, file_or_dir_props, icon3, icon_prio2, or_zero,
}
use dupion.Serialize.{
  Json, member_key, entry_key, root_key, dups, uniq, object, blank, end, field, reduce_path,
  entry_name, member_fields, dupes, row_fields, dir_entry, root_fields, roots_of, print_tree,
}

abbrev Returns {ℓ} : {A : Type ℓ} → Outcome A → Type ℓ
Returns {A} r = (a : A) × (r ≡ ok a)

-- A member of a group whose path can be written.
abbrev pub IsReadable : State → FilePath → Bool → Member → Type 0
IsReadable s root_path force (typ, id) =
    (e : VfsEntry) × (get_elem? s.tree.entries id ≡ some e)
    × Returns (reduce_path e.path root_path force)

abbrev pub IsNamed : State → VfsId → Type 0
IsNamed s id = (e : VfsEntry) × (get_elem? s.tree.entries id ≡ some e) × Returns (entry_name e)

-- Below a root: the children have names in UTF-8, and a hash that an entry shows has a group, which
-- is not empty and whose members have paths in UTF-8.
pub record IsPrintable (s : State) (root_path : FilePath) (force : Bool) : Type 0 where
  pub names :
      (id : VfsId) (e : VfsEntry)
      → get_elem? s.tree.entries id ≡ some e
      → is_absolute_path e.path ≡ true
      → All (IsNamed s) e.childs
  pub groups :
      (id : VfsId) (e : VfsEntry) (h : Hash)
      → get_elem? s.tree.entries id ≡ some e
      → (file_or_dir_props e).1 ≡ some h
      → (g : HashGroup) × (lookup h s.hashes ≡ some g)
        × (0 < length g.entries)
        × All (IsReadable s root_path force) g.entries

All-take : (P : Member → Type 0) (n : ℕ) (ms : List Member) → All P ms → All P (take n ms)
All-take P zero ms h = tt
All-take P (suc n) [] h = tt
All-take P (suc n) (m ∷ ms) h = (h.0, All-take P n ms h.1)

All-sort_by :
    (P : Row → Type 0) (le : Row → Row → Bool) (rs : List Row) → All P rs → All P (sort_by le rs)
unfolding sort_by
All-sort_by P le [] h = tt
All-sort_by P le (r ∷ rs) h = All-insert_by le P r (sort_by le rs) h.0 (All-sort_by P le rs h.1)

module _ (s : State) (tree : IsTree s.tree) (root_path : FilePath) (force : Bool)
    (printable : IsPrintable s root_path force) where
  -- A child of an entry with index `id`, as the output meets it.
  record IsShown (id c : VfsId) : Type 0 where
    pub child : VfsEntry
    pub found : get_elem? s.tree.entries c ≡ some child
    pub below : id < c
    pub absolute : is_absolute_path child.path ≡ true
    pub name : Returns (entry_name child)

  record IsRow (id : VfsId) (r : Row) : Type 0 where
    pub shown : IsShown id r.id
    pub here : exists shown.child ≡ true
    pub hashed : ltb 1 r.dups ≡ true → (h : Hash) × ((file_or_dir_props shown.child).1 ≡ some h)

  member_fields-Returns :
      (ms : List Member)
      → All (IsReadable s root_path force) ms
      → Returns (member_fields s root_path force ms)
  unfolding member_fields
  member_fields-Returns [] h = (end, refl)
  member_fields-Returns ((typ, id) ∷ ms) h =
      let (e, found, (path, read)) = h.0 in
      let (rest, returns) = member_fields-Returns ms h.1 in
      (field (member_key (icon2 typ e.is_dir) path) blank rest, rw (found, read, returns) refl)

  dupes-Returns :
      (g : HashGroup)
      → All (IsReadable s root_path force) g.entries
      → Returns (dupes s root_path force g)
  unfolding dupes
  dupes-Returns g h =
      let (fields, returns) =
        member_fields-Returns (take 4 g.entries)
          (All-take (IsReadable s root_path force) 4 g.entries h) in
      (object fields, rw returns refl)

  -- The number of members that is shown, and that there is a hash if there are any.
  dups_of-Returns :
      (c : VfsId) (e : VfsEntry) (o : Option Hash)
      → get_elem? s.tree.entries c ≡ some e
      → (file_or_dir_props e).1 ≡ o
      → (n : ℕ) × (dups_of s o ≡ ok n)
        × (ltb 1 n ≡ true → (h : Hash) × ((file_or_dir_props e).1 ≡ some h))
  unfolding dups_of num_hashes
  dups_of-Returns c e none found shows = (0, refl, λ h. cc)
  dups_of-Returns c e (some h) found shows =
      let (g, grouped, some_entry, all) = printable.groups c e h found shows in
      let filled : (length g.entries == 0) ≡ false = ground (arith, some_entry) in
      let count : num_hashes s h ≡ length g.entries = rw (num_hashes, grouped) refl in
      (length g.entries, rw (count, filled) refl, λ many. (h, shows))

  rows-Returns :
      (id : VfsId) (cs : List VfsId)
      → All (IsShown id) cs
      → (rs : List Row) × (rows s cs ≡ ok rs) × All (IsRow id) rs
  unfolding rows
  rows-Returns id [] h = ([], refl, tt)
  rows-Returns id (c ∷ cs) h =
      let x = h.0 in
      let (n, counted, hashed) =
        dups_of-Returns c x.child (file_or_dir_props x.child).1 x.found refl in
      let (rs, returns, all) = rows-Returns id cs h.1 in
      elim (Bool-cases (exists x.child)) [
        | inl here ↦
            let r : Row = record {
              dups = n;
              id = c;
              size = or_zero (file_or_dir_props x.child).0;
              prio = icon_prio2 x.child;
            } in
            let row : IsRow id r = record { shown = x; here = here; hashed = hashed } in
            (r ∷ rs, rw (x.found, here, counted, returns) refl, (row, all))
        | inr away ↦ (rs, rw (x.found, away, returns) refl, all)
      ]

  row_fields-Returns :
      (visit : VfsId → Outcome Json) (id : VfsId) (rs : List Row)
      → ((c : VfsId) (x : IsShown id c) → exists x.child ≡ true → Returns (visit c))
      → All (IsRow id) rs
      → Returns (row_fields visit s root_path force rs)
  unfolding row_fields
  row_fields-Returns visit id [] each h = (end, refl)
  row_fields-Returns visit id (r ∷ rs) each h =
      let row = h.0 in
      let x = row.shown in
      let (name, named) = x.name in
      let (rest, returns) = row_fields-Returns visit id rs each h.1 in
      elim (Bool-cases (ltb 1 r.dups)) [
        | inl many ↦
            let (hash, shows) = row.hashed many in
            let (g, grouped, some_entry, all) = printable.groups r.id x.child hash x.found shows in
            let (value, made) = dupes-Returns g all in
            (
              field (entry_key dups (icon3 x.child) name r.size) value rest,
              rw (x.found, named, many, shows, grouped, made, returns) refl,
            )
        | inr single ↦
            let (value, made) = each r.id x row.here in
            (
              field (entry_key uniq (icon3 x.child) name r.size) value rest,
              rw (x.found, named, single, made, returns) refl,
            )
      ]

  childs-IsShown :
      (id : VfsId) (e : VfsEntry) (cs : List VfsId)
      → is_absolute_path e.path ≡ true
      → All (λ c. (id < c) × IsChild s.tree e.path c) cs
      → All (IsNamed s) cs
      → All (IsShown id) cs
  childs-IsShown id e [] absolute h named = tt
  childs-IsShown id e (c ∷ cs) absolute h named =
      let k = h.0.1 in
      let (f, found, name) = named.0 in
      let same : f ≡ k.entry = let found_k = k.found in cc in
      (
        record {
          child = k.entry;
          found = k.found;
          below = h.0.0;
          absolute = ap is_absolute_path k.path ∙ append-absolute e.path (k.name ∷ []) absolute;
          name = subst (λ y. Returns (entry_name y)) same name;
        },
        childs-IsShown id e cs absolute h.1 named.1,
      )

  dir_entry-Returns :
      (fuel : ℕ) (id : VfsId) (e : VfsEntry)
      → get_elem? s.tree.entries id ≡ some e
      → exists e ≡ true
      → is_absolute_path e.path ≡ true
      → length s.tree.entries ≤ id + fuel
      → Returns (dir_entry fuel s root_path force id)
  unfolding dir_entry dir_rows
  dir_entry-Returns zero id e found here absolute enough =
      let inside = lt-get_elem? s.tree.entries id found in absurd (omega arith)
  dir_entry-Returns (suc fuel) id e found here absolute enough =
      let (rs, listed, all) = rows-Returns id e.childs (
        childs-IsShown id e e.childs absolute (tree.childs id e found)
          (printable.names id e found absolute)) in
      let (fields, returns) =
        row_fields-Returns (dir_entry fuel s root_path force) id (sort_by row_leb rs)
          (λ c x exist.
            dir_entry-Returns fuel c x.child x.found exist x.absolute
              (let later = x.below in omega (arith, later, enough)))
          (All-sort_by (IsRow id) row_leb rs all) in
      (object fields, rw (found, here, listed, returns) refl)

-- A root that can be printed: it resolves to an entry with an absolute path in UTF-8, seen from
-- which the rest can be printed.
abbrev pub IsPrintableRoot : State → Bool → FilePath → Type 0
IsPrintableRoot s force p =
    (id : VfsId) × (e : VfsEntry) × (cid s.tree p ≡ ok (some id))
    × (get_elem? s.tree.entries id ≡ some e)
    × (is_absolute_path e.path ≡ true)
    × Returns (reduce_path e.path e.path true)
    × IsPrintable s e.path force

module _ (s : State) (tree : IsTree s.tree) (force : Bool) where
  abbrev visit_root : VfsId → FilePath → Outcome Json
  visit_root id path = dir_entry (suc (length s.tree.entries)) s path force id

  roots-Returns :
      (ps : List FilePath)
      → All (IsPrintableRoot s force) ps
      → (ids : List VfsId) × (roots_of s ps ≡ ok ids) × Returns (root_fields visit_root s ids)
  unfolding roots_of root_fields
  roots-Returns [] h = ([], refl, (end, refl))
  roots-Returns (p ∷ ps) h =
      let (id, e, resolves, found, absolute, (name, named), printable) = h.0 in
      let (ids, all, (rest, returns)) = roots-Returns ps h.1 in
      elim (Bool-cases (exists e)) [
        | inl here ↦
            let (value, made) =
              dir_entry-Returns s tree e.path force printable (suc (length s.tree.entries)) id e
                found here absolute (omega arith) in
            (
              id ∷ ids,
              rw (resolves, all) refl,
              (field (root_key name) value rest, rw (found, here, named, made, returns) refl),
            )
        | inr away ↦ (id ∷ ids, rw (resolves, all) refl, (rest, rw (found, away) returns))
      ]

-- On a well-formed tree whose roots resolve and can be printed, with names and paths in UTF-8 and a
-- group with readable members for each hash that is shown, the tree output returns: the recursion
-- ends within the depth of the table, and no assertion or `unwrap` fails.
pub print_tree-Returns :
    (s : State) (opts : Opts)
    → IsTree s.tree
    → All (IsPrintableRoot s opts.force_absolute_paths) opts.paths
    → (out : Json) × (print_tree s opts ≡ ok out)
unfolding print_tree
print_tree-Returns s opts tree roots =
    let (ids, all, (fields, returns)) =
      roots-Returns s tree opts.force_absolute_paths opts.paths roots in
    (object fields, rw (all, returns) refl)
