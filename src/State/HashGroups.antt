-- ===== src/State/HashGroups.antt =====
-- The table by hash: pushing an entry adds its index to the group of its hash, unless the group
-- already has that index in either type.
use dupion.Base.{
  ℕ, ◌≡◌, refl, sym, ap, ◌∙◌, subst, inl, inr, Bool, true, false, ◌||◌, Option, none, some, List,
  [], ◌∷◌, ◌++◌, get_elem?, ◌==◌, ==_iff, Bool-cases, Option-cases, arith, lookup, insert,
  lookup-insert, Outcome, ok,
}
use dupion.FilePath.{bytes_eq}
use dupion.FilePath.Laws.{bytes_eq_refl, bytes_eq_iff}
use dupion.Vfs.{VfsEntry, VfsId, Hash}
use dupion.State.{
  State, VfsEntryType, file, dir, Member, HashGroup, has_id, infuse_hash, push_to_hash_group,
  hash_key,
}
use dupion.State.Groups.{for_file, for_dir, size_as, or-true, or-absorb}

abbrev pub hash_as : VfsEntryType → VfsEntry → Option Hash
hash_as file e = e.file_hash
hash_as dir e = e.dir_hash

abbrev pub has_in : Option HashGroup → VfsId → Bool
has_in none id = false
has_in (some g) id = has_id id g.entries

-- Whether the group of `hash` has the index.
abbrev pub in_hash_group : List (Hash × HashGroup) → Hash → VfsId → Bool
in_hash_group hashes hash = has_in (lookup hash hashes)

abbrev pub AllDistinctIds : List Member → Type 0
AllDistinctIds [] = Unit {0}
AllDistinctIds (m ∷ ms) = (has_id m.1 ms ≡ false) × AllDistinctIds ms

-- Each group has the hash under which it is filed, and no index twice.
abbrev pub IsHashTable : List (Hash × HashGroup) → Type 0
IsHashTable hashes =
    (k : Hash) (g : HashGroup) → lookup k hashes ≡ some g → (g.hash ≡ k) × AllDistinctIds g.entries

-- The group of `hash`, if there is one, is for files of `size` bytes.
abbrev pub HasSize : List (Hash × HashGroup) → Hash → ℕ → Type 0
HasSize hashes hash size = (g : HashGroup) → lookup hash hashes ≡ some g → g.size ≡ size

has_id-append :
    (i : VfsId) (n : Member) (ms : List Member)
    → has_id i (ms ++ n ∷ []) ≡ (has_id i ms || n.1 == i)
has_id-append i (t, j) [] = ground arith
has_id-append i (t, j) ((u, k) ∷ ms) = rw (has_id-append i (t, j) ms) (ground arith)

new_index :
    (id j : VfsId) (typ : VfsEntryType) → has_id j ((typ, id) ∷ []) ≡ (has_in none j || id == j)
new_index id j typ = ground arith

AllDistinctIds-append :
    (ms : List Member) (m : Member)
    → AllDistinctIds ms
    → has_id m.1 ms ≡ false
    → AllDistinctIds (ms ++ m ∷ [])
AllDistinctIds-append [] m d h = (refl, tt)
AllDistinctIds-append ((u, j) ∷ ms) (t, i) d h = (
  rw (has_id-append j (t, i) ms, d.0) (ground arith),
  AllDistinctIds-append ms (t, i) d.1 (ground arith),
)

-- What a push of an index into the table by hash leaves.
pub record HashPushed (hashes : List (Hash × HashGroup)) (hash : Hash) (size : ℕ) (id : VfsId)
    (r : Outcome (List (Hash × HashGroup))) : Type 0 where
  pub out : List (Hash × HashGroup)
  pub returns : r ≡ ok out
  pub table : IsHashTable out
  pub sized : HasSize out hash size
  pub others : (k : Hash) → bytes_eq hash k ≡ false → lookup k out ≡ lookup k hashes
  pub same_group : (j : VfsId) → in_hash_group out hash j ≡ (in_hash_group hashes hash j || id == j)

lookup-insert_here :
    (hash : Hash) (g : HashGroup) (hashes : List (Hash × HashGroup))
    → lookup hash (insert hash g hashes) ≡ some g
lookup-insert_here hash g hashes = lookup-insert hash hash g hashes ∙ rw (bytes_eq_refl hash) refl

lookup-insert_other :
    (hash k : Hash) (g : HashGroup) (hashes : List (Hash × HashGroup))
    → bytes_eq hash k ≡ false
    → lookup k (insert hash g hashes) ≡ lookup k hashes
lookup-insert_other hash k g hashes h = lookup-insert hash k g hashes ∙ rw h refl

insert-IsHashTable :
    (hash : Hash) (g : HashGroup) (hashes : List (Hash × HashGroup))
    → IsHashTable hashes
    → g.hash ≡ hash
    → AllDistinctIds g.entries
    → IsHashTable (insert hash g hashes)
insert-IsHashTable hash g hashes t named distinct k h e = elim (Bool-cases (bytes_eq hash k)) [
  | inl same ↦
      let key : hash ≡ k = (bytes_eq_iff hash k).0 same in
      let it : some g ≡ some h =
        sym (lookup-insert_here hash g hashes)
        ∙ ap (λ i. lookup i (insert hash g hashes)) key
        ∙ e in
      let g_h : g ≡ h = cc in
      subst (λ x. (x.hash ≡ k) × AllDistinctIds x.entries) g_h (named ∙ key, distinct)
  | inr other ↦ t k h (sym (lookup-insert_other hash k g hashes other) ∙ e)
]

-- A group that has the old indices and the new one is written.
insert-HashPushed :
    (hashes : List (Hash × HashGroup)) (id size : ℕ) (hash : Hash) (g : HashGroup)
    → IsHashTable hashes
    → g.hash ≡ hash
    → g.size ≡ size
    → AllDistinctIds g.entries
    → ((j : VfsId) → has_id j g.entries ≡ (in_hash_group hashes hash j || id == j))
    → HashPushed hashes hash size id (ok (insert hash g hashes))
insert-HashPushed hashes id size hash g t named long distinct has =
    let here = lookup-insert_here hash g hashes in
    record {
      out = insert hash g hashes;
      returns = refl;
      table = insert-IsHashTable hash g hashes t named distinct;
      sized = λ h e.
          let it : some g ≡ some h = sym here ∙ e in
          let g_h : g ≡ h = cc in subst (λ x. x.size ≡ size) g_h long;
      others = λ k h. lookup-insert_other hash k g hashes h;
      same_group = λ j. ap (λ o. has_in o j) here ∙ has j;
    }

infuse_hash-HashPushed :
    (hashes : List (Hash × HashGroup)) (id size : ℕ) (hash : Hash) (typ : VfsEntryType)
    → IsHashTable hashes
    → HasSize hashes hash size
    → HashPushed hashes hash size id (infuse_hash hashes id size hash typ)
unfolding infuse_hash
infuse_hash-HashPushed hashes id size hash typ t sized = elim (Option-cases (lookup hash hashes)) [
  | inl none_yet ↦
      rw (none_yet, infuse_hash)
        (insert-HashPushed hashes id size hash
          (record { entries = (typ, id) ∷ []; size = size; hash = hash }) t refl refl (refl, tt)
          (λ j. new_index id j typ ∙ ap (λ o. has_in o j || id == j) (sym none_yet)))
  | inr (g, there) ↦
      let (same, distinct) = t hash g there in
      let long = sized g there in
      elim (Bool-cases (has_id id g.entries)) [
        | inl old ↦
            rw
              (
                there,
                infuse_hash,
                (==_iff g.size size).1 long,
                (bytes_eq_iff g.hash hash).1 same,
                old,
              )
              (record {
                out = hashes;
                returns = refl;
                table = t;
                sized = sized;
                others = λ k h. refl;
                same_group = λ j. or-absorb (in_hash_group hashes hash j) (id == j) (λ e.
                    subst (λ x. in_hash_group hashes hash x ≡ true) ((==_iff id j).0 e)
                      (ap (λ o. has_in o id) there ∙ old));
              })
        | inr fresh ↦
            rw
              (
                there,
                infuse_hash,
                (==_iff g.size size).1 long,
                (bytes_eq_iff g.hash hash).1 same,
                fresh,
              )
              (insert-HashPushed hashes id size hash
                (record g { entries = g.entries ++ (typ, id) ∷ [] }) t same long
                (AllDistinctIds-append g.entries (typ, id) distinct fresh)
                (λ j.
                  has_id-append j (typ, id) g.entries
                  ∙ ap (λ o. has_in o j || id == j) (sym there)))
      ]
]

-- What a push of an entry into the table of hashes leaves.
pub record HashGrouped (s : State) (hash : Hash) (size : ℕ) (id : VfsId) (r : Outcome State)
    : Type 0 where
  pub out : State
  pub returns : r ≡ ok out
  pub table : IsHashTable out.hashes
  pub sized : HasSize out.hashes hash size
  pub same_group :
      (j : VfsId) → in_hash_group out.hashes hash j ≡ (in_hash_group s.hashes hash j || id == j)
  pub others : (k : Hash) → bytes_eq hash k ≡ false → lookup k out.hashes ≡ lookup k s.hashes
  pub tree : out.tree ≡ s.tree
  pub sizes : out.sizes ≡ s.sizes

-- On a well-formed table, pushing a validated entry that is not unique and has its size and hash
-- returns if the group of its hash, if there is one, is of its size. The group then has the entry's index, once in either
-- type, besides those it had; no other group, the tree or the sizes change.
pub push_to_hash_group-HashGrouped :
    (s : State) (id size : ℕ) (hash : Hash) (e : VfsEntry) (t : VfsEntryType)
    → IsHashTable s.hashes
    → HasSize s.hashes hash size
    → get_elem? s.tree.entries id ≡ some e
    → e.valid ≡ true
    → e.unique ≡ false
    → size_as t e ≡ some size
    → hash_as t e ≡ some hash
    → HashGrouped s hash size id (push_to_hash_group s id (for_file t) (for_dir t))
unfolding push_to_hash_group
push_to_hash_group-HashGrouped s id size hash e file table sized found valid common known hashed =
    let p = infuse_hash-HashPushed s.hashes id size hash file table sized in
    simp (found, valid, common, known, hashed, or-true, p.returns)
      (record {
        out = record s { hashes = p.out };
        returns = refl;
        table = p.table;
        sized = p.sized;
        same_group = p.same_group;
        others = p.others;
        tree = refl;
        sizes = refl;
      })
push_to_hash_group-HashGrouped s id size hash e dir table sized found valid common known hashed =
    let p = infuse_hash-HashPushed s.hashes id size hash dir table sized in
    simp (found, valid, common, known, hashed, or-true, p.returns)
      (record {
        out = record s { hashes = p.out };
        returns = refl;
        table = p.table;
        sized = p.sized;
        same_group = p.same_group;
        others = p.others;
        tree = refl;
        sizes = refl;
      })
