-- ===== src/State/Refill.antt =====
-- The pushes of a file to the groups of its size and its hash keep the invariant of the state.
use dupion.Base.{
  ℕ, ◌≡◌, refl, sym, ap, ◌∙◌, subst, inl, inr, true, false, ◌||◌, ◌&&◌, some, length, get_elem?,
  ◌==◌, ==_iff, Bool-cases, lookup, ok, arith,
}
use dupion.FilePath.{bytes_eq}
use dupion.FilePath.Laws.{bytes_eq→≡}
use dupion.Vfs.{VfsEntry, VfsId, Hash}
use dupion.Vfs.Tree.{IsTree}
use dupion.State.{State, HashGroup, Member, file, push_to_size_group, push_to_hash_group, hash_key}
use dupion.State.Groups.{
  IsSizeTable, in_size_group, push_to_size_group-SizeGrouped, or-true, member_eq,
}
use dupion.State.HashGroups.{IsHashTable, in_hash_group, push_to_hash_group-HashGrouped}
use dupion.State.Sound.{Gives, IsSound, Refreshes, Refreshes-refl, Refreshed-refl}

same_tree-Refreshes :
    {content : Hash → ℕ} (s t : State)
    → IsSound content s
    → t.tree ≡ s.tree
    → IsSizeTable t.sizes
    → IsHashTable t.hashes
    → ((h : Hash) (g : HashGroup) → lookup h t.hashes ≡ some g → g.size ≡ content h)
    → ((k : ℕ) (m : Member) → in_size_group s.sizes k m ≡ true → in_size_group t.sizes k m ≡ true)
    → Refreshes content s t
same_tree-Refreshes s t sound tree sizes hashes filed members = record {
  sound = record {
    tree = subst IsTree (sym tree) sound.tree;
    hashed = λ id e found. sound.hashed id e (ap (λ v. get_elem? v.entries id) (sym tree) ∙ found);
    sizes = sizes;
    hashes = hashes;
    filed = filed;
  };
  count = ap (λ v. length v.entries) tree;
  kept = λ id e found. (e, ap (λ v. get_elem? v.entries id) tree ∙ found, Refreshed-refl e);
  members = members;
}

unique_push :
    (s : State) (id : VfsId) (e : VfsEntry)
    → get_elem? s.tree.entries id ≡ some e
    → e.valid ≡ true
    → e.unique ≡ true
    → (push_to_size_group s id true false ≡ ok s) × (push_to_hash_group s id true false ≡ ok s)
unfolding push_to_size_group push_to_hash_group
unique_push s id e found valid unique =
    (rw (found, valid, unique) refl, rw (found, valid, unique) refl)

pub push_size-Refreshes :
    {content : Hash → ℕ} (s : State) (id size : ℕ) (e : VfsEntry)
    → IsSound content s
    → get_elem? s.tree.entries id ≡ some e
    → e.valid ≡ true
    → e.file_size ≡ some size
    → Gives (push_to_size_group s id true false) (λ t.
      Refreshes content s t
      × (t.tree ≡ s.tree)
      × (e.unique ≡ false → in_size_group t.sizes size (file, id) ≡ true))
push_size-Refreshes {content} s id size e sound found valid known = elim (Bool-cases e.unique) [
  | inl unique ↦
      let (returns, _) = unique_push s id e found valid unique in
      (s, returns, (Refreshes-refl s sound, refl, λ common. cc))
  | inr common ↦
      let p =
        push_to_size_group-SizeGrouped s id size e file sound.sizes found valid common known in
      (
        p.out,
        p.returns,
        (
          same_tree-Refreshes s p.out sound p.tree p.table
              (subst IsHashTable (sym p.hashes) sound.hashes)
              (λ h g there. sound.filed h g (ap (lookup h) (sym p.hashes) ∙ there))
              (λ k m h. p.members k m ∙ ap (λ b. b || (size == k && member_eq (file, id) m)) h),
          p.tree,
          λ _.
              p.members size (file, id)
              ∙ ap (λ b. in_size_group s.sizes size (file, id) || b) (ground arith)
              ∙ or-true (in_size_group s.sizes size (file, id)),
        ),
      )
]

pub push_hash-Refreshes :
    {content : Hash → ℕ} (s : State) (id : VfsId) (hash : Hash) (e : VfsEntry)
    → IsSound content s
    → get_elem? s.tree.entries id ≡ some e
    → e.valid ≡ true
    → e.file_hash ≡ some hash
    → Gives (push_to_hash_group s id true false) (λ t.
      Refreshes content s t
      × (t.tree ≡ s.tree)
      × (e.unique ≡ false → in_hash_group t.hashes hash id ≡ true))
push_hash-Refreshes {content} s id hash e sound found valid hashed = elim (Bool-cases e.unique) [
  | inl unique ↦
      let (_, returns) = unique_push s id e found valid unique in
      (s, returns, (Refreshes-refl s sound, refl, λ common. cc))
  | inr common ↦
      let p =
        push_to_hash_group-HashGrouped s id (content hash) hash e file sound.hashes
          (sound.filed hash) found valid common (sound.hashed id e found hash hashed) hashed in
      let filed : (h : Hash) (g : HashGroup) → lookup h p.out.hashes ≡ some g → g.size ≡ content h =
        λ h g there. elim (Bool-cases (bytes_eq hash h)) [
          | inl same ↦
              let hash_h : hash ≡ h = bytes_eq→≡ hash h same in
              p.sized g (ap (λ k. lookup k p.out.hashes) hash_h ∙ there) ∙ ap content hash_h
          | inr other ↦ sound.filed h g (sym (p.others h other) ∙ there)
        ] in
      (
        p.out,
        p.returns,
        (
          same_tree-Refreshes s p.out sound p.tree (subst IsSizeTable (sym p.sizes) sound.sizes)
              p.table filed (λ k m h. ap (λ sizes. in_size_group sizes k m) p.sizes ∙ h),
          p.tree,
          λ _.
              p.same_group id
              ∙ ap (λ b. in_hash_group s.hashes hash id || b) ((==_iff id id).1 refl)
              ∙ or-true (in_hash_group s.hashes hash id),
        ),
      )
]
