-- ===== src/Zip/Members.antt =====
-- The entry of a member of an archive.
use dupion.Base.{
  ℕ, ◌≡◌, refl, sym, ap, ap₂, ◌∙◌, true, false, not, some, length, get_elem?, Outcome, ok, unwrap,
  unwrap_result, assert, ◌>>◌, ◌>>=◌, >>=-ok,
}
use dupion.FilePath.{FilePath, Bytes}
use dupion.Vfs.{Vfs, VfsEntry, VfsId, Hash, cid, cid_and_create}
use dupion.Vfs.Tree.{Extends, Extends-trans}
use dupion.Vfs.Create.{Extends-set}
use dupion.Vfs.Resolve.{Made, IsCanonical, cid_and_create-Made, cid-Extends}
use dupion.State.{State, file, modify, push_to_size_group, push_to_hash_group}
use dupion.State.Groups.{in_size_group}
use dupion.State.HashGroups.{in_hash_group}
use dupion.State.Sound.{
  IsSound, Refreshes-trans, Kept-childs, modify_lem, with_entry, with_entry-IsSound,
  with_entry_found,
}
use dupion.State.Refill.{push_size-Refreshes, push_hash-Refreshes}
use dupion.State.Validation.{Refreshes-Extends}
use dupion.State.Created.{created-IsSound}
use dupion.Zip.{set_member, store_member}

-- What is left behind a member that was read.
pub record StoredMember (content : Hash → ℕ) (s : State) (path : FilePath) (hash : Hash)
    (r : Outcome State) : Type 0 where
  pub out : State
  pub returns : r ≡ ok out
  pub sound : IsSound content out
  pub id : VfsId
  pub resolves : cid out.tree path ≡ ok (some id)
  pub keeps : (q : FilePath) (j : VfsId) → cid s.tree q ≡ ok (some j) → cid out.tree q ≡ ok (some j)
  pub entry : VfsEntry
  pub found : get_elem? out.tree.entries id ≡ some entry
  pub hashed : entry.file_hash ≡ some hash
  pub sized : entry.file_size ≡ some (content hash)
  pub size_group : entry.unique ≡ false → in_size_group out.sizes (content hash) (file, id) ≡ true
  pub hash_group : entry.unique ≡ false → in_hash_group out.hashes hash id ≡ true

store_member_lem :
    (blake3 : Bytes → Hash) (path : FilePath) (bytes : Bytes) (s : State)
    (m : Made s.tree path (cid_and_create s.tree path)) {s3 s4 : State}
    → m.entry.is_dir ≡ false
    → push_to_size_group
        (with_entry
          (record s { tree = m.out })
          m.id
          (set_member (blake3 bytes) (length bytes) m.entry))
        m.id
        true
        false
      ≡ ok s3
    → push_to_hash_group s3 m.id true false ≡ ok s4
    → store_member blake3 path bytes s ≡ ok s4
unfolding store_member
store_member_lem blake3 path bytes s m leaf third fourth = >>=-ok _ m.returns (
    >>=-ok _ (ap unwrap m.found) (
      ap
        (λ b.
          assert (not b)
          >> (modify (record s { tree = m.out }) m.id (set_member (blake3 bytes) (length bytes))
              >>= λ s2. unwrap_result (push_to_size_group s2 m.id true false) >>= λ s3.
                  unwrap_result (push_to_hash_group s3 m.id true false)))
        leaf
      ∙ >>=-ok _
          (modify_lem (record s { tree = m.out }) m.id m.entry
            (set_member (blake3 bytes) (length bytes)) m.found)
          (>>=-ok _ (ap unwrap_result third) (ap unwrap_result fourth))))

same_leaf :
    (v w : Vfs) (i j : VfsId) (d e : VfsEntry)
    → ◌≡◌ {A = Outcome (Vfs × VfsId)} (ok (v, i)) (ok (w, j))
    → get_elem? v.entries i ≡ some d
    → get_elem? w.entries j ≡ some e
    → e.is_dir ≡ false
    → d.is_dir ≡ false
same_leaf v w i j d e same here there no_dir =
    let v_w : v ≡ w = cc in
    let i_j : i ≡ j = cc in
    let it : some d ≡ some e = sym here ∙ ap₂ (λ x k. get_elem? x.entries k) v_w i_j ∙ there in
    let d_e : d ≡ e = cc in ap VfsEntry.is_dir d_e ∙ no_dir

-- If the state is sound, the path of the member canonical, the entry at its path no directory, and
-- the hash of its bytes that of a content of their length, `store_member` returns. The state stays sound,
-- what resolved before resolves as before, and the path resolves to an entry with the hash, in the
-- groups of its size and its hash unless it is unique.
pub store_member-StoredMember :
    {content : Hash → ℕ} (blake3 : Bytes → Hash) (path : FilePath) (bytes : Bytes) (s : State)
    {v : Vfs} {i : VfsId} {d : VfsEntry}
    → IsSound content s
    → IsCanonical path
    → cid_and_create s.tree path ≡ ok (v, i)
    → get_elem? v.entries i ≡ some d
    → d.is_dir ≡ false
    → content (blake3 bytes) ≡ length bytes
    → StoredMember content s path (blake3 bytes) (store_member blake3 path bytes s)
store_member-StoredMember {content} blake3 path bytes s {v} {i} {d} sound canonical created there
      no_dir honest =
    let m = cid_and_create-Made s.tree path sound.tree canonical in
    let leaf = same_leaf m.out v m.id i m.entry d (sym m.returns ∙ created) m.found there no_dir in
    let hash = blake3 bytes in
    let s1 = record s { tree = m.out } in
    let e = set_member hash (length bytes) m.entry in
    let s2 = with_entry s1 m.id e in
    let sound2 : IsSound content s2 =
      with_entry-IsSound s1 m.id m.entry e (created-IsSound s path m sound) m.found refl refl refl
        (λ h same. ap some (sym honest) ∙ ap (λ k. some (content k)) (same_hash same)) in
    let found2 = with_entry_found s1 m.id m.entry e m.found in
    let (s3, third, (x3, tree3, sizes3)) =
      push_size-Refreshes s2 m.id (content hash) e sound2 found2 refl (ap some (sym honest)) in
    let found3 : get_elem? s3.tree.entries m.id ≡ some e =
      ap (λ t. get_elem? t.entries m.id) tree3 ∙ found2 in
    let (s4, fourth, (x4, tree4, hashes4)) =
      push_hash-Refreshes s3 m.id hash e x3.sound found3 refl refl in
    let extends : Extends m.out s4.tree =
      Extends-trans
        (Extends-set m.out m.id m.entry e m.found (Kept-childs m.entry e refl refl refl))
        (Refreshes-Extends (Refreshes-trans x3 x4)) in
    record {
      out = s4;
      returns = store_member_lem blake3 path bytes s m leaf third fourth;
      sound = x4.sound;
      id = m.id;
      resolves = cid-Extends m.out s4.tree path m.id extends m.resolves;
      keeps = λ q j h. cid-Extends m.out s4.tree q j extends (m.keeps q j h);
      entry = e;
      found = ap (λ t. get_elem? t.entries m.id) tree4 ∙ found3;
      hashed = refl;
      sized = ap some (sym honest);
      size_group = λ common. x4.members (content hash) (file, m.id) (sizes3 common);
      hash_group = hashes4;
    }
  where
    same_hash : {h : Hash} → some (blake3 bytes) ≡ some h → blake3 bytes ≡ h
    same_hash eq = cc
