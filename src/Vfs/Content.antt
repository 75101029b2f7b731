-- ===== src/Vfs/Content.antt =====
-- `cid_and_create` keeps what is known of the content of every entry, and a new entry has no hash.
use dupion.Base.{
  zero, suc, ◌≡◌, ◌≢◌, refl, sym, ap, ◌∙◌, subst, ◌⊎◌, inl, inr, true, false, Option, none, some,
  List, [], ◌∷◌, ◌++◌, get_elem?, set, get_elem?-set_self, get_elem?-set_ne, lt-get_elem?,
  get_elem?-append_left, ◌==◌, ==_iff, Bool-cases, Outcome, ok, ◌>>=◌, >>=-eq-ok, >>-eq-ok, assert,
  unwrap,
}
use dupion.FilePath.{Component, FilePath, push, path_eq}
use dupion.Vfs.{
  Vfs, VfsEntry, VfsId, index, is_absolute, update, child_of, new_entry, append_entry, mark_dir,
  add_child, create_step, create_walk, cid_and_create, root_id,
}

pub record SameContent (e e' : VfsEntry) : Type 0 where
  pub file_size : e'.file_size ≡ e.file_size
  pub file_hash : e'.file_hash ≡ e.file_hash
  pub ctime : e'.ctime ≡ e.ctime
  pub valid : e'.valid ≡ e.valid

SameContent-refl : (e : VfsEntry) → SameContent e e
SameContent-refl e = record { file_size = refl; file_hash = refl; ctime = refl; valid = refl }

SameContent-trans : {a b c : VfsEntry} → SameContent a b → SameContent b c → SameContent a c
SameContent-trans x y = record {
  file_size = y.file_size ∙ x.file_size;
  file_hash = y.file_hash ∙ x.file_hash;
  ctime = y.ctime ∙ x.ctime;
  valid = y.valid ∙ x.valid;
}

-- `w` has the entries of `v` with their content, and entries without a hash.
pub record Grows (v w : Vfs) : Type 0 where
  pub old :
      (id : VfsId) (e : VfsEntry)
      → get_elem? v.entries id ≡ some e
      → (e' : VfsEntry) × (get_elem? w.entries id ≡ some e') × SameContent e e'
  pub known :
      (id : VfsId) (e' : VfsEntry)
      → get_elem? w.entries id ≡ some e'
      → ((e : VfsEntry) × (get_elem? v.entries id ≡ some e) × SameContent e e')
        ⊎ (e'.file_hash ≡ none)

Grows-refl : (v : Vfs) → Grows v v
Grows-refl v = record {
  old = λ id e found. (e, found, SameContent-refl e);
  known = λ id e found. inl (e, found, SameContent-refl e);
}

Grows-trans : {u v w : Vfs} → Grows u v → Grows v w → Grows u w
Grows-trans x y = record {
  old = λ id e found.
      let (e', found', a) = x.old id e found in
      let (e'', found'', b) = y.old id e' found' in (e'', found'', SameContent-trans a b);
  known = λ id e'' found''. elim (y.known id e'' found'') [
    | inr fresh ↦ inr fresh
    | inl (e', found', b) ↦ elim (x.known id e' found') [
      | inr fresh ↦ inr (b.file_hash ∙ fresh)
      | inl (e, found, a) ↦ inl (e, found, SameContent-trans a b)
    ]
  ];
}

same_entry : {e e' : VfsEntry} → some e ≡ some e' → e ≡ e'
same_entry h = cc

set-Grows :
    (v : Vfs) (id : VfsId) (e e' : VfsEntry)
    → get_elem? v.entries id ≡ some e
    → SameContent e e'
    → Grows v (record v { entries = set v.entries id e' })
set-Grows v id e e' found same = record {
  old = λ j x there. elim (Bool-cases (id == j)) [
    | inl equal ↦
        let id_j : id ≡ j = (==_iff id j).0 equal in
        let e_x : e ≡ x = same_entry (sym found ∙ ap (get_elem? v.entries) id_j ∙ there) in
        (
          e',
          ap (get_elem? (set v.entries id e')) (sym id_j) ∙ here,
          subst (λ y. SameContent y e') e_x same,
        )
    | inr other ↦ (x, get_elem?-set_ne v.entries e' (apart j other) ∙ there, SameContent-refl x)
  ];
  known = λ j x there. elim (Bool-cases (id == j)) [
    | inl equal ↦
        let id_j : id ≡ j = (==_iff id j).0 equal in
        let e'_x : e' ≡ x =
          same_entry (sym here ∙ ap (get_elem? (set v.entries id e')) id_j ∙ there) in
        inl (e, ap (get_elem? v.entries) (sym id_j) ∙ found, subst (SameContent e) e'_x same)
    | inr other ↦
        inl (x, sym (get_elem?-set_ne v.entries e' (apart j other)) ∙ there, SameContent-refl x)
  ];
}
  where
    here : get_elem? (set v.entries id e') id ≡ some e'
    here = get_elem?-set_self v.entries id e' (lt-get_elem? v.entries id found)

    apart : (j : VfsId) → (id == j) ≡ false → id ≢ j
    apart j other same = let equal : (id == j) ≡ true = (==_iff id j).1 same in cc

-- One entry is written with the content it has.
update-Grows :
    (v w : Vfs) (id : VfsId) (f : VfsEntry → VfsEntry)
    → ((e : VfsEntry) → SameContent e (f e))
    → update v id f ≡ ok w
    → Grows v w
unfolding update
update-Grows v w id f keeps h =
    let (e, indexed, written) = >>=-eq-ok (unwrap (get_elem? v.entries id)) _ h in
    let found : get_elem? v.entries id ≡ some e = by_unwrap (get_elem? v.entries id) indexed in
    let w_eq : record v { entries = set v.entries id (f e) } ≡ w = cc in
    subst (Grows v) w_eq (set-Grows v id e (f e) found (keeps e))
  where
    by_unwrap : (o : Option VfsEntry) {e : VfsEntry} → unwrap o ≡ ok e → o ≡ some e
    by_unwrap none h = cc
    by_unwrap (some x) h = cc

append-Grows :
    (v : Vfs) (n : VfsEntry)
    → n.file_hash ≡ none
    → Grows v (record v { entries = v.entries ++ n ∷ [] })
append-Grows v n fresh = record {
  old = λ id e found. (
    e,
    get_elem?-append_left v.entries (n ∷ []) id (lt-get_elem? v.entries id found) ∙ found,
    SameContent-refl e,
  );
  known = λ id e' found. by_place v.entries id e' found;
}
  where
    by_place :
        (es : List VfsEntry) (id : VfsId) (e' : VfsEntry)
        → get_elem? (es ++ n ∷ []) id ≡ some e'
        → ((e : VfsEntry) × (get_elem? es id ≡ some e) × SameContent e e') ⊎ (e'.file_hash ≡ none)
    by_place [] zero e' h = inr (ap VfsEntry.file_hash (sym (same_entry h)) ∙ fresh)
    by_place [] (suc id) e' h = cc
    by_place (e ∷ es) zero e' h =
        inl (e, refl, subst (SameContent e) (same_entry h) (SameContent-refl e))
    by_place (e ∷ es) (suc id) e' h = by_place es id e' h

create_step-Grows :
    (v w : Vfs) (id j : VfsId) (built : FilePath) (c : Component)
    → create_step v id built c ≡ ok (w, j)
    → Grows v w
unfolding create_step append_entry new_entry
create_step-Grows v w id j built c h =
    let (found, _, rest) = >>=-eq-ok (child_of v id c) _ h in by_found found rest
  where
    by_found :
        (found : Option VfsId)
        → ◌≡◌ {A = Outcome (Vfs × VfsId)}
            (elim found as (λ x. Outcome (Vfs × VfsId)) [
              | some i ↦ update v id mark_dir >>= λ v'. ok (v', i)
              | none ↦
                  update
                    (append_entry v (new_entry built)).0
                    id
                    (add_child (append_entry v (new_entry built)).1)
                  >>= λ v''. ok (v'', (append_entry v (new_entry built)).1)
            ])
            (ok (w, j))
        → Grows v w
    by_found (some i) rest =
        let (v', written, done) = >>=-eq-ok (update v id mark_dir) _ rest in
        let v'_w : v' ≡ w = cc in
        subst (Grows v) v'_w (
          update-Grows v v' id mark_dir
            (λ e. record { file_size = refl; file_hash = refl; ctime = refl; valid = refl })
            written)
    by_found none rest =
        let grown = (append_entry v (new_entry built)).0 in
        let new = (append_entry v (new_entry built)).1 in
        let (v'', written, done) = >>=-eq-ok (update grown id (add_child new)) _ rest in
        let v''_w : v'' ≡ w = cc in
        subst (Grows v) v''_w (
          Grows-trans (append-Grows v (new_entry built) refl) (
            update-Grows grown v'' id (add_child new)
              (λ e. record { file_size = refl; file_hash = refl; ctime = refl; valid = refl })
              written))

create_walk-Grows :
    (v w : Vfs) (id j : VfsId) (built p : FilePath) (cs : List Component)
    → create_walk v id built cs ≡ ok (w, j, p)
    → Grows v w
unfolding create_walk
create_walk-Grows v w id j built p [] h = let v_w : v ≡ w = cc in subst (Grows v) v_w (Grows-refl v)
create_walk-Grows v w id j built p (c ∷ cs) h =
    let (next, step, rest) = >>=-eq-ok (create_step v id (push built c) c) _ h in
    Grows-trans (create_step-Grows v next.0 id next.1 (push built c) c step)
      (create_walk-Grows next.0 w next.1 j (push built c) p cs rest)

pub cid_and_create-Grows :
    (v w : Vfs) (p : FilePath) (id : VfsId) → cid_and_create v p ≡ ok (w, id) → Grows v w
unfolding cid_and_create
cid_and_create-Grows v w p id h =
    let absolute = >>-eq-ok (is_absolute p) _ h in
    let (done, walked, rest) = >>=-eq-ok (create_walk v root_id [] p) _ absolute in
    let checked = >>-eq-ok (assert (path_eq done.2 p)) _ rest in
    let (e, indexed, rest') = >>=-eq-ok (index done.0 done.1) _ checked in
    let rest'' = >>-eq-ok (assert (path_eq e.path p)) _ rest' in
    let done_w : done.0 ≡ w = cc in
    subst (Grows v) done_w (create_walk-Grows v done.0 root_id done.1 [] done.2 p walked)
