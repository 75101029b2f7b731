-- ===== src/Process/Shadow.antt =====
-- `find_shadowed` ends on a tree, and sets exactly the marks that the tree tells.
use dupion.Base.{
  ℕ, zero, suc, ◌+◌, ◌<◌, ◌≤◌, ◌≢◌, ◌≡◌, refl, sym, ap, ◌∙◌, subst, inl, inr, true, false, some,
  List, [], ◌∷◌, length, length-set, get_elem?, set, get_elem?-set_self, get_elem?-set_ne,
  lt-get_elem?, get_elem?-lt, ◌==◌, ==_iff, Bool-cases, All, Outcome, ok, arith, >>=-ok, unwrap,
}
use dupion.Vfs.{Vfs, VfsEntry, VfsId, update}
use dupion.Vfs.Tree.{IsTree, IsChild}
use dupion.Process.{for_recursive, visit_childs, shadow}
use dupion.Process.Under.{
  Some, Within, Below, Shade, Shades, Like, Like-Shades, Shade-none, Shades-trans, Shades-iff,
  Shades-none, Some-nil, Some-cons,
}
use dupion.Process.Walk.{Within-split, Below-split}

-- One entry is written.
pub set-Shades :
    {F D : VfsId → Type 0} (v : Vfs) (id : VfsId) (e e' : VfsEntry)
    → get_elem? v.entries id ≡ some e
    → Shade (F id) (D id) e e'
    → ((j : VfsId) → F j → j ≡ id)
    → ((j : VfsId) → D j → j ≡ id)
    → Shades F D v (record { entries = set v.entries id e' })
set-Shades {F} {D} v id e e' found shade f d = record {
  count = length-set v.entries id e';
  at = λ j x there. elim (Bool-cases (id == j)) [
    | inl equal ↦
        let id_j : id ≡ j = (==_iff id j).0 equal in
        let it : some x ≡ some e = sym there ∙ ap (get_elem? v.entries) (sym id_j) ∙ found in
        let e_x : e ≡ x = cc in
        (
          e',
          ap (get_elem? (set v.entries id e')) (sym id_j)
              ∙ get_elem?-set_self v.entries id e' (lt-get_elem? v.entries id found),
          subst (λ k. Shade (F k) (D k) x e') id_j
              (subst (λ y. Shade (F id) (D id) y e') e_x shade),
        )
    | inr other ↦
        let apart : id ≢ j = λ same. let equal : (id == j) ≡ true = (==_iff id j).1 same in cc in
        (
          x,
          get_elem?-set_ne v.entries e' apart ∙ there,
          Shade-none x (λ h. apart (sym (f j h))) (λ h. apart (sym (d j h))),
        )
  ];
}

shadow-Shade : {F : Type 0} (e : VfsEntry) → F → Shade F F e (shadow e)
shadow-Shade e h = record {
  same = refl;
  file = (λ x. inr h, λ o. refl);
  dir = (λ x. inr h, λ o. refl);
}

-- The tree that the marks are set in, which itself is fixed: `w` has the marks set so far.
module _ (v : Vfs) (tree : IsTree v) where
  abbrev pub Marks : Outcome Vfs → (VfsId → Type 0) → Vfs → Type 0
  Marks r F u = (w : Vfs) × (r ≡ ok w) × Shades F F u w

  abbrev pub BelowOf : VfsId → List VfsId → Type 0
  BelowOf id = All (λ c. (id < c) × (c < length v.entries))

  pub childs-BelowOf :
      (id : VfsId) (e : VfsEntry) → get_elem? v.entries id ≡ some e → BelowOf id e.childs
  childs-BelowOf id e found = go e.childs (tree.childs id e found)
    where
      go : (cs : List VfsId) → All (λ c. (id < c) × IsChild v e.path c) cs → BelowOf id cs
      go [] h = tt
      go (c ∷ cs) h = ((h.0.0, lt-get_elem? v.entries c h.0.1.found), go cs h.1)

  visit_childs-Marks :
      (visit : Vfs → VfsId → Outcome Vfs) (id : VfsId) (cs : List VfsId) (u : Vfs)
      → ((u : Vfs) (c : VfsId)
          → Like v u
          → id < c
          → c < length v.entries
          → Marks (visit u c) (Within v c) u)
      → Like v u
      → BelowOf id cs
      → Marks (visit_childs visit id cs u) (λ j. Some (λ c. Within v c j) cs) u
  unfolding visit_childs
  visit_childs-Marks visit id [] u each like below =
      let none_of = λ (j : VfsId). Some-nil (λ c. Within v c j) in
      (u, refl, Shades-none u none_of none_of)
  visit_childs-Marks visit id (c ∷ cs) u each like below =
      let apart : (c == id) ≡ false = ground (arith, below.0.0) in
      let (w, returns, x) = each u c like below.0.0 below.0.1 in
      let (w', rest, y) = visit_childs-Marks visit id cs w each (Like-Shades like x) below.1 in
      let split = λ (j : VfsId). Some-cons (λ d. Within v d j) c cs in
      (w', rw (apart, returns) rest, Shades-iff split split (Shades-trans x y))

  -- The loop of `for_recursive` at an entry, whose own mark may be set already.
  pub loop-Marks :
      (fuel : ℕ) (w : Vfs) (id : VfsId)
      → Like v w
      → id < length v.entries
      → ((u : Vfs) (c : VfsId)
          → Like v u
          → id < c
          → c < length v.entries
          → Marks (for_recursive fuel u c true shadow) (Within v c) u)
      → Marks (for_recursive (suc fuel) w id false shadow) (Below v id) w
  unfolding for_recursive
  loop-Marks fuel w id like inside each =
      let (e, found) = get_elem?-lt v.entries id inside in
      let (e', found', same) = like.at id e found in
      let (t, returns, x) =
        visit_childs-Marks (λ u c. for_recursive fuel u c true shadow) id e.childs w each like
          (childs-BelowOf id e found) in
      let split = λ (j : VfsId). Below-split id j e found in
      (
        t,
        >>=-ok _ (ap unwrap found') (
            ap (λ x. visit_childs (λ u c. for_recursive fuel u c true shadow) id x.childs w) same
            ∙ returns),
        Shades-iff split split x,
      )

  pub for_recursive-Marks :
      (fuel : ℕ) (u : Vfs) (id : VfsId)
      → Like v u
      → id < length v.entries
      → length v.entries ≤ id + fuel
      → Marks (for_recursive fuel u id true shadow) (Within v id) u
  unfolding for_recursive update
  for_recursive-Marks zero u id like inside enough = absurd (omega arith)
  for_recursive-Marks (suc fuel) u id like inside enough =
      let (e, found) = get_elem?-lt v.entries id inside in
      let (e', found', same) = like.at id e found in
      let w : Vfs = record { entries = set u.entries id (shadow e') } in
      let own : Shades (λ j. j ≡ id) (λ j. j ≡ id) u w =
        set-Shades u id e' (shadow e') found' (shadow-Shade e' refl) (λ j h. h) (λ j h. h) in
      let (t, returns, x) =
        loop-Marks fuel w id (Like-Shades like own) inside (λ u c like_u later before.
          for_recursive-Marks fuel u c like_u before (omega (arith, later, enough))) in
      let split = λ (j : VfsId). Within-split id j in
      (t, rw found' returns, Shades-iff split split (Shades-trans own x))
