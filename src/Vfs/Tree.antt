-- ===== src/Vfs/Tree.antt =====
-- The shape of the tree: every child index is in range, lies behind its parent's and has the
-- parent's path with its own name added; and how the tree grows.
use dupion.Base.{
  ◌<◌, ◌≡◌, refl, sym, ap, ◌∙◌, ◌⊎◌, inl, inr, none, some, List, [], ◌∷◌, ◌++◌, append-nil,
  append_assoc, get_elem?, All, Bool-cases, Option-cases, Outcome-cases, ok, err, panic,
  if◌then◌else◌,
}
use dupion.FilePath.{
  Bytes, Component, root_dir, cur_dir, parent_dir, normal, FilePath, IsPlain, as_os_str, push,
  bytes_eq,
}
use dupion.FilePath.Laws.{bytes_eq→≡}
use dupion.Vfs.{Vfs, VfsEntry, VfsId, find_child, child_of, walk, to_plc, root_id}

-- The canonical paths: the empty one, and `/` followed by names.
abbrev pub AllPlain : FilePath → Type 0
AllPlain = All IsPlain

-- A path that `c` can extend: only the empty path can be extended by the root.
abbrev pub Extendable : FilePath → Component → Type 0
Extendable p root_dir = p ≡ []
Extendable p _ = Unit {0}

-- `cs` can be walked from a directory at `p`.
abbrev pub Walkable : FilePath → List Component → Type 0
Walkable p [] = Unit {0}
Walkable p (c ∷ cs) = IsPlain c × Extendable p c × Walkable (p ++ c ∷ []) cs

pub push-append :
    (p : FilePath) (c : Component) → IsPlain c → Extendable p c → push p c ≡ p ++ c ∷ []
push-append p root_dir h e = rw e
push-append p (normal n) h e = refl
push-append p cur_dir h e = absurd h
push-append p parent_dir h e = absurd h

pub to_plc-append : (p : FilePath) (c : Component) → to_plc (p ++ c ∷ []) ≡ as_os_str c
unfolding to_plc
to_plc-append [] c = refl
to_plc-append (d ∷ []) c = refl
to_plc-append (d ∷ e ∷ p) c = to_plc-append (e ∷ p) c

-- Entry `c` is the child of an entry at `p`.
pub record IsChild (v : Vfs) (p : FilePath) (c : VfsId) : Type 0 where
  pub entry : VfsEntry
  pub found : get_elem? v.entries c ≡ some entry
  pub name : Component
  pub plain : IsPlain name
  pub path : entry.path ≡ p ++ name ∷ []
  pub plc : entry.plc ≡ as_os_str name

abbrev pub ChildsAt : Vfs → VfsId → VfsEntry → Type 0
ChildsAt v id e = All (λ c. (id < c) × IsChild v e.path c) e.childs

pub record IsTree (v : Vfs) : Type 0 where
  pub top : VfsEntry
  pub root : get_elem? v.entries root_id ≡ some top
  pub root_path : top.path ≡ []
  pub childs : (id : VfsId) (e : VfsEntry) → get_elem? v.entries id ≡ some e → ChildsAt v id e

-- `w` has every entry of `v`, with its path and name, and more children at the end at most.
pub record Kept (e e' : VfsEntry) : Type 0 where
  pub path : e'.path ≡ e.path
  pub plc : e'.plc ≡ e.plc
  pub more : List VfsId
  pub childs : e'.childs ≡ e.childs ++ more

pub record Extends (v w : Vfs) : Type 0 where
  pub kept :
      (id : VfsId) (e : VfsEntry)
      → get_elem? v.entries id ≡ some e
      → (e' : VfsEntry) × (get_elem? w.entries id ≡ some e') × Kept e e'

pub Kept-refl : (e : VfsEntry) → Kept e e
Kept-refl e = record { path = refl; plc = refl; more = []; childs = sym (append-nil e.childs) }

pub Extends-refl : (v : Vfs) → Extends v v
Extends-refl v = record { kept = λ id e h. (e, h, Kept-refl e) }

pub Extends-trans : {u v w : Vfs} → Extends u v → Extends v w → Extends u w
Extends-trans {u} {v} {w} a b = record { kept = both }
  where
    both :
        (id : VfsId) (e : VfsEntry)
        → get_elem? u.entries id ≡ some e
        → (e' : VfsEntry) × (get_elem? w.entries id ≡ some e') × Kept e e'
    both id e h =
        let (e', h', k) = a.kept id e h in
        let (e'', h'', k') = b.kept id e' h' in
        (
          e'',
          h'',
          record {
            path = k'.path ∙ k.path;
            plc = k'.plc ∙ k.plc;
            more = k.more ++ k'.more;
            childs =
                k'.childs
                ∙ ap (λ xs. xs ++ k'.more) k.childs
                ∙ append_assoc e.childs k.more k'.more;
          },
        )

-- A child that is found stays the first of its name.
pub find_child-Extends :
    {v w : Vfs} (name : Bytes) (cs more : List VfsId) (i : VfsId)
    → Extends v w
    → find_child v name cs ≡ ok (some i)
    → find_child w name (cs ++ more) ≡ ok (some i)
unfolding find_child
find_child-Extends name [] more i x h = cc
find_child-Extends {v} {w} name (c ∷ cs) more i x h = elim (Option-cases (get_elem? v.entries c)) [
  | inl missing ↦ let h' : err panic ≡ ok (some i) = rw missing at h in cc
  | inr (e, found) ↦
      let (e', found', k) = x.kept c e found in
      let h' : (if bytes_eq e.plc name then ok (some c) else find_child v name cs) ≡ ok (some i) =
        rw found at h in
      rw (found', k.plc)
        (elim (Bool-cases (bytes_eq e.plc name)) [
          | inl same ↦ rw same (rw same at h')
          | inr other ↦ rw other (find_child-Extends name cs more i x (rw other at h'))
        ])
]

pub child_of-Extends :
    {v w : Vfs} (id : VfsId) (c : Component) (i : VfsId)
    → Extends v w
    → child_of v id c ≡ ok (some i)
    → child_of w id c ≡ ok (some i)
unfolding child_of
child_of-Extends id parent_dir i x h = cc
child_of-Extends id cur_dir i x h = h
child_of-Extends {v} id root_dir i x h = elim (Option-cases (get_elem? v.entries id)) [
  | inl missing ↦ let h' : err panic ≡ ok (some i) = rw missing at h in cc
  | inr (e, found) ↦
      let (e', found', k) = x.kept id e found in
      rw (found', k.childs)
        (find_child-Extends (as_os_str root_dir) e.childs k.more i x (rw found at h))
]
child_of-Extends {v} id (normal n) i x h = elim (Option-cases (get_elem? v.entries id)) [
  | inl missing ↦ let h' : err panic ≡ ok (some i) = rw missing at h in cc
  | inr (e, found) ↦
      let (e', found', k) = x.kept id e found in
      rw (found', k.childs) (find_child-Extends n e.childs k.more i x (rw found at h))
]

-- Growing the tree keeps every path that it resolves.
pub walk-Extends :
    {v w : Vfs} (id : VfsId) (cs : List Component) (j : VfsId)
    → Extends v w
    → walk v id cs ≡ ok (some j)
    → walk w id cs ≡ ok (some j)
unfolding walk
walk-Extends id [] j x h = h
walk-Extends {v} id (c ∷ cs) j x h = elim (Outcome-cases (child_of v id c)) [
  | inl (f, e) ↦ let h' : err f ≡ ok (some j) = rw e at h in cc
  | inr (found, e) ↦ elim (Option-cases found) [
    | inl n ↦ let h' : ok none ≡ ok (some j) = rw (e, n) at h in cc
    | inr (i, s) ↦
        let e' : child_of v id c ≡ ok (some i) = e ∙ ap ok s in
        rw (child_of-Extends id c i x e') (walk-Extends i cs j x (rw e' at h))
  ]
]

-- What a search among the children of an entry finds.
pub find_child-total :
    (v : Vfs) (p : FilePath) (name : Bytes) (cs : List VfsId)
    → All (IsChild v p) cs
    → (find_child v name cs ≡ ok none)
      ⊎ ((i : VfsId) × (find_child v name cs ≡ ok (some i))
          × ((k : IsChild v p i) × (as_os_str k.name ≡ name)))
unfolding find_child
find_child-total v p name [] h = inl refl
find_child-total v p name (c ∷ cs) h =
    let k = h.0 in
    elim (Bool-cases (bytes_eq k.entry.plc name)) [
      | inl same ↦
          inr (c, rw (k.found, same) refl, (k, sym k.plc ∙ bytes_eq→≡ k.entry.plc name same))
      | inr other ↦ elim (find_child-total v p name cs h.1) [
        | inl nothing ↦ inl (rw (k.found, other) nothing)
        | inr (i, found, k') ↦ inr (i, rw (k.found, other) found, k')
      ]
    ]
