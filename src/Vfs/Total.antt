-- ===== src/Vfs/Total.antt =====
-- `cid` never panics on a well-formed tree.
use dupion.Base.{
  ◌<◌, ◌≡◌, refl, sym, ap, ◌∙◌, ◌⊎◌, inl, inr, true, none, some, List, [], ◌∷◌, ◌++◌, append-nil,
  append_assoc, get_elem?, All, All-map, ok, ◌||◌,
}
use dupion.FilePath.{Component, FilePath, IsPlain, as_os_str, is_absolute_path}
use dupion.FilePath.Laws.{as_os_str_inj}
use dupion.Vfs.{Vfs, VfsEntry, VfsId, walk, cid, root_id, is_empty}
use dupion.Vfs.Tree.{IsTree, IsChild, find_child-total}
use dupion.Vfs.Resolve.{child_of_lem, cid_lem}

pub walk-total :
    (v : Vfs) (id : VfsId) (e : VfsEntry) (cs : List Component)
    → IsTree v
    → get_elem? v.entries id ≡ some e
    → All IsPlain cs
    → (walk v id cs ≡ ok none)
      ⊎ ((j : VfsId) × (f : VfsEntry) × (walk v id cs ≡ ok (some j))
          × (get_elem? v.entries j ≡ some f)
          × (f.path ≡ e.path ++ cs))
unfolding walk
walk-total v id e [] tree found plain = inr (id, e, refl, found, sym (append-nil e.path))
walk-total v id e (c ∷ cs) tree found plain =
    let childs =
      All-map (λ j. (id < j) × IsChild v e.path j) (IsChild v e.path) (λ j h. h.1) e.childs
        (tree.childs id e found) in
    let step = child_of_lem v id c plain.0 in
    elim (find_child-total v e.path (as_os_str c) e.childs childs) [
      | inl nothing ↦ inl (rw (step, found, nothing) refl)
      | inr (i, hit, (k, same)) ↦
          let name : k.name ≡ c = as_os_str_inj k.name c k.plain plain.0 same in
          elim (walk-total v i k.entry cs tree k.found plain.1) [
            | inl nothing ↦ inl (rw (step, found, hit) nothing)
            | inr (j, f, reached, there, path) ↦ inr (
              j,
              f,
              rw (step, found, hit) reached,
              there,
              path
                  ∙ ap (λ p. p ++ cs) (k.path ∙ ap (λ d. e.path ++ d ∷ []) name)
                  ∙ append_assoc e.path (c ∷ []) cs,
            )
          ]
    ]

pub cid-total :
    (v : Vfs) (p : FilePath)
    → IsTree v
    → (is_absolute_path p || is_empty p) ≡ true
    → All IsPlain p
    → (cid v p ≡ ok none)
      ⊎ ((j : VfsId) × (f : VfsEntry) × (cid v p ≡ ok (some j)) × (get_elem? v.entries j ≡ some f))
unfolding cid
cid-total v p tree absolute plain = elim (walk-total v root_id tree.top p tree tree.root plain) [
  | inl nothing ↦ inl (rw (absolute, nothing) refl)
  | inr (j, f, reached, there, path) ↦
      inr (
        j,
        f,
        cid_lem v p j f absolute reached there (path ∙ ap (λ q. q ++ p) tree.root_path),
        there,
      )
]
