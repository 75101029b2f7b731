-- ===== src/Process/Walk.antt =====
-- The walk of `find_shadowed`, one entry at a time.
use dupion.Base.{◌≡◌, refl, sym, ◌∙◌, subst, ◌⊎◌, inl, inr, ◌↔◌, true, false, some, get_elem?}
use dupion.Vfs.{Vfs, VfsEntry, VfsId}
use dupion.State.{State}
use dupion.Output.{exists}
use dupion.Process.Under.{
  Some, Within, itself, deeper, Below, Ends, common, below, ends_at, FileShadowed, DirShadowed,
}

-- An entry, or what is below it.
pub Within-split : {v : Vfs} (id j : VfsId) → ((j ≡ id) ⊎ Below v id j) ↔ Within v id j
Within-split {v} id j = (
  λ o. elim o [
    | inl h ↦ subst (λ k. Within v id k) (sym h) itself
    | inr (e, found, (c, listed, w)) ↦ deeper e found listed w
  ],
  λ h. split id j h,
)
  where
    split : (id j : VfsId) → Within v id j → (j ≡ id) ⊎ Below v id j
    split id j itself = inl refl
    split id j (deeper e found listed w) = inr (e, found, (_, listed, w))

-- What is below an entry that is there.
pub Below-split :
    {v : Vfs} (id j : VfsId) (e : VfsEntry)
    → get_elem? v.entries id ≡ some e
    → Some (λ c. Within v c j) e.childs ↔ Below v id j
Below-split {v} id j e found = (
  λ x. (e, found, x),
  λ (f, there, x). let same : f ≡ e = cc in subst (λ g. Some (λ c. Within v c j) g.childs) same x,
)

abbrev Splits : State → VfsId → VfsId → VfsEntry → Type 0
Splits s id a e =
    (exists e ≡ true)
    × (((ends_at s e ≡ true) × (a ≡ id))
        ⊎ ((ends_at s e ≡ false) × Some (λ c. Ends s c a) e.childs))

-- What `Ends` tells of an entry that is there.
pub Ends-split :
    {s : State} (id a : VfsId) (e : VfsEntry)
    → get_elem? s.tree.entries id ≡ some e
    → Ends s id a
    → Splits s id a e
Ends-split {s} id a e found (common f there exist ends) =
    let same : f ≡ e = cc in subst (Splits s id id) same (exist, inl (ends, refl))
Ends-split {s} id a e found (below f there exist goes listed x) =
    let same : f ≡ e = cc in subst (Splits s id a) same (exist, inr (goes, (_, listed, x)))

module _ (s : State) (id : VfsId) (e : VfsEntry)
    (found : get_elem? s.tree.entries id ≡ some e) where
  -- Nothing is marked from an entry that does not exist.
  pub FileShadowed-absent : (j : VfsId) → exists e ≡ false → FileShadowed s id j → ⊥
  FileShadowed-absent j h (a, ends, under) = let x = (Ends-split id a e found ends).0 in cc

  pub DirShadowed-absent : (j : VfsId) → exists e ≡ false → DirShadowed s id j → ⊥
  DirShadowed-absent j h (inl x) = FileShadowed-absent j h x
  DirShadowed-absent j h (inr (ends, x)) = let x = (Ends-split id j e found ends).0 in cc

  -- The walk ends here.
  pub Ends-here : (a : VfsId) → exists e ≡ true → ends_at s e ≡ true → (a ≡ id) ↔ Ends s id a
  Ends-here a h ends = (
    λ same. subst (λ b. Ends s id b) (sym same) (common e found h ends),
    λ x. elim (Ends-split id a e found x).1 [
      | inl y ↦ y.1
      | inr y ↦ let bad : false ≡ true = sym y.0 ∙ ends in cc
    ],
  )

  pub FileShadowed-here :
      (j : VfsId) → exists e ≡ true → ends_at s e ≡ true → Below s.tree id j ↔ FileShadowed s id j
  FileShadowed-here j h ends = (
    λ under. (id, (Ends-here id h ends).0 refl, under),
    λ (a, x, under). subst (λ b. Below s.tree b j) ((Ends-here a h ends).1 x) under,
  )

  -- The walk goes on below.
  pub Ends-below :
      (a : VfsId)
      → exists e ≡ true
      → ends_at s e ≡ false
      → Some (λ c. Ends s c a) e.childs ↔ Ends s id a
  Ends-below a h goes = (
    λ (c, listed, x). below e found h goes listed x,
    λ x. elim (Ends-split id a e found x).1 [
      | inl y ↦ let bad : false ≡ true = sym goes ∙ y.0 in absurd cc
      | inr y ↦ y.1
    ],
  )

  pub FileShadowed-below :
      (j : VfsId)
      → exists e ≡ true
      → ends_at s e ≡ false
      → Some (λ c. FileShadowed s c j) e.childs ↔ FileShadowed s id j
  FileShadowed-below j h goes = (
    λ (c, listed, (a, x, under)). (a, (Ends-below a h goes).0 (c, listed, x), under),
    λ (a, x, under). let (c, listed, y) = (Ends-below a h goes).1 x in (c, listed, (a, y, under)),
  )

  pub DirShadowed-below :
      (j : VfsId)
      → exists e ≡ true
      → ends_at s e ≡ false
      → Some (λ c. DirShadowed s c j) e.childs ↔ DirShadowed s id j
  DirShadowed-below j h goes = (
    λ (c, listed, o). elim o [
      | inl x ↦ inl ((FileShadowed-below j h goes).0 (c, listed, x))
      | inr (x, file) ↦ inr ((Ends-below j h goes).0 (c, listed, x), file)
    ],
    λ o. elim o [
      | inl x ↦ let (c, listed, y) = (FileShadowed-below j h goes).1 x in (c, listed, inl y)
      | inr (x, file) ↦ let (c, listed, y) = (Ends-below j h goes).1 x in (c, listed, inr (y, file))
    ],
  )
