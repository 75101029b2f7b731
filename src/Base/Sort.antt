-- ===== src/Base/Sort.antt =====
-- `sort_by_key` of `slice`, which is stable, as an insertion sort.
use Prim.Native.Nat.{ℕ, ◌≤◌}
use mathlib.Core.List.{List, [], ◌∷◌, Perm}
use mathlib.Core.List.Perm
use native.Mathlib.Omega.{arith}
use mathlib.Core.Bool.{Bool, true, false}
use dupion.Base.Tests.{leb, if◌then◌else◌, Bool-cases}
use mathlib.Core.Path.{◌≡◌}
use dupion.Base.Lists.{All, All-map}
use mathlib.Core.Logic.{inl, inr}

module _ {ℓ} {A : Type ℓ} (key : A → ℕ) where
  -- An element goes in front of the first that is not smaller.
  pub insert_by_key : A → List A → List A
  insert_by_key a [] = a ∷ []
  insert_by_key a (x ∷ xs) = if leb (key a) (key x) then a ∷ x ∷ xs else x ∷ insert_by_key a xs

  unfoldable pub sort_by_key : List A → List A
  unfolding insert_by_key
  sort_by_key [] = []
  sort_by_key (x ∷ xs) = insert_by_key x (sort_by_key xs)

  abbrev pub IsSortedBy : List A → Type 0
  IsSortedBy [] = Unit
  IsSortedBy (x ∷ xs) = All (λ y. key x ≤ key y) xs × IsSortedBy xs

  All-insert_by_key {κ} :
      (P : A → Type κ) (a : A) (xs : List A) → P a → All P xs → All P (insert_by_key a xs)
  unfolding insert_by_key
  All-insert_by_key P a [] h hs = (h, tt)
  All-insert_by_key P a (x ∷ xs) h hs = elim (Bool-cases (leb (key a) (key x))) [
    | inl e ↦ rw e (h, hs)
    | inr e ↦ rw e (hs.0, All-insert_by_key P a xs h hs.1)
  ]

  All-le : (a b : ℕ) (xs : List A) → a ≤ b → All (λ y. b ≤ key y) xs → All (λ y. a ≤ key y) xs
  All-le a b [] h hs = tt
  All-le a b (x ∷ xs) h hs = (omega arith, All-le a b xs h hs.1)

  insert_by_key-IsSortedBy : (a : A) (xs : List A) → IsSortedBy xs → IsSortedBy (insert_by_key a xs)
  unfolding insert_by_key
  insert_by_key-IsSortedBy a [] h = (tt, tt)
  insert_by_key-IsSortedBy a (x ∷ xs) h = elim (Bool-cases (leb (key a) (key x))) [
    | inl e ↦ rw e ((ground arith, All-le (key a) (key x) xs (ground arith) h.0), h)
    | inr e ↦ rw e (
      All-insert_by_key (λ y. key x ≤ key y) a xs (ground arith) h.0,
      insert_by_key-IsSortedBy a xs h.1,
    )
  ]

  pub sort_by_key-IsSortedBy : (xs : List A) → IsSortedBy (sort_by_key xs)
  unfolding sort_by_key
  sort_by_key-IsSortedBy [] = tt
  sort_by_key-IsSortedBy (x ∷ xs) =
      insert_by_key-IsSortedBy x (sort_by_key xs) (sort_by_key-IsSortedBy xs)

  insert_by_key-perm : (a : A) (xs : List A) → Perm (insert_by_key a xs) (a ∷ xs)
  unfolding insert_by_key
  insert_by_key-perm a [] = Perm.refl (a ∷ [])
  insert_by_key-perm a (x ∷ xs) = elim (Bool-cases (leb (key a) (key x))) [
    | inl e ↦ rw e (Perm.refl (a ∷ x ∷ xs))
    | inr e ↦ rw e (Perm.trans (Perm.cons x (insert_by_key-perm a xs)) (Perm.swap a x xs))
  ]

  pub sort_by_key-perm : (xs : List A) → Perm (sort_by_key xs) xs
  unfolding sort_by_key
  sort_by_key-perm [] = Perm.refl []
  sort_by_key-perm (x ∷ xs) =
      Perm.trans (insert_by_key-perm x (sort_by_key xs)) (Perm.cons x (sort_by_key-perm xs))

  -- What holds of all elements holds of all sorted, whatever the property.
  pub All-sort_by_key {κ} : (P : A → Type κ) (xs : List A) → All P xs → All P (sort_by_key xs)
  unfolding sort_by_key
  All-sort_by_key P [] h = tt
  All-sort_by_key P (x ∷ xs) h =
      All-insert_by_key P x (sort_by_key xs) h.0 (All-sort_by_key P xs h.1)

-- A stable sort by a test for `<=`.
unfoldable pub insert_by : {A : Type 0} → (A → A → Bool) → A → List A → List A
insert_by le x [] = x ∷ []
insert_by le x (y ∷ ys) = if le x y then x ∷ y ∷ ys else y ∷ insert_by le x ys

unfoldable pub sort_by : {A : Type 0} → (A → A → Bool) → List A → List A
unfolding insert_by
sort_by le [] = []
sort_by le (x ∷ xs) = insert_by le x (sort_by le xs)

-- `le` holds from each element to all behind it.
abbrev pub Ascending : {A : Type 0} → (A → A → Bool) → List A → Type 0
Ascending le [] = Unit {0}
Ascending le (x ∷ xs) = All (λ y. le x y ≡ true) xs × Ascending le xs

pub All-insert_by :
    {A : Type 0} (le : A → A → Bool) (P : A → Type 0) (a : A) (xs : List A)
    → P a
    → All P xs
    → All P (insert_by le a xs)
unfolding insert_by
All-insert_by le P a [] h hs = (h, tt)
All-insert_by le P a (x ∷ xs) h hs = elim (Bool-cases (le a x)) [
  | inl e ↦ rw e (h, hs)
  | inr e ↦ rw e (hs.0, All-insert_by le P a xs h hs.1)
]

module _ {A : Type 0} (le : A → A → Bool) (total : (a b : A) → le a b ≡ false → le b a ≡ true)
    (trans : (a b c : A) → le a b ≡ true → le b c ≡ true → le a c ≡ true) where
  insert_by-Ascending : (a : A) (xs : List A) → Ascending le xs → Ascending le (insert_by le a xs)
  unfolding insert_by
  insert_by-Ascending a [] h = (tt, tt)
  insert_by-Ascending a (x ∷ xs) h = elim (Bool-cases (le a x)) [
    | inl e ↦ rw e ((e, All-map _ _ (λ y xy. trans a x y e xy) xs h.0), h)
    | inr e ↦
        rw e (
          All-insert_by le (λ y. le x y ≡ true) a xs (total a x e) h.0,
          insert_by-Ascending a xs h.1,
        )
  ]

  -- Sorting by a total order gives an ascending list.
  pub sort_by-Ascending : (xs : List A) → Ascending le (sort_by le xs)
  unfolding sort_by
  sort_by-Ascending [] = tt
  sort_by-Ascending (x ∷ xs) = insert_by-Ascending x (sort_by le xs) (sort_by-Ascending xs)

insert_by-perm :
    {A : Type 0} (le : A → A → Bool) (a : A) (xs : List A) → Perm (insert_by le a xs) (a ∷ xs)
unfolding insert_by
insert_by-perm le a [] = Perm.refl (a ∷ [])
insert_by-perm le a (x ∷ xs) = elim (Bool-cases (le a x)) [
  | inl e ↦ rw e (Perm.refl (a ∷ x ∷ xs))
  | inr e ↦ rw e (Perm.trans (Perm.cons x (insert_by-perm le a xs)) (Perm.swap a x xs))
]

pub sort_by-perm : {A : Type 0} (le : A → A → Bool) (xs : List A) → Perm (sort_by le xs) xs
unfolding sort_by
sort_by-perm le [] = Perm.refl []
sort_by-perm le (x ∷ xs) =
    Perm.trans (insert_by-perm le x (sort_by le xs)) (Perm.cons x (sort_by-perm le xs))
