-- ===== src/Process/Digest.antt =====
-- Sorting makes one list of all orders of the children, and so the same bytes.
use dupion.Base.{
  ◌≡◌, refl, sym, ap, ap₂, subst, ◌∙◌, inl, inr, Bool, true, false, List, [], ◌∷◌, if◌then◌else◌,
  Bool-cases, sort_by, insert_by, arith,
}
use mathlib.Core.List.{Permᴰ}
use dupion.FilePath.{Bytes, bytes_eq}
use dupion.FilePath.Laws.{bytes_eq_iff}
use dupion.Process.{Named, bytes_leb, named_leb, hashed_bytes}

module _ {A : Type 0} (le : A → A → Bool) (total : (a b : A) → le a b ≡ false → le b a ≡ true)
    (trans : (a b c : A) → le a b ≡ true → le b c ≡ true → le a c ≡ true)
    (antisym : (a b : A) → le a b ≡ true → le b a ≡ true → a ≡ b) where
  in_front :
      (x y : A) (zs : List A)
      → (if le x y then x ∷ y ∷ zs else y ∷ x ∷ zs) ≡ (if le y x then y ∷ x ∷ zs else x ∷ y ∷ zs)
  in_front x y zs = elim (Bool-cases (le x y)) [
    | inl a ↦ elim (Bool-cases (le y x)) [
      | inl b ↦ rw (a, b) (ap₂ (λ u v. u ∷ v ∷ zs) (antisym x y a b) (sym (antisym x y a b)))
      | inr b ↦ rw (a, b) refl
    ]
    | inr a ↦ rw (a, total x y a) refl
  ]

  insert_by_front : (x z : A) (zs : List A) → le x z ≡ true → insert_by le x (z ∷ zs) ≡ x ∷ z ∷ zs
  unfolding insert_by
  insert_by_front x z zs e = rw e refl

  insert_by_behind :
      (x z : A) (zs : List A) → le x z ≡ false → insert_by le x (z ∷ zs) ≡ z ∷ insert_by le x zs
  unfolding insert_by
  insert_by_behind x z zs e = rw e refl

  insert_by_two :
      (x y : A) (zs : List A)
      → insert_by le x zs ≡ x ∷ zs
      → insert_by le x (y ∷ zs) ≡ (if le x y then x ∷ y ∷ zs else y ∷ x ∷ zs)
  insert_by_two x y zs h = elim (Bool-cases (le x y)) [
    | inl e ↦ insert_by_front x y zs e ∙ rw e refl
    | inr e ↦ insert_by_behind x y zs e ∙ rw e (ap (λ ys. y ∷ ys) h)
  ]

  swap_both :
      (x y : A) (zs : List A)
      → insert_by le x zs ≡ x ∷ zs
      → insert_by le y zs ≡ y ∷ zs
      → insert_by le x (insert_by le y zs) ≡ insert_by le y (insert_by le x zs)
  swap_both x y zs hx hy =
      ap (insert_by le x) hy
      ∙ insert_by_two x y zs hx
      ∙ in_front x y zs
      ∙ sym (insert_by_two y x zs hy)
      ∙ sym (ap (insert_by le y) hx)

  -- `x` goes in front of `z`, and `y` behind it.
  swap_apart :
      (x y z : A) (zs : List A)
      → le x z ≡ true
      → le y z ≡ false
      → insert_by le x (insert_by le y (z ∷ zs)) ≡ insert_by le y (insert_by le x (z ∷ zs))
  swap_apart x y z zs a b =
      ap (insert_by le x) (insert_by_behind y z zs b)
      ∙ insert_by_front x z (insert_by le y zs) a
      ∙ sym (ap (λ ys. x ∷ ys) (insert_by_behind y z zs b))
      ∙ sym (insert_by_behind y x (z ∷ zs) away)
      ∙ sym (ap (insert_by le y) (insert_by_front x z zs a))
    where
      away : le y x ≡ false
      away = elim (Bool-cases (le y x)) [
        | inl e ↦ let bad : le y z ≡ true = trans y x z e a in cc
        | inr e ↦ e
      ]

  insert_by-swap :
      (x y : A) (zs : List A)
      → insert_by le x (insert_by le y zs) ≡ insert_by le y (insert_by le x zs)
  unfolding insert_by
  insert_by-swap x y [] = in_front x y []
  insert_by-swap x y (z ∷ zs) = elim (Bool-cases (le x z)) [
    | inl a ↦ elim (Bool-cases (le y z)) [
      | inl b ↦ swap_both x y (z ∷ zs) (insert_by_front x z zs a) (insert_by_front y z zs b)
      | inr b ↦ swap_apart x y z zs a b
    ]
    | inr a ↦ elim (Bool-cases (le y z)) [
      | inl b ↦ sym (swap_apart y x z zs b a)
      | inr b ↦
          ap (insert_by le x) (insert_by_behind y z zs b)
          ∙ insert_by_behind x z (insert_by le y zs) a
          ∙ ap (λ ys. z ∷ ys) (insert_by-swap x y zs)
          ∙ sym (insert_by_behind y z (insert_by le x zs) b)
          ∙ sym (ap (insert_by le y) (insert_by_behind x z zs a))
    ]
  ]

  sort_by-Permᴰ : {xs ys : List A} → Permᴰ xs ys → sort_by le xs ≡ sort_by le ys
  unfolding sort_by
  sort_by-Permᴰ Permᴰ.nil = refl
  sort_by-Permᴰ (Permᴰ.cons e p) = ap₂ (insert_by le) e (sort_by-Permᴰ p)
  sort_by-Permᴰ (Permᴰ.swap {a} {b} {a'} {b'} {l} e f) =
      insert_by-swap a b (sort_by le l)
      ∙ ap₂ (λ u v. insert_by le u (insert_by le v (sort_by le l))) f e
  sort_by-Permᴰ (Permᴰ.trans p q) = sort_by-Permᴰ p ∙ sort_by-Permᴰ q

bytes_leb_total : (a b : Bytes) → bytes_leb a b ≡ false → bytes_leb b a ≡ true
bytes_leb_total [] b h = cc
bytes_leb_total (x ∷ a) [] h = refl
bytes_leb_total (x ∷ a) (y ∷ b) h = ground (arith, h, bytes_leb_total a b)

bytes_leb_trans :
    (a b c : Bytes) → bytes_leb a b ≡ true → bytes_leb b c ≡ true → bytes_leb a c ≡ true
bytes_leb_trans [] b c h k = refl
bytes_leb_trans (x ∷ a) [] c h k = cc
bytes_leb_trans (x ∷ a) (y ∷ b) [] h k = cc
bytes_leb_trans (x ∷ a) (y ∷ b) (z ∷ c) h k = ground (arith, h, k, bytes_leb_trans a b c)

bytes_leb_antisym : (a b : Bytes) → bytes_leb a b ≡ true → bytes_leb b a ≡ true → a ≡ b
bytes_leb_antisym [] [] h k = refl
bytes_leb_antisym [] (y ∷ b) h k = cc
bytes_leb_antisym (x ∷ a) [] h k = cc
bytes_leb_antisym (x ∷ a) (y ∷ b) h k =
    ap₂ (λ u v. u ∷ v) (ground (arith, h, k))
      (bytes_leb_antisym a b (ground (arith, h, k)) (ground (arith, h, k)))

named_leb_total : (a b : Named) → named_leb a b ≡ false → named_leb b a ≡ true
named_leb_total (h, n) (k, m) e =
    ground (arith, e, bytes_eq_iff h k, bytes_eq_iff k h, bytes_leb_total n m, bytes_leb_total h k)

named_leb_trans :
    (a b c : Named) → named_leb a b ≡ true → named_leb b c ≡ true → named_leb a c ≡ true
named_leb_trans (h, n) (k, m) (i, o) e f = elim (Bool-cases (bytes_eq h k)) [
  | inl hk ↦
      let h_k : h ≡ k = (bytes_eq_iff h k).0 hk in
      let e' : bytes_leb n m ≡ true = rw hk at e in
      subst (λ x. named_leb (x, n) (i, o) ≡ true) (sym h_k)
        (elim (Bool-cases (bytes_eq k i)) [
          | inl ki ↦ rw ki (bytes_leb_trans n m o e' (rw ki at f))
          | inr ki ↦ rw ki (rw ki at f)
        ])
  | inr hk ↦ elim (Bool-cases (bytes_eq k i)) [
    | inl ki ↦
        let k_i : k ≡ i = (bytes_eq_iff k i).0 ki in
        subst (λ x. named_leb (h, n) (x, o) ≡ true) k_i (rw hk (rw hk at e))
    | inr ki ↦
        let h_k : bytes_leb h k ≡ true = rw hk at e in
        let k_i : bytes_leb k i ≡ true = rw ki at f in
        elim (Bool-cases (bytes_eq h i)) [
          | inl hi ↦
              let h_i : h ≡ i = (bytes_eq_iff h i).0 hi in
              let same : h ≡ k =
                bytes_leb_antisym h k h_k (subst (λ x. bytes_leb k x ≡ true) (sym h_i) k_i) in
              let bad : bytes_eq h k ≡ true = (bytes_eq_iff h k).1 same in cc
          | inr hi ↦ rw hi (bytes_leb_trans h k i h_k k_i)
        ]
  ]
]

named_leb_antisym : (a b : Named) → named_leb a b ≡ true → named_leb b a ≡ true → a ≡ b
named_leb_antisym (h, n) (k, m) e f = elim (Bool-cases (bytes_eq h k)) [
  | inl same ↦
      let hk : h ≡ k = (bytes_eq_iff h k).0 same in
      let back : bytes_eq k h ≡ true = (bytes_eq_iff k h).1 (sym hk) in
      ap₂ (λ u v. (u, v)) hk (bytes_leb_antisym n m (rw same at e) (rw back at f))
  | inr other ↦
      let apart : bytes_eq k h ≡ false =
        ground (arith, bytes_eq_iff h k, bytes_eq_iff k h, other) in
      let hk : h ≡ k = bytes_leb_antisym h k (rw other at e) (rw apart at f) in
      let same : bytes_eq h k ≡ true = (bytes_eq_iff h k).1 hk in cc
]

-- What is hashed of the children of a directory is the same in whatever order they come.
pub hashed_bytes-Permᴰ :
    (ns ms : List Named)
    → Permᴰ ns ms
    → hashed_bytes (sort_by named_leb ns) ≡ hashed_bytes (sort_by named_leb ms)
hashed_bytes-Permᴰ ns ms d =
    ap hashed_bytes (sort_by-Permᴰ named_leb named_leb_total named_leb_trans named_leb_antisym d)
