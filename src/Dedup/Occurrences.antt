-- ===== src/Dedup/Occurrences.antt =====
-- The two passes of `count_phys_occurrences_sorted` count each physical offset.
use dupion.Base.{
  ℕ, ◌+◌, ◌≤◌, ◌<◌, ◌≡◌, refl, ap, ap₂, ◌∙◌, inl, inr, List, [], ◌∷◌, map, All, All-map, ◌==◌,
  if◌then◌else◌, Bool-cases, ==_iff, arith, IsSortedBy,
}
use dupion.Dedup.{
  DedupCandidate, Pass, with_occurrences, count_forward, count_backward,
  count_phys_occurrences_sorted,
}

-- How many of the candidates lie at `phys`.
abbrev pub occurrences : ℕ → List DedupCandidate → ℕ
occurrences phys [] = 0
occurrences phys (v ∷ vs) = (if v.phys == phys then 1 else 0) + occurrences phys vs

-- The count of a candidate in `vs`, if a run of `count` at `phys` ends in front of them.
abbrev running : ℕ → ℕ → List DedupCandidate → DedupCandidate → ℕ
running phys count vs v = (if v.phys == phys then count else 0) + occurrences v.phys vs

map-congr {ℓ κ} :
    {A : Type ℓ} {B : Type κ} (f g : A → B) (xs : List A)
    → All (λ x. f x ≡ g x) xs
    → map f xs ≡ map g xs
map-congr f g [] h = refl
map-congr f g (x ∷ xs) h = ap₂ (λ y ys. y ∷ ys) h.0 (map-congr f g xs h.1)

occurrences_above :
    (phys bound : ℕ) (vs : List DedupCandidate)
    → phys < bound
    → All (λ v. bound ≤ v.phys) vs
    → occurrences phys vs ≡ 0
occurrences_above phys bound [] h hs = refl
occurrences_above phys bound (v ∷ vs) h hs = ground (arith, occurrences_above phys bound vs h hs.1)

abbrev passes : ℕ → ℕ → List DedupCandidate → Pass
passes phys count vs =
    let first = count_forward phys count vs in
    count_backward first.current_phys first.current_count first.marked

-- After both passes the variables stand for the front of the list.
abbrev AtFront : ℕ → ℕ → List DedupCandidate → Pass → Type 0
AtFront phys count [] r = (r.current_phys ≡ phys) × (r.current_count ≡ count)
AtFront phys count (v ∷ vs) r =
    (r.current_phys ≡ v.phys) × (r.current_count ≡ running phys count (v ∷ vs) v)

-- The count that the second pass gives to the first candidate.
head_count :
    (phys count : ℕ) (v : DedupCandidate) (vs : List DedupCandidate) (r : Pass)
    → let count' = (if phys == v.phys then count else 0) + 1 in
      All (λ x. v.phys ≤ x.phys) vs
      → IsSortedBy (λ x. x.phys) vs
      → AtFront v.phys count' vs r
      → (if r.current_phys == v.phys then r.current_count else count')
        ≡ running phys count (v ∷ vs) v
head_count phys count v [] r low sorted front = ground arith
head_count phys count v (w ∷ ws) r low sorted front = elim (Bool-cases (w.phys == v.phys)) [
  | inl same ↦
      let e = (==_iff w.phys v.phys).0 same in ground (arith, ap (λ x. occurrences x (w ∷ ws)) e)
  | inr other ↦ ground (arith, occurrences_above v.phys w.phys ws)
]

-- The count of a later candidate does not depend on what stands in front of its run.
tail_count :
    (phys count : ℕ) (v : DedupCandidate) (vs : List DedupCandidate) (x : DedupCandidate)
    → phys ≤ v.phys
    → v.phys ≤ x.phys
    → running v.phys ((if phys == v.phys then count else 0) + 1) vs x
      ≡ running phys count (v ∷ vs) x
tail_count phys count v vs x low le = ground arith

passes_lem :
    (phys count : ℕ) (vs : List DedupCandidate)
    → All (λ v. phys ≤ v.phys) vs
    → IsSortedBy (λ v. v.phys) vs
    → AtFront phys count vs (passes phys count vs)
      × ((passes phys count vs).marked ≡ map (λ v. with_occurrences (running phys count vs v) v) vs)
unfolding count_forward count_backward
passes_lem phys count [] low sorted = ((refl, refl), refl)
passes_lem phys count (v ∷ vs) low sorted =
    let count' = (if phys == v.phys then count else 0) + 1 in
    let (front, marked) = passes_lem v.phys count' vs sorted.0 sorted.1 in
    let head = head_count phys count v vs (passes v.phys count' vs) sorted.0 sorted.1 front in
    let later =
      map-congr (λ x. with_occurrences (running v.phys count' vs x) x)
        (λ x. with_occurrences (running phys count (v ∷ vs) x) x) vs
        (All-map _ _
          (λ x le. ap (λ n. with_occurrences n x) (tail_count phys count v vs x low.0 le)) vs
          sorted.0) in
    ((refl, head), ap₂ (λ n rest. with_occurrences n v ∷ rest) head (marked ∙ later))

-- On candidates sorted by their physical offset, each is given the number of candidates that share
-- its offset, and nothing else changes.
pub count_phys_occurrences_sorted-map :
    (vs : List DedupCandidate)
    → IsSortedBy (λ v. v.phys) vs
    → count_phys_occurrences_sorted vs ≡ map (λ v. with_occurrences (occurrences v.phys vs) v) vs
unfolding count_phys_occurrences_sorted
count_phys_occurrences_sorted-map [] sorted = refl
count_phys_occurrences_sorted-map (v ∷ vs) sorted =
    (passes_lem v.phys 0 (v ∷ vs) (omega arith, sorted.0) sorted).1
    ∙ map-congr _ _ (v ∷ vs) (each (v ∷ vs) (v ∷ vs))
  where
    each :
        (xs all : List DedupCandidate)
        → All
            (λ x.
              with_occurrences (running v.phys 0 all x) x
              ≡ with_occurrences (occurrences x.phys all) x)
            xs
    each [] all = tt
    each (x ∷ xs) all = (ap (λ n. with_occurrences n x) (ground arith), each xs all)
