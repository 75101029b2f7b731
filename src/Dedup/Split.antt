-- ===== src/Dedup/Split.antt =====
-- Splitting a group loses no file and no byte.
use dupion.Base.{
  ℕ, ◌+◌, ◌≤◌, ◌≡◌, refl, ◌++◌, ok, arith, min, length, take, drop, take-append-drop, length-take,
}
use dupion.Dedup.{
  DedupGroup, split_off_start_at_candidate_n, split_off_end_at_candidate_n, split_off_start_range,
  range_len,
}

-- `front` and `back` are the two parts of `g` in the order of its dups.
pub record Splits (g : DedupGroup) (at : ℕ) (front back : DedupGroup) : Type 0 where
  pub dups : front.dups ++ back.dups ≡ g.dups
  pub count : length front.dups ≡ at
  pub senpai : (front.senpai ≡ g.senpai) × (back.senpai ≡ g.senpai)
  pub range : (range_len front ≡ range_len g) × (range_len back ≡ range_len g)
  pub starts : (front.start ≡ g.start) × (back.start ≡ g.start)
  pub stops : (front.stop ≡ g.stop) × (back.stop ≡ g.stop)

-- Both ways to split at `at`, up to the end, give the same two parts, which have the dups of `g` in
-- order, its senpai and its range, and differ in which is returned.
pub split_off-Splits :
    (g : DedupGroup) (at : ℕ)
    → at ≤ length g.dups
    → (front back : DedupGroup) × (split_off_start_at_candidate_n g at ≡ ok (front, back))
      × (split_off_end_at_candidate_n g at ≡ ok (back, front))
      × Splits g at front back
unfolding split_off_start_at_candidate_n split_off_end_at_candidate_n
split_off-Splits g at h = (
  record g { dups = take at g.dups },
  record g { dups = drop at g.dups },
  ground arith,
  ground arith,
  record {
    dups = take-append-drop at g.dups;
    count = omega (arith, length-take at g.dups);
    senpai = (refl, refl);
    range = (refl, refl);
    starts = (refl, refl);
    stops = (refl, refl);
  },
)

-- Splitting a range that does not end before it starts gives two ranges that meet, the first of the length asked for if there is so
-- much, and keeps the files.
pub split_off_start_range_lem :
    (g : DedupGroup) (len : ℕ)
    → g.start ≤ g.stop
    → let (first, rest) = split_off_start_range g len in
      (first.start ≡ g.start)
      × (first.stop ≡ rest.start)
      × (rest.stop ≡ g.stop)
      × (range_len first ≡ min len (range_len g))
      × (range_len first + range_len rest ≡ range_len g)
      × (first.dups ≡ g.dups)
      × (rest.dups ≡ g.dups)
unfolding split_off_start_range
split_off_start_range_lem g len h = (refl, refl, refl, omega arith, omega arith, refl, refl)
