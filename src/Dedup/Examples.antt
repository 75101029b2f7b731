-- ===== src/Dedup/Examples.antt =====
-- Three files with one content, two of which share their physical offset.
use dupion.Base.{ℕ, refl, ◌∷◌, [], ◌≡◌, false, some, map, List, arith, ok, sort_by_key}
use dupion.Dedup.{
  DedupCandidate, DedupGroup, with_occurrences, count_phys_occurrences_sorted, group_of, choose,
  select_from, preferred, split_off_start_at_candidate_n, split_off_end_at_candidate_n,
}
use dupion.Dedup.Occurrences.{occurrences, count_phys_occurrences_sorted-map}
use dupion.Dedup.Senpai.{Picks, average, counted, group_of-Chosen}
use dupion.Dedup.Split.{Splits, split_off-Splits}

abbrev at_offset : ℕ → ℕ → DedupCandidate
at_offset id phys = record {
  id = id;
  phys = phys;
  phys_occurrences = 0;
  file_size = 9000;
  n_extends = 1;
  ctime = 5;
}

abbrev three : List DedupCandidate
three = at_offset 1 4096 ∷ at_offset 2 4096 ∷ at_offset 3 8192 ∷ []

abbrev pair : DedupGroup
pair = record {
  senpai = 1;
  dups = 3 ∷ [];
  start = 0;
  stop = 9000;
  avg_phys = 5461;
  actual_file_size = 9000;
}

count_phys_occurrences_sorted-map_example :
    count_phys_occurrences_sorted three
    ≡ map (λ v. with_occurrences (occurrences v.phys three) v) three
count_phys_occurrences_sorted-map_example =
    count_phys_occurrences_sorted-map three
      ((omega arith, (omega arith, tt)), ((omega arith, tt), (tt, tt)))

three-group : group_of false three ≡ some pair
unfolding group_of choose count_phys_occurrences_sorted sort_by_key select_from preferred
three-group = refl

group_of-Chosen_example : Picks false (average three) (counted three) pair
group_of-Chosen_example = group_of-Chosen false three pair three-group

split_off-Splits_example :
    (front back : DedupGroup) × (split_off_start_at_candidate_n pair 1 ≡ ok (front, back))
    × (split_off_end_at_candidate_n pair 1 ≡ ok (back, front))
    × Splits pair 1 front back
split_off-Splits_example = split_off-Splits pair 1 (omega arith)
