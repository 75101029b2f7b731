-- ===== src/Dedup/Batch/Examples.antt =====
-- Two groups that share a cache of 30000 bytes: the second is too large for it and is split.
use dupion.Base.{ℕ, refl, List, [], ◌∷◌, length, Outcome, ok, inl, arith, ◌≡◌}
use dupion.Dedup.{DedupGroup, split_off_end_at_candidate_n}
use dupion.Dedup.Batch.{Marked, dedup_groups, fill}
use dupion.Dedup.Batch.Rounds.{Filled, fill-Filled}
use dupion.Dedup.Batch.Loop.{Batched, dedup_groups-Batched}

abbrev group : ℕ → List ℕ → DedupGroup
group senpai dups = record {
  senpai = senpai;
  dups = dups;
  start = 0;
  stop = 9000;
  avg_phys = 4096;
  actual_file_size = 9000;
}

abbrev two_groups : List DedupGroup
two_groups = group 1 (2 ∷ []) ∷ group 5 (6 ∷ 7 ∷ 8 ∷ []) ∷ []

-- Keeps the sizes of the batches.
abbrev record_batch : List Marked → List ℕ → Outcome (List ℕ)
record_batch ms s = ok (length ms ∷ s)

abbrev steady_cache : ℕ → Outcome ℕ
steady_cache k = ok 30000

three_batches : dedup_groups record_batch steady_cache two_groups [] ≡ ok (1 ∷ 1 ∷ 1 ∷ [])
unfolding dedup_groups split_off_end_at_candidate_n
three_batches = refl

dedup_groups-Batched_example :
    Batched record_batch steady_cache
      (λ _. 30000)
      (λ _. refl)
      0
      two_groups
      (dedup_groups record_batch steady_cache two_groups)
dedup_groups-Batched_example =
    dedup_groups-Batched record_batch steady_cache (λ _. 30000) (λ _. refl) two_groups
      (omega arith, (omega arith, tt)) (omega arith)

fill-Filled_example : Filled 30000 two_groups [] (fill 7 30000 two_groups [])
fill-Filled_example =
    fill-Filled 7 30000 two_groups []
      (record {
        sized = (omega arith, (omega arith, tt));
        live = tt;
        small = omega arith;
        single = inl (omega arith);
      })
      (omega arith)
