-- ===== src/Driver/Memory/Examples.antt =====
-- A limit of 100 bytes.
use dupion.Base.{◌≡◌, ◌≤◌, refl, [], ◌∷◌, arith}
use dupion.Driver.Memory.{
  in_memory, next_file, waiting, reading, Pool, busy, Step, Reach, Steps, small_archive, allocate,
  spawn_small, lock_again, begin, start, later,
}
use dupion.Driver.Memory.Bound.{in_use, alloc_mon_bounds}
use dupion.Driver.Memory.Progress.{gets_memory}
use dupion.Driver.Memory.Hang.{pool_hangs}

-- Two archives of 40 bytes are there, one in a job that runs; the loop waits for 30 bytes more.
abbrev third_archive : Pool
third_archive = record {
  alloc_mon = 80;
  place = waiting 30;
  queued = in_memory 40 ∷ [];
  running = in_memory 40 ∷ [];
}

one_spawned :
    Reach 100 2
      (record { alloc_mon = 40; place = next_file; queued = in_memory 40 ∷ []; running = [] })
one_spawned =
    later
      (later (later (later start (small_archive 40 refl refl)) (allocate 40 refl refl))
        (spawn_small 40 refl))
      (lock_again refl)

third_archive-Reach : Reach 100 2 third_archive
third_archive-Reach =
    later
      (later
        (later
          (later
            (later (later one_spawned (begin [] (in_memory 40) [] refl (omega arith)))
              (small_archive 40 refl refl))
            (allocate 40 refl refl))
          (spawn_small 40 refl))
        (lock_again refl))
      (small_archive 30 refl refl)

alloc_mon_bounds_example :
    (80 ≡ in_use third_archive) × (in_use third_archive ≤ 100) × (busy third_archive ≤ 2)
alloc_mon_bounds_example = alloc_mon_bounds 100 2 (omega arith) (omega arith) third_archive-Reach

gets_memory_example : (q : Pool) × Steps 100 2 third_archive q × (q.place ≡ reading 30)
gets_memory_example =
    gets_memory 100 2 30 third_archive (omega arith) (omega arith) third_archive-Reach refl (tt, tt)
      (tt, tt)

-- One job waits to read a large archive, two of 40 bytes wait for a thread, and so does the loop for a third.
pool_hangs_example :
    (p : Pool) × Reach 100 2 p × (p.place ≡ waiting 40) × ((q : Pool) → Step 100 2 p q → ⊥)
pool_hangs_example = pool_hangs 100 1 40 2 (omega arith) (omega arith) (omega arith) (omega arith)
