-- ===== src/Readahead/Examples.antt =====
-- Runs of reapfrog on small queues: file `u` has `100000 * u` bytes, and file 3 does not open.
use dupion.Base.{
  ℕ, ◌*◌, ◌+◌, ◌≡◌, refl, arith, Option, some, List, [], ◌∷◌, ◌++◌, ◌==◌, if◌then◌else◌, false, ok,
}
use dupion.Readahead.{
  Readahead, Prefetch, ready, broken, Probe, opened, refused, Delivery, reader, io_error, new, next,
  read, advance, default_budget, prefetch_block,
}
use dupion.Readahead.Queue.{file, contents, queued, pending}
use dupion.Readahead.Order.{Next, next-Next, Delivers}
use dupion.Readahead.Drain.{drain, drain-map, next_skips, read-AtFile, AtFile}
use dupion.Readahead.Bounds.{advance-Within, Within, SmallFiles}

abbrev probe : ℕ → Probe
probe u = if u == 3 then refused 5 else opened (100000 * u)

abbrev all_open : ℕ → Probe
all_open u = opened 100000

abbrev opened_file : ℕ → Prefetch ℕ
opened_file u = record { item = u; read_pos = 0; prefetch_pos = 0; to_drop = 0; size = 100000 }

abbrev with_failure : Readahead ℕ
with_failure = record {
  source = 7 ∷ [];
  open_files = ready (opened_file 1) ∷ broken 5 ∷ ready (opened_file 4) ∷ [];
  dropbehind = false;
  budget = default_budget;
  log = [];
}

abbrev two_reads : ℕ → List (Option ℕ)
two_reads u = some 4096 ∷ some 0 ∷ []

drain-map_example :
    drain probe 3 default_budget two_reads (new (1 ∷ 2 ∷ [])) ≡ ok (reader 1 ∷ reader 2 ∷ [])
drain-map_example =
    drain-map probe (1 ∷ 2 ∷ []) default_budget two_reads ((100000, refl), ((200000, refl), tt))
      (omega arith)

next_skips_example :
    (t u : Readahead ℕ) × (d : Option (Delivery ℕ)) × (next probe with_failure
      ≡ ok (t, some (io_error 5)))
    × (next probe t ≡ ok (u, d))
    × Delivers (file 7 ∷ []) d (pending probe u)
next_skips_example =
    next_skips probe with_failure (ready (opened_file 1)) (ready (opened_file 4)) 5 [] (omega arith)
      refl

next-Next_example : Next probe with_failure (next probe with_failure)
next-Next_example = next-Next probe with_failure

read-AtFile_example :
    (out : Readahead ℕ) × (read probe with_failure (some 4096) ≡ ok (out, some 4096))
    × AtFile probe 1
        (queued probe (broken 5 ∷ ready (opened_file 4) ∷ []) ++ contents probe (7 ∷ []))
        out
read-AtFile_example =
    read-AtFile probe 1
      (queued probe (broken 5 ∷ ready (opened_file 4) ∷ []) ++ contents probe (7 ∷ [])) with_failure
      (some 4096)
      (record {
        here = opened_file 1;
        behind = broken 5 ∷ ready (opened_file 4) ∷ [];
        at_front = refl;
        item = refl;
        after = refl;
      })

all_open-SmallFiles : SmallFiles all_open
all_open-SmallFiles u len e = let e' : 100000 ≡ len = cc in omega (arith, e')

advance-Within_example :
    (out : Readahead ℕ) × (advance all_open with_failure ≡ ok out)
    × Within (default_budget + prefetch_block) with_failure out
advance-Within_example =
    advance-Within all_open all_open-SmallFiles with_failure
      ((omega arith, omega arith), (tt, ((omega arith, omega arith), tt)))
