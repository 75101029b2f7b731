-- ===== src/Driver/Memory/Hang.antt =====
-- The states in which the loop waits for memory that no one can free.
use dupion.Base.{
  ℕ, zero, suc, ◌+◌, ◌*◌, ◌/◌, ◌^◌, ◌<◌, ◌≤◌, ◌≢◌, ◌≡◌, refl, subst, true, false, List, [], ◌∷◌,
  ◌++◌, length, leb, add64, arith,
}
use native.Mathlib.Nat.{div-le_self}
use dupion.Driver.Memory.{
  Job, in_memory, streamed, in_lock, open_failed, open_large, Place, next_file, waiting, Pool,
  huge_zip_thres, must_wait, Step, Reach, small_archive, allocate, read_failed, spawn_small,
  spawn_large, large_failed, other_file, lock_again, no_file, begin, end_small, end_large, start,
  later,
}

abbrev pub copies : ℕ → Job → List Job
copies zero job = []
copies (suc n) job = job ∷ copies n job

length-copies : (n : ℕ) (job : Job) → length (copies n job) ≡ n
length-copies zero job = refl
length-copies (suc n) job = omega (arith, length-copies n job)

only_copies :
    (n : ℕ) (job other : Job) (before after : List Job)
    → job ≢ other
    → copies n job ≡ before ++ other ∷ after
    → ⊥
only_copies zero job other [] after apart h = cc
only_copies zero job other (x ∷ before) after apart h = cc
only_copies (suc n) job other [] after apart h = apart (let same : job ≡ other = cc in same)
only_copies (suc n) job other (x ∷ before) after apart h =
    let rest : copies n job ≡ before ++ other ∷ after = cc in
    only_copies n job other before after apart rest

-- `n` large archives are open in their jobs, which wait for the read lock, and `k` small ones of `a` bytes wait for a thread.
abbrev pub crowded : ℕ → ℕ → ℕ → ℕ → Place → Pool
crowded n k a total place = record {
  alloc_mon = total;
  place = place;
  queued = copies k (in_memory a);
  running = copies n in_lock;
}

module _ (limit threads : ℕ) where
  large_jobs : (n : ℕ) → n < threads → Reach limit threads (crowded n 0 0 0 next_file)
  large_jobs zero h = start
  large_jobs (suc n) h =
      let count = length-copies n in_lock in
      later
        (later
          (later
            (later (large_jobs n (omega arith))
              (spawn_large (suc (limit / threads)) refl (ground arith)))
            (begin [] streamed [] refl (omega (arith, count, h))))
          (open_large [] (copies n in_lock) refl))
        (lock_again refl)

  module _ (n a : ℕ) (some_thread : n < threads) (small : 2 * limit < 2 ^ 64)
      (fits : a ≤ limit / threads) where
    within : leb a (huge_zip_thres limit threads) ≡ true
    within = ground (arith, fits)

    small_jobs :
        (k total : ℕ)
        → total ≡ k * a
        → total ≤ limit
        → Reach limit threads (crowded n k a total next_file)
    small_jobs zero total same h =
        let none : 0 ≡ total = omega (arith, same) in
        subst (λ m. Reach limit threads (crowded n 0 a m next_file)) none (large_jobs n some_thread)
    small_jobs (suc k) total same h =
        let before : k * a + a ≡ total = omega (arith, same) in
        let sum : add64 (k * a) a ≡ total = omega (arith, before, h, small) in
        let free : must_wait limit (k * a) a ≡ false = ground (arith, sum, h) in
        subst (λ m. Reach limit threads (crowded n (suc k) a m next_file)) sum
          (later
            (later
              (later (later (small_jobs k (k * a) refl (omega arith)) (small_archive a refl within))
                (allocate a refl free))
              (spawn_small a refl))
            (lock_again refl))

    crowded-stuck :
        (k : ℕ) {q : Pool}
        → threads ≡ suc n
        → k * a ≤ limit
        → limit < k * a + a
        → Step limit threads (crowded n k a (k * a) (waiting a)) q
        → ⊥
    crowded-stuck k all room full (small_archive size at b) = cc
    crowded-stuck k all room full (allocate size at free) =
        let same : a ≡ size = cc in
        let less : limit / threads ≤ limit = div-le_self limit threads in
        let sum : limit < add64 (k * a) a = omega (arith, room, full, fits, less, small) in
        ground (arith, free, sum)
    crowded-stuck k all room full (read_failed size at) = cc
    crowded-stuck k all room full (spawn_small size at) = cc
    crowded-stuck k all room full (spawn_large large at much) = cc
    crowded-stuck k all room full (large_failed large at much) = cc
    crowded-stuck k all room full (other_file at) = cc
    crowded-stuck k all room full (lock_again at) = cc
    crowded-stuck k all room full (no_file at) = cc
    crowded-stuck k all room full (begin before job after at free) =
        let count = length-copies n in_lock in omega (arith, count, free, all)
    crowded-stuck k all room full (end_small before size after at) =
        only_copies n in_lock (in_memory size) before after (λ h. cc) at
    crowded-stuck k all room full (open_failed before after at) =
        only_copies n in_lock streamed before after (λ h. cc) at
    crowded-stuck k all room full (open_large before after at) =
        only_copies n in_lock streamed before after (λ h. cc) at
    crowded-stuck k all room full (end_large before after at free) = cc

-- With any number of threads, and twice the limit less than 2 ^ 64: take as many large archives as
-- there are threads besides the loop's, and small ones of one size, each within the limit divided by
-- the threads, of which `k` together are within the limit and one more is not. Then the hash phase
-- can reach a state in which the loop waits for the memory of a small archive and no step at all is
-- possible: it waits forever.
pub pool_hangs :
    (limit n a k : ℕ)
    → 2 * limit < 2 ^ 64
    → a ≤ limit / suc n
    → k * a ≤ limit
    → limit < k * a + a
    → (p : Pool) × Reach limit (suc n) p
      × (p.place ≡ waiting a)
      × ((q : Pool) → Step limit (suc n) p q → ⊥)
pool_hangs limit n a k small fits room full = (
  crowded n k a (k * a) (waiting a),
  later (small_jobs limit (suc n) n a (omega arith) small fits k (k * a) refl room)
      (small_archive a refl (within limit (suc n) n a (omega arith) small fits)),
  refl,
  λ q step. crowded-stuck limit (suc n) n a (omega arith) small fits k refl room full step,
)
