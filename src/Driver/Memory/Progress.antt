-- ===== src/Driver/Memory/Progress.antt =====
-- The loop that waits for memory can get it.
use dupion.Base.{
  ℕ, ◌*◌, ◌/◌, ◌^◌, ◌<◌, ◌≤◌, ◌≡◌, refl, ap, subst, ◌∙◌, false, List, [], ◌∷◌, length, add64, arith,
  All,
}
use native.Mathlib.Nat.{div-le_self}
use dupion.Driver.Memory.{
  Job, in_memory, streamed, in_lock, waiting, reading, Pool, occupied, must_wait, allocated, freed,
  Reach, Steps, allocate, begin, end_small, later, done, next,
}
use dupion.Driver.Memory.Bound.{Inv, Reach-Inv, buffers, held_at, FitsAt}

abbrev pub IsSmall : Job → Type 0
IsSmall (in_memory size) = Unit
IsSmall streamed = ⊥
IsSmall in_lock = ⊥

-- Only the loop is left, where it was.
abbrev Alone : Pool → Pool → Type 0
Alone p q = (q.place ≡ p.place) × (q.queued ≡ []) × (q.running ≡ [])

module _ (limit threads : ℕ) where
  Reach-Steps :
      {p q : Pool} → Reach limit threads p → Steps limit threads p q → Reach limit threads q
  Reach-Steps reach done = reach
  Reach-Steps reach (next step steps) = Reach-Steps (later reach step) steps

  Steps-append :
      {p q r : Pool} → Steps limit threads p q → Steps limit threads q r → Steps limit threads p r
  Steps-append done more = more
  Steps-append (next step steps) more = next step (Steps-append steps more)

  -- The jobs that run come to an end.
  ends_all :
      (p : Pool) (jobs : List Job)
      → p.running ≡ jobs
      → All IsSmall jobs
      → (q : Pool) × Steps limit threads p q
        × ((q.place ≡ p.place) × (q.queued ≡ p.queued) × (q.running ≡ []))
  ends_all p [] at small = (p, done, (refl, refl, at))
  ends_all p (streamed ∷ jobs) at small = absurd small.0
  ends_all p (in_lock ∷ jobs) at small = absurd small.0
  ends_all p (in_memory size ∷ jobs) at small =
      let (q, steps, left) =
        ends_all (record p { alloc_mon = freed p.alloc_mon size; running = jobs }) jobs refl
          small.1 in
      (q, next (end_small [] size jobs at) steps, left)

  -- The jobs that wait for a thread are run one after the other.
  runs_all :
      (p : Pool) (jobs : List Job)
      → p.queued ≡ jobs
      → p.running ≡ []
      → occupied p.place < threads
      → All IsSmall jobs
      → (q : Pool) × Steps limit threads p q × Alone p q
  runs_all p [] at none_run free small = (p, done, (refl, at, none_run))
  runs_all p (streamed ∷ jobs) at none_run free small = absurd small.0
  runs_all p (in_lock ∷ jobs) at none_run free small = absurd small.0
  runs_all p (in_memory size ∷ jobs) at none_run free small =
      let none_busy : length p.running ≡ 0 = ap length none_run in
      let (q, steps, left) =
        runs_all (record p { alloc_mon = freed p.alloc_mon size; queued = jobs }) jobs refl none_run
          free small.1 in
      (
        q,
        next (begin [] (in_memory size) jobs at (omega arith))
            (next (end_small [] size p.running refl) steps),
        left,
      )

-- An archive that the loop waits for fits when no other buffer is there.
may_allocate :
    (limit threads size : ℕ) (p : Pool)
    → Inv limit threads p
    → 2 * limit < 2 ^ 64
    → p.place ≡ waiting size
    → p.queued ≡ []
    → p.running ≡ []
    → must_wait limit p.alloc_mon size ≡ false
may_allocate limit threads size p inv small at none_queued none_run =
    let fits : size ≤ limit / threads = subst (FitsAt limit threads) at inv.fits in
    let less : limit / threads ≤ limit = div-le_self limit threads in
    let held : held_at p.place ≡ 0 = ap held_at at in
    let queued : buffers p.queued ≡ 0 = ap buffers none_queued in
    let running : buffers p.running ≡ 0 = ap buffers none_run in
    let none : p.alloc_mon ≡ 0 = omega (arith, inv.counted) in
    let sum : add64 p.alloc_mon size ≤ limit = omega (arith, none, fits, less, small) in
    ground (arith, sum)

-- With at least two threads and twice the limit less than 2 ^ 64, from every state that the hash
-- phase can reach, in which the loop waits for the memory of an archive and each job that is spawned
-- owns its buffer, there are steps after which the loop has the memory: it does not wait forever.
pub gets_memory :
    (limit threads size : ℕ) (p : Pool)
    → 2 * limit < 2 ^ 64
    → 2 ≤ threads
    → Reach limit threads p
    → p.place ≡ waiting size
    → All IsSmall p.queued
    → All IsSmall p.running
    → (q : Pool) × Steps limit threads p q × (q.place ≡ reading size)
gets_memory limit threads size p small two reach at queued running =
    let (q, steps, (q_place, q_queued, none_run)) =
      ends_all limit threads p p.running refl running in
    let one : occupied q.place ≡ 1 = ap occupied (q_place ∙ at) in
    let (r, more, (r_place, r_queued, r_running)) =
      runs_all limit threads q p.queued q_queued none_run (omega arith) queued in
    let all_steps = Steps-append limit threads steps more in
    let inv =
      Reach-Inv limit threads small (omega arith) (Reach-Steps limit threads reach all_steps) in
    let place : r.place ≡ waiting size = r_place ∙ q_place ∙ at in
    let fits : size ≤ limit / threads = subst (FitsAt limit threads) place inv.fits in
    let free : must_wait limit r.alloc_mon size ≡ false =
      may_allocate limit threads size r inv small place r_queued r_running in
    (
      record r { alloc_mon = allocated r.alloc_mon size; place = reading size },
      Steps-append limit threads all_steps (next (allocate size place free) done),
      refl,
    )
