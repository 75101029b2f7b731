-- ===== src/Driver/Memory/Bound.antt =====
-- `ALLOC_MON` counts the buffers that are there, and the limit is kept.
use dupion.Base.{
  ℕ, suc, ◌+◌, ◌*◌, ◌/◌, ◌^◌, ◌<◌, ◌≤◌, ◌≡◌, refl, ap, subst, ◌∙◌, List, [], ◌∷◌, ◌++◌, length,
  add64, arith,
}
use native.Mathlib.Nat.{div-le_self}
use dupion.Driver.Memory.{
  Job, in_memory, streamed, in_lock, open_failed, open_large, Place, next_file, waiting, reading,
  hashed, ended, Pool, occupied, busy, Step, Reach, small_archive, allocate, read_failed,
  spawn_small, spawn_large, large_failed, other_file, lock_again, no_file, begin, end_small,
  end_large, start, later,
}

abbrev pub buffer_of : Job → ℕ
buffer_of (in_memory size) = size
buffer_of streamed = 0
buffer_of in_lock = 0

abbrev pub buffers : List Job → ℕ
buffers [] = 0
buffers (job ∷ jobs) = buffer_of job + buffers jobs

abbrev pub held_at : Place → ℕ
held_at (reading size) = size
held_at _ = 0

-- The bytes of all buffers that are there.
abbrev pub in_use : Pool → ℕ
in_use p = held_at p.place + (buffers p.queued + buffers p.running)

pub buffers-append :
    (before after : List Job) (job : Job)
    → buffers (before ++ job ∷ after) ≡ buffer_of job + buffers (before ++ after)
buffers-append [] after job = refl
buffers-append (x ∷ before) after job = omega (arith, buffers-append before after job)

pub length-middle :
    (before after : List Job) (job : Job)
    → length (before ++ job ∷ after) ≡ suc (length (before ++ after))
length-middle [] after job = refl
length-middle (x ∷ before) after job = omega (arith, length-middle before after job)

module _ (limit threads : ℕ) where
  -- The size that is waited for is one that fits.
  abbrev pub FitsAt : Place → Type 0
  FitsAt (waiting size) = size ≤ limit / threads
  FitsAt _ = Unit {0}

  pub record Inv (p : Pool) : Type 0 where
    pub counted : p.alloc_mon ≡ in_use p
    pub kept : in_use p ≤ limit
    pub fits : FitsAt p.place
    pub few : busy p ≤ threads

  module _ (small : 2 * limit < 2 ^ 64) (some_thread : 0 < threads) where
    -- The loop goes to a place that holds no other buffer.
    goes :
        (p : Pool) (place : Place) (jobs : List Job)
        → Inv p
        → held_at place + buffers jobs ≡ held_at p.place + buffers p.queued
        → occupied place ≤ occupied p.place
        → FitsAt place
        → Inv (record p { place = place; queued = jobs })
    goes p place jobs inv same fewer fits = record {
      counted = omega (arith, inv.counted, same);
      kept = omega (arith, inv.kept, same);
      fits = fits;
      few = omega (arith, inv.few, fewer);
    }

    next_Inv :
        (p : Pool) (place : Place) (jobs : List Job)
        → Inv p
        → p.place ≡ next_file
        → held_at place ≡ 0
        → buffers jobs ≡ buffers p.queued
        → occupied place ≤ 1
        → FitsAt place
        → Inv (record p { place = place; queued = jobs })
    next_Inv p place jobs inv at none_held same fewer fits =
        let held : held_at p.place ≡ 0 = ap held_at at in
        let one : occupied p.place ≡ 1 = ap occupied at in
        goes p place jobs inv (omega arith) (omega arith) fits

    -- A job that owns no buffer comes to an end.
    without :
        (p : Pool) (before after : List Job) (job : Job)
        → Inv p
        → p.running ≡ before ++ job ∷ after
        → buffer_of job ≡ 0
        → Inv (record p { running = before ++ after })
    without p before after job inv at none_held =
        let running : buffers p.running ≡ buffer_of job + buffers (before ++ after) =
          ap buffers at ∙ buffers-append before after job in
        let count : length p.running ≡ suc (length (before ++ after)) =
          ap length at ∙ length-middle before after job in
        record {
          counted = omega (arith, inv.counted, running, none_held);
          kept = omega (arith, inv.kept, running, none_held);
          fits = inv.fits;
          few = omega (arith, inv.few, count);
        }

    Step-Inv : {p q : Pool} → Inv p → Step limit threads p q → Inv q
    Step-Inv {p} inv (small_archive size at fits) =
        next_Inv p (waiting size) p.queued inv at refl refl (omega arith) (ground (arith, fits))
    Step-Inv {p} inv (allocate size at free) =
        let held : held_at p.place ≡ 0 = ap held_at at in
        let one : occupied p.place ≡ 1 = ap occupied at in
        let fits : size ≤ limit / threads = subst FitsAt at inv.fits in
        let no_more : limit / threads ≤ limit = div-le_self limit threads in
        let under : add64 p.alloc_mon size ≤ limit = ground (arith, free) in
        record {
          counted = omega (arith, inv.counted, inv.kept, held, fits, no_more, small);
          kept = omega (arith, inv.counted, inv.kept, held, under, fits, no_more, small);
          fits = tt;
          few = omega (arith, inv.few, one);
        }
    Step-Inv {p} inv (read_failed size at) =
        let held : held_at p.place ≡ size = ap held_at at in
        let one : occupied p.place ≡ 1 = ap occupied at in
        record {
          counted = omega (arith, inv.counted, inv.kept, held, small);
          kept = omega (arith, inv.kept, held);
          fits = tt;
          few = omega (arith, inv.few, one);
        }
    Step-Inv {p} inv (spawn_small size at) =
        let held : held_at p.place ≡ size = ap held_at at in
        let one : occupied p.place ≡ 1 = ap occupied at in
        goes p hashed (in_memory size ∷ p.queued) inv (omega arith) (omega arith) tt
    Step-Inv {p} inv (spawn_large large at much) =
        next_Inv p hashed (streamed ∷ p.queued) inv at refl (omega arith) (omega arith) tt
    Step-Inv {p} inv (large_failed large at much) =
        goes p p.place (streamed ∷ p.queued) inv (omega arith) (omega arith) inv.fits
    Step-Inv {p} inv (other_file at) = next_Inv p hashed p.queued inv at refl refl (omega arith) tt
    Step-Inv {p} inv (lock_again at) =
        let held : held_at p.place ≡ 0 = ap held_at at in
        let one : occupied p.place ≡ 1 = ap occupied at in
        goes p next_file p.queued inv (omega arith) (omega arith) tt
    Step-Inv {p} inv (no_file at) = next_Inv p ended p.queued inv at refl refl (omega arith) tt
    Step-Inv {p} inv (begin before job after at free) =
        let queued : buffers p.queued ≡ buffer_of job + buffers (before ++ after) =
          ap buffers at ∙ buffers-append before after job in
        record {
          counted = omega (arith, inv.counted, queued);
          kept = omega (arith, inv.kept, queued);
          fits = inv.fits;
          few = omega (arith, free);
        }
    Step-Inv {p} inv (end_small before size after at) =
        let running : buffers p.running ≡ size + buffers (before ++ after) =
          ap buffers at ∙ buffers-append before after (in_memory size) in
        let count : length p.running ≡ suc (length (before ++ after)) =
          ap length at ∙ length-middle before after (in_memory size) in
        record {
          counted = omega (arith, inv.counted, inv.kept, running, small);
          kept = omega (arith, inv.kept, running);
          fits = inv.fits;
          few = omega (arith, inv.few, count);
        }
    Step-Inv {p} inv (open_failed before after at) = without p before after streamed inv at refl
    Step-Inv {p} inv (open_large before after at) =
        let x = without p before after streamed inv at refl in
        let bytes = buffers-append before after in_lock in
        let more = length-middle before after in_lock in
        let count : length p.running ≡ suc (length (before ++ after)) =
          ap length at ∙ length-middle before after streamed in
        record {
          counted = omega (arith, x.counted, bytes);
          kept = omega (arith, x.kept, bytes);
          fits = inv.fits;
          few = omega (arith, inv.few, count, more);
        }
    Step-Inv {p} inv (end_large before after at free) = without p before after in_lock inv at refl

    pub Reach-Inv : {p : Pool} → Reach limit threads p → Inv p
    Reach-Inv start = record {
      counted = refl;
      kept = omega arith;
      fits = tt;
      few = omega (arith, some_thread);
    }
    Reach-Inv (later before step) = Step-Inv (Reach-Inv before) step

-- With at least one thread and twice the limit less than 2 ^ 64, in every state that the hash phase
-- can reach, `ALLOC_MON` is the number of bytes in the buffers that are there, whoever owns them, and
-- that is no more than the limit; and no more threads are used than there are.
pub alloc_mon_bounds :
    (limit threads : ℕ) {p : Pool}
    → 2 * limit < 2 ^ 64
    → 0 < threads
    → Reach limit threads p
    → (p.alloc_mon ≡ in_use p) × (in_use p ≤ limit) × (busy p ≤ threads)
alloc_mon_bounds limit threads small some_thread reach =
    let inv = Reach-Inv limit threads small some_thread reach in (inv.counted, inv.kept, inv.few)
