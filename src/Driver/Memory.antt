-- ===== src/Driver/Memory.antt =====
-- The memory that the hash phase gives to archives: `AllocMonBuf` of dupion/src/util/mod.rs, and the
-- jobs of `hash_files` in dupion/src/driver/platterwalker.rs that own such buffers. The loop of
-- `hash_files` runs on one of the threads of its pool, each job on another. As rayon documents it, a
-- job that is spawned waits for a thread, in no known order, and keeps its thread to its end.
pub mod Bound
pub mod Progress
pub mod Hang
mod Examples
use dupion.Base.{
  ℕ, ◌+◌, ◌<◌, ◌≤◌, ◌/◌, ◌≡◌, Bool, true, false, List, [], ◌∷◌, ◌++◌, length, ltb, leb, add64,
  sub64, not,
}

-- A job that owns the buffer of a small archive, or one that opens a large one and reads it by
-- itself, each time under the read lock.
pub data Job : Type 0 where
  in_memory : (size : ℕ) → Job
  streamed : Job
  in_lock : Job  -- a large archive is open, and the job waits for the read lock

-- Where the loop stands. It holds the read lock in all places but `hashed` and `ended`.
pub data Place : Type 0 where
  next_file : Place
  waiting : (size : ℕ) → Place  -- in `AllocMonBuf::new`
  reading : (size : ℕ) → Place  -- it has its buffer
  hashed : Place  -- between `unlock` and `lock`
  ended : Place

pub record Pool : Type 0 where
  pub alloc_mon : ℕ  -- ALLOC_MON
  pub place : Place
  pub queued : List Job
  pub running : List Job

abbrev pub empty_pool : Pool
empty_pool = record { alloc_mon = 0; place = next_file; queued = []; running = [] }

abbrev pub huge_zip_thres : ℕ → ℕ → ℕ
huge_zip_thres limit threads = limit / threads

-- The condition of the `while` loop in `AllocMonBuf::new`.
abbrev pub must_wait : ℕ → ℕ → ℕ → Bool
must_wait limit alloc_mon size = ltb limit (add64 alloc_mon size)

-- The rest of `AllocMonBuf::new`, and `Drop`. (The capacity is asserted to be the size.)
abbrev pub allocated : ℕ → ℕ → ℕ
allocated alloc_mon size = add64 alloc_mon size

abbrev pub freed : ℕ → ℕ → ℕ
freed alloc_mon size = sub64 alloc_mon size

-- The threads of the pool that are in use: the one of the loop, and those of the jobs.
abbrev pub occupied : Place → ℕ
occupied ended = 0
occupied _ = 1

abbrev pub busy : Pool → ℕ
busy p = occupied p.place + length p.running

-- Whether a job can take the read lock.
abbrev pub lock_is_free : Place → Bool
lock_is_free hashed = true
lock_is_free ended = true
lock_is_free _ = false

module _ (limit threads : ℕ) where
  -- What the loop does with a file, and how a job runs.
  pub data Step (p : Pool) : Pool → Type 0 where
    small_archive :
        (size : ℕ)
        → p.place ≡ next_file
        → leb size (huge_zip_thres limit threads) ≡ true
        → Step p (record p { place = waiting size })
    allocate :
        (size : ℕ)
        → p.place ≡ waiting size
        → must_wait limit p.alloc_mon size ≡ false
        → Step p (record p { alloc_mon = allocated p.alloc_mon size; place = reading size })
    read_failed :
        (size : ℕ)
        → p.place ≡ reading size
        → Step p (record p { alloc_mon = freed p.alloc_mon size; place = next_file })
    spawn_small :
        (size : ℕ)
        → p.place ≡ reading size
        → Step p (record p { place = hashed; queued = in_memory size ∷ p.queued })
    spawn_large :
        (large : ℕ)
        → p.place ≡ next_file
        → leb large (huge_zip_thres limit threads) ≡ false
        → Step p (record p { place = hashed; queued = streamed ∷ p.queued })
    large_failed :
        (large : ℕ)
        → p.place ≡ next_file
        → leb large (huge_zip_thres limit threads) ≡ false
        → Step p (record p { queued = streamed ∷ p.queued })
    other_file : p.place ≡ next_file → Step p (record p { place = hashed })
    lock_again : p.place ≡ hashed → Step p (record p { place = next_file })
    no_file : p.place ≡ next_file → Step p (record p { place = ended })
    begin :
        (before : List Job) (job : Job) (after : List Job)
        → p.queued ≡ before ++ job ∷ after
        → busy p < threads
        → Step p (record p { queued = before ++ after; running = job ∷ p.running })
    end_small :
        (before : List Job) (size : ℕ) (after : List Job)
        → p.running ≡ before ++ in_memory size ∷ after
        → Step p (record p { alloc_mon = freed p.alloc_mon size; running = before ++ after })
    open_failed :
        (before after : List Job)
        → p.running ≡ before ++ streamed ∷ after
        → Step p (record p { running = before ++ after })
    open_large :
        (before after : List Job)
        → p.running ≡ before ++ streamed ∷ after
        → Step p (record p { running = before ++ in_lock ∷ after })
    end_large :
        (before after : List Job)
        → p.running ≡ before ++ in_lock ∷ after
        → lock_is_free p.place ≡ true
        → Step p (record p { running = before ++ after })

  pub data Reach : Pool → Type 0 where
    start : Reach empty_pool
    later : {p q : Pool} → Reach p → Step p q → Reach q

  pub data Steps : Pool → Pool → Type 0 where
    done : {p : Pool} → Steps p p
    next : {p q r : Pool} → Step p q → Steps q r → Steps p r
