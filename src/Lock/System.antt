-- ===== src/Lock/System.antt =====
-- Readers with clones of one lock, interleaved in any order.
use dupion.Base.{ℕ, zero, suc, ◌≡◌, ℕ_discrete, Bool, true, false, some}
use mathlib.Core.Logic.{ite}
use dupion.Lock.{RawMutex, ZeroLock, new_lock, clone_lock, lock, unlock}

-- Where a `MutexedReader` stands in `read`, in one of the other calls of the same form, or in `seek`;
-- or a handle that `hash_files` locks and unlocks itself.
pub data Pc : Type 0 where
  idle : Pc  -- no call
  locking : Pc  -- in `self.mutex.lock()`
  reading : Pc  -- in the call of `inner` that reads
  seeking : Pc  -- in the call of `inner` that seeks, which takes no lock
  holding : Pc  -- between `local_read_lock.lock()` and `local_read_lock.unlock()`
  dropped : Pc

-- Where the handle has the lock.
abbrev pub has_lock : Pc → Bool
has_lock reading = true
has_lock holding = true
has_lock _ = false

pub record MutexedReader : Type 0 where
  pub mutex : ZeroLock
  pub pc : Pc

-- One reader is another now.
abbrev pub put : (ℕ → MutexedReader) → ℕ → MutexedReader → ℕ → MutexedReader
put readers i r j = ite (ℕ_discrete i j) r (readers j)

module _ (raw : RawMutex) where
  open raw use {Mutex}

  -- One step of one reader. A call may also unwind; then `Drop` runs at once.
  pub data Move (m : Mutex) (z : ZeroLock) : Pc → Mutex → ZeroLock → Pc → Type 0 where
    call : Move m z idle m z locking
    enter :
        {m' : Mutex} {z' : ZeroLock} → lock raw m z ≡ some (m', z') → Move m z locking m' z' reading
    leave : Move m z reading (unlock raw m z).0 (unlock raw m z).1 idle
    drop_idle : Move m z idle (unlock raw m z).0 (unlock raw m z).1 dropped
    unwind : Move m z reading (unlock raw m z).0 (unlock raw m z).1 dropped
    seek : Move m z idle m z seeking
    sought : Move m z seeking m z idle
    unwind_seek : Move m z seeking (unlock raw m z).0 (unlock raw m z).1 dropped
    hold : {m' : Mutex} {z' : ZeroLock} → lock raw m z ≡ some (m', z') → Move m z idle m' z' holding
    hold_again :
        {m' : Mutex} {z' : ZeroLock} → lock raw m z ≡ some (m', z') → Move m z holding m' z' holding
    release : Move m z holding (unlock raw m z).0 (unlock raw m z).1 idle
    release_again : Move m z idle (unlock raw m z).0 (unlock raw m z).1 idle
    unwind_holding : Move m z holding (unlock raw m z).0 (unlock raw m z).1 dropped

  -- The mutex, and the readers. A reader that is not there (yet) counts as dropped.
  pub record System : Type 0 where
    pub mutex : Mutex
    pub readers : ℕ → MutexedReader

  -- The system when reader `i` has moved.
  abbrev pub moved : System → ℕ → Mutex → ZeroLock → Pc → System
  moved s i m z pc = record { mutex = m; readers = put s.readers i (record { mutex = z; pc = pc }) }

  -- A step of a reader, or a new reader `j` with a clone of the lock of reader `i`.
  pub data Step (s : System) : System → Type 0 where
    pick :
        (i : ℕ) {m : Mutex} {z : ZeroLock} {pc : Pc}
        → Move s.mutex (s.readers i).mutex (s.readers i).pc m z pc
        → Step s (moved s i m z pc)
    clone :
        (i j : ℕ)
        → (s.readers j).pc ≡ dropped
        → Step s (moved s j s.mutex (clone_lock (s.readers i).mutex) idle)

  abbrev pub start_with : Bool → System
  start_with do_locking = record {
    mutex = raw.init;
    readers =
        λ i. record { mutex = new_lock do_locking; pc = elim i [ zero ↦ idle | suc _ ↦ dropped ] };
  }

  pub data Reach (do_locking : Bool) : System → Type 0 where
    start : Reach do_locking (start_with do_locking)
    later : {s t : System} → Reach do_locking s → Step s t → Reach do_locking t

  -- Any number of steps.
  pub data Steps : System → System → Type 0 where
    done : {s : System} → Steps s s
    next : {s t u : System} → Step s t → Steps t u → Steps s u
