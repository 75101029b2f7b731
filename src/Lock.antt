-- ===== src/Lock.antt =====
-- dupion/src/util/mod.rs: `ZeroLock`, a handle of a shared lock that knows whether it holds it, and
-- `MutexedReader`, which reads under such a handle. `parking_lot::RawMutex` is a parameter.
pub mod System
pub mod Exclusion
pub mod Progress
mod Examples
use dupion.Base.{◌≡◌, Bool, true, false, not, ◌&&◌, Option, none, some, if◌then◌else◌}

-- `RawMutex` as its documentation tells: `lock` returns when the mutex is not locked, and locks it;
-- `unlock` may be called if the mutex is locked, and unlocks it.
pub record RawMutex : Type 1 where
  pub Mutex : Type 0
  pub init : Mutex
  pub is_locked : Mutex → Bool
  pub lock : Mutex → Mutex
  pub unlock : Mutex → Mutex
  pub init_unlocked : is_locked init ≡ false
  pub lock_locks : (m : Mutex) → is_locked m ≡ false → is_locked (lock m) ≡ true
  pub unlock_unlocks : (m : Mutex) → is_locked m ≡ true → is_locked (unlock m) ≡ false

-- The mutex behind the `Arc` is the same for a handle and its clones, and is kept beside them.
pub record ZeroLock : Type 0 where
  pub locked : Bool
  pub do_locking : Bool

-- `ZeroLock::new` and `ZeroLock::clone`.
abbrev pub new_lock : Bool → ZeroLock
new_lock do_locking = record { locked = false; do_locking = do_locking }

abbrev pub clone_lock : ZeroLock → ZeroLock
clone_lock z = record { locked = false; do_locking = z.do_locking }

module _ (raw : RawMutex) where
  open raw use {Mutex, is_locked}

  -- `ZeroLock::lock`. `none`: the call waits for the mutex.
  unfoldable pub lock : Mutex → ZeroLock → Option (Mutex × ZeroLock)
  lock m z =
      let taken : Option (Mutex × ZeroLock) =
        if is_locked m then none else some (raw.lock m, record z { locked = true }) in
      if z.do_locking && not z.locked then taken else some (m, z)

  -- `ZeroLock::unlock`, and `Drop`.
  unfoldable pub unlock : Mutex → ZeroLock → Mutex × ZeroLock
  unlock m z = if z.locked then (raw.unlock m, record z { locked = false }) else (m, z)
