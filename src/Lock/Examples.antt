-- ===== src/Lock/Examples.antt =====
-- A mutex that is a Boolean, and two readers of which one reads and one waits.
use dupion.Base.{refl, ◌≡◌, Bool, true, false, ℕ, ℕ_discrete}
use dupion.Lock.{RawMutex, lock}
use dupion.Lock.System.{
  locking, reading, idle, call, enter, System, moved, pick, clone, start_with, Reach, start, later,
}
use dupion.Lock.Progress.{reads_alone}

abbrev one_bit : RawMutex
one_bit = record {
  Mutex = Bool;
  init = false;
  is_locked = λ b. b;
  lock = λ b. true;
  unlock = λ b. false;
  init_unlocked = refl;
  lock_locks = λ m h. refl;
  unlock_unlocks = λ m h. refl;
}

abbrev called : System one_bit
called =
    moved one_bit (start_with one_bit true) 0 false (record { locked = false; do_locking = true })
      locking

abbrev entered : System one_bit
entered = moved one_bit called 0 true (record { locked = true; do_locking = true }) reading

abbrev cloned : System one_bit
cloned = moved one_bit entered 1 true (record { locked = false; do_locking = true }) idle

-- Reader 0 reads, reader 1 waits.
abbrev contended : System one_bit
contended = moved one_bit cloned 1 true (record { locked = false; do_locking = true }) locking

contended-Reach : Reach one_bit true contended
unfolding lock ℕ_discrete
contended-Reach =
    later (later (later (later start (pick 0 call)) (pick 0 (enter refl))) (clone 0 1 refl))
      (pick 1 call)

reads_alone_example : Path ℕ 0 0 × (contended.mutex ≡ true)
unfolding ℕ_discrete
reads_alone_example = reads_alone one_bit 0 0 contended-Reach refl refl
