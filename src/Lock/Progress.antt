-- ===== src/Lock/Progress.antt =====
-- What `MutexedReader` promises: one reads at a time, and one that waits can get in.
use dupion.Base.{ℕ, ◌≡◌, sym, ◌∙◌, inl, inr, true}
use dupion.Lock.{RawMutex}
use dupion.Lock.System.{has_lock, System, Reach}
use dupion.Lock.Exclusion.{Reach-Inv}

-- Of the handles of a lock that locks, at most one has the lock at any time, in whatever order they run,
-- are cloned and are dropped: it is in a call of `inner` that reads, or `hash_files` holds it. While
-- one has it, the mutex is locked, so that unlocking it is allowed. Seeks, which take no lock, are not
-- counted.
pub reads_alone :
    (raw : RawMutex) {s : System raw} (i j : ℕ)
    → Reach raw true s
    → has_lock (s.readers i).pc ≡ true
    → has_lock (s.readers j).pc ≡ true
    → (i ≡ j) × (raw.is_locked s.mutex ≡ true)
reads_alone raw {s} i j reach at_i at_j =
    let inv = Reach-Inv raw reach in
    let holds_i = (inv.good i).held ∙ at_i in
    let holds_j = (inv.good j).held ∙ at_j in
    elim inv.owner [
      | inl (free, none_of) ↦ let unlocked = none_of i in absurd cc
      | inr (taken, (k, (here, only))) ↦ (only i holds_i ∙ sym (only j holds_j), taken)
    ]
