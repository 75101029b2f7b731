-- ===== src/Lock/Exclusion.antt =====
-- Who holds the mutex that the readers share.
use dupion.Base.{
  ℕ, zero, suc, ◌≡◌, ◌≢◌, refl, sym, ap, ◌∙◌, ◌⊎◌, inl, inr, ℕ_discrete, Bool, true, false, Option,
  some, none, subst, Bool-cases,
}
use mathlib.Core.Logic.{ite}
use dupion.Lock.{RawMutex, ZeroLock, clone_lock, lock, unlock}
use dupion.Lock.System.{
  Pc, idle, locking, reading, seeking, holding, dropped, has_lock, MutexedReader, put, Move, call,
  enter, leave, drop_idle, unwind, seek, sought, unwind_seek, hold, hold_again, release,
  release_again, unwind_holding, System, moved, Step, pick, clone, start_with, Reach, start, later,
}

-- A reader holds the mutex exactly where it has to.
pub record IsGood (r : MutexedReader) : Type 0 where
  pub do_locking : r.mutex.do_locking ≡ true
  pub held : r.mutex.locked ≡ has_lock r.pc

ite_yes : {P : Type 0} {A : Type 0} (d : Dec P) (a b : A) → P → ite d a b ≡ a
ite_yes (yes p) a b h = refl
ite_yes (no n) a b h = absurd (n h)

ite_no : {P : Type 0} {A : Type 0} (d : Dec P) (a b : A) → ¬ P → ite d a b ≡ b
ite_no (yes p) a b h = absurd (h p)
ite_no (no n) a b h = refl

pub put_self : (readers : ℕ → MutexedReader) (i : ℕ) (r : MutexedReader) → put readers i r i ≡ r
put_self readers i r = ite_yes (ℕ_discrete i i) r (readers i) refl

pub put_other :
    (readers : ℕ → MutexedReader) (i j : ℕ) (r : MutexedReader)
    → i ≢ j
    → put readers i r j ≡ readers j
put_other readers i j r apart = ite_no (ℕ_discrete i j) r (readers j) apart

put-All :
    (P : ℕ → MutexedReader → Type 0) (readers : ℕ → MutexedReader) (i : ℕ) (r : MutexedReader)
    → P i r
    → ((j : ℕ) → i ≢ j → P j (readers j))
    → (j : ℕ) → P j (put readers i r j)
put-All P readers i r here others j = elim (ℕ_discrete i j) [
  | yes same ↦
      subst (λ k. P k (put readers i r k)) same
        (subst (λ x. P i x) (sym (put_self readers i r)) here)
  | no apart ↦ subst (λ x. P j x) (sym (put_other readers i j r apart)) (others j apart)
]

module _ (raw : RawMutex) where
  open raw use {is_locked}

  abbrev pub locked_at : System raw → ℕ → Bool
  locked_at s i = (s.readers i).mutex.locked

  abbrev pub Unheld : System raw → Type 0
  Unheld s = (is_locked s.mutex ≡ false) × ((j : ℕ) → locked_at s j ≡ false)

  abbrev pub HeldBy : System raw → ℕ → Type 0
  HeldBy s i = (locked_at s i ≡ true) × ((j : ℕ) → locked_at s j ≡ true → j ≡ i)

  abbrev pub Held : System raw → Type 0
  Held s = (is_locked s.mutex ≡ true) × ((i : ℕ) × HeldBy s i)

  -- The mutex is locked exactly if one reader holds it.
  pub record Inv (s : System raw) : Type 0 where
    pub good : (j : ℕ) → IsGood (s.readers j)
    pub owner : Unheld s ⊎ Held s

  -- A reader moves that holds the mutex before and after, or neither.
  stays :
      (s : System raw) (i : ℕ) (r : MutexedReader)
      → Inv s
      → IsGood r
      → r.mutex.locked ≡ locked_at s i
      → Inv (moved raw s i s.mutex r.mutex r.pc)
  stays s i r inv good same = record {
    good = put-All (λ j x. IsGood x) s.readers i r good (λ j apart. inv.good j);
    owner = elim inv.owner [
      | inl (free, none_of) ↦ inl (free, λ j. alike j ∙ none_of j)
      | inr (taken, (k, (here, only))) ↦
          inr (taken, (k, (alike k ∙ here, λ j h. only j (sym (alike j) ∙ h))))
    ];
  }
    where
      alike : (j : ℕ) → (put s.readers i r j).mutex.locked ≡ locked_at s j
      alike = put-All (λ j x. x.mutex.locked ≡ locked_at s j) s.readers i r same (λ j apart. refl)

  takes :
      (s : System raw) (i : ℕ) (r : MutexedReader)
      → Inv s
      → IsGood r
      → is_locked s.mutex ≡ false
      → r.mutex.locked ≡ true
      → Inv (moved raw s i (raw.lock s.mutex) r.mutex r.pc)
  takes s i r inv good free holds = record {
    good = put-All (λ j x. IsGood x) s.readers i r good (λ j apart. inv.good j);
    owner = inr (
      raw.lock_locks s.mutex free,
      (
        i,
        (
          ap (λ x. x.mutex.locked) (put_self s.readers i r) ∙ holds,
          put-All (λ j x. x.mutex.locked ≡ true → j ≡ i) s.readers i r (λ h. refl)
              (λ j apart h. let unlocked = no_one j in cc),
        ),
      ),
    );
  }
    where
      no_one : (j : ℕ) → locked_at s j ≡ false
      no_one j = elim inv.owner [ inl (x, none_of) ↦ none_of j | inr (taken, x) ↦ cc ]

  gives :
      (s : System raw) (i : ℕ) (r : MutexedReader)
      → Inv s
      → IsGood r
      → locked_at s i ≡ true
      → r.mutex.locked ≡ false
      → Inv (moved raw s i (raw.unlock s.mutex) r.mutex r.pc)
  gives s i r inv good holds drops = elim inv.owner [
    | inl (x, none_of) ↦ let unlocked = none_of i in absurd cc
    | inr (taken, (k, (here, only))) ↦ record {
      good = put-All (λ j x. IsGood x) s.readers i r good (λ j apart. inv.good j);
      owner = inl (
        raw.unlock_unlocks s.mutex taken,
        put-All (λ j x. x.mutex.locked ≡ false) s.readers i r drops
            (λ j apart. elim (Bool-cases (locked_at s j)) [
              | inl h ↦ absurd (apart (only i holds ∙ sym (only j h)))
              | inr h ↦ h
            ]),
      );
    }
  ]

  lock_passes :
      (m : raw.Mutex) (z : ZeroLock) {m' : raw.Mutex} {z' : ZeroLock}
      → z.do_locking ≡ true
      → z.locked ≡ false
      → lock raw m z ≡ some (m', z')
      → (is_locked m ≡ false)
        × Path
            (raw.Mutex × ZeroLock)
            (raw.lock m, record { locked = true; do_locking = true })
            (m', z')
  unfolding lock
  lock_passes m z {m'} {z'} does unlocked passes = elim (Bool-cases (is_locked m)) [
    | inl taken ↦
        let waits : none ≡ some (m', z') = rw (does, unlocked, taken) at passes in absurd cc
    | inr free ↦
        let now : some (raw.lock m, record { locked = true; do_locking = true }) ≡ some (m', z') =
          rw (does, unlocked, free) at passes in
        (free, cc)
  ]

  abbrev option_or : raw.Mutex × ZeroLock → Option (raw.Mutex × ZeroLock) → raw.Mutex × ZeroLock
  option_or x none = x
  option_or x (some y) = y

  lock_again : (m : raw.Mutex) (z : ZeroLock) → z.locked ≡ true → lock raw m z ≡ some (m, z)
  unfolding lock
  lock_again m z holds = elim (Bool-cases z.do_locking) [
    | inl does ↦ rw (does, holds) refl
    | inr free ↦ rw free refl
  ]

  lock_held :
      (m : raw.Mutex) (z : ZeroLock) {m' : raw.Mutex} {z' : ZeroLock}
      → z.locked ≡ true
      → lock raw m z ≡ some (m', z')
      → Path (raw.Mutex × ZeroLock) (m, z) (m', z')
  unfolding lock
  lock_held m z {m'} {z'} holds passes = ap (option_or (m, z)) (sym (lock_again m z holds) ∙ passes)

  pub unlock_held :
      (m : raw.Mutex) (z : ZeroLock)
      → z.locked ≡ true
      → unlock raw m z ≡ (raw.unlock m, record z { locked = false })
  unfolding unlock
  unlock_held m z holds = rw holds refl

  unlock_unheld : (m : raw.Mutex) (z : ZeroLock) → z.locked ≡ false → unlock raw m z ≡ (m, z)
  unfolding unlock
  unlock_unheld m z free = rw free refl

  -- A move of reader `i`, with its fields by name.
  module _ (s : System raw) (i : ℕ) (z : ZeroLock) (inv : Inv s) where
    abbrev Is : Pc → Type 0
    Is pc = s.readers i ≡ record { mutex = z; pc = pc }

    was-IsGood : (pc : Pc) → Is pc → IsGood (record { mutex = z; pc = pc })
    was-IsGood pc at = subst IsGood at (inv.good i)

    held_at : (pc : Pc) → Is pc → z.locked ≡ has_lock pc
    held_at pc at = (was-IsGood pc at).held

    -- It stays, or becomes, one that has no lock.
    away :
        (pc pc' : Pc)
        → Is pc
        → has_lock pc ≡ false
        → has_lock pc' ≡ false
        → Inv (moved raw s i s.mutex z pc')
    away pc pc' at free free' =
        stays s i (record { mutex = z; pc = pc' }) inv
          (record {
            do_locking = (was-IsGood pc at).do_locking;
            held = held_at pc at ∙ free ∙ sym free';
          })
          (sym (ap (λ r. r.mutex.locked) at))

    -- It takes the lock.
    begins :
        (pc pc' : Pc) {m : raw.Mutex} {z' : ZeroLock}
        → Is pc
        → has_lock pc ≡ false
        → has_lock pc' ≡ true
        → lock raw s.mutex z ≡ some (m, z')
        → Inv (moved raw s i m z' pc')
    begins pc pc' at free has passes =
        let does = (was-IsGood pc at).do_locking in
        let (unlocked, result) = lock_passes s.mutex z does (held_at pc at ∙ free) passes in
        subst (λ u. Inv (moved raw s i u.0 u.1 pc')) result
          (takes s i (record { mutex = record { locked = true; do_locking = true }; pc = pc' }) inv
            (record { do_locking = refl; held = sym has }) unlocked refl)

    -- It unlocks what it has.
    ends :
        (pc pc' : Pc)
        → Is pc
        → has_lock pc ≡ true
        → has_lock pc' ≡ false
        → Inv (moved raw s i (unlock raw s.mutex z).0 (unlock raw s.mutex z).1 pc')
    ends pc pc' at has free =
        let holds : z.locked ≡ true = held_at pc at ∙ has in
        subst (λ u. Inv (moved raw s i u.0 u.1 pc')) (sym (unlock_held s.mutex z holds))
          (gives s i (record { mutex = record z { locked = false }; pc = pc' }) inv
            (record { do_locking = (was-IsGood pc at).do_locking; held = sym free })
            (ap (λ r. r.mutex.locked) at ∙ holds) refl)

    -- It unlocks, and has nothing.
    idles :
        (pc pc' : Pc)
        → Is pc
        → has_lock pc ≡ false
        → has_lock pc' ≡ false
        → Inv (moved raw s i (unlock raw s.mutex z).0 (unlock raw s.mutex z).1 pc')
    idles pc pc' at free free' =
        subst (λ u. Inv (moved raw s i u.0 u.1 pc'))
          (sym (unlock_unheld s.mutex z (held_at pc at ∙ free))) (away pc pc' at free free')

    -- It locks what it has.
    keeps :
        {m : raw.Mutex} {z' : ZeroLock}
        → Is holding
        → lock raw s.mutex z ≡ some (m, z')
        → Inv (moved raw s i m z' holding)
    keeps at passes =
        subst (λ u. Inv (moved raw s i u.0 u.1 holding))
          (lock_held s.mutex z (held_at holding at) passes)
          (stays s i (record { mutex = z; pc = holding }) inv (was-IsGood holding at)
            (sym (ap (λ r. r.mutex.locked) at)))

    Move-Inv :
        {pc : Pc} {m : raw.Mutex} {z' : ZeroLock} {pc' : Pc}
        → Is pc
        → Move raw s.mutex z pc m z' pc'
        → Inv (moved raw s i m z' pc')
    Move-Inv at call = away idle locking at refl refl
    Move-Inv at (enter passes) = begins locking reading at refl refl passes
    Move-Inv at leave = ends reading idle at refl refl
    Move-Inv at drop_idle = idles idle dropped at refl refl
    Move-Inv at unwind = ends reading dropped at refl refl
    Move-Inv at seek = away idle seeking at refl refl
    Move-Inv at sought = away seeking idle at refl refl
    Move-Inv at unwind_seek = idles seeking dropped at refl refl
    Move-Inv at (hold passes) = begins idle holding at refl refl passes
    Move-Inv at (hold_again passes) = keeps at passes
    Move-Inv at release = ends holding idle at refl refl
    Move-Inv at release_again = idles idle idle at refl refl
    Move-Inv at unwind_holding = ends holding dropped at refl refl

  start_with-IsGood : (j : ℕ) → IsGood ((start_with raw true).readers j)
  start_with-IsGood zero = record { do_locking = refl; held = refl }
  start_with-IsGood (suc j) = record { do_locking = refl; held = refl }

  Step-Inv : {s t : System raw} → Inv s → Step raw s t → Inv t
  Step-Inv {s} inv (pick i move) = Move-Inv s i (s.readers i).mutex inv refl move
  Step-Inv {s} inv (clone i j gone) =
      stays s j (record { mutex = clone_lock (s.readers i).mutex; pc = idle }) inv
        (record { do_locking = (inv.good i).do_locking; held = refl })
        (sym ((inv.good j).held ∙ ap has_lock gone))

  pub Reach-Inv : {s : System raw} → Reach raw true s → Inv s
  Reach-Inv start = record { good = start_with-IsGood; owner = inl (raw.init_unlocked, λ j. refl) }
  Reach-Inv (later before step) = Step-Inv (Reach-Inv before) step
