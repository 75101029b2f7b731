-- ===== src/Base/Outcomes.antt =====
-- The result of code that may panic or return an error. The state is threaded by hand.
use mathlib.Core.Path.{◌≡◌, refl, ap, ◌∙◌}
use mathlib.Core.Logic.{◌⊎◌, inl, inr}
use mathlib.Core.Bool.{Bool, true, false}
use mathlib.Core.Option.{Option, none, some}

-- `panic`: a failed assertion, an index out of range or `unwrap` of `None`; `failed`: an `Err` that
-- the code returns; `stuck`: a loop of the model ran out of fuel.
pub data Failure : Type 0 where
  panic failed stuck : Failure

pub data Outcome {ℓ} (A : Type ℓ) : Type ℓ where
  ok : A → Outcome A
  err : Failure → Outcome A

infixl 5 ◌>>=◌ ◌>>◌
abbrev pub ◌>>=◌ {ℓ κ} : {A : Type ℓ} {B : Type κ} → Outcome A → (A → Outcome B) → Outcome B
err failure >>= next = err failure
ok value >>= next = next value

-- A test, and what is done if it passes.
abbrev pub ◌>>◌ {κ} : {B : Type κ} → Outcome (Unit {0}) → Outcome B → Outcome B
ok passed >> after = after
err failure >> after = err failure

-- `assert!`.
abbrev pub assert : Bool → Outcome (Unit {0})
assert true = ok tt
assert false = err panic

-- `ensure!`.
abbrev pub ensure : Bool → Outcome (Unit {0})
ensure true = ok tt
ensure false = err failed

-- `Option::unwrap`, and indexing.
abbrev pub unwrap {ℓ} : {A : Type ℓ} → Option A → Outcome A
unwrap (some a) = ok a
unwrap none = err panic

-- `Result::unwrap`: an error becomes a panic.
abbrev pub unwrap_result {ℓ} : {A : Type ℓ} → Outcome A → Outcome A
unwrap_result (ok a) = ok a
unwrap_result (err failed) = err panic
unwrap_result (err panic) = err panic
unwrap_result (err stuck) = err stuck

pub Outcome-cases {ℓ} :
    {A : Type ℓ} (r : Outcome A) → ((f : Failure) × (r ≡ err f)) ⊎ ((a : A) × (r ≡ ok a))
Outcome-cases (ok a) = inr (a, refl)
Outcome-cases (err f) = inl (f, refl)

-- A sequence that returns: its first part returns, and so does what follows it.
pub >>=-eq-ok {ℓ κ} :
    {A : Type ℓ} {B : Type κ} (first : Outcome A) (next : A → Outcome B) {out : B}
    → (first >>= next) ≡ ok out
    → (mid : A) × (first ≡ ok mid) × (next mid ≡ ok out)
>>=-eq-ok (err failure) next returned = cc
>>=-eq-ok (ok mid) next returned = (mid, refl, returned)

-- A sequence whose first part returns goes on with what follows it.
pub >>=-ok {ℓ κ} :
    {A : Type ℓ} {B : Type κ} {first : Outcome A} (next : A → Outcome B) {mid : A} {out : Outcome B}
    → first ≡ ok mid
    → next mid ≡ out
    → (first >>= next) ≡ out
>>=-ok next returned rest = ap (λ r. r >>= next) returned ∙ rest

-- A test before a sequence that returns has passed.
pub >>-eq-ok {κ} :
    {B : Type κ} (first : Outcome (Unit {0})) (after : Outcome B) {out : B}
    → (first >> after) ≡ ok out
    → after ≡ ok out
>>-eq-ok (err failure) after returned = cc
>>-eq-ok (ok passed) after returned = returned
