-- ===== src/Base/Maps.antt =====
-- Hash maps as association lists. The order of a `HashMap` is unspecified: here it is that of the
-- first insertions.
use mathlib.Core.Path.{◌≡◌, refl}
use mathlib.Core.Logic.{◌↔◌}
use mathlib.Core.Bool.{Bool, true}
use mathlib.Core.Option.{Option, none, some}
use mathlib.Core.List.{List, [], ◌∷◌}
use Prim.Native.Nat.{ℕ}
use native.Mathlib.Omega.{arith}
use dupion.Base.Tests.{◌==◌, ==_iff, if◌then◌else◌}

-- `Eq` of a key.
pub record Key {ℓ} (K : Type ℓ) : Type ℓ where
  pub beq : K → K → Bool
  pub beq_iff : (a b : K) → (beq a b ≡ true) ↔ (a ≡ b)

instance abbrev pub nat_key : Key ℕ
nat_key = record { beq = ◌==◌; beq_iff = ==_iff }

module _ {ℓ κ} {K : Type ℓ} ⦃k : Key K⦄ {V : Type κ} where
  -- `HashMap::get`.
  abbrev pub lookup : K → List (K × V) → Option V
  lookup a [] = none
  lookup a ((b, v) ∷ m) = if k.beq b a then some v else lookup a m

  -- `Entry::insert`, and the write through `Entry::get_mut`.
  abbrev pub insert : K → V → List (K × V) → List (K × V)
  insert a v [] = (a, v) ∷ []
  insert a v ((b, w) ∷ m) = if k.beq b a then (b, v) ∷ m else (b, w) ∷ insert a v m

  pub lookup-insert :
      (a c : K) (v : V) (m : List (K × V))
      → lookup c (insert a v m) ≡ (if k.beq a c then some v else lookup c m)
  lookup-insert a c v [] = refl
  lookup-insert a c v ((b, w) ∷ m) =
      ground (arith, k.beq_iff b a, k.beq_iff b c, k.beq_iff a c, lookup-insert a c v m)
