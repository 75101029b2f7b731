-- ===== src/Base.antt =====
-- The names that the other modules share: the libraries', passed on, Boolean tests, lists with
-- native indices, results of code that may panic, and 64-bit arithmetic.
mod Tests
mod Lists
mod Outcomes
mod Words
mod Maps
mod Sort
pub use Tests.*
pub use Lists.*
pub use Outcomes.*
pub use Words.*
pub use Maps.*
pub use Sort.{
  sort_by-perm, Ascending, sort_by-Ascending, IsSortedBy, sort_by_key-IsSortedBy, sort_by_key-perm,
  All-sort_by_key, All-insert_by,
}
unfoldable pub use Sort.{sort_by_key, sort_by, insert_by}
pub use Prim.Native.Nat.{ℕ, zero, suc, ◌+◌, ◌-◌, ◌*◌, ◌/◌, ◌%◌, ◌^◌, ◌≤◌, ◌<◌, min, max}
pub use mathlib.Core.Path.{◌≡◌, refl, sym, ap, ap₂, subst, ◌∙◌, fun_ext}
pub use mathlib.Core.Logic.{◌≢◌, ◌↔◌, ◌⊎◌, inl, inr}
pub use mathlib.Core.Bool.{Bool, true, false, not, ◌&&◌, ◌||◌}
pub use mathlib.Core.Option.{Option, none, some}
pub use mathlib.Core.List.{List, [], ◌∷◌, ◌++◌, map, reverse, append-nil, append_assoc, Perm}
pub use native.Mathlib.Omega.{arith}
unfoldable pub use native.Mathlib.Decide.{dec_lt, ℕ_discrete}
