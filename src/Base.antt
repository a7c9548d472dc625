-- ===== src/Base.antt =====
-- The names that the other modules share: library names passed on, Boolean tests, list helpers,
-- and the failures by which an operation of the server ends.
mod Tests
mod Lists
mod Failures
mod Visited
mod Distinct
pub use Tests.*
pub use Lists.*
pub use Failures.*
pub use Visited.*
pub use Distinct.*
pub use Prim.Native.Nat.{ℕ, zero, suc, ◌+◌, ◌-◌, ◌*◌, ◌≤◌, ◌<◌, ◌^◌}
pub use mathlib.Core.Path.{◌≡◌, refl, sym, ap, ◌∙◌}
pub use mathlib.Core.Logic.{◌≢◌, ◌↔◌, ◌⊎◌, inl, inr}
pub use mathlib.Core.Bool.{Bool, true, false, not, ◌&&◌, ◌||◌}
pub use mathlib.Core.Option.{Option, none, some}
pub use mathlib.Core.List.{List, [], ◌∷◌, ◌++◌, map}
pub use native.Mathlib.Omega.{arith}
