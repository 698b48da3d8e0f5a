-- ===== src/Base.antt =====
-- The names that the other modules share: the libraries' on numbers, lists, options and text, and
-- those of the children below.
mod Tests
mod Lists
mod Interface
pub mod Map
pub mod Base64
pub mod Chain
pub mod Int
pub mod Distinct
pub mod Permuted
pub use Tests.*
pub use Lists.*
pub use Interface.*
pub use Prim.Native.Nat.{ℕ, zero, suc, ◌+◌, ◌-◌, ◌*◌, ◌/◌, ◌%◌, ◌^◌, ◌≤◌, ◌<◌}
pub use Prim.Native.String.{String}
pub use mathlib.Core.Path.{◌≡◌, refl, sym, ap, subst, ◌∙◌}
pub use mathlib.Core.Logic.{◌≢◌, ◌↔◌, ◌⊎◌, inl, inr}
pub use mathlib.Core.Bool.{Bool, true, false, ◌&&◌, ◌||◌, not}
pub use mathlib.Core.Option.{Option, none, some}
pub use mathlib.Core.List.{List, [], ◌∷◌, ◌++◌, map}
pub use native.Mathlib.Omega.{arith}
