-- ===== src/Common.antt =====
-- The names that every part shares: the libraries', passed on, and those of the children for
-- tests and conditionals, lists under native indices, machine words and signed integers.
mod Tests
mod Lists
mod Word
mod Errors
pub mod Int
pub mod Bits
pub mod Division
pub use Tests.*
pub use Lists.*
pub use Word.*
pub use Errors.*
pub use Prim.Native.Nat.{ℕ, zero, suc, ◌+◌, ◌-◌, ◌*◌, ◌/◌, ◌%◌, ◌^◌, ◌≤◌, ◌<◌, min, max}
pub use mathlib.Core.Path.{◌≡◌, refl, sym, ap, ap₂, ◌∙◌}
pub use mathlib.Core.Logic.{◌≢◌, ◌↔◌, ◌⊎◌, inl, inr}
pub use mathlib.Core.Bool.{Bool, true, false, ◌&&◌, ◌||◌}
pub use mathlib.Core.Option.{Option, none, some}
pub use mathlib.Core.List.{List, [], ◌∷◌, ◌++◌, map}
pub use native.Mathlib.Omega.{arith}
