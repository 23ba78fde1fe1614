-- ===== src/Prelude.antt =====
-- The names that every module shares: the libraries' ones, passed on, and those of the children,
-- which hold Boolean tests, lists over the native numbers, text, maps and results.
mod Tests
mod Lists
pub mod Text
pub mod Map
pub mod Keyed
pub mod Result
pub mod Exec
pub mod Keeps
pub mod Word
pub mod Bits
pub mod Int
pub mod Sort
pub use Tests.*
unfoldable pub use Lists.*
pub use Prim.Native.Nat.{ℕ, zero, suc, ◌+◌, ◌-◌, ◌*◌, ◌/◌, ◌%◌, ◌^◌, ◌≤◌, ◌<◌, min}
pub use mathlib.Core.Path.{◌≡◌, refl, sym, ap, ◌∙◌, subst}
pub use mathlib.Core.Logic.{◌≢◌, ◌↔◌, ◌⊎◌, inl, inr}
pub use mathlib.Core.Bool.{Bool, true, false, not, ◌&&◌, ◌||◌}
pub use mathlib.Core.Option.{Option, none, some}
pub use mathlib.Core.List.{List, [], ◌∷◌, ◌++◌, map}
pub use native.Mathlib.Omega.{arith}
