-- ===== src/Prelude.antt =====
-- The names that every part shares: the libraries', passed on, and those of the children. The
-- children hold the Boolean tests, the equality interface, native lists, results and words.
mod Tests
mod Equality
mod Lists
mod Outcome
mod Words
mod Text
pub use Tests.*
pub use Equality.*
pub use Lists.*
pub use Outcome.*
unfoldable pub use Words.*
unfoldable pub use Text.*
pub use Prim.Native.Nat.{ℕ, zero, suc, ◌+◌, ◌-◌, ◌*◌, ◌/◌, ◌%◌, ◌^◌, ◌≤◌, ◌<◌, min, max}
pub use Prim.Native.String.{String}
pub use mathlib.Core.Path.{◌≡◌, refl, sym, ap, ◌∙◌}
pub use mathlib.Core.Logic.{◌≢◌, ◌↔◌, ◌⊎◌, inl, inr}
pub use mathlib.Core.Bool.{Bool, true, false, not, ◌&&◌, ◌||◌}
pub use mathlib.Core.Option.{Option, none, some}
pub use mathlib.Core.List.{List, [], ◌∷◌, ◌++◌, map}
pub use native.Mathlib.Omega.{arith}
