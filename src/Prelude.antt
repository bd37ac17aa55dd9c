-- ===== src/Prelude.antt =====
-- The names that every module shares: the libraries' and those of the children.
mod Tests
mod Lists
mod TextOrder
mod Fallible
mod Int
pub use Tests.*
unfoldable pub use Int.{saturating_add, saturating_sub}
pub use Int.*
unfoldable pub use Lists.{all, select}
pub use Lists.*
unfoldable pub use TextOrder.{codes, cmp_text, then_by}
pub use TextOrder.*
pub use Fallible.*
pub use Prim.Native.Nat.{ℕ, zero, suc, ◌+◌, ◌-◌, ◌*◌, ◌/◌, ◌%◌, ◌^◌, ◌≤◌, ◌<◌, min}
pub use Prim.Native.String.{String}
pub use mathlib.Core.Path.{◌≡◌, refl, sym, ap, ◌∙◌}
pub use mathlib.Core.Logic.{◌≢◌, ◌↔◌, ◌⊎◌, inl, inr}
pub use mathlib.Core.Bool.{Bool, true, false, not, ◌&&◌, ◌||◌}
pub use mathlib.Core.Option.{Option, none, some}
pub use mathlib.Core.List.{List, [], ◌∷◌, ◌++◌, map}
pub use native.Mathlib.Omega.{arith}
