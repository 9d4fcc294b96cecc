-- ===== src/Prelude.antt =====
-- The names that the other modules share: the libraries', passed on, and those of the children.
mod Tests
mod Lists
mod Int
mod Text
mod Results
pub mod Map
pub use Tests.*
pub use Lists.*
pub use Int.{ℤ, pos, negsuc, max_0, eqb_ℤ, eqb_ℤ_iff, leb_ℤ, plus}
unfoldable pub use Int.{show_ℤ}
pub use Results.*
pub use Text.{
  codes, contains, ends_with, starts_with, is_space, same, same_iff, same_refl, str_eq, str_eq_refl,
  str_eq_iff,
}
unfoldable pub use Text.{trim, concat, show, join, split}
pub use Prim.Native.Nat.{ℕ, zero, suc, ◌+◌, ◌-◌, ◌*◌, ◌/◌, ◌%◌, ◌≤◌, ◌<◌}
pub use Prim.Native.String.{String}
pub use mathlib.Core.Path.{◌≡◌, refl, sym, ap, ap₂, fun_ext, ◌∙◌, subst}
pub use mathlib.Core.Logic.{◌≢◌, ◌↔◌, ◌⊎◌, inl, inr}
pub use mathlib.Core.Bool.{Bool, true, false, not, ◌&&◌, ◌||◌}
pub use mathlib.Core.Option.{Option, none, some}
pub use mathlib.Core.List.{List, [], ◌∷◌, ◌++◌, map}
pub use native.Mathlib.Omega.{arith}
