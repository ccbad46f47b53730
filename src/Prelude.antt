-- ===== src/Prelude.antt =====
-- The names that the other modules share: the libraries', passed on, and those of the children.
mod Tests
mod Lists
mod Texts
mod Integers
mod Sorting
mod Ordered
pub use Tests.*
pub use Lists.*
unfoldable pub use Texts.{equal}
pub use Texts.{Text, codes, equal_iff, equal_refl, equal_sym, equal_to}
unfoldable pub use Integers.{eq_int}
pub use Integers.{ℤ, pos, negsuc, eq_int_iff}
unfoldable pub use Sorting.{sort_by}
pub use Ordered.{Distinct, range, sort_by-range, length-covers, length-misses}
pub use Sorting.{sort_by-All, any-sort_by, length-sort_by, sort_by-append}
pub use Prim.Native.Nat.{ℕ, zero, suc, ◌+◌, ◌-◌, ◌*◌, ◌/◌, ◌%◌, ◌^◌, ◌≤◌, ◌<◌, min}
pub use mathlib.Core.Path.{◌≡◌, refl, sym, ap, ap₂, subst, ◌∙◌}
pub use mathlib.Core.Logic.{◌≢◌, ◌↔◌, ◌⊎◌, inl, inr}
pub use mathlib.Core.Bool.{Bool, true, false, not, ◌&&◌, ◌||◌}
pub use mathlib.Core.Option.{Option, none, some}
pub use mathlib.Core.List.{List, [], ◌∷◌, ◌++◌, map, append_assoc, append-nil}
pub use native.Mathlib.Omega.{arith}
