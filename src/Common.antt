-- ===== src/Common.antt =====
-- The names that every module shares: those of the library, passed on, and the children's.
mod Tests
mod Lists
mod Outcome
mod Blank
mod Sets
pub mod Int
pub mod Sort
pub mod Removal
pub mod Writes
pub mod Decimal
pub use Tests.*
pub use Lists.*
pub use Outcome.*
pub use Blank.{Text}
unfoldable pub use Blank.{is_blank}
unfoldable pub use Sets.{sorted_set, is_ordered_set}
pub use Sets.{
  sorted_set-IsIncreasing, same_list, unique_length, is_ordered_set_iff, IsIncreasing,
  IsIncreasing-IsUnique, unique_length-IsUnique,
}
pub use Prim.Native.Nat.{ℕ, zero, suc, ◌+◌, ◌-◌, ◌*◌, ◌/◌, ◌%◌, ◌^◌, ◌≤◌, ◌<◌, min, max}
pub use mathlib.Core.Path.{◌≡◌, refl, sym, ap, subst, ◌∙◌}
pub use mathlib.Core.Logic.{◌≢◌, ◌↔◌, ◌⊎◌, inl, inr}
pub use mathlib.Core.Bool.{Bool, true, false, not, ◌&&◌, ◌||◌}
pub use mathlib.Core.Option.{Option, none, some}
pub use mathlib.Core.List.{List, [], ◌∷◌, ◌++◌, map}
pub use native.Mathlib.Omega.{arith}
