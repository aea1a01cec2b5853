-- ===== src/Common.antt =====
-- The names that the modules share: the libraries' names passed on, Boolean tests, lists measured by
-- native numbers, signed integers, and Go's strings as lists of bytes.
mod Tests
mod Lists
pub mod Int
mod Strings
pub mod Assoc
pub mod Web
pub mod Splits
pub mod Sorted
mod Examples
pub use Tests.*
pub use Lists.*
pub use Strings.{Text, bytes, eq_sound, eq_refl, eq_complete, eq_iff}
unfoldable pub use Strings.{
  ◌==◌, has_prefix, has_suffix, contains, occurrences, trim_prefix, trim_suffix, cut, after_last,
  split, push_byte, join, trim_space, lower_byte, ascii_lower, fields, text_lt, mem,
}
pub use Prim.Native.Nat.{ℕ, zero, suc, ◌+◌, ◌-◌, ◌*◌, ◌/◌, ◌%◌, ◌^◌, ◌≤◌, ◌<◌}
pub use mathlib.Core.Path.{◌≡◌, refl, sym, ap, ◌∙◌, subst}
pub use mathlib.Core.Logic.{◌≢◌, ◌↔◌, ◌⊎◌, inl, inr}
pub use mathlib.Core.Bool.{Bool, true, false, ◌&&◌, ◌||◌, not}
pub use mathlib.Core.Option.{Option, none, some}
pub use mathlib.Core.List.{List, [], ◌∷◌, ◌++◌, map, reverse}
pub use native.Mathlib.Omega.{arith}
