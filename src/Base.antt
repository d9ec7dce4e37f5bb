-- ===== src/Base.antt =====
-- The names that the other modules share: the libraries', passed on, and those of the children.
mod Tests
mod Lists
mod Strings
mod Decimal
mod Maps
mod Paths
mod Fold
mod Split
mod Cells
mod Numbers
mod Utf8
pub use Tests.*
pub use Lists.*
pub use Strings.*
pub use Decimal.*
pub use Maps.*
pub use Paths.*
pub use Fold.*
pub use Split.*
pub use Cells.*
pub use Utf8.*
pub use Numbers.*
unfoldable pub use Strings.{text, ◌==◌}
unfoldable pub use Decimal.{all_digits, value, itoa, parse_uint}
unfoldable pub use Maps.{lookup, insert, delete}
unfoldable pub use Paths.{path_join, path_join_all}
unfoldable pub use Fold.{ascii_fold}
unfoldable pub use Utf8.{range_text}
unfoldable pub use Numbers.{parse_octal, parse_int, atoi}
unfoldable pub use Split.{cut, split_n, split}
pub use Prim.Native.Nat.{ℕ, zero, suc, ◌+◌, ◌-◌, ◌*◌, ◌/◌, ◌%◌, ◌^◌, ◌≤◌, ◌<◌}
pub use mathlib.Core.Path.{◌≡◌, refl, sym, ap, ◌∙◌}
pub use mathlib.Core.Logic.{◌≢◌, ◌↔◌, ◌⊎◌, inl, inr}
pub use mathlib.Core.Bool.{Bool, true, false, not, ◌&&◌, ◌||◌}
pub use mathlib.Core.Option.{Option, none, some}
pub use mathlib.Core.List.{List, [], ◌∷◌, ◌++◌, map}
pub use native.Mathlib.Omega.{arith}
