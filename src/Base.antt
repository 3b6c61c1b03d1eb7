-- ===== src/Base.antt =====
-- The names that the other modules share: the libraries', passed on, and those of the children.
mod Checks
mod Results
mod Int
mod Assoc
mod Decimal
mod Utf8
mod Space
pub mod Prefix
pub mod Search
pub use Results.*
pub use Checks.*
pub use Int.*
pub use Assoc.*
unfoldable pub use Decimal.{itoa, itoa_int, print_from, digit}
unfoldable pub use Utf8.{bytes_of, utf8_char}
unfoldable pub use Space.{trim_left, trim_right, trim_space, is_nil}
pub use Prim.Native.Nat.{ℕ, zero, suc, ◌+◌, ◌-◌, ◌*◌, ◌/◌, ◌%◌, ◌^◌, ◌≤◌, ◌<◌}
pub use Prim.Native.String.{String}
pub use mathlib.Core.Path.{◌≡◌, refl, sym, ap, ◌∙◌}
pub use mathlib.Core.Logic.{◌≢◌, ◌↔◌, ◌⊎◌, inl, inr}
pub use mathlib.Core.Bool.{Bool, true, false, not, ◌&&◌, ◌||◌}
pub use mathlib.Core.Option.{Option, none, some}
pub use mathlib.Core.List.{List, [], ◌∷◌, ◌++◌}
pub use native.Mathlib.Omega.{arith}
pub use text.Mathlib.TextEquality.{eq_iff}
pub use text.Mathlib.TextPositions.{eq_refl}
