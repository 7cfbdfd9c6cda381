-- ===== src/Prelude.antt =====
-- The names that the modules share: the libraries', passed on, and those of the children.
mod Tests
mod Lists
mod Text
mod Results
mod Whitespace
mod Lines
pub use Tests.*
pub use Lists.*
pub use Text.*
unfoldable pub use Text.{strip_prefix, ends_with, split_once}
pub use Results.*
pub use Whitespace.*
pub use Lines.*
unfoldable pub use Lines.{
  starts_with, split_once_at, lines, lowercase_starts_with, trim_end_matches, parse_below,
}
unfoldable pub use Whitespace.{
  is_whitespace, trim_start, trim_end, trim, is_blank, split_whitespace,
}
pub use Prim.Native.Nat.{ℕ, zero, suc, ◌+◌, ◌-◌, ◌*◌, ◌/◌, ◌%◌, ◌^◌, ◌≤◌, ◌<◌}
pub use Prim.Native.String.{String}
pub use mathlib.Core.Path.{◌≡◌, refl, sym, ap, subst, ◌∙◌}
pub use mathlib.Core.Logic.{◌≢◌, ◌↔◌, ◌⊎◌, inl, inr}
pub use mathlib.Core.Bool.{Bool, true, false, not, ◌&&◌, ◌||◌}
pub use mathlib.Core.Option.{Option, none, some}
pub use mathlib.Core.List.{List, [], ◌∷◌, ◌++◌, map}
pub use native.Mathlib.Omega.{arith}
pub use text.Mathlib.Text.{◌==◌ as str_eq}
pub use text.Mathlib.TextEquality.{eq_iff}
pub use text.Mathlib.TextPositions.{eq_refl}
pub use Prim.Native.String.{◌++◌ as ◌⧺◌}
