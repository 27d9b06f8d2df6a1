-- ===== src/Prelude.antt =====
-- The names that the other modules share: the libraries', passed on, and those of the children.
mod Tests
mod Lists
mod ByteStrings
mod ListLaws
mod Prefixes
mod Suffixes
mod Text
mod Splitting
mod Numbers
mod Utf8
mod Maps
pub mod Result
pub use Tests.*
pub use Lists.*
pub use ListLaws.*
pub use Prefixes.*
pub use Suffixes.*
pub use Splitting.*
unfoldable pub use Text.*
unfoldable pub use Numbers.*
unfoldable pub use Utf8.{valid_utf8}
unfoldable pub use ByteStrings.*
unfoldable pub use Maps.*
pub use Prim.Native.Nat.{ℕ, zero, suc, ◌+◌, ◌-◌, ◌*◌, ◌/◌, ◌%◌, ◌^◌, ◌≤◌, ◌<◌, min}
pub use Prim.Native.String.{String}
pub use mathlib.Core.Path.{◌≡◌, refl, sym, ap, ◌∙◌}
pub use mathlib.Core.Logic.{◌≢◌, ◌↔◌, ◌⊎◌, inl, inr}
pub use mathlib.Core.Bool.{Bool, true, false, not, ◌&&◌, ◌||◌}
pub use mathlib.Core.Option.{Option, none, some}
pub use mathlib.Core.List.{List, [], ◌∷◌, ◌++◌, map, reverse}
pub use native.Mathlib.Omega.{arith}
