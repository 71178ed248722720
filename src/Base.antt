-- ===== src/Base.antt =====
-- The names that every module shares: the libraries', passed on, and those of the children.
-- It models no code of its own.
mod Tests
mod Lists
mod Results
mod Text
mod Int
mod Maps
mod Numbers
mod Sort
mod Decimal
mod Descending
unfoldable pub use Tests.*
unfoldable pub use Lists.*
unfoldable pub use Results.*
unfoldable pub use Text.*
unfoldable pub use Int.*
unfoldable pub use Maps.*
unfoldable pub use Numbers.*
unfoldable pub use Sort.*
unfoldable pub use Descending.*
unfoldable pub use Decimal.*
pub use Prim.Native.Nat.{ℕ, zero, suc, ◌+◌, ◌-◌, ◌*◌, ◌/◌, ◌%◌, ◌^◌, ◌≤◌, ◌<◌}
pub use mathlib.Core.Path.{◌≡◌, refl, sym, ap, subst, ◌∙◌}
pub use mathlib.Core.Logic.{◌≢◌, ◌↔◌, ◌⊎◌, inl, inr}
pub use mathlib.Core.Bool.{Bool, true, false, ◌&&◌, ◌||◌, not}
pub use mathlib.Core.Option.{Option, none, some}
pub use mathlib.Core.List.{List, [], ◌∷◌, ◌++◌, map, Memᴰ}
pub use native.Mathlib.Omega.{arith}
