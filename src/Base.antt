-- ===== src/Base.antt =====
-- Names that every component shares: the libraries', passed on, the Boolean tests and the lists
-- over the native numbers, and byte strings.
mod Tests
mod Lists
mod Text
mod Words
pub mod Bits
mod Count
mod Maps
mod UniqueKeys
mod Search
mod Decimal
pub mod Heap
pub use Tests.*
pub use Lists.*
unfoldable pub use Text.*
pub use Words.*
pub use Count.*
unfoldable pub use Maps.*
pub use UniqueKeys.*
pub use Search.*
unfoldable pub use Decimal.*
pub use Prim.Native.Nat.{ℕ, zero, suc, ◌+◌, ◌-◌, ◌*◌, ◌/◌, ◌%◌, ◌^◌, ◌≤◌, ◌<◌, min}
pub use mathlib.Core.Path.{◌≡◌, refl, sym, ap, ap₂, subst, ◌∙◌}
pub use mathlib.Core.Logic.{◌≢◌, ◌↔◌, ◌⊎◌, inl, inr}
pub use mathlib.Core.Bool.{Bool, true, false, not, ◌&&◌, ◌||◌}
pub use mathlib.Core.Option.{Option, none, some}
pub use mathlib.Core.List.{List, [], ◌∷◌, map, append-nil, append_assoc}
unfoldable pub use mathlib.Core.List.{◌++◌}
pub use native.Mathlib.Omega.{arith}
unfoldable pub use native.Mathlib.Decide.{dec_lt, ℕ_discrete}
