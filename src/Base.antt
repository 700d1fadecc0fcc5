-- ===== src/Base.antt =====
-- The names that the other modules share: the libraries' names, passed on, Boolean tests on native
-- numbers, lists indexed by native numbers, maps, and Go's signed integers (in Base/Int).
mod Tests
mod Lists
mod Partial
mod Maps
pub mod Int
pub mod Int64
pub use Tests.*
pub use Lists.*
pub use Partial.*
unfoldable pub use Maps.*
pub use Prim.Native.Nat.{ℕ, zero, suc, ◌+◌, ◌-◌, ◌*◌, ◌/◌, ◌%◌, ◌^◌, ◌≤◌, ◌<◌}
pub use mathlib.Core.Path.{◌≡◌, refl, sym, ap, ◌∙◌}
pub use mathlib.Core.Logic.{◌≢◌, ◌↔◌, ◌⊎◌, inl, inr}
pub use mathlib.Core.Bool.{Bool, true, false, not, ◌&&◌, ◌||◌}
pub use mathlib.Core.Option.{Option, none, some}
pub use mathlib.Core.List.{List, [], ◌∷◌, ◌++◌, map, append_assoc, append-nil}
pub use native.Mathlib.Omega.{arith}
