-- ===== src/Base.antt =====
-- The names that the other modules share: the library's, passed on, Boolean tests on the native
-- numbers, and the lists over them.
pub mod Tests
pub mod Lists
pub mod Results
pub mod Maps
pub mod Cells
pub mod Run
pub mod Quantify
pub use Tests.*
unfoldable pub use Lists.*
pub use Results.*
pub use Quantify.*
unfoldable pub use Maps.*
unfoldable pub use Cells.*
pub use Prim.Native.Nat.{ℕ, zero, suc, ◌+◌, ◌-◌, ◌*◌, ◌^◌, ◌%◌, ◌≤◌, ◌<◌}
pub use mathlib.Core.Path.{◌≡◌, refl, sym, ap, ◌∙◌, subst}
pub use mathlib.Core.Logic.{◌≢◌, ◌↔◌, ◌⊎◌, inl, inr}
pub use mathlib.Core.Bool.{Bool, true, false, not, ◌&&◌, ◌||◌}
pub use mathlib.Core.Option.{Option, none, some}
pub use mathlib.Core.List.{List, [], ◌∷◌, ◌++◌, map}
pub use native.Mathlib.Omega.{arith}
