-- ===== src/Base.antt =====
-- What every module shares: names of the libraries passed on, Boolean tests, lists over the native
-- numbers, Go's int64, time, errors-free text as bytes, and maps keyed by text.
mod Tests
mod Lists
pub mod Int
pub mod Time
pub mod Text
pub mod StringMap
pub mod Sort
pub mod Float
pub mod Unicode
pub mod World
pub use Tests.*
pub use Lists.*
pub use Prim.Native.Nat.{ℕ, zero, suc, ◌+◌, ◌-◌, ◌*◌, ◌/◌, ◌%◌, ◌^◌, ◌≤◌, ◌<◌, min, max}
pub use mathlib.Core.Path.{◌≡◌, refl, sym, ap, ◌∙◌, subst}
pub use mathlib.Core.Logic.{◌≢◌, ◌↔◌, ◌⊎◌, inl, inr}
pub use mathlib.Core.Bool.{Bool, true, false, ◌&&◌, ◌||◌, not}
pub use mathlib.Core.Option.{Option, none, some}
pub use mathlib.Core.List.{List, [], ◌∷◌, ◌++◌, map, Memᴰ}
pub use native.Mathlib.Omega.{arith}
