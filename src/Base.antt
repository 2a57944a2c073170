-- ===== src/Base.antt =====
-- The names that all modules share: the libraries', passed on, and those of the children.
-- Base/Tests and Base/Lists hold Boolean tests and arrays, Base/Word the machine words,
-- and Base/Programs the programs with state, panics and loops that may not end.
mod Tests
mod Lists
mod Word
mod Programs
pub use Tests.*
pub use Lists.*
pub use Word.*
pub use Programs.*
pub use Prim.Native.Nat.{ℕ, zero, suc, ◌+◌, ◌-◌, ◌*◌, ◌/◌, ◌%◌, ◌^◌, ◌≤◌, ◌<◌}
pub use mathlib.Core.Path.{◌≡◌, refl, sym, ap, ◌∙◌, fun_ext}
pub use mathlib.Core.Logic.{◌≢◌, ◌↔◌, ◌⊎◌, inl, inr}
pub use mathlib.Core.Bool.{Bool, true, false, ◌&&◌, ◌||◌, not}
pub use mathlib.Core.Option.{Option, none, some}
pub use mathlib.Core.List.{List, [], ◌∷◌, ◌++◌, map}
pub use native.Mathlib.Omega.{arith}
