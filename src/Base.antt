-- ===== src/Base.antt =====
-- The names that every part of the development shares: those of the libraries, passed on, and
-- those of the children. No code of the repository is modelled here.
mod Tests
mod Lists
mod Counts
mod Runs
mod Keys
pub mod Dict
pub mod Int
pub use Tests.*
pub use Lists.*
unfoldable pub use Counts.*
unfoldable pub use Runs.*
unfoldable pub use Keys.*
pub use Prim.Native.Nat.{ℕ, zero, suc, ◌+◌, ◌-◌, ◌*◌, ◌/◌, ◌%◌, ◌^◌, ◌≤◌, ◌<◌}
pub use mathlib.Core.Path.{◌≡◌, refl, sym, ap, ◌∙◌, subst, fun_ext}
pub use mathlib.Core.Logic.{◌≢◌, ◌↔◌, ◌⊎◌, inl, inr}
pub use mathlib.Core.Bool.{Bool, true, false, ◌&&◌, ◌||◌, not}
pub use mathlib.Core.Option.{Option, none, some}
pub use mathlib.Core.List.{List, [], ◌∷◌, ◌++◌, map, reverse}
pub use native.Mathlib.Omega.{arith}
