-- ===== src/Base.antt =====
-- Names that every module shares: those of the libraries, passed on, and those of the children.
mod Tests
mod Int
mod Lists
mod Maps
mod Outcome
pub mod Keeps
pub mod Triple
pub mod Total
pub mod Product
pub use Tests.*
unfoldable pub use Int.*
pub use Lists.*
unfoldable pub use Maps.*
unfoldable pub use Outcome.*
pub use Prim.Native.Nat.{ℕ, zero, suc, ◌+◌, ◌-◌, ◌*◌, ◌/◌, ◌%◌, ◌^◌, ◌≤◌, ◌<◌, min, max}
pub use mathlib.Core.Path.{◌≡◌, refl, sym, ap, subst, ◌∙◌}
pub use mathlib.Core.Logic.{◌≢◌, ◌↔◌, ◌⊎◌, inl, inr}
pub use mathlib.Core.Bool.{Bool, true, false, not, ◌&&◌, ◌||◌}
pub use mathlib.Core.Option.{Option, none, some}
pub use mathlib.Core.List.{List, [], ◌∷◌, ◌++◌, map}
pub use native.Mathlib.Omega.{arith}
