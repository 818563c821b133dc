-- ===== src/Base.antt =====
-- The names that the models share: the libraries' names passed on, the tests, the maps and the
-- outcomes of calls that may panic.
mod Tests
mod Maps
mod Paths
mod Texts
mod Outcomes
mod Int
unfoldable pub use Tests.*
unfoldable pub use Maps.*
unfoldable pub use Paths.*
pub use Texts.*
pub use Outcomes.*
unfoldable pub use Int.*
pub use Prim.Native.Nat.{ℕ, zero, suc, ◌+◌, ◌-◌, ◌*◌, ◌≤◌, ◌<◌}
pub use Prim.Native.String.{String}
pub use mathlib.Core.Path.{◌≡◌, refl, sym, ap, subst, ◌∙◌}
pub use mathlib.Core.Logic.{◌≢◌, ◌↔◌, ◌⊎◌, inl, inr}
pub use mathlib.Core.Bool.{Bool, true, false, not, ◌&&◌, ◌||◌}
pub use mathlib.Core.Option.{Option, none, some}
pub use mathlib.Core.List.{List, [], ◌∷◌, ◌++◌, map}
pub use native.Mathlib.Omega.{arith}
