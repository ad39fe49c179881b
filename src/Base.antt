-- ===== src/Base.antt =====
-- The names that the other modules share: those of the libraries that the models use, passed on,
-- and the children's tests, lists, maps, integers and outcomes.
mod Tests
mod Lists
mod Maps
mod Outcomes
mod Fds
pub mod Words
pub use Tests.*
pub use Lists.*
unfoldable pub use Maps.*
pub use Outcomes.*
pub use Fds.*
pub use Prim.Native.Nat.{ℕ, zero, suc, ◌+◌, ◌-◌, ◌*◌, ◌/◌, ◌%◌, ◌^◌, ◌≤◌, ◌<◌, min}
pub use mathlib.Core.Path.{◌≡◌, refl, sym, ap, ap₂, subst, ◌∙◌}
pub use mathlib.Core.Logic.{◌≢◌, ◌↔◌, ◌⊎◌, inl, inr}
pub use mathlib.Core.Bool.{Bool, true, false, not, ◌&&◌, ◌||◌}
pub use mathlib.Core.Option.{Option, none, some}
pub use mathlib.Core.List.{List, [], ◌∷◌, ◌++◌, map, reverse, append-nil, append_assoc}
pub use native.Mathlib.Omega.{arith}
unfoldable pub use native.Mathlib.Decide.{dec_lt, ℕ_discrete}
