-- ===== src/Prelude.antt =====
-- Shared names, tests on machine words and lemmas about lists that every component uses.
mod Tests
mod Lists
pub mod Outcomes
pub mod Bytes
pub mod Integers
pub use Tests.*
pub use Lists.*
pub use Outcomes.{Outcome, ok, abort, ymassert, ◌>>=◌, ◌>>◌, >>=-eq-ok, >>=-ok}
pub use Prim.Native.Nat.{ℕ, zero, suc, ◌+◌, ◌-◌, ◌*◌, ◌/◌, ◌%◌, ◌^◌, ◌≤◌, ◌<◌, min}
pub use mathlib.Core.Path.{◌≡◌, refl, sym, ap, ◌∙◌, subst}
pub use mathlib.Core.Logic.{◌≢◌, ◌↔◌, ◌⊎◌, inl, inr}
pub use mathlib.Core.Bool.{Bool, true, false, not, ◌&&◌, ◌||◌}
pub use mathlib.Core.Option.{Option, none, some}
pub use mathlib.Core.List.{List, [], ◌∷◌, ◌++◌, map}
pub use native.Mathlib.Omega.{arith}
unfoldable pub use native.Mathlib.Decide.{dec_lt, ℕ_discrete}
