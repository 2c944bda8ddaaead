-- ===== src/Prelude.antt =====
-- The names that the other modules share: the libraries', passed on, with Boolean tests on the
-- native numbers, results, and the children's bytes, association lists and integers.
mod Tests
mod Text
mod Results
mod Assoc
pub mod Int
pub mod State
pub mod Schedules
pub use Tests.*
pub use Results.*
unfoldable pub use Text.{◌==◌}
pub use Assoc.{Map, lookup-insert, lookup-delete, lookup-retain, map_laws}
unfoldable pub use Assoc.{lookup, insert, delete, retain}
pub use Text.{Bytes, IsBytes, bytes, eq_iff, eq_refl, eq_sym}
pub use Prim.Native.Nat.{ℕ, zero, suc, ◌+◌, ◌-◌, ◌*◌, ◌/◌, ◌%◌, ◌^◌, ◌≤◌, ◌<◌}
pub use Prim.Native.String.{String}
pub use mathlib.Core.Path.{◌≡◌, refl, sym, ap, ◌∙◌, subst, fun_ext}
pub use mathlib.Core.Logic.{◌≢◌, ◌↔◌, ◌⊎◌, inl, inr}
pub use mathlib.Core.Bool.{Bool, true, false, not, ◌&&◌, ◌||◌}
pub use mathlib.Core.Option.{Option, none, some}
pub use mathlib.Core.List.{List, [], ◌∷◌, ◌++◌, map}
pub use native.Mathlib.Omega.{arith}
