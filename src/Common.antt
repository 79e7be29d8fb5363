-- ===== src/Common.antt =====
-- What the modules of this library share: names of the libraries, passed on, tests on numbers
-- and texts, `Result` for C++ exceptions, and list lemmas over the native numbers.
mod Tests
mod Lists
mod Results
mod Tables
pub use Tests.*
pub use Lists.*
pub use Results.*
unfoldable pub use Tables.{lookup, insert, erase, emplace}
pub use Tables.{
  lookup-insert, lookup-insert_eq, lookup-insert_ne, lookup-erase, insert-All, lookup-All, IsUnique,
  erase-IsUnique, emplace-IsUnique,
}
pub use Prim.Native.Nat.{ℕ, zero, suc, ◌+◌, ◌-◌, ◌*◌, ◌/◌, ◌%◌, ◌^◌, ◌≤◌, ◌<◌, max, min}
pub use Prim.Native.String.{String}
pub use mathlib.Core.Path.{◌≡◌, refl, sym, ap, ◌∙◌, subst}
pub use mathlib.Core.Logic.{◌≢◌, ◌↔◌, ◌⊎◌, inl, inr}
pub use mathlib.Core.Bool.{Bool, true, false, not, ◌&&◌, ◌||◌}
pub use mathlib.Core.Option.{Option, none, some}
pub use mathlib.Core.List.{List, [], ◌∷◌, ◌++◌, map}
pub use native.Mathlib.Omega.{arith}
pub use text.Mathlib.TextEquality.{eq_iff}
pub use text.Mathlib.TextPositions.{eq_refl}
