-- ===== src/Base.antt =====
-- The names that the other modules share: the libraries' names, passed on, and those of the
-- children (tests, lists, byte slices, maps, results, integers). It models no file of the repository.
mod Tests
mod Lists
mod Slices
mod Bytes
mod Maps
mod Outcomes
mod Int
pub use Tests.*
unfoldable pub use Lists.{replicate}
pub use Lists.*
unfoldable pub use Slices.{slice, splice}
pub use Slices.*
unfoldable pub use Bytes.{to_le, from_le}
pub use Bytes.*
unfoldable pub use Maps.{lookup, erase, insert, keys, contains, discard}
pub use Maps.*
pub use Outcomes.*
unfoldable pub use Int.{◌+ℤ◌, ◌-ℤ◌, ◌*ℤ◌, ◌/ℤ◌, ◌%ℤ◌, word32, word64}
pub use Int.*
pub use Prim.Native.Nat.{ℕ, zero, suc, ◌+◌, ◌-◌, ◌*◌, ◌/◌, ◌%◌, ◌^◌, ◌≤◌, ◌<◌, min}
pub use mathlib.Core.Path.{◌≡◌, refl, sym, ap, ap₂, ◌∙◌, subst}
pub use mathlib.Core.Logic.{◌≢◌, ◌↔◌, ◌⊎◌, inl, inr}
pub use mathlib.Core.Bool.{Bool, true, false, not, ◌&&◌, ◌||◌}
pub use mathlib.Core.Option.{Option, none, some}
pub use mathlib.Core.List.{List, [], ◌∷◌, ◌++◌, map, append_assoc, append-nil}
pub use native.Mathlib.Omega.{arith}
