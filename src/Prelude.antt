-- ===== src/Prelude.antt =====
-- The names that the other modules share: the libraries' names, passed on, and those of children.
mod Tests
mod Lists
mod Results
pub mod Maps
pub mod Sorted
pub mod Members
pub use Tests.*
pub use Lists.*
pub use Results.*
unfoldable pub use Maps.{find, put, erase, member, insert, remove}
pub use Maps.{find-put, find-erase, member-insert, member-remove}
pub use Prim.Native.Nat.{ℕ, zero, suc, ◌+◌, ◌-◌, ◌*◌, ◌/◌, ◌%◌, ◌^◌, ◌≤◌, ◌<◌, min}
pub use mathlib.Core.Path.{◌≡◌, refl, sym, ap, subst, ◌∙◌}
pub use mathlib.Core.Logic.{◌≢◌, ◌↔◌, ◌⊎◌, inl, inr}
pub use mathlib.Core.Bool.{Bool, true, false, not, ◌&&◌, ◌||◌}
pub use mathlib.Core.Option.{Option, none, some}
pub use mathlib.Core.List.{List, [], ◌∷◌, ◌++◌, map, append-nil, append_assoc}
pub use native.Mathlib.Omega.{arith}
unfoldable pub use native.Mathlib.Decide.{dec_lt, dec_le, ℕ_discrete}
