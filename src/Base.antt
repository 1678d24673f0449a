-- ===== src/Base.antt =====
-- Names that every module shares: the libraries', passed on, and the helpers of the children.
mod Tests
mod Lists
mod Texts
mod Maps
pub mod Members
pub use Tests.*
pub use Lists.*
pub use Texts.*
unfoldable pub use Texts.{decimal}
unfoldable pub use Maps.{lookup, insert, delete, values}
pub use Maps.{
  lookup-insert, insert-cases, lookup-delete, delete-found, lookup-insert_self, lookup-insert_other,
  lookup-delete-none, lookup-delete_self, total, total-insert_new, total-insert_old, AllValues,
  AllValues-insert, AllValues-lookup,
}
pub use Prim.Native.Nat.{ℕ, zero, suc, ◌+◌, ◌-◌, ◌*◌, ◌/◌, ◌%◌, ◌≤◌, ◌<◌, min, max}
pub use Prim.Native.String.{String}
pub use mathlib.Core.Path.{◌≡◌, refl, sym, ap, subst, ◌∙◌}
pub use mathlib.Core.Logic.{◌≢◌, ◌↔◌, ◌⊎◌, inl, inr}
pub use mathlib.Core.Bool.{Bool, true, false, not, ◌&&◌, ◌||◌}
pub use mathlib.Core.Option.{Option, none, some}
pub use mathlib.Core.List.{List, [], ◌∷◌, ◌++◌, map}
pub use native.Mathlib.Omega.{arith}
