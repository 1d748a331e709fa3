-- ===== src/Base.antt =====
-- The names that the other modules share: the libraries', passed on, and those of the children.
mod Tests
mod Lists
mod Strings
mod Orders
mod Paths
mod Maps
mod Ints
pub use Tests.*
pub use Ints.*
pub use Lists.*
unfoldable pub use Orders.{set_insert}
pub use Orders.{
  All-lt_trans, Order, nat_order, list_order, text_order, beq_list, lt_list, IsAscending,
  set_insert-mem, set_insert-IsAscending,
}
unfoldable pub use Paths.*
unfoldable pub use Maps.*
unfoldable pub use Strings.*
pub use Prim.Native.Nat.{ℕ, zero, suc, ◌+◌, ◌-◌, ◌*◌, ◌/◌, ◌%◌, ◌^◌, ◌≤◌, ◌<◌, min, max}
pub use mathlib.Core.Path.{◌≡◌, refl, sym, ap, ap₂, subst, ◌∙◌}
pub use mathlib.Core.Logic.{◌≢◌, ◌↔◌, ◌⊎◌, inl, inr}
pub use mathlib.Core.Bool.{Bool, true, false, not, ◌&&◌, ◌||◌}
pub use mathlib.Core.Option.{Option, none, some}
pub use mathlib.Core.List.{
  List, [], ◌∷◌, ◌++◌, map, reverse, append_assoc, append-nil, reverse-append, reverse-reverse,
}
pub use native.Mathlib.Omega.{arith}
