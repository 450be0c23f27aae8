-- ===== src/Prelude.antt =====
-- The names that the other modules share: those of the libraries, passed on, and those of the
-- children. Nothing here models the program; Text stands for a Go string, as its bytes.
mod Tests
mod Lists
mod Eq
mod Maps
mod Texts
pub mod Int
pub mod Decimal
pub mod Sort
pub mod Family
pub use Tests.*
pub use Lists.*
pub use Eq.{BoolEq, ◌==◌, nat_eq, text_eq, Text, codes}
pub use Maps.{
  Map, is_some, keys, values, IsMap, lookup-insert, lookup-delete, insert-IsMap, delete-IsMap,
  length-insert, delete_absent, length-delete,
}
pub use Texts.*
unfoldable pub use Maps.{lookup, insert, delete}
unfoldable pub use Eq.{text_beq}
pub use Prim.Native.Nat.{ℕ, zero, suc, ◌+◌, ◌-◌, ◌*◌, ◌/◌, ◌%◌, ◌^◌, ◌≤◌, ◌<◌, pred}
pub use mathlib.Core.Path.{◌≡◌, refl, sym, ap, subst, fun_ext, ◌∙◌}
pub use mathlib.Core.Logic.{◌≢◌, ◌↔◌, ◌⊎◌, inl, inr}
pub use mathlib.Core.Bool.{Bool, true, false, not, ◌&&◌, ◌||◌}
pub use mathlib.Core.Option.{Option, none, some}
pub use mathlib.Core.List.{List, [], ◌∷◌, ◌++◌, map, append_assoc, append-nil, map-append}
pub use native.Mathlib.Omega.{arith}
