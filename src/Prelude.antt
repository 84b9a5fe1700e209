-- ===== src/Prelude.antt =====
-- The names that every component shares: the libraries', passed on, and those of the children.
mod Tests
mod Lists
mod Text
mod Assoc
mod Errors
mod Sort
mod Removal
pub use Tests.*
pub use Lists.*
pub use Text.{len, is_ascii, concat, take_chars, drop_chars}
unfoldable pub use Text.{decimal}
pub use Errors.*
pub use Sort.{
  IsSortedBy, sort_by-IsSortedBy, sort_by-perm, sort_by-map, page_of-map, length-sort_by,
  All-sort_by, page_of, pages-take, take-all,
}
pub use Removal.{is_left, length-without-take, length-without-drop}
unfoldable pub use Sort.{insert_by, sort_by, pages}
pub use Assoc.{Dict, contains, lookup-nil, lookup-insert, lookup-erase, dict_laws}
unfoldable pub use Assoc.{lookup, insert, erase}
pub use Prim.Native.Nat.{ℕ, zero, suc, ◌+◌, ◌-◌, ◌*◌, ◌/◌, ◌%◌, ◌^◌, ◌≤◌, ◌<◌, min}
pub use Prim.Native.String.{String}
pub use mathlib.Core.Path.{◌≡◌, refl, sym, ap, ◌∙◌}
pub use mathlib.Core.Logic.{◌≢◌, ◌↔◌, ◌⊎◌, inl, inr}
pub use mathlib.Core.Bool.{Bool, true, false, not, ◌&&◌, ◌||◌}
pub use mathlib.Core.Option.{Option, none, some}
pub use mathlib.Core.List.{List, [], ◌∷◌, ◌++◌, map}
pub use native.Mathlib.Omega.{arith}
pub use text.Mathlib.Text.{◌==◌, starts_with}
pub use text.Mathlib.TextEquality.{eq_iff}
pub use text.Mathlib.TextPositions.{eq_refl}
