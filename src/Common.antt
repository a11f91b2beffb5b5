-- ===== src/Common.antt =====
-- The names that all modules share: those of the libraries, passed on, and those of the children,
-- which hold Boolean tests, lists measured by native numbers, texts and JSON values.
mod Tests
mod Lists
mod Texts
mod Maps
mod Sets
pub use Tests.*
pub use Lists.*
pub use Texts.{truthy, or_empty, truthy?, or_null, is_space}
unfoldable pub use Texts.{trim, utf16_length}
unfoldable pub use Maps.{map_get, map_set}
pub use Maps.{map_get-map_set}
unfoldable pub use Sets.{set_add, set_delete, set_of, missing}
pub use Sets.{
  Within, missing_grows, Within-length, length_iff_Within, NoRepeats-set_add, NoRepeats-set_of, has,
  has-append, has-set_add, has-set_delete, delete_absent, set_delete-set_add, has-set_of,
  length-set_of, length-set_of_iff, NoRepeats, missing-set_add, missing_less, missing-le-length,
}
pub use Prim.Native.Nat.{ℕ, zero, suc, ◌+◌, ◌-◌, ◌*◌, ◌/◌, ◌%◌, ◌^◌, ◌≤◌, ◌<◌, min, max}
pub use Prim.Native.String.{String}
pub use mathlib.Core.Path.{◌≡◌, refl, sym, ap, ◌∙◌, subst}
pub use mathlib.Core.Logic.{◌≢◌, ◌↔◌, ◌⊎◌, inl, inr}
pub use mathlib.Core.Bool.{Bool, true, false, ◌&&◌, ◌||◌, not}
pub use mathlib.Core.Option.{Option, none, some}
pub use mathlib.Core.List.{Memᴰ, List, [], ◌∷◌, ◌++◌, map, foldl, foldr, reverse}
pub use native.Mathlib.Omega.{arith}
pub use text.Mathlib.Text.{◌==◌}
pub use text.Mathlib.TextEquality.{eq_iff}
pub use text.Mathlib.TextPositions.{eq_refl}
