-- ===== src/Common/Maps.antt =====
-- A `Map` with texts for keys: its entries in the order of their first insertion.
use Prim.Native.String.{String}
use mathlib.Core.Path.{◌≡◌, refl}
use mathlib.Core.Option.{Option, none, some}
use mathlib.Core.List.{List, [], ◌∷◌}
use native.Mathlib.Omega.{arith}
use text.Mathlib.Text.{◌==◌}
use text.Mathlib.TextEquality.{eq_iff}
use bighead.Common.Tests.{if◌then◌else◌}

module _ {ℓ} {V : Type ℓ} where
  unfoldable pub map_get : String → List (String × V) → Option V
  map_get k [] = none
  map_get k ((j, v) ∷ m) = let rest = map_get k m in if j == k then some v else rest

  unfoldable pub map_set : String → V → List (String × V) → List (String × V)
  map_set k v [] = (k, v) ∷ []
  map_set k v ((j, w) ∷ m) =
      let rest = map_set k v m in if j == k then (j, v) ∷ m else (j, w) ∷ rest

  pub map_get-map_set :
      (k j : String) (v : V) (m : List (String × V))
      → map_get j (map_set k v m) ≡ (if k == j then some v else map_get j m)
  unfolding map_get map_set
  map_get-map_set k j v [] = refl
  map_get-map_set k j v ((i, w) ∷ m) =
      ground (arith, eq_iff k j, eq_iff i k, eq_iff i j, map_get-map_set k j v m)
