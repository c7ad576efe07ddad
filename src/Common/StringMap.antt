-- ===== src/Common/StringMap.antt =====
-- Go's map[string]V as an association list: reading, writing and deleting a key.
use vrata.Common.Tests.{if◌then◌else◌}
use mathlib.Core.Path.{◌≡◌, refl}
use mathlib.Core.Option.{Option, none, some}
use mathlib.Core.List.{List, [], ◌∷◌}
use Prim.Native.String.{String}
use native.Mathlib.Omega.{arith}
use text.Mathlib.Text.{◌==◌ as str_eq}
use text.Mathlib.TextEquality.{eq_iff}

module _ {ℓ} {V : Type ℓ} where
  unfoldable pub lookup : String → List (String × V) → Option V
  lookup k [] = none
  lookup k ((j, v) ∷ m) = if str_eq j k then some v else lookup k m

  unfoldable pub insert : String → V → List (String × V) → List (String × V)
  insert k v [] = (k, v) ∷ []
  insert k v ((j, w) ∷ m) = if str_eq j k then (k, v) ∷ m else (j, w) ∷ insert k v m

  unfoldable pub delete : String → List (String × V) → List (String × V)
  delete k [] = []
  delete k ((j, w) ∷ m) = if str_eq j k then delete k m else (j, w) ∷ delete k m

  pub lookup-insert :
      (j k : String) (v : V) (m : List (String × V))
      → lookup j (insert k v m) ≡ (if str_eq k j then some v else lookup j m)
  unfolding lookup insert
  lookup-insert j k v [] = refl
  lookup-insert j k v ((i, w) ∷ m) =
      ground (arith, eq_iff k j, eq_iff i k, eq_iff i j, lookup-insert j k v m)

  pub lookup-delete :
      (j k : String) (m : List (String × V))
      → lookup j (delete k m) ≡ (if str_eq k j then none else lookup j m)
  unfolding lookup delete
  lookup-delete j k [] = ground arith
  lookup-delete j k ((i, w) ∷ m) =
      ground (arith, eq_iff k j, eq_iff i k, eq_iff i j, lookup-delete j k m)
