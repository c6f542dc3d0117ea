-- ===== src/GoMap.antt =====
-- Go's `map[string]V`, as the list of its entries in the order in which one `range` visits them, which
-- Go leaves open.
pub mod Unique
pub mod Flat
use provider_strapi.Prelude.{List, [], ◌∷◌, Option, none, some, ◌≡◌, arith, if◌then◌else◌}
use provider_strapi.Text.{Text, text_eq}
use provider_strapi.Text.Equality.{text_eq_iff}

abbrev pub Map {ℓ} : Type ℓ → Type ℓ
Map V = List (Text × V)

module _ {ℓ} {V : Type ℓ} where
  -- `v, ok := m[k]`
  unfoldable pub lookup : Map V → Text → Option V
  lookup [] k = none
  lookup ((j, v) ∷ m) k = if text_eq j k then some v else lookup m k

  -- `m[k] = v`
  unfoldable pub insert : Map V → Text → V → Map V
  insert [] k v = (k, v) ∷ []
  insert ((j, w) ∷ m) k v = if text_eq j k then (k, v) ∷ m else (j, w) ∷ insert m k v

  pub lookup-insert :
      (m : Map V) (k j : Text) (v : V)
      → lookup (insert m k v) j ≡ (if text_eq k j then some v else lookup m j)
  unfolding lookup insert
  lookup-insert [] k j v = ground arith
  lookup-insert ((i, w) ∷ m) k j v =
      ground (arith, text_eq_iff k j, text_eq_iff i k, text_eq_iff i j, lookup-insert m k j v)
