-- ===== src/Permissions/Split.antt =====
-- `splitFlat` of internal/clients/strapi/roles.go and the grammar of the flat form.
pub mod Complete
pub mod Sound
use provider_strapi.Prelude.{Option, some, ◌≡◌, ◌↔◌}
use provider_strapi.Text.{Text}
use provider_strapi.Permissions.{split_flat}
use provider_strapi.Permissions.Grammar.{Spells}
use Complete.{split_flat_complete}
use Sound.{split_flat_sound}

-- `splitFlat` accepts a text and returns a resource, a controller and an action exactly when the
-- text spells that triple.
pub split_flat-iff_Spells : (p r c a : Text) → (split_flat p ≡ some (r, c, a)) ↔ Spells p r c a
split_flat-iff_Spells p r c a = (split_flat_sound p r c a, split_flat_complete p r c a)
