-- ===== src/Permissions/Split/Complete.antt =====
-- `splitFlat` of internal/clients/strapi/roles.go on the texts of the grammar.
use provider_strapi.Prelude.{[], ◌∷◌, ◌++◌, some, ◌≡◌, ◌≢◌, refl, inl, inr, append_assoc}
use provider_strapi.Text.{Text, Lacks, has_prefix}
use provider_strapi.Text.Search.{has_prefix-append}
use provider_strapi.Permissions.{
  dot, api_prefix, plugin_prefix, split_api, split_plugin, split_resource, check_parts, split_flat,
}
use provider_strapi.Permissions.Grammar.{explicit_name, IsApi, IsPlugin, IsResource, Spells}
use provider_strapi.Permissions.Cuts.{
  split_api-implicit, split_api-explicit, split_plugin_lem, split_flat-append, is_empty_ne,
}

pub split_resource-api : (s : Text) → split_resource (api_prefix ++ s) ≡ split_api (api_prefix ++ s)
unfolding split_resource
split_resource-api s = rw (has_prefix-append api_prefix s)

pub split_resource-plugin :
    (s : Text) → split_resource (plugin_prefix ++ s) ≡ split_plugin (plugin_prefix ++ s)
unfolding split_resource has_prefix
split_resource-plugin s = refl

-- a text that ends in an action is read by what stands before the last dot
read_body :
    (b r c a : Text)
    → b ≢ []
    → r ≢ []
    → c ≢ []
    → a ≢ []
    → Lacks dot a
    → split_resource b ≡ some (r, c)
    → split_flat (b ++ dot ∷ a) ≡ some (r, c, a)
unfolding check_parts
read_body b r c a hb hr hc ha la e =
    rw (split_flat-append b a hb ha la, e, check_parts, is_empty_ne hr, is_empty_ne hc)

pub explicit_name-eq : (r c a : Text) → explicit_name r c a ≡ (r ++ dot ∷ c) ++ dot ∷ a
explicit_name-eq r c a = rw (append_assoc r (dot ∷ c) (dot ∷ a))

api_explicit : (r c y : Text) → IsApi r y → split_resource (r ++ dot ∷ c) ≡ some (r, c)
api_explicit r c y k =
    let x = k.api in
    rw (k.spelled, append_assoc (api_prefix ++ x) (dot ∷ y) (dot ∷ c))
      (rw (split_resource-api (x ++ dot ∷ (y ++ dot ∷ c)))
        (split_api-explicit x y c k.api-ne-nil k.api-Lacks k.content_type-Lacks))

api_implicit : (r c : Text) → IsApi r c → c ≢ [] → split_resource r ≡ some (r, c)
api_implicit r c k hc =
    let x = k.api in
    rw (k.spelled, split_resource-api (x ++ dot ∷ c))
      (rw (split_api-implicit x c k.api-ne-nil k.api-Lacks k.content_type-Lacks, is_empty_ne hc))

plugin_explicit : (r c : Text) → IsPlugin r → c ≢ [] → split_resource (r ++ dot ∷ c) ≡ some (r, c)
plugin_explicit r c k hc =
    let x = k.plugin in
    rw (k.spelled, split_resource-plugin (x ++ dot ∷ c))
      (split_plugin_lem x c k.plugin-ne-nil k.plugin-Lacks hc)

pub resource-ne-nil : (r : Text) → IsResource r → r ≢ []
resource-ne-nil [] (inl (y, k)) = λ e. cc k.spelled
resource-ne-nil [] (inr k) = λ e. cc k.spelled
resource-ne-nil (z ∷ r) k = λ e. cc

append-ne-nil : (r s : Text) → r ≢ [] → r ++ s ≢ []
append-ne-nil [] s h = absurd (h refl)
append-ne-nil (z ∷ r) s h = λ e. cc

body_explicit : (r c : Text) → IsResource r → c ≢ [] → split_resource (r ++ dot ∷ c) ≡ some (r, c)
body_explicit r c (inl (y, k)) hc = api_explicit r c y k
body_explicit r c (inr k) hc = plugin_explicit r c k hc

pub split_flat_complete : (p r c a : Text) → Spells p r c a → split_flat p ≡ some (r, c, a)
split_flat_complete p r c a (t, inl e) =
    let hr = resource-ne-nil r t.resource-IsResource in
    let hc = t.controller-ne-nil in
    rw (e, explicit_name-eq r c a)
      (read_body (r ++ dot ∷ c) r c a (append-ne-nil r (dot ∷ c) hr) hr hc t.action-ne-nil
        t.action-Lacks (body_explicit r c t.resource-IsResource hc))
split_flat_complete p r c a (t, inr (k, e)) =
    let hr = resource-ne-nil r t.resource-IsResource in
    let hc = t.controller-ne-nil in
    rw e (read_body r r c a hr hr hc t.action-ne-nil t.action-Lacks (api_implicit r c k hc))
