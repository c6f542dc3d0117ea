-- ===== src/Permissions/Cuts.antt =====
-- What the three parsers return on a text that is put together from its parts.
use native.Mathlib.Numerals.{add-one}
use provider_strapi.Prelude.{
  ◌+◌, [], ◌∷◌, ◌++◌, none, some, false, ◌≡◌, ◌≢◌, refl, leb, ◌==◌, arith, length, take, drop,
  append_assoc, length-append, take-length-append, drop-suc-length-append, if◌then◌else◌,
}
use provider_strapi.Text.{Text, Lacks, is_empty}
use provider_strapi.Text.Search.{index-append, index_of_Lacks, last_index-append}
use provider_strapi.Permissions.{
  dot, api_prefix, plugin_prefix, split_api_tail, split_api_at, split_api, split_plugin_at,
  split_plugin, split_resource, check_parts, split_flat_at, split_flat,
}

pub length-pos : {x : Text} → x ≢ [] → leb (length x) 0 ≡ false
length-pos {x = []} h = absurd (h refl)
length-pos {x = c ∷ x} h = ground arith

pub is_empty_ne : {x : Text} → x ≢ [] → is_empty x ≡ false
is_empty_ne {x = []} h = absurd (h refl)
is_empty_ne {x = c ∷ x} h = refl

pub drop_add_one : (x t : Text) → drop (length x + 1) (x ++ dot ∷ t) ≡ t
drop_add_one x t = rw (add-one (length x)) (drop-suc-length-append x dot t)

take_two :
    (x y z : Text) → take (length x + 1 + length y) (x ++ dot ∷ (y ++ dot ∷ z)) ≡ x ++ dot ∷ y
take_two x y z =
    let e : length x + 1 + length y ≡ length (x ++ dot ∷ y) =
      omega (arith, length-append {0} x (dot ∷ y)) in
    rw (e, ← append_assoc x (dot ∷ y) (dot ∷ z)) (take-length-append (x ++ dot ∷ y) (dot ∷ z))

not_last : (x t : Text) → t ≢ [] → ((length x + 1) == length (x ++ dot ∷ t)) ≡ false
not_last x [] h = absurd (h refl)
not_last x (c ∷ t) h = ground (arith, length-append {0} x (dot ∷ c ∷ t))

pub split_api-implicit :
    (x t : Text)
    → x ≢ []
    → Lacks dot x
    → Lacks dot t
    → split_api (api_prefix ++ (x ++ dot ∷ t))
      ≡ (if is_empty t then none else some (api_prefix ++ (x ++ dot ∷ t), t))
unfolding split_api
split_api-implicit x t hx lx lt =
    rw (index-append dot x t lx, split_api_at, length-pos hx, drop_add_one x t)
      (rw (index_of_Lacks dot t lt, split_api_tail))

pub split_api-explicit :
    (x y z : Text)
    → x ≢ []
    → Lacks dot x
    → Lacks dot y
    → split_api (api_prefix ++ (x ++ dot ∷ (y ++ dot ∷ z))) ≡ some (api_prefix ++ (x ++ dot ∷ y), z)
unfolding split_api
split_api-explicit x y z hx lx ly =
    rw (index-append dot x (y ++ dot ∷ z) lx, split_api_at, length-pos hx)
      (rw (drop_add_one x (y ++ dot ∷ z))
        (rw (index-append dot y z ly, split_api_tail, take_two x y z, drop_add_one y z)))

pub split_plugin_lem :
    (x z : Text)
    → x ≢ []
    → Lacks dot x
    → z ≢ []
    → split_plugin (plugin_prefix ++ (x ++ dot ∷ z)) ≡ some (plugin_prefix ++ x, z)
unfolding split_plugin
split_plugin_lem x z hx lx hz =
    rw (index-append dot x z lx, split_plugin_at, length-pos hx, not_last x z hz)
      (rw (take-length-append x (dot ∷ z), drop_add_one x z))

pub split_flat-append :
    (b a : Text)
    → b ≢ []
    → a ≢ []
    → Lacks dot a
    → split_flat (b ++ dot ∷ a) ≡ check_parts a (split_resource b)
unfolding split_flat
split_flat-append b a hb ha la =
    rw (last_index-append dot b a la, split_flat_at, length-pos hb, not_last b a ha)
      (rw (take-length-append b (dot ∷ a), drop_add_one b a))
