-- ===== src/Permissions/Names.antt =====
-- `FlattenPermissions` and `splitFlat` of internal/clients/strapi/roles.go on one action.
use provider_strapi.Prelude.{
  ◌∷◌, ◌++◌, some, true, false, ◌≡◌, refl, sym, ◌∙◌, ◌⊎◌, inl, inr, Bool-cases,
}
use provider_strapi.Text.{Text, text_eq, has_prefix}
use provider_strapi.Text.Equality.{text_eq_iff, text_eq_refl}
use provider_strapi.Text.Search.{has_prefix-append, last_index-append}
use provider_strapi.Permissions.{
  dot, api_prefix, same_last, implicit_controller, flat_name, split_flat,
}
use provider_strapi.Permissions.Grammar.{explicit_name, IsApi, IsPlugin, IsTriple, Spells}
use provider_strapi.Permissions.Cuts.{drop_add_one}
use provider_strapi.Permissions.Split.Complete.{split_flat_complete}
use provider_strapi.Permissions.Split.Sound.{split_flat_sound}

api_same_last : (r c y : Text) → IsApi r y → implicit_controller r c ≡ text_eq y c
unfolding implicit_controller
api_same_last r c y k =
    let x = k.api in
    rw (k.spelled, has_prefix-append api_prefix (x ++ dot ∷ y))
      (rw (last_index-append dot (api_prefix ++ x) y k.content_type-Lacks, same_last)
        (rw (drop_add_one (api_prefix ++ x) y)))

plugin_explicit : (r c : Text) → IsPlugin r → implicit_controller r c ≡ false
unfolding implicit_controller has_prefix
plugin_explicit r c k = rw k.spelled

pub implicit_controller_of_IsApi : (r c : Text) → IsApi r c → implicit_controller r c ≡ true
implicit_controller_of_IsApi r c k = api_same_last r c c k ∙ text_eq_refl c

pub IsApi-of_implicit_controller :
    (r c a : Text) → IsTriple r c a → implicit_controller r c ≡ true → IsApi r c
IsApi-of_implicit_controller r c a t h = elim t.resource-IsResource [
  | inl (y, k) ↦ rw (← (text_eq_iff y c).0 (sym (api_same_last r c y k) ∙ h)) k
  | inr k ↦ absurd (cc (plugin_explicit r c k))
]

-- the spelling that `FlattenPermissions` writes belongs to the grammar
pub flat_name-Spells : (r c a : Text) → IsTriple r c a → Spells (flat_name r c a) r c a
unfolding flat_name
flat_name-Spells r c a t = elim (Bool-cases (implicit_controller r c)) [
  | inl e ↦ rw e (t, inr (IsApi-of_implicit_controller r c a t e, refl))
  | inr e ↦ rw e (t, inl refl)
]

-- Every resource, controller and action that `splitFlat` can return is read back from the flat form
-- that `FlattenPermissions` writes for it.
pub split_flat-flat_name :
    (p r c a : Text) → split_flat p ≡ some (r, c, a) → split_flat (flat_name r c a) ≡ some (r, c, a)
split_flat-flat_name p r c a h =
    split_flat_complete _ r c a (flat_name-Spells r c a (split_flat_sound p r c a h).0)

-- Where `splitFlat` accepts a text, `FlattenPermissions` spells its parts as the same text, unless
-- the text writes out a controller that the content type of its api resource implies.
pub flat_name-split_flat :
    (p r c a : Text)
    → split_flat p ≡ some (r, c, a)
    → (flat_name r c a ≡ p) ⊎ (IsApi r c × (p ≡ explicit_name r c a))
unfolding flat_name
flat_name-split_flat p r c a h = read (split_flat_sound p r c a h) (Bool-cases _)
  where
    read :
        Spells p r c a
        → (implicit_controller r c ≡ true) ⊎ (implicit_controller r c ≡ false)
        → (flat_name r c a ≡ p) ⊎ (IsApi r c × (p ≡ explicit_name r c a))
    read (t, inr (k, e)) _ = inl (rw (implicit_controller_of_IsApi r c k) (sym e))
    read (t, inl e) (inl i) = inr (IsApi-of_implicit_controller r c a t i, e)
    read (t, inl e) (inr i) = inl (rw i (sym e))
