-- ===== src/Permissions/Split/Sound.antt =====
-- The texts that `splitFlat` of internal/clients/strapi/roles.go accepts.
use mathlib.Core.Path.{subst}
use provider_strapi.Prelude.{
  [], ◌∷◌, ◌++◌, Option, none, some, false, ◌≡◌, ◌≢◌, inl, inr, append_assoc, arith, sym, ◌∙◌, ℕ,
  length-append, Bool-cases,
}
use provider_strapi.Text.{Text, Lacks, has_prefix, index, last_index}
use provider_strapi.Text.Search.{
  index-cases, index-append, last_index-append, last_index-cases, append_of_has_prefix,
}
use provider_strapi.Permissions.{
  dot, api_prefix, plugin_prefix, split_api_at, split_plugin_at, split_flat_at, split_api,
  split_plugin, split_resource, check_parts, split_flat,
}
use provider_strapi.Permissions.Grammar.{IsApi, IsPlugin, Spells}
use provider_strapi.Permissions.Cuts.{
  split_api-implicit, split_api-explicit, split_plugin_lem, split_flat-append,
}
use provider_strapi.Permissions.Split.Complete.{
  explicit_name-eq, split_resource-api, split_resource-plugin,
}

-- what stands before the last dot, and how it is cut
data Body (b r c : Text) : Type 0 where
  api_body : (y : Text) → IsApi r y → b ≡ r ++ dot ∷ c → Body b r c
  content_type_body : IsApi r c → b ≡ r → Body b r c
  plugin_body : IsPlugin r → b ≡ r ++ dot ∷ c → Body b r c

split_api-none : (s : Text) → index s dot ≡ none → split_api (api_prefix ++ s) ≡ none
unfolding split_api
split_api-none s e = rw (e, split_api_at)

split_api_empty : (t : Text) → split_api (api_prefix ++ (dot ∷ t)) ≡ none
unfolding split_api
split_api_empty t = rw (index-append dot [] t tt, split_api_at)

implicit_read :
    (x t r c : Text)
    → x ≢ []
    → Lacks dot x
    → Lacks dot t
    → split_api (api_prefix ++ (x ++ dot ∷ t)) ≡ some (r, c)
    → Body (api_prefix ++ (x ++ dot ∷ t)) r c
implicit_read x [] r c hx lx lt h = absurd (cc (split_api-implicit x [] hx lx lt))
implicit_read x (z ∷ t) r c hx lx lt h =
    let read = split_api-implicit x (z ∷ t) hx lx lt in
    let hr : r ≡ api_prefix ++ (x ++ dot ∷ z ∷ t) = cc in
    let hc : z ∷ t ≡ c = cc in
    content_type_body
      (record {
        api = x;
        spelled = rw (← hc) hr;
        api-ne-nil = hx;
        api-Lacks = lx;
        content_type-Lacks = subst (Lacks dot) hc lt;
      })
      (sym hr)

explicit_read :
    (x y w r c : Text)
    → x ≢ []
    → Lacks dot x
    → Lacks dot y
    → split_api (api_prefix ++ (x ++ dot ∷ (y ++ dot ∷ w))) ≡ some (r, c)
    → Body (api_prefix ++ (x ++ dot ∷ (y ++ dot ∷ w))) r c
explicit_read x y w r c hx lx ly h =
    let read = split_api-explicit x y w hx lx ly in
    let hr : r ≡ api_prefix ++ (x ++ dot ∷ y) = cc in
    let hc : w ≡ c = cc in
    api_body y
      (record { api = x; spelled = hr; api-ne-nil = hx; api-Lacks = lx; content_type-Lacks = ly })
      (rw (hr, ← hc) (rw (append_assoc (api_prefix ++ x) (dot ∷ y) (dot ∷ w))))

api_read :
    (x t r c : Text)
    → x ≢ []
    → Lacks dot x
    → split_api (api_prefix ++ (x ++ dot ∷ t)) ≡ some (r, c)
    → Body (api_prefix ++ (x ++ dot ∷ t)) r c
api_read x t r c hx lx h = elim (index-cases dot t) [
  | inl (p, lt) ↦ implicit_read x t r c hx lx lt h
  | inr (y, w, e, ly, q) ↦ rw e (explicit_read x y w r c hx lx ly (rw e at h))
]

split_api_read :
    (x t r c : Text)
    → Lacks dot x
    → split_api (api_prefix ++ (x ++ dot ∷ t)) ≡ some (r, c)
    → Body (api_prefix ++ (x ++ dot ∷ t)) r c
split_api_read [] t r c lx h = absurd (cc (split_api_empty t))
split_api_read (z ∷ x) t r c lx h = api_read (z ∷ x) t r c (λ e. cc) lx h

split_api_sound :
    (s r c : Text) → split_api (api_prefix ++ s) ≡ some (r, c) → Body (api_prefix ++ s) r c
split_api_sound s r c h = elim (index-cases dot s) [
  | inl (p, ls) ↦ absurd (cc (split_api-none s p))
  | inr (x, t, e, lx, q) ↦ rw e (split_api_read x t r c lx (rw e at h))
]

split_plugin-none : (s : Text) → index s dot ≡ none → split_plugin (plugin_prefix ++ s) ≡ none
unfolding split_plugin
split_plugin-none s e = rw (e, split_plugin_at)

split_plugin_empty : (t : Text) → split_plugin (plugin_prefix ++ (dot ∷ t)) ≡ none
unfolding split_plugin
split_plugin_empty t = rw (index-append dot [] t tt, split_plugin_at)

split_plugin_last :
    (x : Text) → Lacks dot x → split_plugin (plugin_prefix ++ (x ++ dot ∷ [])) ≡ none
unfolding split_plugin
split_plugin_last x lx =
    rw (index-append dot x [] lx, split_plugin_at) (ground (arith, length-append {0} x (dot ∷ [])))

plugin_read :
    (x t r c : Text)
    → Lacks dot x
    → split_plugin (plugin_prefix ++ (x ++ dot ∷ t)) ≡ some (r, c)
    → Body (plugin_prefix ++ (x ++ dot ∷ t)) r c
plugin_read [] t r c lx h = absurd (cc (split_plugin_empty t))
plugin_read (z ∷ x) [] r c lx h = absurd (cc (split_plugin_last (z ∷ x) lx))
plugin_read (z ∷ x) (v ∷ t) r c lx h =
    let read = split_plugin_lem (z ∷ x) (v ∷ t) (λ e. cc) lx (λ e. cc) in
    let hr : r ≡ plugin_prefix ++ z ∷ x = cc in
    let hc : v ∷ t ≡ c = cc in
    plugin_body
      (record { plugin = z ∷ x; spelled = hr; plugin-ne-nil = λ e. cc; plugin-Lacks = lx })
      (rw (hr, ← hc))

split_plugin_sound :
    (s r c : Text) → split_plugin (plugin_prefix ++ s) ≡ some (r, c) → Body (plugin_prefix ++ s) r c
split_plugin_sound s r c h = elim (index-cases dot s) [
  | inl (p, ls) ↦ absurd (cc (split_plugin-none s p))
  | inr (x, t, e, lx, q) ↦ rw e (plugin_read x t r c lx (rw e at h))
]

split_resource_other :
    (b : Text)
    → has_prefix b api_prefix ≡ false
    → has_prefix b plugin_prefix ≡ false
    → split_resource b ≡ none
unfolding split_resource
split_resource_other b h k = rw (h, k)

split_resource_sound : (b r c : Text) → split_resource b ≡ some (r, c) → Body b r c
split_resource_sound b r c h = elim (Bool-cases (has_prefix b api_prefix)) [
  | inl p ↦
      let (s, e) = append_of_has_prefix b api_prefix p in
      rw e (split_api_sound s r c (rw (split_resource-api s) at (rw e at h)))
  | inr p ↦ elim (Bool-cases (has_prefix b plugin_prefix)) [
    | inl q ↦
        let (s, e) = append_of_has_prefix b plugin_prefix q in
        rw e (split_plugin_sound s r c (rw (split_resource-plugin s) at (rw e at h)))
    | inr q ↦ absurd (cc (split_resource_other b p q))
  ]
]

check_parts_inv :
    (o : Option (Text × Text)) (a' r c a : Text)
    → check_parts a' o ≡ some (r, c, a)
    → (o ≡ some (r, c)) × (a' ≡ a) × (c ≢ [])
unfolding check_parts
check_parts_inv none a' r c a h = absurd (cc)
check_parts_inv (some ([], y)) a' r c a h = absurd (cc)
check_parts_inv (some (z ∷ x, [])) a' r c a h = absurd (cc)
check_parts_inv (some (z ∷ x, v ∷ y)) a' r c a h = (cc, cc, λ e. cc)

Spells-of_Body :
    (b r c a : Text) → a ≢ [] → Lacks dot a → c ≢ [] → Body b r c → Spells (b ++ dot ∷ a) r c a
Spells-of_Body b r c a ha la hc (api_body y k e) = (
  record {
    resource-IsResource = inl (y, k);
    controller-ne-nil = hc;
    action-ne-nil = ha;
    action-Lacks = la;
  },
  inl (rw (e, explicit_name-eq r c a)),
)
Spells-of_Body b r c a ha la hc (content_type_body k e) = (
  record {
    resource-IsResource = inl (c, k);
    controller-ne-nil = hc;
    action-ne-nil = ha;
    action-Lacks = la;
  },
  inr (k, rw e),
)
Spells-of_Body b r c a ha la hc (plugin_body k e) = (
  record {
    resource-IsResource = inr k;
    controller-ne-nil = hc;
    action-ne-nil = ha;
    action-Lacks = la;
  },
  inl (rw (e, explicit_name-eq r c a)),
)

split_flat-none : (p : Text) → last_index p dot ≡ none → split_flat p ≡ none
unfolding split_flat
split_flat-none p e = rw (e, split_flat_at)

split_flat_first : (a : Text) → Lacks dot a → split_flat (dot ∷ a) ≡ none
unfolding split_flat
split_flat_first a la = rw (last_index-append dot [] a la, split_flat_at)

split_flat_last : (z : ℕ) (b : Text) → split_flat (z ∷ b ++ dot ∷ []) ≡ none
unfolding split_flat
split_flat_last z b =
    rw (last_index-append dot (z ∷ b) [] tt, split_flat_at)
      (ground (arith, length-append {0} b (dot ∷ [])))

flat_read :
    (b a' r c a : Text)
    → Lacks dot a'
    → split_flat (b ++ dot ∷ a') ≡ some (r, c, a)
    → Spells (b ++ dot ∷ a') r c a
flat_read [] a' r c a la h = absurd (cc (split_flat_first a' la))
flat_read (z ∷ b) [] r c a la h = absurd (cc (split_flat_last z b))
flat_read (z ∷ b) (v ∷ a') r c a la h =
    let read = split_flat-append (z ∷ b) (v ∷ a') (λ e. cc) (λ e. cc) la in
    let (found, e, hc) = check_parts_inv (split_resource (z ∷ b)) (v ∷ a') r c a (sym read ∙ h) in
    let body = split_resource_sound (z ∷ b) r c found in
    rw (sym e) (Spells-of_Body (z ∷ b) r c (v ∷ a') (λ q. cc) la hc body)

pub split_flat_sound : (p r c a : Text) → split_flat p ≡ some (r, c, a) → Spells p r c a
split_flat_sound p r c a h = elim (last_index-cases dot p) [
  | inl (e, l) ↦ absurd (cc (split_flat-none p e))
  | inr (b, a', e, la, q) ↦ rw e (flat_read b a' r c a la (rw e at h))
]
