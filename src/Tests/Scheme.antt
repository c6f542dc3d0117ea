-- ===== src/Tests/Scheme.antt =====
-- A scheme as the list of the types that were added to it: what the laws of apimachinery ask for.
use mathlib.Core.Path.{subst}
use provider_strapi.Prelude.{
  IsIn, List, [], ◌∷◌, ◌++◌, Option, none, some, Bool, true, false, ◌≡◌, refl, sym, ap, ◌∙◌, ◌⊎◌,
  inl, inr, ◌↔◌, length, take, ◌==◌, ◌&&◌, if◌then◌else◌, Bool-cases,
}
use provider_strapi.Text.{Text, codes, text_eq}
use provider_strapi.Text.Equality.{text_eq_iff, text_eq_refl}
use provider_strapi.Exec.{ok, Exec, continue}
use provider_strapi.Apis.{
  GoType, provider_config, provider_config_list, provider_config_usage, provider_config_usage_list,
  cluster_provider_config, cluster_provider_config_list, cluster_provider_config_usage,
  cluster_provider_config_usage_list, role_permissions, role_permissions_list, GroupVersion,
  GroupVersionKind, ApiMachinery, type_name, add_to_schemes, add_to_scheme, strapi_scheme_builder,
  permissions_scheme_builder,
}
use provider_strapi.Apis.Scheme.{IsApiMachinery, gvk_of, KnowsAllKinds, add_to_scheme-type_of}

abbrev pub Entries : Type 0
Entries = List (GroupVersion × GoType)

abbrev key : GroupVersion → GoType → GroupVersionKind
key gv t = record { group = gv.group; version = gv.version; kind = type_name t }

abbrev gvk_eq : GroupVersionKind → GroupVersionKind → Bool
gvk_eq a b = text_eq a.group b.group && (text_eq a.version b.version && text_eq a.kind b.kind)

gvk_eq_iff : (a b : GroupVersionKind) → (gvk_eq a b ≡ true) ↔ (a ≡ b)
gvk_eq_iff a b =
    let g = text_eq_iff a.group b.group in
    let v = text_eq_iff a.version b.version in
    let k = text_eq_iff a.kind b.kind in
    (
      λ e.
          same (text_eq a.group b.group) (text_eq a.version b.version) (text_eq a.kind b.kind) g v k
            e,
      λ e. rw (e, text_eq_refl b.group, text_eq_refl b.version, text_eq_refl b.kind) refl,
    )
  where
    same :
        (x y z : Bool)
        → ((x ≡ true) ↔ (a.group ≡ b.group))
        → ((y ≡ true) ↔ (a.version ≡ b.version))
        → ((z ≡ true) ↔ (a.kind ≡ b.kind))
        → (x && (y && z)) ≡ true
        → a ≡ b
    same true true true g v k e =
        λ i. record { group = g.0 refl i; version = v.0 refl i; kind = k.0 refl i }
    same true true false g v k e = absurd (cc)
    same true false z g v k e = absurd (cc)
    same false y z g v k e = absurd (cc)

unfoldable pub lookup : Entries → GroupVersionKind → Option GoType
lookup [] k = none
lookup ((gv, t) ∷ s) k = if gvk_eq (key gv t) k then some t else lookup s k

abbrev Held : Entries → GroupVersionKind → GoType → Type 0
Held [] k t = ⊥
Held ((gv, u) ∷ s) k t = ((t ≡ u) × (k ≡ key gv u)) ⊎ Held s k t

-- a type by its name
of_name : Text → GoType
of_name s =
    if text_eq (take 1 s) (codes "R")
    then (if length s == 15 then role_permissions else role_permissions_list)
    else if length s == 14
    then provider_config
    else if length s == 18
    then provider_config_list
    else if length s == 19
    then provider_config_usage
    else if length s == 23
    then provider_config_usage_list
    else if length s == 21
    then cluster_provider_config
    else if length s == 25
    then cluster_provider_config_list
    else if length s == 26
    then cluster_provider_config_usage
    else cluster_provider_config_usage_list

of_name-type_name : (t : GoType) → of_name (type_name t) ≡ t
unfolding of_name type_name text_eq
of_name-type_name provider_config = refl
of_name-type_name provider_config_list = refl
of_name-type_name provider_config_usage = refl
of_name-type_name provider_config_usage_list = refl
of_name-type_name cluster_provider_config = refl
of_name-type_name cluster_provider_config_list = refl
of_name-type_name cluster_provider_config_usage = refl
of_name-type_name cluster_provider_config_usage_list = refl
of_name-type_name role_permissions = refl
of_name-type_name role_permissions_list = refl

type_name_injective : (t u : GoType) → type_name t ≡ type_name u → t ≡ u
type_name_injective t u e = sym (of_name-type_name t) ∙ ap of_name e ∙ of_name-type_name u

Held-kind : (s : Entries) (k : GroupVersionKind) (t : GoType) → Held s k t → k.kind ≡ type_name t
Held-kind [] k t h = elim h [ ]
Held-kind ((gv, u) ∷ s) k t (inl (e, q)) = ap (λ x. x.kind) q ∙ ap type_name (sym e)
Held-kind ((gv, u) ∷ s) k t (inr h) = Held-kind s k t h

lookup-Held : (s : Entries) (k : GroupVersionKind) (t : GoType) → lookup s k ≡ some t → Held s k t
unfolding lookup
lookup-Held [] k t h = absurd (cc)
lookup-Held ((gv, u) ∷ s) k t h = elim (Bool-cases (gvk_eq (key gv u) k)) [
  | inl q ↦
      let h' = rw q at h in let same : t ≡ u = cc in inl (same, sym ((gvk_eq_iff (key gv u) k).0 q))
  | inr q ↦ let h' = rw q at h in inr (lookup-Held s k t h')
]

Held-lookup : (s : Entries) (k : GroupVersionKind) (t : GoType) → Held s k t → lookup s k ≡ some t
unfolding lookup
Held-lookup [] k t h = elim h [ ]
Held-lookup ((gv, u) ∷ s) k t h = elim (Bool-cases (gvk_eq (key gv u) k)) [
  | inl q ↦
      let named : type_name u ≡ type_name t =
        ap (λ x. x.kind) ((gvk_eq_iff (key gv u) k).0 q) ∙ Held-kind ((gv, u) ∷ s) k t h in
      rw q (ap (λ x. some x) (type_name_injective u t named))
  | inr q ↦ elim h [
    | inl (e, w) ↦ let own = (gvk_eq_iff (key gv u) k).1 (sym w) in absurd (cc)
    | inr later ↦ rw q (Held-lookup s k t later)
  ]
]

abbrev added_to : GroupVersion → List GoType → Entries → Entries
added_to gv [] s = s
added_to gv (t ∷ ts) s = (gv, t) ∷ added_to gv ts s

added_to-Held :
    (gv : GroupVersion) (ts : List GoType) (s : Entries) (k : GroupVersionKind) (t : GoType)
    → Held (added_to gv ts s) k t ↔ ((IsIn t ts × (k ≡ key gv t)) ⊎ Held s k t)
added_to-Held gv [] s k t = (λ h. inr h, λ h. elim h [ inl (o, _) ↦ elim o [ ] | inr h ↦ h ])
added_to-Held gv (u ∷ ts) s k t =
    let ih = added_to-Held gv ts s k t in
    (
      λ h. elim h [
        | inl (e, q) ↦ inl (inl e, q ∙ ap (key gv) (sym e))
        | inr h ↦ elim (ih.0 h) [ inl (o, q) ↦ inl (inr o, q) | inr h ↦ inr h ]
      ],
      λ h. elim h [
        | inl (o, q) ↦ elim o [
          | inl e ↦ inl (e, q ∙ ap (key gv) e)
          | inr o ↦ inr (ih.1 (inl (o, q)))
        ]
        | inr h ↦ inr (ih.1 (inr h))
      ],
    )

abbrev run_in_turn : List (Exec Entries (Unit {0})) → Exec Entries (Unit {0})
run_in_turn [] s = (ok tt, s)
run_in_turn (f ∷ fs) s = continue (f s) (λ _. run_in_turn fs)

abbrev pub machinery : ApiMachinery (GroupVersion × List GoType) Entries
machinery = record {
  with_kind = λ gv kind. record { group = gv.group; version = gv.version; kind = kind };
  group_kind_string = λ g. g.kind ++ codes "." ++ g.group;
  new_builder = λ gv. (gv, []);
  register = λ b ts. (b.0, b.1 ++ ts);
  builder_add_to_scheme = λ b s. (ok tt, added_to b.0 b.1 s);
  run_all = run_in_turn;
}

pub added_to-lookup :
    (gv : GroupVersion) (ts : List GoType) (s : Entries) (k : GroupVersionKind) (t : GoType)
    → (lookup (added_to gv ts s) k ≡ some t)
      ↔ ((IsIn t ts × (k ≡ key gv t)) ⊎ (lookup s k ≡ some t))
added_to-lookup gv ts s k t =
    let iff = added_to-Held gv ts s k t in
    (
      λ h. elim (iff.0 (lookup-Held (added_to gv ts s) k t h)) [
        | inl o ↦ inl o
        | inr h ↦ inr (Held-lookup s k t h)
      ],
      λ h.
          Held-lookup (added_to gv ts s) k t
            (iff.1 (elim h [ inl o ↦ inl o | inr h ↦ inr (lookup-Held s k t h) ])),
    )

abbrev pub machinery-IsApiMachinery : IsApiMachinery machinery
machinery-IsApiMachinery = record {
  type_of = lookup;
  builder_group_version = λ b. b.0;
  objects = λ b. b.1;
  new-group_version = λ gv. refl;
  new-objects = λ gv. refl;
  register-group_version = λ b ts. refl;
  register-objects = λ b ts. refl;
  builder_add_to_scheme-type_of = λ b s u e k t.
      subst (λ v. (lookup v k ≡ some t) ↔ ((IsIn t b.1 × (k ≡ key b.0 t)) ⊎ (lookup s k ≡ some t)))
        (ap (λ x. x.1) e) (added_to-lookup b.0 b.1 s k t);
  run_all-nil = λ s. refl;
  run_all-cons = λ f fs s. refl;
}

abbrev known : Entries
known = (add_to_scheme machinery []).1

-- the scheme is empty before, and knows ten kinds afterwards
entries_count : length known ≡ 10
unfolding add_to_scheme add_to_schemes strapi_scheme_builder permissions_scheme_builder
entries_count = refl

added_all : add_to_scheme machinery [] ≡ (ok tt, known)
unfolding add_to_scheme add_to_schemes
added_all = refl

add_to_scheme-type_of_example :
    ((k : GroupVersionKind) (t : GoType)
      → (machinery-IsApiMachinery.type_of known k ≡ some t) ↔ (
          (k ≡ gvk_of machinery machinery-IsApiMachinery t)
          ⊎ (machinery-IsApiMachinery.type_of [] k ≡ some t)))
    × KnowsAllKinds machinery machinery-IsApiMachinery known
add_to_scheme-type_of_example =
    add_to_scheme-type_of machinery machinery-IsApiMachinery [] known added_all
