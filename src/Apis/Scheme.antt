-- ===== src/Apis/Scheme.antt =====
-- apis/strapi.go: which types a scheme knows after `AddToScheme`.
use provider_strapi.Prelude.{
  List, [], ◌∷◌, ◌++◌, Option, some, ◌≡◌, refl, sym, ap, ◌∙◌, ◌⊎◌, inl, inr, ◌↔◌, IsIn, IsIn-All,
}
use provider_strapi.Exec.{ok, Exec, continue, continue-ok}
use provider_strapi.Apis.{
  GoType, provider_config, provider_config_list, provider_config_usage, provider_config_usage_list,
  cluster_provider_config, cluster_provider_config_list, cluster_provider_config_usage,
  cluster_provider_config_usage_list, role_permissions, role_permissions_list, GroupVersion,
  GroupVersionKind, ApiMachinery, type_name, strapi_group_version, permissions_group_version,
  provider_config_gvk, provider_config_usage_gvk, provider_config_usage_list_gvk,
  cluster_provider_config_gvk, cluster_provider_config_usage_gvk,
  cluster_provider_config_usage_list_gvk, role_permissions_gvk, strapi_scheme_builder,
  permissions_scheme_builder, add_to_schemes, add_to_scheme,
}

-- the API group of a type, by the package that declares it
abbrev pub group_version_of : GoType → GroupVersion
group_version_of role_permissions = permissions_group_version
group_version_of role_permissions_list = permissions_group_version
group_version_of _ = strapi_group_version

-- what k8s.io/apimachinery and controller-runtime document
pub record IsApiMachinery {B S : Type 0} (api : ApiMachinery B S) : Type 0 where
  -- the Go type of a kind in a scheme, of the ten of this provider
  pub type_of : S → GroupVersionKind → Option GoType
  pub builder_group_version : B → GroupVersion
  pub objects : B → List GoType
  pub new-group_version : (gv : GroupVersion) → builder_group_version (api.new_builder gv) ≡ gv
  pub new-objects : (gv : GroupVersion) → objects (api.new_builder gv) ≡ []
  pub register-group_version :
      (b : B) (ts : List GoType)
      → builder_group_version (api.register b ts) ≡ builder_group_version b
  pub register-objects : (b : B) (ts : List GoType) → objects (api.register b ts) ≡ objects b ++ ts
  -- a builder adds its objects under its group and version, each under the name of its Go type
  pub builder_add_to_scheme-type_of :
      (b : B) (s u : S)
      → api.builder_add_to_scheme b s ≡ (ok tt, u)
      → (k : GroupVersionKind) (t : GoType)
      → (type_of u k ≡ some t) ↔ (
          (IsIn t (objects b) × (k ≡ api.with_kind (builder_group_version b) (type_name t)))
          ⊎ (type_of s k ≡ some t))
  -- the functions are applied in turn until one fails
  pub run_all-nil : (s : S) → api.run_all [] s ≡ (ok tt, s)
  pub run_all-cons :
      (f : Exec S (Unit {0})) (fs : List (Exec S (Unit {0}))) (s : S)
      → api.run_all (f ∷ fs) s ≡ continue (f s) (λ _. api.run_all fs)

module _ {B S : Type 0} (api : ApiMachinery B S) (laws : IsApiMachinery api) where
  abbrev pub gvk_of : GoType → GroupVersionKind
  gvk_of t = api.with_kind (group_version_of t) (type_name t)

  -- the kinds that the sources name, with their types
  abbrev pub KnowsAllKinds : S → Type 0
  KnowsAllKinds s =
      (laws.type_of s (provider_config_gvk api) ≡ some provider_config)
      × (laws.type_of s (provider_config_usage_gvk api) ≡ some provider_config_usage)
      × (laws.type_of s (provider_config_usage_list_gvk api) ≡ some provider_config_usage_list)
      × (laws.type_of s (cluster_provider_config_gvk api) ≡ some cluster_provider_config)
      × (laws.type_of s (cluster_provider_config_usage_gvk api)
          ≡ some cluster_provider_config_usage)
      × (laws.type_of s (cluster_provider_config_usage_list_gvk api)
          ≡ some cluster_provider_config_usage_list)
      × (laws.type_of s (role_permissions_gvk api) ≡ some role_permissions)

  abbrev strapi_types : List GoType
  strapi_types =
      provider_config ∷ provider_config_list ∷ provider_config_usage ∷ provider_config_usage_list
      ∷ cluster_provider_config ∷ cluster_provider_config_list ∷ cluster_provider_config_usage
      ∷ cluster_provider_config_usage_list ∷ []

  abbrev permissions_types : List GoType
  permissions_types = role_permissions ∷ role_permissions_list ∷ []

  strapi_scheme_builder-objects : laws.objects (strapi_scheme_builder api) ≡ strapi_types
  unfolding strapi_scheme_builder
  strapi_scheme_builder-objects = rw (
    laws.register-objects, laws.register-objects, laws.register-objects, laws.register-objects,
    laws.new-objects,
  )

  strapi_scheme_builder-group_version :
      laws.builder_group_version (strapi_scheme_builder api) ≡ strapi_group_version
  unfolding strapi_scheme_builder
  strapi_scheme_builder-group_version = rw (
    laws.register-group_version, laws.register-group_version, laws.register-group_version,
    laws.register-group_version, laws.new-group_version,
  )

  permissions_scheme_builder-objects :
      laws.objects (permissions_scheme_builder api) ≡ permissions_types
  unfolding permissions_scheme_builder
  permissions_scheme_builder-objects = rw (laws.register-objects, laws.new-objects)

  permissions_scheme_builder-group_version :
      laws.builder_group_version (permissions_scheme_builder api) ≡ permissions_group_version
  unfolding permissions_scheme_builder
  permissions_scheme_builder-group_version =
      rw (laws.register-group_version, laws.new-group_version)

  -- both builders have to succeed
  add_to_scheme-ok :
      (s u : S)
      → add_to_scheme api s ≡ (ok tt, u)
      → (m : S) × (api.builder_add_to_scheme (strapi_scheme_builder api) s ≡ (ok tt, m))
        × (api.builder_add_to_scheme (permissions_scheme_builder api) m ≡ (ok tt, u))
  unfolding add_to_scheme add_to_schemes
  add_to_scheme-ok s u e =
      let first = api.builder_add_to_scheme (strapi_scheme_builder api) in
      let second = api.builder_add_to_scheme (permissions_scheme_builder api) in
      let (x, m, p, q) =
        continue-ok (first s) (λ _. api.run_all (second ∷ [])) tt u
          (sym (laws.run_all-cons first (second ∷ []) s) ∙ e) in
      let (y, n, p', q') =
        continue-ok (second m) (λ _. api.run_all []) tt u
          (sym (laws.run_all-cons second [] m) ∙ q) in
      (m, p, p' ∙ sym (laws.run_all-nil n) ∙ q')

  of_strapi : (t : GoType) → IsIn t strapi_types → group_version_of t ≡ strapi_group_version
  of_strapi t =
      IsIn-All (λ t. group_version_of t ≡ strapi_group_version) t strapi_types
        (refl, (refl, (refl, (refl, (refl, (refl, (refl, (refl, tt))))))))

  of_permissions :
      (t : GoType) → IsIn t permissions_types → group_version_of t ≡ permissions_group_version
  of_permissions t =
      IsIn-All (λ t. group_version_of t ≡ permissions_group_version) t permissions_types
        (refl, (refl, tt))

  some_group : (t : GoType) → IsIn t strapi_types ⊎ IsIn t permissions_types
  some_group provider_config = inl (inl refl)
  some_group provider_config_list = inl (inr (inl refl))
  some_group provider_config_usage = inl (inr (inr (inl refl)))
  some_group provider_config_usage_list = inl (inr (inr (inr (inl refl))))
  some_group cluster_provider_config = inl (inr (inr (inr (inr (inl refl)))))
  some_group cluster_provider_config_list = inl (inr (inr (inr (inr (inr (inl refl))))))
  some_group cluster_provider_config_usage = inl (inr (inr (inr (inr (inr (inr (inl refl)))))))
  some_group cluster_provider_config_usage_list =
      inl (inr (inr (inr (inr (inr (inr (inr (inl refl))))))))
  some_group role_permissions = inr (inl refl)
  some_group role_permissions_list = inr (inr (inl refl))

  strapi-type_of :
      (s u : S)
      → api.builder_add_to_scheme (strapi_scheme_builder api) s ≡ (ok tt, u)
      → (k : GroupVersionKind) (t : GoType)
      → (laws.type_of u k ≡ some t) ↔ (
          (IsIn t strapi_types × (k ≡ api.with_kind strapi_group_version (type_name t)))
          ⊎ (laws.type_of s k ≡ some t))
  strapi-type_of s u e k t =
      let law = laws.builder_add_to_scheme-type_of (strapi_scheme_builder api) s u e k t in
      rw (strapi_scheme_builder-objects, strapi_scheme_builder-group_version) at law

  permissions-type_of :
      (s u : S)
      → api.builder_add_to_scheme (permissions_scheme_builder api) s ≡ (ok tt, u)
      → (k : GroupVersionKind) (t : GoType)
      → (laws.type_of u k ≡ some t) ↔ (
          (IsIn t permissions_types × (k ≡ api.with_kind permissions_group_version (type_name t)))
          ⊎ (laws.type_of s k ≡ some t))
  permissions-type_of s u e k t =
      let law = laws.builder_add_to_scheme-type_of (permissions_scheme_builder api) s u e k t in
      rw (permissions_scheme_builder-objects, permissions_scheme_builder-group_version) at law

  both-type_of :
      (s m u : S)
      → api.builder_add_to_scheme (strapi_scheme_builder api) s ≡ (ok tt, m)
      → api.builder_add_to_scheme (permissions_scheme_builder api) m ≡ (ok tt, u)
      → (k : GroupVersionKind) (t : GoType)
      → (laws.type_of u k ≡ some t) ↔ ((k ≡ gvk_of t) ⊎ (laws.type_of s k ≡ some t))
  both-type_of s m u e f k t = (forth, back)
    where
      first : (laws.type_of m k ≡ some t) ↔ (
          (IsIn t strapi_types × (k ≡ api.with_kind strapi_group_version (type_name t)))
          ⊎ (laws.type_of s k ≡ some t))
      first = strapi-type_of s m e k t

      second : (laws.type_of u k ≡ some t) ↔ (
          (IsIn t permissions_types × (k ≡ api.with_kind permissions_group_version (type_name t)))
          ⊎ (laws.type_of m k ≡ some t))
      second = permissions-type_of m u f k t

      named :
          (gv : GroupVersion) → group_version_of t ≡ gv → gvk_of t ≡ api.with_kind gv (type_name t)
      named gv g = ap (λ gv. api.with_kind gv (type_name t)) g

      from_first :
          (IsIn t strapi_types × (k ≡ api.with_kind strapi_group_version (type_name t)))
            ⊎ (laws.type_of s k ≡ some t)
          → (k ≡ gvk_of t) ⊎ (laws.type_of s k ≡ some t)
      from_first (inl (o, h)) = inl (h ∙ sym (named strapi_group_version (of_strapi t o)))
      from_first (inr h) = inr h

      from_second :
          (IsIn t permissions_types × (k ≡ api.with_kind permissions_group_version (type_name t)))
            ⊎ (laws.type_of m k ≡ some t)
          → (k ≡ gvk_of t) ⊎ (laws.type_of s k ≡ some t)
      from_second (inl (o, h)) =
          inl (h ∙ sym (named permissions_group_version (of_permissions t o)))
      from_second (inr h) = from_first (first.0 h)

      forth : laws.type_of u k ≡ some t → (k ≡ gvk_of t) ⊎ (laws.type_of s k ≡ some t)
      forth h = from_second (second.0 h)

      own :
          k ≡ gvk_of t → IsIn t strapi_types ⊎ IsIn t permissions_types → laws.type_of u k ≡ some t
      own h (inl o) =
          second.1 (inr (first.1 (inl (o, h ∙ named strapi_group_version (of_strapi t o)))))
      own h (inr o) = second.1 (inl (o, h ∙ named permissions_group_version (of_permissions t o)))

      back : (k ≡ gvk_of t) ⊎ (laws.type_of s k ≡ some t) → laws.type_of u k ≡ some t
      back (inl h) = own h (some_group t)
      back (inr h) = second.1 (inr (first.1 (inr h)))

  -- After `AddToScheme` has succeeded, the scheme maps a kind to one of the provider's types exactly if
  -- the kind is that of the type, or the scheme did so before; and it knows each of the seven kinds that
  -- the sources name, for the configs and their usages and for `RolePermissions`. The laws are those
  -- that k8s.io/apimachinery and controller-runtime document.
  pub add_to_scheme-type_of :
      (s u : S)
      → add_to_scheme api s ≡ (ok tt, u)
      → ((k : GroupVersionKind) (t : GoType)
          → (laws.type_of u k ≡ some t) ↔ ((k ≡ gvk_of t) ⊎ (laws.type_of s k ≡ some t)))
        × KnowsAllKinds u
  unfolding provider_config_gvk provider_config_usage_gvk provider_config_usage_list_gvk
      cluster_provider_config_gvk cluster_provider_config_usage_gvk
      cluster_provider_config_usage_list_gvk role_permissions_gvk
  add_to_scheme-type_of s u e =
      let (m, p, q) = add_to_scheme-ok s u e in
      let every = both-type_of s m u p q in
      let own : (t : GoType) → laws.type_of u (gvk_of t) ≡ some t =
        λ t. (every (gvk_of t) t).1 (inl refl) in
      (
        every,
        (
          own provider_config,
          own provider_config_usage,
          own provider_config_usage_list,
          own cluster_provider_config,
          own cluster_provider_config_usage,
          own cluster_provider_config_usage_list,
          own role_permissions,
        ),
      )
