-- ===== src/Apis.antt =====
-- The registration of the API types with a Kubernetes scheme: apis/v1alpha1/register.go,
-- apis/permissions/v1alpha1/groupversion_info.go and apis/strapi.go. The scheme and the builders are
-- those of k8s.io/apimachinery and controller-runtime, a parameter here.
pub mod Scheme
use provider_strapi.Prelude.{List, [], ◌∷◌, ◌++◌}
use provider_strapi.Text.{Text, codes}
use provider_strapi.Exec.{Result, Exec}

-- the Go types of the two API groups
pub data GoType : Type 0 where
  provider_config provider_config_list : GoType
  provider_config_usage provider_config_usage_list : GoType
  cluster_provider_config cluster_provider_config_list : GoType
  cluster_provider_config_usage cluster_provider_config_usage_list : GoType
  role_permissions role_permissions_list : GoType

-- `schema.GroupVersion`
pub record GroupVersion : Type 0 where
  pub group : Text
  pub version : Text

-- `schema.GroupKind`
pub record GroupKind : Type 0 where
  pub group : Text
  pub kind : Text

-- `schema.GroupVersionKind`
pub record GroupVersionKind : Type 0 where
  pub group : Text
  pub version : Text
  pub kind : Text

-- `reflect.TypeOf(T{}).Name()`
unfoldable pub type_name : GoType → Text
type_name provider_config = codes "ProviderConfig"
type_name provider_config_list = codes "ProviderConfigList"
type_name provider_config_usage = codes "ProviderConfigUsage"
type_name provider_config_usage_list = codes "ProviderConfigUsageList"
type_name cluster_provider_config = codes "ClusterProviderConfig"
type_name cluster_provider_config_list = codes "ClusterProviderConfigList"
type_name cluster_provider_config_usage = codes "ClusterProviderConfigUsage"
type_name cluster_provider_config_usage_list = codes "ClusterProviderConfigUsageList"
type_name role_permissions = codes "RolePermissions"
type_name role_permissions_list = codes "RolePermissionsList"

-- k8s.io/apimachinery over a scheme `S`, and controller-runtime's `scheme.Builder`, a `B`
pub record ApiMachinery (B S : Type 0) : Type 0 where
  -- `GroupVersion.WithKind`
  pub with_kind : GroupVersion → Text → GroupVersionKind
  -- `GroupKind.String`
  pub group_kind_string : GroupKind → Text
  -- `&scheme.Builder{GroupVersion: ...}`
  pub new_builder : GroupVersion → B
  -- `Builder.Register`
  pub register : B → List GoType → B
  -- `Builder.AddToScheme`
  pub builder_add_to_scheme : B → Exec S (Unit {0})
  -- `runtime.SchemeBuilder.AddToScheme`, of a slice of functions
  pub run_all : List (Exec S (Unit {0})) → Exec S (Unit {0})

-- apis/v1alpha1: `SchemeGroupVersion`
unfoldable pub strapi_group_version : GroupVersion
strapi_group_version = record { group = codes "strapi.crossplane.io"; version = codes "v1alpha1" }

-- apis/permissions/v1alpha1: `SchemeGroupVersion`
unfoldable pub permissions_group_version : GroupVersion
permissions_group_version = record {
  group = codes "permissions.strapi.crossplane.io";
  version = codes "v1alpha1";
}

module _ {B S : Type 0} (api : ApiMachinery B S) where
  -- `ProviderConfigGroupKind` and `ClusterProviderConfigGroupKind`
  unfoldable pub provider_config_group_kind : Text
  unfolding strapi_group_version
  provider_config_group_kind =
      api.group_kind_string
        (record { group = strapi_group_version.group; kind = type_name provider_config })

  unfoldable pub cluster_provider_config_group_kind : Text
  unfolding strapi_group_version
  cluster_provider_config_group_kind =
      api.group_kind_string
        (record { group = strapi_group_version.group; kind = type_name cluster_provider_config })

  -- `RolePermissionsGroupKind`
  unfoldable pub role_permissions_group_kind : Text
  unfolding permissions_group_version
  role_permissions_group_kind =
      api.group_kind_string
        (record { group = permissions_group_version.group; kind = type_name role_permissions })

  -- the `...GroupVersionKind` variables
  unfoldable pub provider_config_gvk : GroupVersionKind
  provider_config_gvk = api.with_kind strapi_group_version (type_name provider_config)

  unfoldable pub provider_config_usage_gvk : GroupVersionKind
  provider_config_usage_gvk = api.with_kind strapi_group_version (type_name provider_config_usage)

  unfoldable pub provider_config_usage_list_gvk : GroupVersionKind
  provider_config_usage_list_gvk =
      api.with_kind strapi_group_version (type_name provider_config_usage_list)

  unfoldable pub cluster_provider_config_gvk : GroupVersionKind
  cluster_provider_config_gvk =
      api.with_kind strapi_group_version (type_name cluster_provider_config)

  unfoldable pub cluster_provider_config_usage_gvk : GroupVersionKind
  cluster_provider_config_usage_gvk =
      api.with_kind strapi_group_version (type_name cluster_provider_config_usage)

  unfoldable pub cluster_provider_config_usage_list_gvk : GroupVersionKind
  cluster_provider_config_usage_list_gvk =
      api.with_kind strapi_group_version (type_name cluster_provider_config_usage_list)

  unfoldable pub role_permissions_gvk : GroupVersionKind
  role_permissions_gvk = api.with_kind permissions_group_version (type_name role_permissions)

  -- the `SchemeBuilder` of apis/v1alpha1 after its `init`
  unfoldable pub strapi_scheme_builder : B
  strapi_scheme_builder =
      let b0 = api.new_builder strapi_group_version in
      let b1 = api.register b0 (provider_config ∷ provider_config_list ∷ []) in
      let b2 = api.register b1 (provider_config_usage ∷ provider_config_usage_list ∷ []) in
      let b3 = api.register b2 (cluster_provider_config ∷ cluster_provider_config_list ∷ []) in
      api.register b3 (cluster_provider_config_usage ∷ cluster_provider_config_usage_list ∷ [])

  -- the `SchemeBuilder` of apis/permissions/v1alpha1 after its `init`
  unfoldable pub permissions_scheme_builder : B
  permissions_scheme_builder =
      api.register (api.new_builder permissions_group_version)
        (role_permissions ∷ role_permissions_list ∷ [])

  -- `AddToSchemes` after the `init` of package apis
  unfoldable pub add_to_schemes : List (Exec S (Unit {0}))
  add_to_schemes =
      []
      ++ (api.builder_add_to_scheme strapi_scheme_builder
          ∷ api.builder_add_to_scheme permissions_scheme_builder
          ∷ [])

  -- `AddToScheme`
  unfoldable pub add_to_scheme : Exec S (Unit {0})
  add_to_scheme = api.run_all add_to_schemes
