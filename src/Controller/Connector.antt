-- ===== src/Controller/Connector.antt =====
-- internal/controller/rolepermissions/rolepermissions.go: the connector, which finds the provider config
-- of a resource and asks for a client; apis/v1alpha1/types.go: the provider configs.
pub mod Connect
use provider_strapi.Prelude.{ℕ, List, [], ◌∷◌, Option, none, some, Bool, true, false, if◌then◌else◌}
use provider_strapi.Text.{Text, codes, is_empty, text_eq}
use provider_strapi.Exec.{
  Context, Error, Result, ok, err, wrap_result, unsupported_kind, Exec, continue, ◌>>=◌, ◌>>◌, pure,
  lift, get,
}
use provider_strapi.Api.{Runtime, RolePermissions, ProviderConfigReference}
use provider_strapi.Client.{Config, Credentials, Json, parse_credentials}
use provider_strapi.Cache.{Cache, Pointer, new_cache}
use provider_strapi.Cache

-- `ProviderCredentials`, over crossplane-runtime's `CommonCredentialSelectors`
pub record ProviderCredentials (Selectors : Type 0) : Type 0 where
  pub source : Text
  pub selectors : Selectors

-- `ProviderConfigSpec`, of a `ProviderConfig` or a `ClusterProviderConfig`
pub record ProviderConfigSpec (Selectors : Type 0) : Type 0 where
  pub endpoint : Text
  pub credentials : ProviderCredentials Selectors
  pub insecure_skip_tls_verify : Bool

-- the cluster `K`, behind the Kubernetes client and crossplane-runtime
pub record Kubernetes (rt : Runtime) (K : Type 0) : Type 1 where
  pub Selectors : Type 0
  -- `ProviderConfigUsageTracker.Track`
  pub track : RolePermissions rt → K → Result (Unit {0}) × K
  -- `client.Get` of a `ProviderConfig`, by namespace and name
  pub get_provider_config : Text → Text → K → Result (ProviderConfigSpec Selectors)
  -- `client.Get` of a `ClusterProviderConfig`, by name
  pub get_cluster_provider_config : Text → K → Result (ProviderConfigSpec Selectors)
  -- `resource.CommonCredentialExtractor`
  pub credential_extractor : ProviderCredentials Selectors → K → Result Text

-- a string that overrides a default if it is set
pub or_default : Text → Text → Text
or_default [] default = default
or_default (c ∷ s) default = c ∷ s

pub override : Option ProviderConfigReference → Text × Text
unfolding or_default
override none = (codes "default", codes "ClusterProviderConfig")
override (some ref) =
    (or_default ref.name (codes "default"), or_default ref.kind (codes "ClusterProviderConfig"))

-- `providerConfigRef(cr)`: name and kind
unfoldable pub provider_config_ref : (rt : Runtime) → RolePermissions rt → Text × Text
unfolding override
provider_config_ref rt cr = override (rt.get_provider_config_reference cr.object)

-- the cluster, and the clients `C` that `newClientFn` keeps
pub record Connecting (K C : Type 0) : Type 0 where
  pub cluster : K
  pub clients : C

-- `connector`: the client is a `P`, as the cache's pointer is
pub record Connector (rt : Runtime) (K C P : Type 0) : Type 1 where
  pub kube : Kubernetes rt K
  pub new_client_fn : Config → C → Result P × C

module _ (rt : Runtime) (json : Json) {K C P : Type 0} (c : Connector rt K C P) where
  -- the `switch` on the kind
  pub find_config : Text → Text → Text → K → Result (ProviderConfigSpec c.kube.Selectors)
  find_config kind name namespace k =
      if text_eq kind (codes "ProviderConfig")
      then wrap_result Context.get_pc (c.kube.get_provider_config namespace name k)
      else if text_eq kind (codes "ClusterProviderConfig")
      then wrap_result Context.get_cpc (c.kube.get_cluster_provider_config name k)
      else err (unsupported_kind kind)

  pub track_usage : RolePermissions rt → Exec (Connecting K C) (Unit {0})
  track_usage cr s =
      let (r, k) = c.kube.track cr s.cluster in
      (wrap_result Context.track_usage r, record s { cluster = k })

  pub new_client : Config → Exec (Connecting K C) P
  new_client cfg s =
      let (r, clients) = c.new_client_fn cfg s.clients in
      (wrap_result Context.new_client r, record s { clients = clients })

  -- `Connect`
  unfoldable pub connect : RolePermissions rt → Exec (Connecting K C) P
  unfolding find_config track_usage new_client
  connect cr = do
    track_usage cr
    s ← get
    let (name, kind) = provider_config_ref rt cr
    spec ← lift (find_config kind name (rt.get_namespace cr.object) s.cluster)
    bytes ←
        lift
          (wrap_result Context.get_creds (c.kube.credential_extractor spec.credentials s.cluster))
    creds ← lift (wrap_result Context.parse_creds (parse_credentials json bytes))
    new_client (record {
      endpoint = spec.endpoint;
      credentials = creds;
      insecure_skip_tls_verify = spec.insecure_skip_tls_verify;
    })

-- the connector of `Setup`: `newClientFn` is `Get` of the one cache
unfoldable pub setup_connector :
    (rt : Runtime) {K : Type 0} → (Text → List ℕ) → Kubernetes rt K → Connector rt K Cache Pointer
setup_connector rt sha256 kube = record { kube = kube; new_client_fn = Cache.get sha256 }
