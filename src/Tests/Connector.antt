-- ===== src/Tests/Connector.antt =====
-- `Connect` in a cluster with one namespaced provider config.
use provider_strapi.Prelude.{ℕ, List, [], Option, none, some, false, ◌≡◌, refl, ◌↔◌, if◌then◌else◌}
use provider_strapi.Text.{Text, codes, text_eq}
use provider_strapi.GoMap.{lookup, insert}
use provider_strapi.Exec.{ok, err, failure, unsupported_kind, wrap, Context}
use provider_strapi.Api.{RolePermissions, nil, ProviderConfigReference}
use provider_strapi.Client.{Config, new, trim_slashes, parse_credentials}
use provider_strapi.Cache.{Cache, Pointer, new_cache, cache_key, fingerprint}
use provider_strapi.Cache
use provider_strapi.Controller.Connector.{
  Kubernetes, ProviderConfigSpec, Connecting, Connector, connect, setup_connector,
  provider_config_ref,
}
use provider_strapi.Controller.Connector.Connect.{Asks, connect-ok_iff, connect-err_clients}
use provider_strapi.Tests.Data.{runtime, resource, json, config}

program : Unit {0}
unfolding Cache.get new_cache cache_key lookup insert new trim_slashes text_eq fingerprint connect
    setup_connector provider_config_ref parse_credentials
program = tt

abbrev hash : Text → List ℕ
hash s = []

abbrev spec : ProviderConfigSpec Text
spec = record {
  endpoint = config.endpoint;
  credentials = record { source = codes "Secret"; selectors = codes "admin" };
  insecure_skip_tls_verify = false;
}

-- the config `strapi` of the namespace `team-a`; the secret holds the selector
abbrev kube : Kubernetes runtime (Unit {0})
kube = record {
  Selectors = Text;
  track = λ cr k. (ok tt, k);
  get_provider_config = λ namespace name k.
      if text_eq namespace (codes "team-a") then ok spec else err (failure (codes "not found"));
  get_cluster_provider_config = λ name k. err (failure (codes "not found"));
  credential_extractor = λ c k. ok c.selectors;
}

abbrev referring : Option ProviderConfigReference → RolePermissions runtime
referring ref = record (resource false nil) {
  object = record { external_name = []; deleted = false; conditions = []; reference = ref };
}

abbrev namespaced : RolePermissions runtime
namespaced = referring (some (record { name = codes "strapi"; kind = codes "ProviderConfig" }))

abbrev start : Connecting (Unit {0}) Cache
start = record { cluster = tt; clients = new_cache }

abbrev connector : Connector runtime (Unit {0}) Cache Pointer
connector = setup_connector runtime hash kube

abbrev after : Connecting (Unit {0}) Cache
after = (connect runtime json connector namespaced start).1

-- the first client of the cache, and the two ways of not finding a config
runs :
    (connect runtime json connector namespaced start ≡ (ok 0, after))
    × ((connect runtime json connector (referring none) start).0
        ≡ err (wrap Context.get_cpc (failure (codes "not found"))))
    × ((connect runtime json connector
          (referring (some (record { name = []; kind = codes "Secret" })))
          start).0
        ≡ err (unsupported_kind (codes "Secret")))
unfolding program
runs = (refl, refl, refl)

connect-ok_iff_example : (connect runtime json connector namespaced start ≡ (ok 0, after)) ↔ (
    (cfg : Config) × (t : Connecting (Unit {0}) Cache) × Asks runtime json connector namespaced
      start cfg t
    × (connector.new_client_fn cfg t.clients ≡ (ok 0, after.clients))
    × (after.cluster ≡ t.cluster))
connect-ok_iff_example = connect-ok_iff runtime json connector namespaced start after 0

failing :
    connect runtime json connector (referring none) start
    ≡ (err (wrap Context.get_cpc (failure (codes "not found"))), start)
unfolding program
failing = refl

connect-err_clients_example : start.clients ≡ new_cache
connect-err_clients_example =
    connect-err_clients runtime json kube hash (referring none) start start
      (wrap Context.get_cpc (failure (codes "not found"))) failing
