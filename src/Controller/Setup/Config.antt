-- ===== src/Controller/Setup/Config.antt =====
-- internal/controller/config/config.go: the controllers of the provider configs.
use provider_strapi.Prelude.{[], ◌∷◌, false}
use provider_strapi.Text.{codes}
use provider_strapi.Exec.{Exec, ◌>>◌}
use provider_strapi.Apis.{
  provider_config, provider_config_usage, cluster_provider_config, cluster_provider_config_usage,
  ApiMachinery, provider_config_group_kind, cluster_provider_config_group_kind, provider_config_gvk,
  provider_config_usage_gvk, provider_config_usage_list_gvk, cluster_provider_config_gvk,
  cluster_provider_config_usage_gvk, cluster_provider_config_usage_list_gvk,
}
use provider_strapi.Controller.Setup.{
  Toolkit, ControllerOptions, ProviderConfigKinds, config_reconciler, limited, Registration,
  Manager,
}

module _ (tk : Toolkit) {B S : Type 0} (api : ApiMachinery B S) where
  -- the registration of `setupNamespacedProviderConfig`
  unfoldable pub namespaced_registration : ControllerOptions tk → Registration tk
  namespaced_registration o =
      let name = tk.config_controller_name (provider_config_group_kind api) in
      let kinds : ProviderConfigKinds tk = record {
        config = provider_config_gvk api;
        usage = provider_config_usage_gvk api;
        usage_list = provider_config_usage_list_gvk api;
      } in
      let r =
        config_reconciler kinds (tk.with_values o.logger (codes "controller") name)
          (tk.new_api_recorder name) in
      record {
        name = name;
        options = o;
        desired_state_changed = false;
        for_object = provider_config;
        watches = provider_config_usage ∷ [];
        reconciler = limited name r o.global_rate_limiter;
      }

  -- the registration of `setupClusterProviderConfig`
  unfoldable pub cluster_registration : ControllerOptions tk → Registration tk
  cluster_registration o =
      let name = tk.config_controller_name (cluster_provider_config_group_kind api) in
      let kinds : ProviderConfigKinds tk = record {
        config = cluster_provider_config_gvk api;
        usage = cluster_provider_config_usage_gvk api;
        usage_list = cluster_provider_config_usage_list_gvk api;
      } in
      let r =
        config_reconciler kinds (tk.with_values o.logger (codes "controller") name)
          (tk.new_api_recorder name) in
      record {
        name = name;
        options = o;
        desired_state_changed = false;
        for_object = cluster_provider_config;
        watches = cluster_provider_config_usage ∷ [];
        reconciler = limited name r o.global_rate_limiter;
      }

  module _ {W : Type 0} (mgr : Manager tk W) where
    unfoldable pub setup_namespaced_provider_config : ControllerOptions tk → Exec W (Unit {0})
    setup_namespaced_provider_config o = mgr.complete (namespaced_registration o)

    unfoldable pub setup_cluster_provider_config : ControllerOptions tk → Exec W (Unit {0})
    setup_cluster_provider_config o = mgr.complete (cluster_registration o)

    -- `Setup` of package config
    unfoldable pub setup_config : ControllerOptions tk → Exec W (Unit {0})
    unfolding setup_namespaced_provider_config setup_cluster_provider_config
    setup_config o = do setup_namespaced_provider_config o; setup_cluster_provider_config o
