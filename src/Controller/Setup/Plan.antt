-- ===== src/Controller/Setup/Plan.antt =====
-- internal/controller/strapi.go: the calls of the manager that `SetupGated` is to make, each with what
-- is made of its error, and what the controllers are.
use provider_strapi.Prelude.{List, [], ◌∷◌, ◌++◌, Option, none, some, true, ◌≡◌}
use provider_strapi.Text.{Text}
use provider_strapi.Exec.{Context, wrap}
use provider_strapi.Exec.Journal.{Journal, noted, Planned, calling}
use provider_strapi.Apis.{
  GoType, provider_config, provider_config_usage, cluster_provider_config,
  cluster_provider_config_usage, role_permissions, role_permissions_list, ApiMachinery,
  provider_config_gvk, provider_config_usage_gvk, provider_config_usage_list_gvk,
  cluster_provider_config_gvk, cluster_provider_config_usage_gvk,
  cluster_provider_config_usage_list_gvk, role_permissions_gvk, provider_config_group_kind,
  cluster_provider_config_group_kind, role_permissions_group_kind,
}
use provider_strapi.Controller.Setup.{
  beta_management_policies, alpha_change_logs, Toolkit, MetricOptions, ControllerOptions,
  ProviderConfigKinds, ReconcilerOption, config_reconciler, managed_reconciler, limited,
  Registration, StateRecorder, Manager,
}
use provider_strapi.Controller.Setup.OptionList.{Configured}

-- a call of the manager
pub data ManagerCall (tk : Toolkit) : Type 0 where
  added : StateRecorder tk → ManagerCall tk
  completed : Registration tk → ManagerCall tk

-- a manager whose calls are written down
abbrev pub noted_manager :
    (tk : Toolkit) {W C : Type 0} → (ManagerCall tk → C) → Manager tk W → Manager tk (Journal W C)
noted_manager tk note mgr = record {
  add = λ r. noted (note (added r)) (mgr.add r);
  complete = λ r. noted (note (completed r)) (mgr.complete r);
}

module _ (tk : Toolkit) {B S : Type 0} (api : ApiMachinery B S) {C : Type 0}
    (note : ManagerCall tk → C) where
  -- the registration of a controller under a name, of configs `t`, which counts the usages `u`
  abbrev pub IsConfigController :
      ControllerOptions tk → Text → GoType → GoType → ProviderConfigKinds tk → C → Type 0
  IsConfigController o name t u kinds c =
      (r : Registration tk) × (c ≡ note (completed r))
      × (r.name ≡ name)
      × (r.options ≡ o)
      × (r.for_object ≡ t)
      × (r.watches ≡ u ∷ [])
      × ((l : tk.Logger) × (e : tk.Recorder) × (r.reconciler
            ≡ limited r.name (config_reconciler kinds l e) o.global_rate_limiter))

  abbrev pub IsConfigured : ControllerOptions tk → List (ReconcilerOption tk) → Type 0
  IsConfigured o opts =
      Configured tk o.poll_interval (tk.is_enabled o.features beta_management_policies)
        (tk.is_enabled o.features alpha_change_logs) o.change_log_options o.metric_options opts

  -- the registration of the controller of `RolePermissions`, with the reconciler's options
  abbrev pub IsRoleController : ControllerOptions tk → C → Type 0
  IsRoleController o c =
      (r : Registration tk) × (c ≡ note (completed r))
      × (r.name ≡ tk.managed_controller_name (role_permissions_group_kind api))
      × (r.options ≡ o)
      × (r.for_object ≡ role_permissions)
      × (r.desired_state_changed ≡ true)
      × ((opts : List (ReconcilerOption tk)) × (r.reconciler
            ≡ limited r.name (managed_reconciler (role_permissions_gvk api) opts)
                o.global_rate_limiter)
          × IsConfigured o opts)

  abbrev pub namespaced_name : Text
  namespaced_name = tk.config_controller_name (provider_config_group_kind api)

  abbrev pub cluster_name : Text
  cluster_name = tk.config_controller_name (cluster_provider_config_group_kind api)

  abbrev pub namespaced_kinds : ProviderConfigKinds tk
  namespaced_kinds = record {
    config = provider_config_gvk api;
    usage = provider_config_usage_gvk api;
    usage_list = provider_config_usage_list_gvk api;
  }

  abbrev pub cluster_kinds : ProviderConfigKinds tk
  cluster_kinds = record {
    config = cluster_provider_config_gvk api;
    usage = cluster_provider_config_usage_gvk api;
    usage_list = cluster_provider_config_usage_list_gvk api;
  }

  -- the state metrics are recorded if there are any to record
  abbrev pub recorder_plan : tk.Logger → Option (MetricOptions tk) → List (Planned C)
  recorder_plan l none = []
  recorder_plan l (some m) = elim m.mr_state_metrics [
    | none ↦ []
    | some metrics ↦
        calling
          (λ c.
            c
            ≡ note (
                added (record {
                  logger = l;
                  metrics = metrics;
                  list = role_permissions_list;
                  interval = m.poll_state_metric_interval;
                })))
          (wrap Context.register_state_metrics)
        ∷ []
  ]

  abbrev pub namespaced_plan : ControllerOptions tk → List (Planned C)
  namespaced_plan o =
      calling
        (IsConfigController o namespaced_name provider_config provider_config_usage
          namespaced_kinds)
        (λ e. e)
      ∷ []

  abbrev pub cluster_plan : ControllerOptions tk → List (Planned C)
  cluster_plan o =
      calling
        (IsConfigController o cluster_name cluster_provider_config cluster_provider_config_usage
          cluster_kinds)
        (λ e. e)
      ∷ []

  abbrev pub roles_plan : ControllerOptions tk → List (Planned C)
  roles_plan o = calling (IsRoleController o) (λ e. e) ∷ []

  abbrev pub setup_plan : ControllerOptions tk → List (Planned C)
  setup_plan o =
      (namespaced_plan o ++ cluster_plan o)
      ++ (recorder_plan o.logger o.metric_options ++ roles_plan o)
