-- ===== src/Controller/Setup/RolePermissions.antt =====
-- internal/controller/rolepermissions/rolepermissions.go: `Setup` and `SetupGated`.
use provider_strapi.Prelude.{List, [], ◌∷◌, ◌++◌, Option, none, some, true, if◌then◌else◌}
use provider_strapi.Prelude.Int.{ℤ}
use provider_strapi.Text.{Text, codes}
use provider_strapi.Exec.{
  Context, nil_dereference, panic, Result, ok, err, wrap_result, Exec, ◌>>=◌, ◌>>◌, lift,
}
use provider_strapi.Apis.{
  provider_config_usage, role_permissions, role_permissions_list, ApiMachinery,
  role_permissions_group_kind, role_permissions_gvk,
}
use provider_strapi.Controller.Setup.{
  beta_management_policies, alpha_change_logs, Toolkit, MetricOptions, ChangeLogOptions,
  ControllerOptions, ReconcilerOption, typed_external_connector, with_logger, with_poll_interval,
  with_recorder, with_management_policies, with_change_logger, with_metric_recorder,
  managed_reconciler, limited, Registration, Manager,
}

module _ (tk : Toolkit) {B S : Type 0} (api : ApiMachinery B S) where
  -- `opts` of `Setup`, as it starts
  unfoldable pub first_options : Text → ControllerOptions tk → List (ReconcilerOption tk)
  first_options name o =
      typed_external_connector provider_config_usage
      ∷ with_logger (tk.with_values o.logger (codes "controller") name)
      ∷ with_poll_interval o.poll_interval
      ∷ with_recorder (tk.new_api_recorder name)
      ∷ []

  unfoldable pub add_management_policies :
      ControllerOptions tk → List (ReconcilerOption tk) → List (ReconcilerOption tk)
  add_management_policies o opts =
      if tk.is_enabled o.features beta_management_policies
      then opts ++ (with_management_policies ∷ [])
      else opts

  -- `o.ChangeLogOptions.ChangeLogger`
  unfoldable pub change_logger_of : Option (ChangeLogOptions tk) → Result tk.ChangeLogger
  change_logger_of none = err (panic nil_dereference)
  change_logger_of (some c) = ok c.change_logger

  unfoldable pub append_change_logger :
      List (ReconcilerOption tk) → Result tk.ChangeLogger → Result (List (ReconcilerOption tk))
  append_change_logger opts (ok logger) = ok (opts ++ (with_change_logger logger ∷ []))
  append_change_logger opts (err e) = err e

  unfoldable pub add_change_logger :
      ControllerOptions tk → List (ReconcilerOption tk) → Result (List (ReconcilerOption tk))
  unfolding append_change_logger change_logger_of
  add_change_logger o opts =
      if tk.is_enabled o.features alpha_change_logs
      then append_change_logger opts (change_logger_of o.change_log_options)
      else ok opts

  unfoldable pub add_metric_recorder :
      Option (MetricOptions tk) → List (ReconcilerOption tk) → List (ReconcilerOption tk)
  add_metric_recorder none opts = opts
  add_metric_recorder (some m) opts = opts ++ (with_metric_recorder m.mr_metrics ∷ [])

  -- the reconciler and the registration of `Setup`
  unfoldable pub role_permissions_registration :
      ControllerOptions tk → List (ReconcilerOption tk) → Registration tk
  role_permissions_registration o opts =
      let name = tk.managed_controller_name (role_permissions_group_kind api) in
      let r = managed_reconciler (role_permissions_gvk api) opts in
      record {
        name = name;
        options = o;
        desired_state_changed = true;
        for_object = role_permissions;
        watches = [];
        reconciler = limited name r o.global_rate_limiter;
      }

  module _ {W : Type 0} (mgr : Manager tk W) where
    -- the state metrics of `Setup`
    unfoldable pub add_state_recorder :
        ControllerOptions tk → Option (tk.StateMetrics × ℤ) → Exec W (Unit {0})
    add_state_recorder o none s = (ok tt, s)
    add_state_recorder o (some (metrics, interval)) s =
        let (r, t) =
          mgr.add
            (record {
              logger = o.logger;
              metrics = metrics;
              list = role_permissions_list;
              interval = interval;
            })
            s in
        (wrap_result Context.register_state_metrics r, t)

    -- both tests on `o.MetricOptions`
    unfoldable pub state_metrics_of : Option (MetricOptions tk) → Option (tk.StateMetrics × ℤ)
    state_metrics_of none = none
    state_metrics_of (some m) = elim m.mr_state_metrics [
      | none ↦ none
      | some metrics ↦ some (metrics, m.poll_state_metric_interval)
    ]

    -- `Setup` of package rolepermissions
    unfoldable pub setup_role_permissions : ControllerOptions tk → Exec W (Unit {0})
    unfolding first_options add_management_policies add_change_logger add_metric_recorder
        add_state_recorder state_metrics_of
    setup_role_permissions o = do
      let name = tk.managed_controller_name (role_permissions_group_kind api)
      opts ← lift (add_change_logger o (add_management_policies o (first_options name o)))
      add_state_recorder o (state_metrics_of o.metric_options)
      mgr.complete (role_permissions_registration o (add_metric_recorder o.metric_options opts))

    -- `SetupGated` of package rolepermissions
    unfoldable pub role_permissions_setup_gated : ControllerOptions tk → Exec W (Unit {0})
    unfolding setup_role_permissions
    role_permissions_setup_gated o = setup_role_permissions o
