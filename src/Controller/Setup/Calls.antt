-- ===== src/Controller/Setup/Calls.antt =====
-- internal/controller/strapi.go: what `SetupGated` asks of the manager, in which order, and what its
-- controllers are.
use provider_strapi.Prelude.{List, [], ◌∷◌, ◌++◌, Option, none, some, ◌≡◌, refl}
use provider_strapi.Prelude.Int.{ℤ}
use provider_strapi.Text.{Text}
use provider_strapi.Exec.{Context, wrap, Result, ok, err, wrap_result, map_error, ◌>>◌, pure, lift}
use provider_strapi.Exec.Journal.{
  Journal, Outcome, Planned, calling, Does, Does-noted, Does-value, Does-continue, Does-map_error,
  Does-last, Does-pure,
}
use provider_strapi.Apis.{
  GoType, provider_config, provider_config_usage, cluster_provider_config,
  cluster_provider_config_usage, role_permissions_list, ApiMachinery, role_permissions_group_kind,
}
use provider_strapi.Controller.Setup.{
  Toolkit, MetricOptions, ControllerOptions, ProviderConfigKinds, ReconcilerOption, StateRecorder,
  Manager,
}
use provider_strapi.Controller.Setup.Config.{
  namespaced_registration, cluster_registration, setup_namespaced_provider_config,
  setup_cluster_provider_config, setup_config,
}
use provider_strapi.Controller.Setup.RolePermissions.{
  first_options, add_management_policies, add_change_logger, add_metric_recorder,
  role_permissions_registration, state_metrics_of, add_state_recorder, setup_role_permissions,
  role_permissions_setup_gated,
}
use provider_strapi.Controller.Setup.Gated.{run_setups, setup_gated}
use provider_strapi.Controller.Setup.OptionList.{IsComplete}
use provider_strapi.Controller.Setup.Options.{add_change_logger-Configured}
use provider_strapi.Controller.Setup.Plan.{ManagerCall, added, completed, noted_manager}
use provider_strapi.Controller.Setup.Plan

wrap_result-map_error :
    {A : Type 0} (c : Context) (r : Result A) → wrap_result c r ≡ map_error (wrap c) r
wrap_result-map_error c (ok a) = refl
wrap_result-map_error c (err e) = refl

module _ (tk : Toolkit) {B S : Type 0} (api : ApiMachinery B S) {C : Type 0}
    (note : ManagerCall tk → C) where
  abbrev IsConfigController :
      ControllerOptions tk → Text → GoType → GoType → ProviderConfigKinds tk → C → Type 0
  IsConfigController = Plan.IsConfigController tk api note

  abbrev IsConfigured : ControllerOptions tk → List (ReconcilerOption tk) → Type 0
  IsConfigured = Plan.IsConfigured tk api note

  abbrev IsRoleController : ControllerOptions tk → C → Type 0
  IsRoleController = Plan.IsRoleController tk api note

  abbrev namespaced_name : Text
  namespaced_name = Plan.namespaced_name tk api note

  abbrev cluster_name : Text
  cluster_name = Plan.cluster_name tk api note

  abbrev namespaced_kinds : ProviderConfigKinds tk
  namespaced_kinds = Plan.namespaced_kinds tk api note

  abbrev cluster_kinds : ProviderConfigKinds tk
  cluster_kinds = Plan.cluster_kinds tk api note

  abbrev recorder_plan : tk.Logger → Option (MetricOptions tk) → List (Planned C)
  recorder_plan = Plan.recorder_plan tk api note

  abbrev namespaced_plan : ControllerOptions tk → List (Planned C)
  namespaced_plan = Plan.namespaced_plan tk api note

  abbrev cluster_plan : ControllerOptions tk → List (Planned C)
  cluster_plan = Plan.cluster_plan tk api note

  abbrev roles_plan : ControllerOptions tk → List (Planned C)
  roles_plan = Plan.roles_plan tk api note

  abbrev setup_plan : ControllerOptions tk → List (Planned C)
  setup_plan = Plan.setup_plan tk api note

  module _ {W : Type 0} (mgr : Manager tk W) where
    abbrev logged : Manager tk (Journal W C)
    logged = noted_manager tk note mgr

    setup_config-Does :
        (o : ControllerOptions tk)
        → Does (setup_config tk api logged o) (namespaced_plan o ++ cluster_plan o) (λ _. Unit {0})
    unfolding setup_config setup_namespaced_provider_config setup_cluster_provider_config
        namespaced_registration cluster_registration
    setup_config-Does o =
        Does-continue (namespaced_plan o) (cluster_plan o) (λ _. Unit {0}) (λ _. Unit {0})
          (setup_namespaced_provider_config tk api logged o)
          (λ _. setup_cluster_provider_config tk api logged o)
          (Does-noted
            (IsConfigController o namespaced_name provider_config provider_config_usage
              namespaced_kinds)
            (note (completed (namespaced_registration tk api o)))
            (mgr.complete (namespaced_registration tk api o))
            (namespaced_registration tk api o, refl, refl, refl, refl, refl, (_, _, refl)))
          (λ _ _.
            Does-noted
              (IsConfigController o cluster_name cluster_provider_config
                cluster_provider_config_usage cluster_kinds)
              (note (completed (cluster_registration tk api o)))
              (mgr.complete (cluster_registration tk api o))
              (cluster_registration tk api o, refl, refl, refl, refl, refl, (_, _, refl)))

    abbrev recorder : ControllerOptions tk → tk.StateMetrics → ℤ → StateRecorder tk
    recorder o metrics interval = record {
      logger = o.logger;
      metrics = metrics;
      list = role_permissions_list;
      interval = interval;
    }

    add_state_recorder-Does :
        (o : ControllerOptions tk) (mo : Option (MetricOptions tk))
        → Does
            (add_state_recorder tk api logged o (state_metrics_of tk api logged mo))
            (recorder_plan o.logger mo)
            (λ _. Unit {0})
    unfolding add_state_recorder state_metrics_of
    add_state_recorder-Does o none = Does-pure (λ _. Unit {0}) tt tt
    add_state_recorder-Does o (some m) = step m.mr_state_metrics
      where
        step :
            (x : Option tk.StateMetrics)
            → Does
                (add_state_recorder tk api logged o (elim x [
                  | none ↦ none
                  | some metrics ↦ some (metrics, m.poll_state_metric_interval)
                ]))
                (elim x [
                  | none ↦ []
                  | some metrics ↦
                      calling
                        (λ c. c ≡ note (added (recorder o metrics m.poll_state_metric_interval)))
                        (wrap Context.register_state_metrics)
                      ∷ []
                ])
                (λ _. Unit {0})
        step none = Does-pure (λ _. Unit {0}) tt tt
        step (some metrics) =
            let r = recorder o metrics m.poll_state_metric_interval in
            λ j. rw wrap_result-map_error (
              Does-map_error (wrap Context.register_state_metrics)
                (calling (λ c. c ≡ note (added r)) (λ e. e) ∷ []) (λ _. Unit {0}) (logged.add r)
                (Does-noted (λ c. c ≡ note (added r)) (note (added r)) (mgr.add r) refl) j)

    setup_role_permissions-Does :
        (o : ControllerOptions tk)
        → IsComplete tk o
        → Does
            (setup_role_permissions tk api logged o)
            (recorder_plan o.logger o.metric_options ++ roles_plan o)
            (λ _. Unit {0})
    unfolding setup_role_permissions role_permissions_registration
    setup_role_permissions-Does o h =
        let name = tk.managed_controller_name (role_permissions_group_kind api) in
        let found =
          add_change_logger tk api o
            (add_management_policies tk api o (first_options tk api name o)) in
        let (opts, e, configured) = add_change_logger-Configured tk api name o h in
        Does-continue [] (recorder_plan o.logger o.metric_options ++ roles_plan o)
          (λ opts. IsConfigured o (add_metric_recorder tk api o.metric_options opts))
          (λ _. Unit {0}) (lift found)
          (λ opts.
            add_state_recorder tk api logged o (state_metrics_of tk api logged o.metric_options)
            >> logged.complete (
                role_permissions_registration tk api o
                  (add_metric_recorder tk api o.metric_options opts)))
          (Does-value (λ opts. IsConfigured o (add_metric_recorder tk api o.metric_options opts))
            found opts e configured)
          (λ opts c.
            Does-continue (recorder_plan o.logger o.metric_options) (roles_plan o) (λ _. Unit {0})
              (λ _. Unit {0})
              (add_state_recorder tk api logged o (state_metrics_of tk api logged o.metric_options))
              (λ _. logged.complete (
                role_permissions_registration tk api o
                  (add_metric_recorder tk api o.metric_options opts)))
              (add_state_recorder-Does o o.metric_options)
              (λ _ _.
                let r =
                  role_permissions_registration tk api o
                    (add_metric_recorder tk api o.metric_options opts) in
                Does-noted (IsRoleController o) (note (completed r)) (mgr.complete r)
                  (r, refl, refl, refl, refl, refl, (_, refl, c))))

    pub setup_gated-Does :
        (o : ControllerOptions tk)
        → IsComplete tk o
        → Does (setup_gated tk api logged o) (setup_plan o) (λ _. Unit {0})
    unfolding setup_gated run_setups role_permissions_setup_gated
    setup_gated-Does o h =
        Does-continue (namespaced_plan o ++ cluster_plan o)
          (recorder_plan o.logger o.metric_options ++ roles_plan o) (λ _. Unit {0}) (λ _. Unit {0})
          (setup_config tk api logged o)
          (λ _. role_permissions_setup_gated tk api logged o >> pure tt) (setup_config-Does o)
          (λ _ _.
            Does-last (recorder_plan o.logger o.metric_options ++ roles_plan o) (λ _. Unit {0})
              (λ _. Unit {0}) (setup_role_permissions tk api logged o) tt
              (setup_role_permissions-Does o h) tt)

    -- Whatever the manager answers, `SetupGated` registers the controller of provider configs with their
    -- usages, the controller of cluster provider configs with theirs, the state metrics if there are any
    -- to record, and the controller of `RolePermissions`, in this order; it stops at the first of them
    -- that fails, with that error (wrapped for the state metrics), and succeeds exactly if none fails.
    -- Each controller is registered under the name of its kind, for its type and with the given options.
    -- The reconciler of `RolePermissions` has management policies, the change logger and the metric
    -- recorder exactly if the options of the provider ask for them. There must be a change logger if the
    -- feature for it is on.
    pub setup_gated-Outcome :
        (o : ControllerOptions tk) (j : Journal W C)
        → IsComplete tk o
        → Outcome j.calls
            (setup_plan o)
            (λ _. Unit {0})
            (setup_gated tk api (noted_manager tk note mgr) o j)
    setup_gated-Outcome o j h = setup_gated-Does o h j
