-- ===== src/Provider/Run.antt =====
-- cmd/provider/main.go: `main`, without its messages to the log.
use provider_strapi.Prelude.{ℕ, List, ◌++◌, Option, none, some, ◌*◌, if◌then◌else◌}
use provider_strapi.Prelude.Int.{ℤ, pos}
use provider_strapi.Text.{Text, codes}
use provider_strapi.Exec.{panic, usage, Result, ok, err, map_error, Exec, ◌>>=◌, ◌>>◌, lift, modify}
use provider_strapi.Apis.{ApiMachinery, add_to_scheme}
use provider_strapi.Controller.Setup.{
  beta_management_policies, alpha_change_logs, Toolkit, ChangeLogOptions, ControllerOptions,
}
use provider_strapi.Controller.Setup.Gated.{setup_gated}
use provider_strapi.Provider.{
  ManagerOptions, Collector, metrics_of, state_metrics_of, Environment, fatal, fatal_if_error,
  extended,
}
use provider_strapi.Provider.Flags.{Kingpin, Flags, flag_specs, read_flags}

-- `time.Second`
abbrev seconds : ℕ → ℤ
seconds n = pos (n * 1000000000)

module _ (tk : Toolkit) {B S W : Type 0} (api : ApiMachinery B S) (env : Environment tk S W)
    (version : Text) (flags : Flags) where
  -- the logger of controller-runtime
  unfoldable pub controller_runtime_logger : env.ZapLogger
  controller_runtime_logger = if flags.debug then env.new_zap flags.debug else env.discarding_zap

  unfoldable pub manager_options : ManagerOptions
  manager_options = record {
    sync_period = flags.sync_interval;
    leader_election = flags.leader_election;
    leader_election_id = codes "crossplane-leader-election-provider-strapi";
    leader_election_resource_lock = env.leases_resource_lock;
    lease_duration = seconds 60;
    renew_deadline = seconds 50;
  }

  -- `o.Features`
  unfoldable pub features : tk.Flags
  features =
      let f =
        if flags.enable_management_policies
        then env.enable beta_management_policies env.no_features
        else env.no_features in
      if flags.enable_change_logs then env.enable alpha_change_logs f else f

  unfoldable pub change_log_of : Result env.Connection → Result (Option (ChangeLogOptions tk))
  change_log_of (ok conn) = ok (
      some (record {
        change_logger = env.new_grpc_change_logger conn (codes "provider-strapi:" ++ version);
      }))
  change_log_of (err e) = err e

  -- `o.ChangeLogOptions`
  unfoldable pub change_log_options : Result (Option (ChangeLogOptions tk))
  unfolding change_log_of
  change_log_options =
      if flags.enable_change_logs
      then change_log_of (env.new_grpc_client (codes "unix://" ++ flags.changelogs_socket_path))
      else ok none

  -- `o`
  unfoldable pub controller_options : Option (ChangeLogOptions tk) → ControllerOptions tk
  controller_options change_log = record {
    logger = env.new_logr_logger (env.new_zap flags.debug) (codes "provider-strapi");
    max_concurrent_reconciles = flags.max_reconcile_rate;
    poll_interval = flags.poll_interval;
    global_rate_limiter = env.new_global flags.max_reconcile_rate;
    features = features;
    change_log_options = change_log;
    metric_options = some (record {
      poll_state_metric_interval = flags.poll_state_metric_interval;
      mr_metrics = env.new_mr_metric_recorder;
      mr_state_metrics = some env.new_mr_state_metrics;
    });
  }

  unfoldable pub must_register : Collector tk → Exec W (Unit {0})
  must_register c w = (map_error panic (env.must_register c w).0, (env.must_register c w).1)

  -- `main` with the manager and its scheme
  unfoldable pub run_manager : S → Exec W (Unit {0})
  unfolding must_register change_log_options
  run_manager s = do
    must_register (metrics_of env.new_mr_metric_recorder)
    must_register (state_metrics_of env.new_mr_state_metrics)
    change_log ← lift (
        map_error
          (fatal (
            codes "failed to create change logs client connection at "
            ++ flags.changelogs_socket_path))
          change_log_options)
    fatal_if_error (codes "Cannot setup Strapi controllers")
        (setup_gated tk api (env.manager s) (controller_options change_log))
    fatal_if_error (codes "Cannot start controller manager") (env.start s)

  -- `main` after the flags
  unfoldable pub run : Exec W (Unit {0})
  unfolding run_manager
  run = do
    modify (env.set_logger controller_runtime_logger)
    cfg ← fatal_if_error (codes "Cannot get API server rest config") env.get_config
    s ←
        fatal_if_error (codes "Cannot create controller manager")
          (env.new_manager (env.limit_rest_config cfg flags.max_reconcile_rate) manager_options)
    t ← lift (
        map_error (fatal (codes "Cannot add Strapi APIs to scheme"))
          (extended (add_to_scheme api s)))
    u ← lift (
        map_error (fatal (codes "Cannot add CustomResourceDefinition to scheme"))
          (extended (env.add_crds_to_scheme t)))
    run_manager u

-- `main` behind `kingpin.MustParse`, which ends the program where the arguments are not accepted
unfoldable pub run_parsed :
    (k : Kingpin) (tk : Toolkit) {B S W : Type 0}
    → ApiMachinery B S
    → Environment tk S W
    → Text
    → Option k.Values
    → Exec W (Unit {0})
unfolding run
run_parsed k tk api env version none w = (err usage, w)
run_parsed k tk api env version (some v) w = run tk api env version (read_flags k v) w

-- `main` on the arguments of the program
unfoldable pub main :
    (k : Kingpin) (tk : Toolkit) {B S W : Type 0}
    → ApiMachinery B S
    → Environment tk S W
    → Text
    → List Text
    → Exec W (Unit {0})
unfolding run_parsed
main k tk api env version args = run_parsed k tk api env version (k.parse flag_specs args)
