-- ===== src/Provider/Plan.antt =====
-- cmd/provider/main.go: the calls of `main` in their order, each with what is made of its error.
use provider_strapi.Prelude.{List, [], ◌∷◌, ◌++◌, Option, none, some, Bool, true, false, ◌≡◌, ◌≢◌}
use provider_strapi.Prelude.Int.{pos}
use provider_strapi.Text.{Text, codes}
use provider_strapi.Exec.{Context, wrap, panic, ok}
use provider_strapi.Exec.Journal.{Journal, noted, Planned, calling, computing}
use provider_strapi.Apis.{
  GoType, provider_config, provider_config_usage, cluster_provider_config,
  cluster_provider_config_usage, role_permissions_list, GroupVersionKind, ApiMachinery,
}
use provider_strapi.Apis.Scheme.{IsApiMachinery, KnowsAllKinds}
use provider_strapi.Controller.Setup.{
  Feature, beta_management_policies, alpha_change_logs, Toolkit, ChangeLogOptions,
  ControllerOptions,
}
use provider_strapi.Controller.Setup.OptionList.{IsComplete}
use provider_strapi.Controller.Setup.Plan.{
  ManagerCall, added, noted_manager, IsConfigController, namespaced_name, cluster_name,
  IsRoleController, namespaced_kinds, cluster_kinds,
}
use provider_strapi.Provider.{
  ManagerOptions, Collector, metrics_of, state_metrics_of, Environment, fatal,
}
use provider_strapi.Provider.Flags.{Kingpin, Flags}

-- the values of the command line, each by the name of its flag
abbrev pub named_flags : (k : Kingpin) → k.Values → Flags
named_flags k v =
    let bool_flag = k.bool_value v in
    let duration_flag = k.duration_value v in
    record {
      sync_interval = duration_flag (codes "sync");
      poll_interval = duration_flag (codes "poll");
      poll_state_metric_interval = duration_flag (codes "poll-state-metric");
      max_reconcile_rate = k.int_value v (codes "max-reconcile-rate");
      debug = bool_flag (codes "debug");
      leader_election = bool_flag (codes "leader-election");
      enable_management_policies = bool_flag (codes "enable-management-policies");
      enable_change_logs = bool_flag (codes "enable-changelogs");
      changelogs_socket_path = k.string_value v (codes "changelogs-socket-path");
    }

-- a call that `main` makes, by itself or in `SetupGated`; the manager has a scheme `S` and is
-- made of a configuration `R`
pub data Call (tk : Toolkit) (S R : Type 0) : Type 0 where
  getting_config : Call tk S R
  making_manager : R → ManagerOptions → Call tk S R
  registering : Collector tk → Call tk S R
  managing : S → ManagerCall tk → Call tk S R
  starting : S → Call tk S R

-- the code that `main` calls, with its calls written down
abbrev pub noted_environment :
    {tk : Toolkit} {S W : Type 0} (env : Environment tk S W)
    → Environment tk S (Journal W (Call tk S env.RestConfig))
noted_environment {tk} env = record {
  ZapLogger = env.ZapLogger;
  RestConfig = env.RestConfig;
  Connection = env.Connection;
  new_zap = env.new_zap;
  discarding_zap = env.discarding_zap;
  new_logr_logger = env.new_logr_logger;
  set_logger = λ l j. record j { world = env.set_logger l j.world };
  get_config = noted getting_config env.get_config;
  limit_rest_config = env.limit_rest_config;
  new_manager = λ c o. noted (making_manager c o) (env.new_manager c o);
  leases_resource_lock = env.leases_resource_lock;
  add_crds_to_scheme = env.add_crds_to_scheme;
  new_mr_metric_recorder = env.new_mr_metric_recorder;
  new_mr_state_metrics = env.new_mr_state_metrics;
  must_register = λ c. noted (registering c) (env.must_register c);
  new_global = env.new_global;
  no_features = env.no_features;
  enable = env.enable;
  new_grpc_client = env.new_grpc_client;
  new_grpc_change_logger = env.new_grpc_change_logger;
  manager = λ s. noted_manager tk (managing s) (env.manager s);
  start = λ s. noted (starting s) (env.start s);
}

-- what apiextensions and crossplane-runtime's package feature document
pub record IsEnvironment {tk : Toolkit} {B S W : Type 0} {api : ApiMachinery B S}
    (laws : IsApiMachinery api) (env : Environment tk S W) : Type 0 where
  -- a scheme keeps its types when others are added
  pub add_crds_to_scheme-type_of :
      (s u : S)
      → env.add_crds_to_scheme s ≡ (ok tt, u)
      → (k : GroupVersionKind) (t : GoType) → laws.type_of s k ≡ some t
      → laws.type_of u k ≡ some t
  -- a feature is enabled exactly if it was enabled
  pub is_enabled-no_features : (f : Feature) → tk.is_enabled env.no_features f ≡ false
  pub is_enabled-enable : (f : Feature) (fs : tk.Flags) → tk.is_enabled (env.enable f fs) f ≡ true
  pub is_enabled-enable_other :
      (f g : Feature) (fs : tk.Flags)
      → f ≢ g
      → tk.is_enabled (env.enable f fs) g ≡ tk.is_enabled fs g

module _ (tk : Toolkit) {B S W : Type 0} (api : ApiMachinery B S) (laws : IsApiMachinery api)
    (env : Environment tk S W) (version : Text) (flags : Flags) where
  -- the change logger that the flags ask for: one of the socket, with the version of the provider
  abbrev pub IsChangeLog : Bool → Option (ChangeLogOptions tk) → Type 0
  IsChangeLog false cl = cl ≡ none
  IsChangeLog true cl =
      (conn : env.Connection) × (env.new_grpc_client
          (codes "unix://" ++ flags.changelogs_socket_path)
        ≡ ok conn)
      × (cl
          ≡ some (record {
            change_logger = env.new_grpc_change_logger conn (codes "provider-strapi:" ++ version);
          }))

  -- the options of the controllers say what the flags say
  abbrev pub Obeys : ControllerOptions tk → Type 0
  Obeys o =
      (tk.is_enabled o.features beta_management_policies ≡ flags.enable_management_policies)
      × (tk.is_enabled o.features alpha_change_logs ≡ flags.enable_change_logs)
      × IsComplete tk o
      × (o.poll_interval ≡ flags.poll_interval)
      × (o.max_concurrent_reconciles ≡ flags.max_reconcile_rate)
      × (o.global_rate_limiter ≡ env.new_global flags.max_reconcile_rate)
      × (o.logger ≡ env.new_logr_logger (env.new_zap flags.debug) (codes "provider-strapi"))
      × (o.metric_options
          ≡ some (record {
            poll_state_metric_interval = flags.poll_state_metric_interval;
            mr_metrics = env.new_mr_metric_recorder;
            mr_state_metrics = some env.new_mr_state_metrics;
          }))
      × IsChangeLog flags.enable_change_logs o.change_log_options

  -- a call of a manager whose scheme knows the provider's kinds, with options as the flags say
  abbrev pub OnManager :
      (S → ControllerOptions tk → Call tk S env.RestConfig → Type 0)
      → Call tk S env.RestConfig
      → Type 0
  OnManager P c =
      (s : S) × KnowsAllKinds api laws s × ((o : ControllerOptions tk) × Obeys o × P s o c)

  abbrev pub setup_message : Text
  setup_message = codes "Cannot setup Strapi controllers"

  abbrev pub change_log_message : Text
  change_log_message =
      codes "failed to create change logs client connection at " ++ flags.changelogs_socket_path

  -- a call of the manager with this scheme
  abbrev pub managed : S → ManagerCall tk → Call tk S env.RestConfig
  managed s = managing s

  abbrev pub setup_calls : List (Planned (Call tk S env.RestConfig))
  setup_calls =
      calling
        (OnManager (λ s o.
          IsConfigController tk api (managed s) o (namespaced_name tk api (managed s))
            provider_config provider_config_usage (namespaced_kinds tk api (managed s))))
        (fatal setup_message)
      ∷ calling
          (OnManager (λ s o.
            IsConfigController tk api (managed s) o (cluster_name tk api (managed s))
              cluster_provider_config cluster_provider_config_usage
              (cluster_kinds tk api (managed s))))
          (fatal setup_message)
      ∷ calling
          (OnManager (λ s o c.
            c
            ≡ managing s (
                added (record {
                  logger = o.logger;
                  metrics = env.new_mr_state_metrics;
                  list = role_permissions_list;
                  interval = flags.poll_state_metric_interval;
                }))))
          (λ e. fatal setup_message (wrap Context.register_state_metrics e))
      ∷ calling (OnManager (λ s o. IsRoleController tk api (managed s) o)) (fatal setup_message)
      ∷ []

  abbrev pub start_calls : List (Planned (Call tk S env.RestConfig))
  start_calls =
      calling (λ c. (s : S) × KnowsAllKinds api laws s × (c ≡ starting s))
        (fatal (codes "Cannot start controller manager"))
      ∷ []

  abbrev pub register_calls : Collector tk → List (Planned (Call tk S env.RestConfig))
  register_calls collector = calling (λ c. c ≡ registering collector) panic ∷ []

  abbrev pub change_log_calls : List (Planned (Call tk S env.RestConfig))
  change_log_calls = computing (fatal change_log_message) ∷ []

  abbrev pub later_calls : List (Planned (Call tk S env.RestConfig))
  later_calls = change_log_calls ++ (setup_calls ++ start_calls)

  abbrev pub manager_calls : List (Planned (Call tk S env.RestConfig))
  manager_calls =
      register_calls (metrics_of env.new_mr_metric_recorder)
      ++ (register_calls (state_metrics_of env.new_mr_state_metrics) ++ later_calls)

  abbrev pub config_calls : List (Planned (Call tk S env.RestConfig))
  config_calls =
      calling (λ c. c ≡ getting_config) (fatal (codes "Cannot get API server rest config")) ∷ []

  abbrev pub making_calls : List (Planned (Call tk S env.RestConfig))
  making_calls =
      calling
        (λ c.
          (cfg : env.RestConfig) × (c
            ≡ making_manager (env.limit_rest_config cfg flags.max_reconcile_rate) (record {
              sync_period = flags.sync_interval;
              leader_election = flags.leader_election;
              leader_election_id = codes "crossplane-leader-election-provider-strapi";
              leader_election_resource_lock = env.leases_resource_lock;
              lease_duration = pos 60000000000;
              renew_deadline = pos 50000000000;
            })))
        (fatal (codes "Cannot create controller manager"))
      ∷ []

  abbrev pub apis_message : Text
  apis_message = codes "Cannot add Strapi APIs to scheme"

  abbrev pub crds_message : Text
  crds_message = codes "Cannot add CustomResourceDefinition to scheme"

  abbrev pub scheme_calls : List (Planned (Call tk S env.RestConfig))
  scheme_calls =
      (computing (fatal apis_message) ∷ [])
      ++ ((computing (fatal crds_message) ∷ []) ++ manager_calls)

  -- the calls of `main` in their order
  abbrev pub run_plan : List (Planned (Call tk S env.RestConfig))
  run_plan = config_calls ++ (making_calls ++ scheme_calls)
