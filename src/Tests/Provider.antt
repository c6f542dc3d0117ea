-- ===== src/Tests/Provider.antt =====
-- The provider started with the default flags, on a manager that accepts everything.
use mathlib.Core.Path.{subst}
use provider_strapi.Prelude.{[], ◌++◌, none, some, Bool, true, false, ◌≡◌, ◌≢◌, refl, ap, length}
use provider_strapi.Prelude.Int.{ℤ, pos}
use provider_strapi.Text.{Text, codes, text_eq}
use provider_strapi.Exec.{ok, err, failure, exit}
use provider_strapi.Exec.Journal.{Journal, Outcome}
use provider_strapi.Apis.{add_to_scheme, add_to_schemes}
use provider_strapi.Controller.Setup.{
  Feature, beta_management_policies, alpha_change_logs, Toolkit, ControllerOptions, Manager,
}
use provider_strapi.Controller.Setup.Gated.{setup_gated, run_setups}
use provider_strapi.Controller.Setup.Plan.{ManagerCall, noted_manager, setup_plan}
use provider_strapi.Controller.Setup.Calls.{setup_gated-Outcome}
use provider_strapi.Provider.{Environment, fatal_if_error, fatal, extended}
use provider_strapi.Provider.Flags.{Kingpin, read_flags}
use provider_strapi.Provider.Run.{
  main, run, run_parsed, run_manager, must_register, change_log_options, change_log_of, features,
  controller_options,
}
use provider_strapi.Controller.Setup.Config.{
  setup_config, setup_namespaced_provider_config, setup_cluster_provider_config,
}
use provider_strapi.Controller.Setup.RolePermissions.{
  role_permissions_setup_gated, setup_role_permissions, first_options, add_management_policies,
  add_change_logger, append_change_logger, change_logger_of, add_metric_recorder,
  add_state_recorder, state_metrics_of,
}
use provider_strapi.Provider.Plan.{Call, noted_environment, IsEnvironment, run_plan, named_flags}
use provider_strapi.Provider.Start.{main-Outcome}
use provider_strapi.Tests.Scheme.{Entries, lookup, machinery, machinery-IsApiMachinery}

program : Unit {0}
unfolding main run run_parsed run_manager must_register change_log_options change_log_of
    fatal_if_error fatal extended features controller_options read_flags add_to_scheme
    add_to_schemes setup_gated run_setups setup_config setup_namespaced_provider_config
    setup_cluster_provider_config role_permissions_setup_gated setup_role_permissions first_options
    add_management_policies add_change_logger append_change_logger change_logger_of
    add_metric_recorder add_state_recorder state_metrics_of text_eq
program = tt

abbrev is_on : Bool × Bool → Feature → Bool
is_on (b, a) beta_management_policies = b
is_on (b, a) alpha_change_logs = a

abbrev turn_on : Feature → Bool × Bool → Bool × Bool
turn_on beta_management_policies (b, a) = (true, a)
turn_on alpha_change_logs (b, a) = (b, true)

abbrev toolkit : Toolkit
toolkit = record {
  Logger = Text;
  Recorder = Text;
  ChangeLogger = Text;
  MetricRecorder = Text;
  StateMetrics = Text;
  RateLimiter = ℤ;
  Flags = Bool × Bool;
  with_values = λ l k v. l ++ v;
  new_api_recorder = λ n. n;
  config_controller_name = λ n. codes "providerconfig/" ++ n;
  managed_controller_name = λ n. codes "managed/" ++ n;
  is_enabled = is_on;
}

-- the defaults of the flags, with change logs
abbrev kingpin : Kingpin
kingpin = record {
  Values = Unit {0};
  parse = λ specs args. some tt;
  bool_value = λ v n. text_eq n (codes "enable-management-policies");
  int_value = λ v n. pos 10;
  duration_value = λ v n. pos 60000000000;
  string_value = λ v n. codes "/var/run/changelogs/changelogs.sock";
}

abbrev manager : Manager toolkit (Unit {0})
manager = record { add = λ r w. (ok tt, w); complete = λ r w. (ok tt, w) }

abbrev environment : Environment toolkit Entries (Unit {0})
environment = record {
  ZapLogger = Bool;
  RestConfig = Unit {0};
  Connection = Text;
  new_zap = λ b. b;
  discarding_zap = false;
  new_logr_logger = λ l n. n;
  set_logger = λ l w. w;
  get_config = λ w. (ok tt, w);
  limit_rest_config = λ c n. c;
  new_manager = λ c o w. (ok [], w);
  leases_resource_lock = codes "leases";
  add_crds_to_scheme = λ s. (ok tt, s);
  new_mr_metric_recorder = codes "metrics";
  new_mr_state_metrics = codes "state";
  must_register = λ c w. (ok tt, w);
  new_global = λ n. n;
  no_features = (false, false);
  enable = turn_on;
  new_grpc_client = λ path. ok path;
  new_grpc_change_logger = λ c v. c ++ v;
  manager = λ s. manager;
  start = λ s w. (err (failure (codes "leader election lost")), w);
}

on_itself : (f : Feature) (fs : Bool × Bool) → is_on (turn_on f fs) f ≡ true
on_itself beta_management_policies fs = refl
on_itself alpha_change_logs fs = refl

off : (f : Feature) → is_on (false, false) f ≡ false
off beta_management_policies = refl
off alpha_change_logs = refl

on_other : (f g : Feature) (fs : Bool × Bool) → f ≢ g → is_on (turn_on f fs) g ≡ is_on fs g
on_other beta_management_policies beta_management_policies fs n = absurd (n refl)
on_other beta_management_policies alpha_change_logs fs n = refl
on_other alpha_change_logs beta_management_policies fs n = refl
on_other alpha_change_logs alpha_change_logs fs n = absurd (n refl)

environment-IsEnvironment : IsEnvironment machinery-IsApiMachinery environment
environment-IsEnvironment = record {
  add_crds_to_scheme-type_of = λ s u e k t h. subst (λ v. lookup v k ≡ some t) (ap (λ x. x.1) e) h;
  is_enabled-no_features = off;
  is_enabled-enable = on_itself;
  is_enabled-enable_other = on_other;
}

abbrev quiet : Journal (Unit {0}) (Call toolkit Entries (Unit {0}))
quiet = record { world = tt; calls = [] }

main-Outcome_example :
    Outcome []
      (run_plan toolkit machinery machinery-IsApiMachinery environment
        (codes "0.0.0")
        (named_flags kingpin tt))
      (λ _. Unit {0})
      (main kingpin toolkit machinery (noted_environment environment) (codes "0.0.0") [] quiet)
main-Outcome_example =
    main-Outcome kingpin toolkit machinery machinery-IsApiMachinery environment
      environment-IsEnvironment (codes "0.0.0") [] tt refl quiet

abbrev options : ControllerOptions toolkit
options = record {
  logger = codes "log";
  max_concurrent_reconciles = pos 10;
  poll_interval = pos 60;
  global_rate_limiter = pos 10;
  features = (true, true);
  change_log_options = some (record { change_logger = codes "changes" });
  metric_options = none;
}

abbrev unused : Journal (Unit {0}) (ManagerCall toolkit)
unused = record { world = tt; calls = [] }

setup_gated-Outcome_example :
    Outcome []
      (setup_plan toolkit machinery (λ c. c) options)
      (λ _. Unit {0})
      (setup_gated toolkit machinery (noted_manager toolkit (λ c. c) manager) options unused)
setup_gated-Outcome_example =
    setup_gated-Outcome toolkit machinery (λ c. c) manager options unused (λ e. (_, refl))

-- nine calls, the last of which failed
main_result :
    (main kingpin toolkit machinery (noted_environment environment) (codes "0.0.0") [] quiet).0
    ≡ err (exit (codes "Cannot start controller manager") (failure (codes "leader election lost")))
unfolding program
main_result = refl

main_calls :
    length
      (main kingpin toolkit machinery
        (noted_environment environment)
        (codes "0.0.0")
        []
        quiet).1.calls
    ≡ 9
unfolding program
main_calls = refl
