-- ===== src/Provider.antt =====
-- cmd/provider/main.go: what `main` calls. zap, gRPC, crossplane-runtime and controller-runtime are
-- parameters. Provider/Flags and Provider/Run hold the code.
pub mod Flags
pub mod Run
pub mod Plan
pub mod Options
pub mod Start
use provider_strapi.Prelude.{
  ℕ, List, [], ◌∷◌, ◌++◌, Option, none, some, Bool, true, false, ◌*◌, if◌then◌else◌,
}
use provider_strapi.Prelude.Int.{ℤ, pos}
use provider_strapi.Text.{Text, codes}
use provider_strapi.Exec.{
  Error, panic, exit, usage, Result, ok, err, map_error, Exec, continue, ◌>>=◌, ◌>>◌, pure, lift,
  modify,
}
use provider_strapi.Apis.{ApiMachinery, add_to_scheme}
use provider_strapi.Controller.Setup.{
  Feature, beta_management_policies, alpha_change_logs, Toolkit, MetricOptions, ChangeLogOptions,
  ControllerOptions, Manager,
}
use provider_strapi.Controller.Setup.Gated.{setup_gated}

-- the fields of `ctrl.Options` that are set
pub record ManagerOptions : Type 0 where
  pub sync_period : ℤ
  pub leader_election : Bool
  pub leader_election_id : Text
  pub leader_election_resource_lock : Text
  pub lease_duration : ℤ
  pub renew_deadline : ℤ

-- what is registered with the metrics
pub data Collector (tk : Toolkit) : Type 0 where
  metrics_of : tk.MetricRecorder → Collector tk
  state_metrics_of : tk.StateMetrics → Collector tk

-- the code that `main` calls, over the scheme `S` of the manager and a world `W`
pub record Environment (tk : Toolkit) (S W : Type 0) : Type 1 where
  pub ZapLogger : Type 0
  pub RestConfig : Type 0
  pub Connection : Type 0
  -- `zap.New(zap.UseDevMode(b))`
  pub new_zap : Bool → ZapLogger
  -- `zap.New(zap.WriteTo(io.Discard))`
  pub discarding_zap : ZapLogger
  -- `logging.NewLogrLogger(zl.WithName(name))`
  pub new_logr_logger : ZapLogger → Text → tk.Logger
  -- `ctrl.SetLogger`
  pub set_logger : ZapLogger → W → W
  pub get_config : Exec W RestConfig
  pub limit_rest_config : RestConfig → ℤ → RestConfig
  -- `ctrl.NewManager`, with the scheme of the manager
  pub new_manager : RestConfig → ManagerOptions → Exec W S
  -- `resourcelock.LeasesResourceLock`
  pub leases_resource_lock : Text
  -- `apiextensionsv1.AddToScheme`
  pub add_crds_to_scheme : Exec S (Unit {0})
  pub new_mr_metric_recorder : tk.MetricRecorder
  pub new_mr_state_metrics : tk.StateMetrics
  -- `metrics.Registry.MustRegister`; an error is one that it panics with
  pub must_register : Collector tk → Exec W (Unit {0})
  -- `ratelimiter.NewGlobal`
  pub new_global : ℤ → tk.RateLimiter
  -- `&feature.Flags{}` and `Flags.Enable`
  pub no_features : tk.Flags
  pub enable : Feature → tk.Flags → tk.Flags
  -- `grpc.NewClient`, without transport security
  pub new_grpc_client : Text → Result Connection
  -- `managed.NewGRPCChangeLogger` with the version of the provider
  pub new_grpc_change_logger : Connection → Text → tk.ChangeLogger
  -- the manager with this scheme
  pub manager : S → Manager tk W
  -- `mgr.Start(ctrl.SetupSignalHandler())`
  pub start : S → Exec W (Unit {0})

-- `kingpin.FatalIfError` on an error: it does not see a panic
unfoldable pub fatal : Text → Error → Error
fatal message (panic e) = panic e
fatal message e = exit message e

unfoldable pub fatal_if_error : {W A : Type 0} → Text → Exec W A → Exec W A
fatal_if_error message m w = (map_error (fatal message) (m w).0, (m w).1)

-- a scheme after types were added to it
unfoldable pub extended : {S : Type 0} → Result (Unit {0}) × S → Result S
extended (ok _, s) = ok s
extended (err e, s) = err e
