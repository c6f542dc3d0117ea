-- ===== src/Controller/Setup.antt =====
-- The registration of the controllers with the manager: the options and builders of
-- crossplane-runtime and controller-runtime, whose values are kept as what they are built from.
-- Setup/Config, Setup/RolePermissions and Setup/Gated hold the code.
pub mod Config
pub mod RolePermissions
pub mod Gated
pub mod OptionList
pub mod Options
pub mod Plan
pub mod Calls
use provider_strapi.Prelude.{
  List, [], ◌∷◌, ◌++◌, Option, none, some, Bool, true, false, if◌then◌else◌,
}
use provider_strapi.Prelude.Int.{ℤ}
use provider_strapi.Text.{Text, codes}
use provider_strapi.Exec.{
  Context, Error, nil_dereference, panic, Result, ok, err, wrap_result, Exec, continue, ◌>>=◌, ◌>>◌,
  pure, lift,
}
use provider_strapi.Apis.{
  GoType, provider_config, provider_config_usage, cluster_provider_config,
  cluster_provider_config_usage, role_permissions, role_permissions_list, GroupVersionKind,
  ApiMachinery, provider_config_group_kind, cluster_provider_config_group_kind,
  role_permissions_group_kind, provider_config_gvk, provider_config_usage_gvk,
  provider_config_usage_list_gvk, cluster_provider_config_gvk, cluster_provider_config_usage_gvk,
  cluster_provider_config_usage_list_gvk, role_permissions_gvk,
}

-- crossplane-runtime's package feature: the two flags that the provider reads
pub data Feature : Type 0 where
  beta_management_policies alpha_change_logs : Feature

-- crossplane-runtime and controller-runtime: the types whose values are passed on, and the functions
-- that compute one
pub record Toolkit : Type 1 where
  pub Logger : Type 0
  pub Recorder : Type 0
  pub ChangeLogger : Type 0
  pub MetricRecorder : Type 0
  pub StateMetrics : Type 0
  pub RateLimiter : Type 0
  pub Flags : Type 0
  -- `Logger.WithValues`
  pub with_values : Logger → Text → Text → Logger
  -- `event.NewAPIRecorder(mgr.GetEventRecorderFor(name))`
  pub new_api_recorder : Text → Recorder
  -- `providerconfig.ControllerName`
  pub config_controller_name : Text → Text
  -- `managed.ControllerName`
  pub managed_controller_name : Text → Text
  -- `Flags.Enabled`
  pub is_enabled : Flags → Feature → Bool

module _ (tk : Toolkit) where
  -- `controller.MetricOptions`
  pub record MetricOptions : Type 0 where
    pub poll_state_metric_interval : ℤ
    pub mr_metrics : tk.MetricRecorder
    pub mr_state_metrics : Option tk.StateMetrics

  -- `controller.ChangeLogOptions`
  pub record ChangeLogOptions : Type 0 where
    pub change_logger : tk.ChangeLogger

  -- `controller.Options`; a pointer that may be nil is an option
  pub record ControllerOptions : Type 0 where
    pub logger : tk.Logger
    pub max_concurrent_reconciles : ℤ
    pub poll_interval : ℤ
    pub global_rate_limiter : tk.RateLimiter
    pub features : tk.Flags
    pub change_log_options : Option ChangeLogOptions
    pub metric_options : Option MetricOptions

  -- `resource.ProviderConfigKinds`
  pub record ProviderConfigKinds : Type 0 where
    pub config : GroupVersionKind
    pub usage : GroupVersionKind
    pub usage_list : GroupVersionKind

  -- `managed.ReconcilerOption`
  pub data ReconcilerOption : Type 0 where
    -- `WithTypedExternalConnector` of `setup_connector`, whose tracker records usages of this type
    typed_external_connector : GoType → ReconcilerOption
    with_logger : tk.Logger → ReconcilerOption
    with_poll_interval : ℤ → ReconcilerOption
    with_recorder : tk.Recorder → ReconcilerOption
    with_management_policies : ReconcilerOption
    with_change_logger : tk.ChangeLogger → ReconcilerOption
    with_metric_recorder : tk.MetricRecorder → ReconcilerOption

  pub data Reconciler : Type 0 where
    -- `providerconfig.NewReconciler`
    config_reconciler : ProviderConfigKinds → tk.Logger → tk.Recorder → Reconciler
    -- `managed.NewReconciler`
    managed_reconciler : GroupVersionKind → List ReconcilerOption → Reconciler
    -- `ratelimiter.NewReconciler`
    limited : Text → Reconciler → tk.RateLimiter → Reconciler

  -- what is built up from `ctrl.NewControllerManagedBy` to `Complete`
  pub record Registration : Type 0 where
    pub name : Text
    -- `WithOptions(o.ForControllerRuntime())`
    pub options : ControllerOptions
    -- `WithEventFilter(resource.DesiredStateChanged())`
    pub desired_state_changed : Bool
    pub for_object : GoType
    -- `Watches` with `EnqueueRequestForProviderConfig`
    pub watches : List GoType
    pub reconciler : Reconciler

  -- `statemetrics.NewMRStateRecorder`
  pub record StateRecorder : Type 0 where
    pub logger : tk.Logger
    pub metrics : tk.StateMetrics
    pub list : GoType
    pub interval : ℤ

  -- `ctrl.Manager`, which changes a world `W`
  pub record Manager (W : Type 0) : Type 0 where
    -- `Manager.Add` of a state recorder
    pub add : StateRecorder → Exec W (Unit {0})
    -- `Builder.Complete`
    pub complete : Registration → Exec W (Unit {0})
