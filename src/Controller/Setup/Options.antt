-- ===== src/Controller/Setup/Options.antt =====
-- internal/controller/rolepermissions/rolepermissions.go: the options that `Setup` gives to its
-- reconciler, as `if`s over the options of the provider.
use provider_strapi.Prelude.{
  List, [], ◌∷◌, ◌++◌, Option, none, some, Bool, true, false, ◌≡◌, refl, if◌then◌else◌,
}
use provider_strapi.Text.{Text, codes}
use provider_strapi.Exec.{ok}
use provider_strapi.Apis.{ApiMachinery}
use provider_strapi.Controller.Setup.{
  beta_management_policies, alpha_change_logs, Toolkit, MetricOptions, ChangeLogOptions,
  ControllerOptions, ReconcilerOption, with_management_policies,
}
use provider_strapi.Controller.Setup.RolePermissions.{
  first_options, add_management_policies, change_logger_of, append_change_logger, add_change_logger,
  add_metric_recorder,
}
use provider_strapi.Controller.Setup.OptionList.{Configured, IsComplete, all_options-Configured}

module _ (tk : Toolkit) where
  -- `opts` and the metric recorder of `Setup`
  pub add_change_logger-Configured :
      {B S : Type 0} (api : ApiMachinery B S) (name : Text) (o : ControllerOptions tk)
      → IsComplete tk o
      → (opts : List (ReconcilerOption tk)) × (add_change_logger tk api o
            (add_management_policies tk api o (first_options tk api name o))
          ≡ ok opts)
        × Configured tk o.poll_interval
            (tk.is_enabled o.features beta_management_policies)
            (tk.is_enabled o.features alpha_change_logs)
            o.change_log_options
            o.metric_options
            (add_metric_recorder tk api o.metric_options opts)
  unfolding first_options add_management_policies append_change_logger change_logger_of
      add_change_logger add_metric_recorder
  add_change_logger-Configured api name o h =
      step (tk.is_enabled o.features beta_management_policies)
        (tk.is_enabled o.features alpha_change_logs) o.change_log_options o.metric_options h
    where
      l : tk.Logger
      l = tk.with_values o.logger (codes "controller") name

      r : tk.Recorder
      r = tk.new_api_recorder name

      start : List (ReconcilerOption tk)
      start = first_options tk api name o

      step :
          (p a : Bool) (co : Option (ChangeLogOptions tk)) (mo : Option (MetricOptions tk))
          → (a ≡ true → (c : ChangeLogOptions tk) × (co ≡ some c))
          → (opts : List (ReconcilerOption tk)) × ((if a
                then append_change_logger tk api
                    (if p then start ++ (with_management_policies ∷ []) else start)
                    (change_logger_of tk api co)
                else ok (if p then start ++ (with_management_policies ∷ []) else start))
              ≡ ok opts)
            × Configured tk o.poll_interval p a co mo (add_metric_recorder tk api mo opts)
      step true true (some c) (some m) k =
          (_, refl, all_options-Configured tk l o.poll_interval r true true (some c) (some m))
      step true true (some c) none k =
          (_, refl, all_options-Configured tk l o.poll_interval r true true (some c) none)
      step false true (some c) (some m) k =
          (_, refl, all_options-Configured tk l o.poll_interval r false true (some c) (some m))
      step false true (some c) none k =
          (_, refl, all_options-Configured tk l o.poll_interval r false true (some c) none)
      step p true none mo k = let (c, e) = k refl in absurd (cc)
      step true false co (some m) k =
          (_, refl, all_options-Configured tk l o.poll_interval r true false co (some m))
      step true false co none k =
          (_, refl, all_options-Configured tk l o.poll_interval r true false co none)
      step false false co (some m) k =
          (_, refl, all_options-Configured tk l o.poll_interval r false false co (some m))
      step false false co none k =
          (_, refl, all_options-Configured tk l o.poll_interval r false false co none)
