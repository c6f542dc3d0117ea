-- ===== src/Provider/Options.antt =====
-- cmd/provider/main.go: the options of the controllers say what the flags say.
use provider_strapi.Prelude.{
  ◌++◌, Option, none, some, Bool, true, false, ◌≡◌, refl, sym, ◌∙◌, if◌then◌else◌,
}
use provider_strapi.Text.{Text, codes}
use provider_strapi.Exec.{Result, ok, err}
use provider_strapi.Exec.Journal.{Journal}
use provider_strapi.Apis.{ApiMachinery}
use provider_strapi.Apis.Scheme.{IsApiMachinery}
use provider_strapi.Controller.Setup.{
  beta_management_policies, alpha_change_logs, Toolkit, ChangeLogOptions, ControllerOptions,
}
use provider_strapi.Provider.{Environment}
use provider_strapi.Provider.Flags.{Flags}
use provider_strapi.Provider.Run.{features, change_log_of, change_log_options, controller_options}
use provider_strapi.Provider.Plan.{
  Call, getting_config, making_manager, registering, managing, starting, noted_environment,
  IsEnvironment,
}
use provider_strapi.Provider.Plan

ok_injective : {A : Type 0} {a b : A} → ok a ≡ ok b → a ≡ b
ok_injective e = cc

module _ (tk : Toolkit) {B S W : Type 0} (api : ApiMachinery B S) (laws : IsApiMachinery api)
    (env : Environment tk S W) (env_laws : IsEnvironment laws env) (version : Text)
    (flags : Flags) where
  abbrev Obeys : ControllerOptions tk → Type 0
  Obeys = Plan.Obeys tk api laws env version flags

  abbrev noted_env : Environment tk S (Journal W (Call tk S env.RestConfig))
  noted_env = noted_environment env

  abbrev options_of : Option (ChangeLogOptions tk) → ControllerOptions tk
  options_of cl = controller_options tk api noted_env version flags cl

  features-Obeys :
      (p c : Bool)
      → let f =
          if p then env.enable beta_management_policies env.no_features else env.no_features in
        let fs = if c then env.enable alpha_change_logs f else f in
        (tk.is_enabled fs beta_management_policies ≡ p) × (tk.is_enabled fs alpha_change_logs ≡ c)
  features-Obeys true true = (
    env_laws.is_enabled-enable_other alpha_change_logs beta_management_policies _ (λ e. absurd (cc))
        ∙ env_laws.is_enabled-enable beta_management_policies env.no_features,
    env_laws.is_enabled-enable alpha_change_logs _,
  )
  features-Obeys true false = (
    env_laws.is_enabled-enable beta_management_policies env.no_features,
    env_laws.is_enabled-enable_other beta_management_policies alpha_change_logs env.no_features
          (λ e. absurd (cc))
        ∙ env_laws.is_enabled-no_features alpha_change_logs,
  )
  features-Obeys false true = (
    env_laws.is_enabled-enable_other alpha_change_logs beta_management_policies env.no_features
          (λ e. absurd (cc))
        ∙ env_laws.is_enabled-no_features beta_management_policies,
    env_laws.is_enabled-enable alpha_change_logs env.no_features,
  )
  features-Obeys false false = (
    env_laws.is_enabled-no_features beta_management_policies,
    env_laws.is_enabled-no_features alpha_change_logs,
  )

  change_log_options-some :
      (cl : Option (ChangeLogOptions tk))
      → change_log_options tk api noted_env version flags ≡ ok cl
      → flags.enable_change_logs ≡ true
      → (c : ChangeLogOptions tk) × (cl ≡ some c)
  unfolding change_log_options change_log_of
  change_log_options-some (some c) h e = (c, refl)
  change_log_options-some none h e = absurd (
      missing flags.enable_change_logs
        (env.new_grpc_client (codes "unix://" ++ flags.changelogs_socket_path)) h e)
    where
      missing :
          (b : Bool) (r : Result env.Connection)
          → (if b then change_log_of tk api noted_env version flags r else ok none) ≡ ok none
          → b ≡ true
          → ⊥
      missing true (ok conn) h e = absurd (cc)
      missing true (err x) h e = absurd (cc)
      missing false r h e = absurd (cc)

  change_log_options-IsChangeLog :
      (cl : Option (ChangeLogOptions tk))
      → change_log_options tk api noted_env version flags ≡ ok cl
      → Plan.IsChangeLog tk api laws env version flags flags.enable_change_logs cl
  unfolding change_log_options
  change_log_options-IsChangeLog cl h =
      read flags.enable_change_logs
        (env.new_grpc_client (codes "unix://" ++ flags.changelogs_socket_path)) refl h
    where
      read :
          (b : Bool) (r : Result env.Connection)
          → env.new_grpc_client (codes "unix://" ++ flags.changelogs_socket_path) ≡ r
          → (if b then change_log_of tk api noted_env version flags r else ok none) ≡ ok cl
          → Plan.IsChangeLog tk api laws env version flags b cl
      read true (ok conn) e h = unfold change_log_of in (conn, e, sym (ok_injective h))
      read true (err x) e h = unfold change_log_of in absurd (cc)
      read false r e h = sym (ok_injective h)

  pub options_of-Obeys :
      (cl : Option (ChangeLogOptions tk))
      → change_log_options tk api noted_env version flags ≡ ok cl
      → Obeys (options_of cl)
  unfolding controller_options features
  options_of-Obeys cl h =
      let (p, c) = features-Obeys flags.enable_management_policies flags.enable_change_logs in
      (
        p,
        c,
        λ e. change_log_options-some cl h (sym c ∙ e),
        refl,
        refl,
        refl,
        refl,
        refl,
        change_log_options-IsChangeLog cl h,
      )
