-- ===== src/Provider/Start.antt =====
-- cmd/provider/main.go: `main` makes the planned calls and no others.
use mathlib.Core.Path.{subst}
use provider_strapi.Prelude.{List, [], ◌∷◌, ◌++◌, Option, some, ◌≡◌, refl, sym, ap, map}
use provider_strapi.Text.{Text, codes}
use provider_strapi.Exec.{panic, Result, ok, err, map_error, ◌>>=◌, ◌>>◌, lift}
use provider_strapi.Exec.Journal.{
  Journal, Planned, calling, computing, reported, Outcome, Does, Does-noted, Does-lift,
  Does-continue, Does-map_error,
}
use provider_strapi.Exec.Journal.Weaken.{Does-weaken}
use provider_strapi.Apis.{
  provider_config, provider_config_usage, cluster_provider_config, cluster_provider_config_usage,
  provider_config_usage_list, cluster_provider_config_usage_list, role_permissions, ApiMachinery,
  add_to_scheme,
}
use provider_strapi.Apis.Scheme.{IsApiMachinery, KnowsAllKinds, add_to_scheme-type_of}
use provider_strapi.Controller.Setup.{Toolkit, ChangeLogOptions, ControllerOptions}
use provider_strapi.Controller.Setup.Gated.{setup_gated}
use provider_strapi.Controller.Setup.Plan.{setup_plan}
use provider_strapi.Controller.Setup.Calls.{setup_gated-Does}
use provider_strapi.Provider.{
  Collector, metrics_of, state_metrics_of, Environment, fatal, fatal_if_error, extended,
}
use provider_strapi.Provider.Flags.{Kingpin, Flags, flag_specs, read_flags}
use provider_strapi.Provider.Run.{
  controller_runtime_logger, manager_options, change_log_options, controller_options, must_register,
  run_manager, run, run_parsed, main,
}
use provider_strapi.Provider.Options.{options_of-Obeys}
use provider_strapi.Provider.Plan.{
  Call, getting_config, making_manager, registering, managing, starting, noted_environment,
  IsEnvironment, named_flags,
}
use provider_strapi.Provider.Plan

ok_injective : {A : Type 0} {a b : A} → ok a ≡ ok b → a ≡ b
ok_injective e = cc

extended-ok : {S : Type 0} (r : Result (Unit {0}) × S) (u : S) → extended r ≡ ok u → r ≡ (ok tt, u)
unfolding extended
extended-ok (ok t, s) u h = ap (λ u. (ok tt, u)) (ok_injective h)
extended-ok (err e, s) u h = absurd (cc)

module _ (tk : Toolkit) {B S W : Type 0} (api : ApiMachinery B S) (laws : IsApiMachinery api)
    (env : Environment tk S W) (env_laws : IsEnvironment laws env) (version : Text)
    (flags : Flags) where
  abbrev Obeys : ControllerOptions tk → Type 0
  Obeys = Plan.Obeys tk api laws env version flags

  abbrev OnManager :
      (S → ControllerOptions tk → Call tk S env.RestConfig → Type 0)
      → Call tk S env.RestConfig
      → Type 0
  OnManager = Plan.OnManager tk api laws env version flags

  abbrev setup_message : Text
  setup_message = Plan.setup_message tk api laws env version flags

  abbrev change_log_message : Text
  change_log_message = Plan.change_log_message tk api laws env version flags

  abbrev setup_calls : List (Planned (Call tk S env.RestConfig))
  setup_calls = Plan.setup_calls tk api laws env version flags

  abbrev start_calls : List (Planned (Call tk S env.RestConfig))
  start_calls = Plan.start_calls tk api laws env version flags

  abbrev register_calls : Collector tk → List (Planned (Call tk S env.RestConfig))
  register_calls = Plan.register_calls tk api laws env version flags

  abbrev change_log_calls : List (Planned (Call tk S env.RestConfig))
  change_log_calls = Plan.change_log_calls tk api laws env version flags

  abbrev later_calls : List (Planned (Call tk S env.RestConfig))
  later_calls = Plan.later_calls tk api laws env version flags

  abbrev manager_calls : List (Planned (Call tk S env.RestConfig))
  manager_calls = Plan.manager_calls tk api laws env version flags

  abbrev config_calls : List (Planned (Call tk S env.RestConfig))
  config_calls = Plan.config_calls tk api laws env version flags

  abbrev making_calls : List (Planned (Call tk S env.RestConfig))
  making_calls = Plan.making_calls tk api laws env version flags

  abbrev apis_message : Text
  apis_message = Plan.apis_message tk api laws env version flags

  abbrev crds_message : Text
  crds_message = Plan.crds_message tk api laws env version flags

  abbrev scheme_calls : List (Planned (Call tk S env.RestConfig))
  scheme_calls = Plan.scheme_calls tk api laws env version flags

  abbrev run_plan : List (Planned (Call tk S env.RestConfig))
  run_plan = Plan.run_plan tk api laws env version flags

  abbrev noted_env : Environment tk S (Journal W (Call tk S env.RestConfig))
  noted_env = noted_environment env

  abbrev options_of : Option (ChangeLogOptions tk) → ControllerOptions tk
  options_of cl = controller_options tk api noted_env version flags cl

  setup-Does :
      (s : S) (cl : Option (ChangeLogOptions tk))
      → KnowsAllKinds api laws s
      → change_log_options tk api noted_env version flags ≡ ok cl
      → Does
          (fatal_if_error setup_message (setup_gated tk api (noted_env.manager s) (options_of cl)))
          setup_calls
          (λ _. Unit {0})
  unfolding fatal_if_error controller_options
  setup-Does s cl k h =
      let o = options_of cl in
      let obeys = options_of-Obeys tk api laws env env_laws version flags cl h in
      Does-weaken (map (reported (fatal setup_message)) (setup_plan tk api (managing s) o))
        setup_calls (λ _. Unit {0})
        (fatal_if_error setup_message (setup_gated tk api (noted_env.manager s) o))
        (
          λ c p. (s, k, (o, obeys, p)),
          λ e. refl,
          (
            λ c p. (s, k, (o, obeys, p)),
            λ e. refl,
            (
              λ c p. (s, k, (o, obeys, p)),
              λ e. refl,
              (λ c p. (s, k, (o, obeys, p)), λ e. refl, tt),
            ),
          ),
        )
        (Does-map_error (fatal setup_message) (setup_plan tk api (managing s) o) (λ _. Unit {0})
          (setup_gated tk api (noted_env.manager s) o)
          (setup_gated-Does tk api (managing s) (env.manager s) o obeys.2))

  must_register-Does :
      (c : Collector tk)
      → Does
          (must_register tk api noted_env version flags c)
          (calling (λ x. x ≡ registering c) panic ∷ [])
          (λ _. Unit {0})
  unfolding must_register
  must_register-Does c =
      Does-map_error panic (calling (λ x. x ≡ registering c) (λ e. e) ∷ []) (λ _. Unit {0})
        (noted_env.must_register c)
        (Does-noted (λ x. x ≡ registering c) (registering c) (env.must_register c) refl)

  start-Does :
      (s : S)
      → KnowsAllKinds api laws s
      → Does
          (fatal_if_error (codes "Cannot start controller manager") (noted_env.start s))
          start_calls
          (λ _. Unit {0})
  unfolding fatal_if_error
  start-Does s k =
      let P =
        λ (c : Call tk S env.RestConfig). (u : S) × KnowsAllKinds api laws u × (c ≡ starting u) in
      Does-map_error (fatal (codes "Cannot start controller manager")) (calling P (λ e. e) ∷ [])
        (λ _. Unit {0}) (noted_env.start s) (Does-noted P (starting s) (env.start s) (s, k, refl))

  run_manager-Does :
      (s : S)
      → KnowsAllKinds api laws s
      → Does (run_manager tk api noted_env version flags s) manager_calls (λ _. Unit {0})
  unfolding run_manager
  run_manager-Does s k =
      let nothing = λ (u : Unit {0}). Unit {0} in
      let started = fatal_if_error (codes "Cannot start controller manager") (noted_env.start s) in
      let set_up = λ (cl : Option (ChangeLogOptions tk)).
        fatal_if_error setup_message (setup_gated tk api (noted_env.manager s) (options_of cl)) in
      let logs = change_log_options tk api noted_env version flags in
      let metrics : Collector tk = metrics_of env.new_mr_metric_recorder in
      let states : Collector tk = state_metrics_of env.new_mr_state_metrics in
      let rest =
        lift (map_error (fatal change_log_message) logs) >>= (λ cl. set_up cl >> started) in
      Does-continue (register_calls metrics) (register_calls states ++ later_calls) nothing nothing
        (must_register tk api noted_env version flags metrics)
        (λ _. must_register tk api noted_env version flags states >> rest)
        (must_register-Does metrics)
        (λ _ _.
          Does-continue (register_calls states) later_calls nothing nothing
            (must_register tk api noted_env version flags states) (λ _. rest)
            (must_register-Does states)
            (λ _ _.
              Does-continue change_log_calls (setup_calls ++ start_calls) (λ cl. logs ≡ ok cl)
                nothing (lift (map_error (fatal change_log_message) logs))
                (λ cl. set_up cl >> started)
                (Does-lift (λ cl. logs ≡ ok cl) (fatal change_log_message) logs (λ cl e. e))
                (λ cl e.
                  Does-continue setup_calls start_calls nothing nothing (set_up cl) (λ _. started)
                    (setup-Does s cl k e) (λ _ _. start-Does s k))))

  KnowsAllKinds-crds :
      (t u : S)
      → env.add_crds_to_scheme t ≡ (ok tt, u)
      → KnowsAllKinds api laws t
      → KnowsAllKinds api laws u
  KnowsAllKinds-crds t u e (a, b, c, d, f, g, h) =
      let keeps = env_laws.add_crds_to_scheme-type_of t u e in
      (
        keeps _ provider_config a,
        keeps _ provider_config_usage b,
        keeps _ provider_config_usage_list c,
        keeps _ cluster_provider_config d,
        keeps _ cluster_provider_config_usage f,
        keeps _ cluster_provider_config_usage_list g,
        keeps _ role_permissions h,
      )

  -- the scheme of the manager, with the types of the provider and of the custom resources
  schemes-Does :
      (s : S)
      → Does
          (lift (map_error (fatal apis_message) (extended (add_to_scheme api s))) >>= (λ t.
            lift (map_error (fatal crds_message) (extended (noted_env.add_crds_to_scheme t)))
            >>= run_manager tk api noted_env version flags))
          scheme_calls
          (λ _. Unit {0})
  schemes-Does s =
      let run_on = run_manager tk api noted_env version flags in
      let crds =
        λ (t : S). lift (map_error (fatal crds_message) (extended (env.add_crds_to_scheme t))) in
      Does-continue (computing (fatal apis_message) ∷ [])
        ((computing (fatal crds_message) ∷ []) ++ manager_calls) (λ t. KnowsAllKinds api laws t)
        (λ _. Unit {0}) (lift (map_error (fatal apis_message) (extended (add_to_scheme api s))))
        (λ t. crds t >>= run_on)
        (Does-lift (λ t. KnowsAllKinds api laws t) (fatal apis_message)
          (extended (add_to_scheme api s))
          (λ t e. (add_to_scheme-type_of api laws s t (extended-ok (add_to_scheme api s) t e)).1))
        (λ t k.
          Does-continue (computing (fatal crds_message) ∷ []) manager_calls
            (λ u. KnowsAllKinds api laws u) (λ _. Unit {0}) (crds t) run_on
            (Does-lift (λ u. KnowsAllKinds api laws u) (fatal crds_message)
              (extended (env.add_crds_to_scheme t))
              (λ u e. KnowsAllKinds-crds t u (extended-ok (env.add_crds_to_scheme t) u e) k))
            (λ u k. run_manager-Does u k))

  run-Does : Does (run tk api noted_env version flags) run_plan (λ _. Unit {0})
  unfolding run fatal_if_error controller_runtime_logger manager_options
  run-Does j =
      let nothing = λ (u : Unit {0}). Unit {0} in
      let schemes = λ (s : S).
        lift (map_error (fatal apis_message) (extended (add_to_scheme api s))) >>= (λ t.
          lift (map_error (fatal crds_message) (extended (noted_env.add_crds_to_scheme t)))
          >>= run_manager tk api noted_env version flags) in
      let made = λ (cfg : env.RestConfig).
        fatal_if_error (codes "Cannot create controller manager") (
          noted_env.new_manager (env.limit_rest_config cfg flags.max_reconcile_rate)
            (manager_options tk api env version flags)) in
      let IsMaking = λ (c : Call tk S env.RestConfig).
        (cfg : env.RestConfig) × (c
          ≡ making_manager (env.limit_rest_config cfg flags.max_reconcile_rate)
              (manager_options tk api env version flags)) in
      Does-continue config_calls (making_calls ++ scheme_calls) (λ _. Unit {0}) nothing
        (fatal_if_error (codes "Cannot get API server rest config") noted_env.get_config)
        (λ cfg. made cfg >>= schemes)
        (Does-map_error (fatal (codes "Cannot get API server rest config"))
          (calling (λ c. c ≡ getting_config) (λ e. e) ∷ []) (λ _. Unit {0}) noted_env.get_config
          (Does-noted (λ c. c ≡ getting_config) getting_config env.get_config refl))
        (λ cfg _.
          Does-continue making_calls scheme_calls (λ _. Unit {0}) nothing (made cfg) schemes
            (Does-map_error (fatal (codes "Cannot create controller manager"))
              (calling IsMaking (λ e. e) ∷ []) (λ _. Unit {0})
              (noted_env.new_manager (env.limit_rest_config cfg flags.max_reconcile_rate)
                (manager_options tk api env version flags))
              (Does-noted IsMaking
                (making_manager (env.limit_rest_config cfg flags.max_reconcile_rate)
                  (manager_options tk api env version flags))
                (env.new_manager (env.limit_rest_config cfg flags.max_reconcile_rate)
                  (manager_options tk api env version flags))
                (cfg, refl)))
            (λ s _. schemes-Does s))
        (record j {
          world = env.set_logger (controller_runtime_logger tk api env version flags) j.world;
        })

-- On arguments that kingpin accepts, `main` makes its calls in one fixed order, stops at the first that
-- fails, and returns only after the last, `Start`, has returned without an error. The calls are:
-- getting the config and making the manager, with the sync period and the leader election of the flags
-- `sync` and `leader-election`, the lease of one minute and the renew deadline of 50 seconds; registering the two kinds of metrics;
-- the controller of provider configs, that of cluster provider configs, the state metrics and the
-- controller of `RolePermissions`; and starting the manager. The last five are made on a manager whose
-- scheme knows the seven kinds of the provider, and the four in `SetupGated` with the features, the poll
-- interval and the rate of the flags `enable-management-policies`, `enable-changelogs`, `poll` and
-- `max-reconcile-rate`, the state metrics with the interval of `poll-state-metric`, and with a change
-- logger if `enable-changelogs` is set; the
-- reconciler of `RolePermissions` has management policies, change logger and metric recorder
-- accordingly. A call that fails ends the program with the message for its place, or with a panic where
-- metrics are registered. Nothing else fails but the two extensions of the scheme and the change log
-- client, each with a message of its own: in `SetupGated` no missing change logger is read. The laws are
-- what apimachinery, apiextensions and package feature document.
pub main-Outcome :
    (k : Kingpin) (tk : Toolkit) {B S W : Type 0} (api : ApiMachinery B S)
    (laws : IsApiMachinery api) (env : Environment tk S W) (env_laws : IsEnvironment laws env)
    (version : Text) (args : List Text) (v : k.Values)
    → k.parse flag_specs args ≡ some v
    → (j : Journal W (Call tk S env.RestConfig))
    → Outcome j.calls
        (Plan.run_plan tk api laws env version (named_flags k v))
        (λ _. Unit {0})
        (main k tk api (noted_environment env) version args j)
unfolding main run_parsed read_flags
main-Outcome k tk api laws env env_laws version args v e j =
    subst
      (λ o.
        Outcome j.calls (Plan.run_plan tk api laws env version (named_flags k v)) (λ _. Unit {0})
          (run_parsed k tk api (noted_environment env) version o j))
      (sym e) (run-Does tk api laws env env_laws version (read_flags k v) j)
