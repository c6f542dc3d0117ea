-- ===== src/Controller/Setup/Gated.antt =====
-- internal/controller/strapi.go: `SetupGated`.
use provider_strapi.Prelude.{List, [], ◌∷◌}
use provider_strapi.Exec.{Exec, ◌>>◌, pure}
use provider_strapi.Apis.{ApiMachinery}
use provider_strapi.Controller.Setup.{Toolkit, ControllerOptions, Manager}
use provider_strapi.Controller.Setup.Config.{setup_config}
use provider_strapi.Controller.Setup.RolePermissions.{role_permissions_setup_gated}

module _ (tk : Toolkit) {B S : Type 0} (api : ApiMachinery B S) where
  module _ {W : Type 0} (mgr : Manager tk W) where
    -- a loop over setup functions, which ends at the first error
    unfoldable pub run_setups :
        List (ControllerOptions tk → Exec W (Unit {0})) → ControllerOptions tk → Exec W (Unit {0})
    run_setups [] o = pure tt
    run_setups (setup ∷ setups) o = do setup o; run_setups setups o

    -- `SetupGated` of package controller
    unfoldable pub setup_gated : ControllerOptions tk → Exec W (Unit {0})
    unfolding run_setups
    setup_gated o =
        run_setups (setup_config tk api mgr ∷ role_permissions_setup_gated tk api mgr ∷ []) o
