-- ===== src/Client/RolesApi.antt =====
-- internal/clients/strapi/roles.go: `ListRoles`, `GetRole` and `UpdateRole`.
pub mod Outcome
use provider_strapi.Prelude.{List, [], ◌++◌, none, some}
use provider_strapi.Prelude.Int.{ℤ}
use provider_strapi.Text.{Text, codes}
use provider_strapi.Decimal.{itoa}
use provider_strapi.Permissions.{PermissionsByResource}
use provider_strapi.Roles.{Role}
use provider_strapi.Exec.{Context, Result, Exec}
use provider_strapi.Client.{Http, Json, Session, wrap_error, do_json}

-- the map `body` of `UpdateRole`
pub record UpdateBody : Type 0 where
  pub name : Text
  pub description : Text
  pub type : Text
  pub permissions : PermissionsByResource

-- `encoding/json` at the types of the roles API
pub record RolesJson : Type 0 where
  -- the field `roles` of a listing
  pub decode_roles : Text → Result (List Role)
  -- the field `role`
  pub decode_role : Text → Result Role
  pub marshal_update : UpdateBody → Result Text

abbrev pub roles_path : Text
roles_path = codes "/users-permissions/roles"

abbrev pub role_path : ℤ → Text
role_path id = codes "/users-permissions/roles/" ++ itoa id

abbrev pub update_body : Role → UpdateBody
update_body role = record {
  name = role.name;
  description = role.description;
  type = role.type;
  permissions = role.permissions;
}

abbrev pub zero_role : Role
zero_role = record { id = ℤ.pos 0; name = []; description = []; type = []; permissions = [] }

module _ (json : Json) (roles_json : RolesJson) {N : Type 0} (http : Http N) where
  unfoldable pub list_roles : Exec (Session N) (List Role)
  unfolding wrap_error
  list_roles =
      wrap_error json http Context.list_users_permissions_roles
        (do_json json http (codes "GET") roles_path none (some roles_json.decode_roles) [])

  unfoldable pub get_role : ℤ → Exec (Session N) Role
  unfolding wrap_error
  get_role id =
      wrap_error json http Context.get_role (
        do_json json http (codes "GET") (role_path id) none (some roles_json.decode_role) zero_role)

  unfoldable pub update_role : ℤ → Role → Exec (Session N) (Unit {0})
  unfolding wrap_error
  update_role id role = wrap_error json http Context.update_role_by_id (
      do_json json http (codes "PUT") (role_path id)
        (some (roles_json.marshal_update (update_body role))) none tt)
