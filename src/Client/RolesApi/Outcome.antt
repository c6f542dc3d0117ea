-- ===== src/Client/RolesApi/Outcome.antt =====
-- When the calls of the roles API succeed, and with what.
use mathlib.Core.Logic.Iff
use provider_strapi.Prelude.{◌/◌, List, [], ◌++◌, Option, none, some, ◌≡◌, refl, ◌↔◌}
use provider_strapi.Prelude.Int.{ℤ}
use provider_strapi.Text.{Text, codes}
use provider_strapi.Decimal.{itoa}
use provider_strapi.Roles.{Role}
use provider_strapi.Exec.{Context, Result, ok, err, wrap_result, Exec}
use provider_strapi.Client.{Response, Http, Json, Session, wrap_error, do_request, do_json}
use provider_strapi.Client.Decode.{Decodes, do_json-ok_iff}
use provider_strapi.Client.RolesApi.{
  RolesJson, roles_path, role_path, update_body, zero_role, list_roles, get_role, update_role,
}

module _ (json : Json) (roles_json : RolesJson) {N : Type 0} (http : Http N) where
  wrap_error-ok_iff :
      {A : Type 0} (c : Context) (m : Exec (Session N) A) (a : A) (s t : Session N)
      → (wrap_error json http c m s ≡ (ok a, t)) ↔ (m s ≡ (ok a, t))
  unfolding wrap_error
  wrap_error-ok_iff {A} c m a s t = read (m s)
    where
      read :
          (r : Result A × Session N)
          → (◌≡◌ {A = Result A × Session N} (wrap_result c r.0, r.1) (ok a, t)) ↔ (r ≡ (ok a, t))
      read (ok b, u) = (λ h. h, λ h. h)
      read (err x, u) = (λ h. absurd (cc), λ h. absurd (cc))

  called-ok_iff :
      {A : Type 0} (c : Context) (method path : Text) (body : Option (Result Text))
      (decode : Option (Text → Result A)) (unset a : A) (s t : Session N)
      → (wrap_error json http c (do_json json http method path body decode unset) s ≡ (ok a, t)) ↔ (
          (resp : Response) × (do_request json http method path body s ≡ (ok resp, t))
          × (resp.status_code / 100 ≡ 2)
          × Decodes decode unset resp.body a)
  called-ok_iff c method path body decode unset a s t =
      Iff.trans (wrap_error-ok_iff c (do_json json http method path body decode unset) a s t)
        (do_json-ok_iff json http method path body decode unset a s t)

  list_roles-ok_iff :
      (roles : List Role) (s t : Session N)
      → (list_roles json roles_json http s ≡ (ok roles, t)) ↔ (
          (resp : Response) × (do_request json http (codes "GET") roles_path none s ≡ (ok resp, t))
          × (resp.status_code / 100 ≡ 2)
          × (roles_json.decode_roles resp.body ≡ ok roles))
  unfolding list_roles
  list_roles-ok_iff roles s t =
      called-ok_iff Context.list_users_permissions_roles (codes "GET") roles_path none
        (some roles_json.decode_roles) [] roles s t

  get_role-ok_iff :
      (id : ℤ) (role : Role) (s t : Session N)
      → (get_role json roles_json http id s ≡ (ok role, t)) ↔ (
          (resp : Response) × (do_request json http (codes "GET") (role_path id) none s
            ≡ (ok resp, t))
          × (resp.status_code / 100 ≡ 2)
          × (roles_json.decode_role resp.body ≡ ok role))
  unfolding get_role
  get_role-ok_iff id role s t =
      called-ok_iff Context.get_role (codes "GET") (role_path id) none (some roles_json.decode_role)
        zero_role role s t

  update_role-ok_iff :
      (id : ℤ) (role : Role) (s t : Session N)
      → (update_role json roles_json http id role s ≡ (ok tt, t)) ↔ (
          (resp : Response) × (do_request json http
              (codes "PUT")
              (role_path id)
              (some (roles_json.marshal_update (update_body role)))
              s
            ≡ (ok resp, t))
          × (resp.status_code / 100 ≡ 2))
  unfolding update_role
  update_role-ok_iff id role s t =
      Iff.trans
        (called-ok_iff Context.update_role_by_id (codes "PUT") (role_path id)
          (some (roles_json.marshal_update (update_body role))) none tt tt s t)
        (λ (resp, q, c, _). (resp, q, c), λ (resp, q, c). (resp, q, c, refl))

  -- Each call of the roles API succeeds exactly if the one request that it makes through `Do` is
  -- answered by a status of 200 to 299 and the body decodes where it is read: `ListRoles` returns the
  -- decoded `roles` of its GET of /users-permissions/roles, `GetRole` the decoded `role` of its GET of
  -- that path with the ID behind it, and `UpdateRole` PUTs the role's name, description, type and
  -- permissions to that path and reads nothing of the answer's body.
  pub roles_api-ok_iff :
      (roles : List Role) (id : ℤ) (role : Role) (s t : Session N)
      → ((list_roles json roles_json http s ≡ (ok roles, t)) ↔ (
          (resp : Response) × (do_request json http
              (codes "GET")
              (codes "/users-permissions/roles")
              none
              s
            ≡ (ok resp, t))
          × (resp.status_code / 100 ≡ 2)
          × (roles_json.decode_roles resp.body ≡ ok roles)))
        × ((get_role json roles_json http id s ≡ (ok role, t)) ↔ (
            (resp : Response) × (do_request json http
                (codes "GET")
                (codes "/users-permissions/roles/" ++ itoa id)
                none
                s
              ≡ (ok resp, t))
            × (resp.status_code / 100 ≡ 2)
            × (roles_json.decode_role resp.body ≡ ok role)))
        × ((update_role json roles_json http id role s ≡ (ok tt, t)) ↔ (
            (resp : Response) × (do_request json http
                (codes "PUT")
                (codes "/users-permissions/roles/" ++ itoa id)
                (some (
                  roles_json.marshal_update (record {
                    name = role.name;
                    description = role.description;
                    type = role.type;
                    permissions = role.permissions;
                  })))
                s
              ≡ (ok resp, t))
            × (resp.status_code / 100 ≡ 2)))
  roles_api-ok_iff roles id role s t =
      (list_roles-ok_iff roles s t, get_role-ok_iff id role s t, update_role-ok_iff id role s t)
