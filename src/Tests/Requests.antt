-- ===== src/Tests/Requests.antt =====
-- The external client on the HTTP client, against the server that accepts one token.
use provider_strapi.Prelude.{◌/◌, [], ◌∷◌, ◌++◌, none, some, false, ◌≡◌, ◌↔◌}
use provider_strapi.Prelude.Int.{pos}
use provider_strapi.Text.{codes}
use provider_strapi.Decimal.{itoa}
use provider_strapi.Exec.{ok}
use provider_strapi.Api.{items}
use provider_strapi.Client.{Response, Session, do_request}
use provider_strapi.Client.Trace.{Logged, logged}
use provider_strapi.Client.RolesApi.{RolesJson, list_roles, get_role, update_role}
use provider_strapi.Client.RolesApi.Outcome.{roles_api-ok_iff}
use provider_strapi.Controller.External.{Reconcile, observe, create, update, delete}
use provider_strapi.Controller.Requests.{strapi_client, SendsAtMost, reconcile-SendsAtMost}
use provider_strapi.Tests.Data.{ascii, runtime, json, find, public_role, resource}
use provider_strapi.Tests.Client.{http, session}

-- every listing holds the role `public`
abbrev roles_json : RolesJson
roles_json = record {
  decode_roles = λ s. ok (public_role ∷ []);
  decode_role = λ s. ok public_role;
  marshal_update = λ b. ok b.name;
}

abbrev start : Reconcile runtime (Session (Logged (Unit {0})))
start = record { cr = resource false (items (find ∷ [])); world = session (codes "old") }

reconcile-SendsAtMost_example :
    SendsAtMost 4 start.world
      (observe runtime ascii (strapi_client json roles_json (logged http)) start).1.world
    × SendsAtMost 8 start.world
        (create runtime ascii (strapi_client json roles_json (logged http)) start).1.world
    × SendsAtMost 8 start.world
        (update runtime ascii (strapi_client json roles_json (logged http)) start).1.world
    × SendsAtMost 8 start.world
        (delete runtime ascii (strapi_client json roles_json (logged http)) start).1.world
reconcile-SendsAtMost_example = reconcile-SendsAtMost runtime ascii json roles_json http start

abbrev listed : Session (Logged (Unit {0}))
listed = (list_roles json roles_json (logged http) (session (codes "jwt"))).1

roles_api-ok_iff_example :
    ((list_roles json roles_json (logged http) (session (codes "jwt"))
        ≡ (ok (public_role ∷ []), listed))
      ↔ ((resp : Response) × (do_request json
              (logged http)
              (codes "GET")
              (codes "/users-permissions/roles")
              none
              (session (codes "jwt"))
            ≡ (ok resp, listed))
          × (resp.status_code / 100 ≡ 2)
          × (roles_json.decode_roles resp.body ≡ ok (public_role ∷ []))))
    × ((get_role json roles_json (logged http) (pos 2) (session (codes "jwt"))
          ≡ (ok public_role, listed))
        ↔ ((resp : Response) × (do_request json
                (logged http)
                (codes "GET")
                (codes "/users-permissions/roles/" ++ itoa (pos 2))
                none
                (session (codes "jwt"))
              ≡ (ok resp, listed))
            × (resp.status_code / 100 ≡ 2)
            × (roles_json.decode_role resp.body ≡ ok public_role)))
    × ((update_role json roles_json (logged http) (pos 2) public_role (session (codes "jwt"))
          ≡ (ok tt, listed))
        ↔ ((resp : Response) × (do_request json
                (logged http)
                (codes "PUT")
                (codes "/users-permissions/roles/" ++ itoa (pos 2))
                (some (
                  roles_json.marshal_update (record {
                    name = public_role.name;
                    description = public_role.description;
                    type = public_role.type;
                    permissions = public_role.permissions;
                  })))
                (session (codes "jwt"))
              ≡ (ok resp, listed))
            × (resp.status_code / 100 ≡ 2)))
roles_api-ok_iff_example =
    roles_api-ok_iff json roles_json (logged http) (public_role ∷ []) (pos 2) public_role
      (session (codes "jwt")) listed
