-- ===== src/Controller/Requests.antt =====
-- The external client on the HTTP client: what one reconcile may send. internal/clients/strapi/roles.go
-- implements the interface `strapiClient` of internal/controller/rolepermissions/rolepermissions.go.
use provider_strapi.Prelude.{
  ℕ, ◌+◌, ◌≤◌, [], Option, ◌&&◌, ◌≡◌, refl, sym, ap, ◌∙◌, ◌⊎◌, inl, inr, arith, Bool-cases, length,
  length-append,
}
use provider_strapi.Prelude.Int.{ℤ}
use provider_strapi.Text.{Text}
use provider_strapi.Text.Fold.{Unicode}
use provider_strapi.Decimal.{itoa}
use provider_strapi.Permissions.{expand_permissions}
use provider_strapi.Roles.{Role}
use provider_strapi.Exec.{Result, ok, err, Result-cases}
use provider_strapi.Api.{Runtime, elements, creating, deleting}
use provider_strapi.Client.{Http, Json, Session, do_json}
use provider_strapi.Client.Trace.{Logged, logged}
use provider_strapi.Client.Decode.{do_json-session}
use provider_strapi.Client.Retry.{do_request-AtMost}
use provider_strapi.Client.RolesApi.{RolesJson, list_roles, update_role}
use provider_strapi.Controller.External.{
  StrapiClient, Reconcile, resolve_role, observe, create, update, delete, apply_permissions,
}

-- the HTTP client as the controller sees it
abbrev pub strapi_client : Json → RolesJson → {N : Type 0} → Http N → StrapiClient (Session N)
strapi_client json roles_json http = record {
  list_roles = list_roles json roles_json http;
  update_role = update_role json roles_json http;
}

module _ (rt : Runtime) (tables : Unicode) {W : Type 0} (client : StrapiClient W) where
  abbrev listed : Reconcile rt W → W
  listed s = (client.list_roles s.world).1

  resolve_role-world : (s : Reconcile rt W) → (resolve_role rt tables client s).1.world ≡ listed s
  unfolding resolve_role
  resolve_role-world s = ground arith

  observe-world : (s : Reconcile rt W) → (observe rt tables client s).1.world ≡ listed s
  unfolding observe
  observe-world s = read (resolve_role rt tables client s) refl
    where
      read :
          (r : Result Role × Reconcile rt W)
          → resolve_role rt tables client s ≡ r
          → (observe rt tables client s).1.world ≡ listed s
      read (err x, t) e = rw e (ap (λ y. y.1.world) (sym e) ∙ resolve_role-world s)
      read (ok role, t) e =
          let w : t.world ≡ listed s = ap (λ y. y.1.world) (sym e) ∙ resolve_role-world s in
          rw e
            (elim (Bool-cases (
              rt.was_deleted (rt.set_external_name t.cr.object (itoa role.id))
              && t.cr.at_provider.cleared)) [ inl q ↦ rw q w | inr q ↦ rw q w ])

  apply_permissions-world :
      (s : Reconcile rt W)
      → ((apply_permissions rt tables client s).1.world ≡ listed s)
        ⊎ ((id : ℤ) × (role : Role) × ((apply_permissions rt tables client s).1.world
              ≡ (client.update_role id role (listed s)).1))
  unfolding apply_permissions
  apply_permissions-world s = read (resolve_role rt tables client s) refl
    where
      read :
          (r : Result Role × Reconcile rt W)
          → resolve_role rt tables client s ≡ r
          → ((apply_permissions rt tables client s).1.world ≡ listed s)
            ⊎ ((id : ℤ) × (role : Role) × ((apply_permissions rt tables client s).1.world
                  ≡ (client.update_role id role (listed s)).1))
      read (err x, t) e = inl (rw e (ap (λ y. y.1.world) (sym e) ∙ resolve_role-world s))
      read (ok role, t) e =
          let w : t.world ≡ listed s = ap (λ y. y.1.world) (sym e) ∙ resolve_role-world s in
          let sent : Role = record role {
            permissions = expand_permissions (elements t.cr.for_provider.permissions);
          } in
          inr (role.id, sent, rw e (ap (λ y. (client.update_role role.id sent y).1) w))

  delete-world :
      (s : Reconcile rt W)
      → ((delete rt tables client s).1.world ≡ listed s)
        ⊎ ((id : ℤ) × (role : Role) × ((delete rt tables client s).1.world
              ≡ (client.update_role id role (listed s)).1))
  unfolding delete
  delete-world s = read (resolve_role rt tables client marked) refl
    where
      marked : Reconcile rt W
      marked = record s { cr = record s.cr { object = rt.set_conditions s.cr.object deleting } }

      read :
          (r : Result Role × Reconcile rt W)
          → resolve_role rt tables client marked ≡ r
          → ((delete rt tables client s).1.world ≡ listed s)
            ⊎ ((id : ℤ) × (role : Role) × ((delete rt tables client s).1.world
                  ≡ (client.update_role id role (listed s)).1))
      read (err x, t) e = inl (rw e (ap (λ y. y.1.world) (sym e) ∙ resolve_role-world marked))
      read (ok role, t) e =
          let w : t.world ≡ listed s = ap (λ y. y.1.world) (sym e) ∙ resolve_role-world marked in
          let sent : Role = record role { permissions = [] } in
          let next = ap (λ y. (client.update_role role.id sent y).1) w in
          inr (
            role.id,
            sent,
            elim (Result-cases ((client.update_role role.id sent t.world).0)) [
              | inl (u, q) ↦ rw (e, q) next
              | inr (x, q) ↦ rw (e, q) next
            ],
          )

-- at most `n` requests more than before
abbrev pub SendsAtMost : {N : Type 0} → ℕ → Session (Logged N) → Session (Logged N) → Type 0
SendsAtMost n before after = length after.net.sent ≤ length before.net.sent + n

module _ (json : Json) (roles_json : RolesJson) {N : Type 0} (http : Http N) where
  do_json-SendsAtMost :
      {A : Type 0} (method path : Text) (body : Option (Result Text))
      (decode : Option (Text → Result A)) (unset : A) (s : Session (Logged N))
      → SendsAtMost 4 s (do_json json (logged http) method path body decode unset s).1
  do_json-SendsAtMost method path body decode unset s =
      let a = do_request-AtMost json http s method path body in
      rw (do_json-session json (logged http) method path body decode unset s, a.after-eq)
        (omega (arith, length-append {0} s.net.sent a.requests, a.bound))

  list_roles-SendsAtMost :
      (s : Session (Logged N)) → SendsAtMost 4 s (list_roles json roles_json (logged http) s).1
  unfolding list_roles
  list_roles-SendsAtMost s = do_json-SendsAtMost _ _ _ _ _ s

  update_role-SendsAtMost :
      (id : ℤ) (role : Role) (s : Session (Logged N))
      → SendsAtMost 4 s (update_role json roles_json (logged http) id role s).1
  unfolding update_role
  update_role-SendsAtMost id role s = do_json-SendsAtMost _ _ _ _ _ s

  -- a listing, and one update at most
  after_listing :
      (s t : Session (Logged N))
      → (t ≡ (list_roles json roles_json (logged http) s).1)
        ⊎ ((id : ℤ) × (role : Role) × (t
              ≡ (update_role json roles_json
                  (logged http)
                  id
                  role
                  (list_roles json roles_json (logged http) s).1).1))
      → SendsAtMost 8 s t
  after_listing s t (inl e) = rw e (omega (arith, list_roles-SendsAtMost s))
  after_listing s t (inr (id, role, e)) =
      let u = (list_roles json roles_json (logged http) s).1 in
      rw e (omega (arith, list_roles-SendsAtMost s, update_role-SendsAtMost id role u))

module _ (rt : Runtime) (tables : Unicode) (json : Json) (roles_json : RolesJson) {N : Type 0}
    (http : Http N) where
  abbrev real : StrapiClient (Session (Logged N))
  real = strapi_client json roles_json (logged http)

  -- Whatever Strapi answers, `Observe` on the HTTP client sends at most four requests, and `Create`,
  -- `Update` and `Delete` send at most eight each, logins and retries after a 401 included.
  pub reconcile-SendsAtMost :
      (s : Reconcile rt (Session (Logged N)))
      → SendsAtMost 4 s.world (observe rt tables real s).1.world
        × SendsAtMost 8 s.world (create rt tables real s).1.world
        × SendsAtMost 8 s.world (update rt tables real s).1.world
        × SendsAtMost 8 s.world (delete rt tables real s).1.world
  unfolding create update
  reconcile-SendsAtMost s =
      let created = record s {
        cr = record s.cr { object = rt.set_conditions s.cr.object creating };
      } in
      (
        rw (observe-world rt tables real s) (list_roles-SendsAtMost json roles_json http s.world),
        after_listing json roles_json http s.world _
            (apply_permissions-world rt tables real created),
        after_listing json roles_json http s.world _ (apply_permissions-world rt tables real s),
        after_listing json roles_json http s.world _ (delete-world rt tables real s),
      )
