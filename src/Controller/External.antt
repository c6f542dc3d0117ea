-- ===== src/Controller/External.antt =====
-- internal/controller/rolepermissions/rolepermissions.go: the external client of one resource, with
-- `Observe`, `Create`, `Update` and `Delete`.
pub mod Resolve
pub mod Observe
pub mod Server
pub mod Put
mod Store
pub mod Converge
pub mod Deletion
pub mod Stable
use provider_strapi.Prelude.{
  List, [], ◌∷◌, Option, none, some, Bool, true, false, ◌&&◌, if◌then◌else◌,
}
use provider_strapi.Prelude.Int.{ℤ, int_eq, pos}
use provider_strapi.Text.{Text, is_empty}
use provider_strapi.Text.Fold.{Unicode}
use provider_strapi.Decimal.{itoa, atoi}
use provider_strapi.Permissions.{flatten_permissions, expand_permissions}
use provider_strapi.Roles.{Role, find_role}
use provider_strapi.Exec.{
  Context, Error, Result, ok, err, wrap_result, role_not_found, Exec, continue, ◌>>=◌, ◌>>◌, pure,
  lift, get, modify,
}
use provider_strapi.Api.{
  Slice, items, elements, append_to_nil, sort_slice, deep_equal, Condition, available, creating,
  deleting, Runtime, RolePermissions,
}

-- the interface `strapiClient`, over the world that it talks to
pub record StrapiClient (W : Type 0) : Type 0 where
  pub list_roles : W → Result (List Role) × W
  pub update_role : ℤ → Role → W → Result (Unit {0}) × W

-- `managed.ExternalObservation`
pub record ExternalObservation : Type 0 where
  pub resource_exists : Bool
  pub resource_up_to_date : Bool

-- the resource behind the pointer `cr`, and the world
pub record Reconcile (rt : Runtime) (W : Type 0) : Type 0 where
  pub cr : RolePermissions rt
  pub world : W

-- the loop over the IDs
pub find_id : List Role → ℤ → Option Role
find_id [] id = none
find_id (r ∷ roles) id = if int_eq r.id id then some r else find_id roles id

numeric_name : List Role → Option ℤ → Option Role
numeric_name roles none = none
numeric_name roles (some id) = find_id roles id

-- the role of the external name, if that is numeric
unfoldable pub find_external_name : List Role → Text → Option Role
unfolding find_id numeric_name
find_external_name roles name = if is_empty name then none else numeric_name roles (atoi name)

pub select_found : Text → Option Role → Result Role
select_found selector none = err (role_not_found selector)
select_found selector (some r) = ok r

module _ (rt : Runtime) (tables : Unicode) where
  select_named : List Role → Text → Option Role → Result Role
  unfolding select_found
  select_named roles selector (some r) = ok r
  select_named roles selector none = select_found selector (find_role tables roles selector)

  -- `resolveRole` behind the call of `ListRoles`
  unfoldable pub select_role : List Role → RolePermissions rt → Result Role
  unfolding select_named
  select_role roles cr =
      select_named roles cr.for_provider.role
        (find_external_name roles (rt.get_external_name cr.object))

module _ (rt : Runtime) (tables : Unicode) {W : Type 0} (client : StrapiClient W) where
  -- calls of the client leave the resource alone
  call : {A : Type 0} → (W → Result A × W) → Exec (Reconcile rt W) A
  call f s = let (r, w) = f s.world in (r, record s { world = w })

  wrapped : {A : Type 0} → Context → (W → Result A × W) → W → Result A × W
  wrapped c f w = let (r, w') = f w in (wrap_result c r, w')

  -- writes through the pointer `cr`
  edit : (RolePermissions rt → RolePermissions rt) → Exec (Reconcile rt W) (Unit {0})
  edit f = modify (λ s. record s { cr = f s.cr })

  set_condition : Condition → Exec (Reconcile rt W) (Unit {0})
  unfolding edit
  set_condition c = edit (λ cr. record cr { object = rt.set_conditions cr.object c })

  unfoldable pub resolve_role : Exec (Reconcile rt W) Role
  unfolding call wrapped
  resolve_role = do
    roles ← call (wrapped Context.list_roles client.list_roles)
    s ← get
    lift (select_role rt tables roles s.cr)

  -- `Observe` behind the test for a finished deletion
  observe_role : Role → Exec (Reconcile rt W) ExternalObservation
  unfolding set_condition
  observe_role role = do
    s ← get
    let current = items (flatten_permissions role.permissions)
    let desired = sort_slice (append_to_nil (elements s.cr.for_provider.permissions))
    edit (λ cr. record cr {
      at_provider = record {
        role_id = role.id;
        type = role.type;
        permissions = current;
        cleared = false;
      };
    })
    set_condition available
    pure (record { resource_exists = true; resource_up_to_date = deep_equal current desired })

  observe_unless_cleared : Role → Bool → Exec (Reconcile rt W) ExternalObservation
  unfolding observe_role
  observe_unless_cleared role true =
      pure (record { resource_exists = false; resource_up_to_date = false })
  observe_unless_cleared role false = observe_role role

  unfoldable pub observe : Exec (Reconcile rt W) ExternalObservation
  unfolding observe_unless_cleared
  observe = do
    role ← resolve_role
    edit (λ cr. record cr { object = rt.set_external_name cr.object (itoa role.id) })
    s ← get
    observe_unless_cleared role (rt.was_deleted s.cr.object && s.cr.at_provider.cleared)

  unfoldable pub apply_permissions : Exec (Reconcile rt W) (Unit {0})
  unfolding call wrapped
  apply_permissions = do
    role ← resolve_role
    s ← get
    let permissions = expand_permissions (elements s.cr.for_provider.permissions)
    call (
        wrapped Context.update_role
          (client.update_role role.id (record role { permissions = permissions })))

  unfoldable pub create : Exec (Reconcile rt W) (Unit {0})
  unfolding set_condition
  create = do set_condition creating; apply_permissions

  unfoldable pub update : Exec (Reconcile rt W) (Unit {0})
  update = apply_permissions

  unfoldable pub delete : Exec (Reconcile rt W) (Unit {0})
  unfolding set_condition call wrapped
  delete = do
    set_condition deleting
    role ← resolve_role
    call (
        wrapped Context.update_role (client.update_role role.id (record role { permissions = [] })))
    edit (λ cr. record cr { at_provider = record cr.at_provider { cleared = true } })

  unfoldable pub disconnect : Exec (Reconcile rt W) (Unit {0})
  disconnect = pure tt
