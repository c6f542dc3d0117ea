-- ===== src/Tests/Controller.antt =====
-- The external client on a server with one role.
use mathlib.Core.List.{Nodup}
use provider_strapi.Prelude.{[], ◌∷◌, none, true, false, ◌≡◌, ◌≢◌, refl, ◌↔◌, ◌⊎◌, arith, All}
use provider_strapi.Prelude.Int.{pos}
use provider_strapi.Text.{text_eq, last_index, has_prefix, index}
use provider_strapi.Text.Order.{text_less}
use provider_strapi.Text.Fold.{to_lower, equal_fold}
use provider_strapi.Text.Sort.{sort_strings}
use provider_strapi.GoMap.{lookup, insert}
use provider_strapi.Decimal.{itoa, atoi}
use provider_strapi.Permissions.{
  split_flat, flat_name, implicit_controller, flatten_permissions, expand_permissions,
}
use provider_strapi.Permissions.RoundTrip.{IsCanonical}
use provider_strapi.Roles.{Role, find_role}
use provider_strapi.Exec.{Error, Result, ok, err}
use provider_strapi.Api.{
  items, nil, elements, append_to_nil, sort_slice, deep_equal, RolePermissions,
}
use provider_strapi.Controller.External.{
  Reconcile, ExternalObservation, select_role, find_external_name, resolve_role, observe, update,
  create, delete, apply_permissions,
}
use provider_strapi.Controller.External.Resolve.{
  Resolves, select_role-iff_Resolves, select_role_pinned,
}
use provider_strapi.Controller.External.Observe.{is_drained, Observes, observe-Observes}
use provider_strapi.Controller.External.Put.{
  Puts, wanted, marked, clear_flag, update-Puts, delete-outcome,
}
use provider_strapi.Controller.External.Converge.{observe-update}
use provider_strapi.Controller.External.Stable.{observe-observe}
use provider_strapi.Controller.External.Deletion.{observe-delete}
use provider_strapi.Tests.Data.{
  ascii, runtime, runtime-IsRuntime, find, callback, roles, public_role, authenticated_role,
  one_role, one_role-IsServer, resource, reconcile,
}

program : Unit {0}
unfolding split_flat flatten_permissions expand_permissions sort_strings flat_name
    implicit_controller lookup insert itoa atoi text_eq text_less last_index has_prefix index
    find_role to_lower equal_fold append_to_nil sort_slice deep_equal select_role find_external_name
    resolve_role observe update create delete apply_permissions
program = tt

abbrev live : Reconcile runtime Role
live = reconcile (resource false (items (callback ∷ find ∷ [])))

abbrev dying : Reconcile runtime Role
dying = reconcile (resource true (items (find ∷ [])))

abbrev reported : Reconcile runtime Role → Result ExternalObservation
reported s = (observe runtime ascii one_role s).0

-- `TestObserve_DriftDetected`, `TestUpdate_PutsPermissions` and `TestObserve_InSync`
converges :
    (reported live ≡ ok (record { resource_exists = true; resource_up_to_date = false }))
    × (reported (update runtime ascii one_role live).1
        ≡ ok (record { resource_exists = true; resource_up_to_date = true }))
unfolding program
converges = (refl, refl)

-- `TestObserve_DeletionLifecycle`
deletes :
    (reported dying ≡ ok (record { resource_exists = true; resource_up_to_date = true }))
    × (reported (delete runtime ascii one_role dying).1
        ≡ ok (record { resource_exists = false; resource_up_to_date = false }))
unfolding program
deletes = (refl, refl)

-- an empty list of permissions is never up to date, though the role has none either
never_settles :
    reported (update runtime ascii one_role (reconcile (resource false nil))).1
    ≡ ok (record { resource_exists = true; resource_up_to_date = false })
unfolding program
never_settles = refl

abbrev pinned : RolePermissions runtime
pinned = record (resource false nil) {
  object = record {
    external_name = itoa (pos 2);
    deleted = false;
    conditions = [];
    reference = none;
  };
}

select_role-iff_Resolves_example :
    (select_role runtime ascii roles live.cr ≡ ok public_role)
    ↔ Resolves runtime ascii roles live.cr public_role
select_role-iff_Resolves_example = select_role-iff_Resolves runtime ascii roles live.cr public_role

select_role_pinned_example : select_role runtime ascii roles pinned ≡ ok public_role
select_role_pinned_example =
    select_role_pinned runtime ascii roles pinned (pos 2) public_role (omega arith) refl (record {
      before = authenticated_role ∷ [];
      after = [];
      place = refl;
      passes = refl;
      before-fails = (refl, tt);
    })

resolves_live : resolve_role runtime ascii one_role live ≡ (ok public_role, live)
unfolding program
resolves_live = refl

observe-Observes_example :
    (o : ExternalObservation) × ((observe runtime ascii one_role live).0 ≡ ok o)
    × Observes runtime ascii one_role live public_role o (observe runtime ascii one_role live).1
observe-Observes_example =
    observe-Observes runtime ascii one_role runtime-IsRuntime live public_role public_role
      resolves_live

update-live : (update runtime ascii one_role live).0 ≡ ok tt
unfolding program
update-live = refl

update-Puts_example :
    Puts runtime ascii one_role
      (wanted runtime ascii one_role live)
      live
      (update runtime ascii one_role live).1
update-Puts_example = update-Puts runtime ascii one_role live update-live

delete-outcome_example :
    (((delete runtime ascii one_role dying).0 ≡ ok tt) ↔ (
      (t : Reconcile runtime Role) × Puts runtime ascii one_role []
        (marked runtime ascii one_role dying)
        t))
    × (((delete runtime ascii one_role dying).0 ≡ ok tt)
          × ((t : Reconcile runtime Role) × Puts runtime ascii one_role []
                (marked runtime ascii one_role dying)
                t
              × ((delete runtime ascii one_role dying).1 ≡ clear_flag runtime ascii one_role t))
        ⊎ ((e : Error) × ((delete runtime ascii one_role dying).0 ≡ err e)
            × ((delete runtime ascii one_role dying).1.cr.at_provider ≡ dying.cr.at_provider)))
delete-outcome_example = delete-outcome runtime ascii one_role dying

observe-update_example :
    (o : ExternalObservation) × ((observe runtime ascii one_role
        (update runtime ascii one_role live).1).0
      ≡ ok o)
    × ((o.resource_up_to_date ≡ true) ↔ (
        (is_drained runtime live.cr ≡ false)
        × (elements live.cr.for_provider.permissions ≢ [])
        × Nodup (elements live.cr.for_provider.permissions)
        × All IsCanonical (elements live.cr.for_provider.permissions)))
observe-update_example =
    observe-update runtime runtime-IsRuntime ascii one_role one_role-IsServer live
      ((update runtime ascii one_role live).1.world ∷ [])
      (update runtime ascii one_role live).1.world update-live refl

delete-dying : (delete runtime ascii one_role dying).0 ≡ ok tt
unfolding program
delete-dying = refl

observe-delete_example :
    (role : Role) × (o : ExternalObservation) × (select_role runtime ascii
        ((delete runtime ascii one_role dying).1.world ∷ [])
        (delete runtime ascii one_role dying).1.cr
      ≡ ok role)
    × (flatten_permissions role.permissions ≡ [])
    × ((observe runtime ascii one_role (delete runtime ascii one_role dying).1).0 ≡ ok o)
    × (o.resource_exists ≡ false)
observe-delete_example =
    observe-delete runtime runtime-IsRuntime ascii one_role one_role-IsServer dying
      ((delete runtime ascii one_role dying).1.world ∷ [])
      (delete runtime ascii one_role dying).1.world refl delete-dying refl

selects_live : select_role runtime ascii (public_role ∷ []) live.cr ≡ ok public_role
unfolding program
selects_live = refl

observe-observe_example :
    (o : ExternalObservation) × ((observe runtime ascii one_role live).0 ≡ ok o)
    × ((observe runtime ascii one_role (observe runtime ascii one_role live).1).0 ≡ ok o)
observe-observe_example =
    observe-observe runtime runtime-IsRuntime ascii one_role one_role-IsServer live
      (public_role ∷ []) ((observe runtime ascii one_role live).1.world ∷ []) public_role
      public_role (observe runtime ascii one_role live).1.world refl selects_live (omega arith) refl
