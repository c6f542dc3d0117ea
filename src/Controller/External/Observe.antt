-- ===== src/Controller/External/Observe.antt =====
-- `Observe`: what it reports, and what it writes to the resource.
use provider_strapi.Prelude.{
  [], Bool, true, false, not, ◌&&◌, ◌≡◌, ◌≢◌, refl, sym, ap, ◌∙◌, ◌↔◌, inl, inr, Bool-cases,
}
use provider_strapi.Text.Fold.{Unicode}
use provider_strapi.Text.Sort.{sort_strings}
use provider_strapi.Decimal.{itoa}
use provider_strapi.Permissions.{flatten_permissions}
use provider_strapi.Roles.{Role}
use provider_strapi.Exec.{Error, Result, ok, err}
use provider_strapi.Api.{
  Runtime, IsRuntime, RolePermissions, RolePermissionsObservation, elements, items, append_to_nil,
  sort_slice, deep_equal, available,
}
use provider_strapi.Api.Slices.{deep_equal-sorted_iff}
use provider_strapi.Controller.External.{
  StrapiClient, Reconcile, ExternalObservation, resolve_role, observe,
}

-- the status that a full observation leaves
abbrev pub status_of : Role → RolePermissionsObservation
status_of role = record {
  role_id = role.id;
  type = role.type;
  permissions = items (flatten_permissions role.permissions);
  cleared = false;
}

module _ (rt : Runtime) where
  -- the resource after the external name is written
  abbrev pub named : Role → RolePermissions rt → RolePermissions rt
  named role cr = record cr { object = rt.set_external_name cr.object (itoa role.id) }

  abbrev pub observed : Role → RolePermissions rt → RolePermissions rt
  observed role cr = record cr {
    object = rt.set_conditions (rt.set_external_name cr.object (itoa role.id)) available;
    at_provider = status_of role;
  }

  -- the deletion is finished: the object is being deleted, and its permissions were cleared
  abbrev pub is_drained : RolePermissions rt → Bool
  is_drained cr = rt.was_deleted cr.object && cr.at_provider.cleared

  -- the spec's permissions, sorted, are the role's
  abbrev pub up_to_date : Role → RolePermissions rt → Bool
  up_to_date role cr =
      deep_equal (items (flatten_permissions role.permissions))
        (sort_slice (append_to_nil (elements cr.for_provider.permissions)))

module _ (rt : Runtime) (tables : Unicode) {W : Type 0} (client : StrapiClient W) where
  pub observe-err :
      (s t : Reconcile rt W) (e : Error)
      → resolve_role rt tables client s ≡ (err e, t)
      → observe rt tables client s ≡ (err e, t)
  unfolding observe
  observe-err s t e h = rw h

  pub observe_drained :
      (laws : IsRuntime rt) (s t : Reconcile rt W) (role : Role)
      → resolve_role rt tables client s ≡ (ok role, t)
      → is_drained rt t.cr ≡ true
      → observe rt tables client s ≡ (
        ok (record { resource_exists = false; resource_up_to_date = false }),
        record t { cr = named rt role t.cr },
      )
  unfolding observe
  observe_drained laws s t role h d = rw (h, laws.was_deleted-set_external_name, d)

  pub observe_live :
      (laws : IsRuntime rt) (s t : Reconcile rt W) (role : Role)
      → resolve_role rt tables client s ≡ (ok role, t)
      → is_drained rt t.cr ≡ false
      → observe rt tables client s ≡ (
        ok (record { resource_exists = true; resource_up_to_date = up_to_date rt role t.cr }),
        record t { cr = observed rt role t.cr },
      )
  unfolding observe
  observe_live laws s t role h d = rw (h, laws.was_deleted-set_external_name, d)

  -- What `Observe` reports and leaves behind where it resolved `role`, in terms of the resource
  -- that it was given.
  pub record Observes (before : Reconcile rt W) (role : Role) (o : ExternalObservation)
      (after : Reconcile rt W) : Type 0 where
    -- absent exactly at the end of a deletion
    pub exists : o.resource_exists ≡ not (is_drained rt before.cr)
    pub up_to_date_iff : (o.resource_up_to_date ≡ true) ↔ (
        (is_drained rt before.cr ≡ false)
        × (elements before.cr.for_provider.permissions ≢ [])
        × (flatten_permissions role.permissions
            ≡ sort_strings (elements before.cr.for_provider.permissions)))
    -- the numeric ID becomes the external name
    pub external_name : rt.get_external_name after.cr.object ≡ itoa role.id
    -- a `cleared` flag survives only at the end of a deletion
    pub cleared : after.cr.at_provider.cleared ≡ is_drained rt before.cr
    pub deletion : rt.was_deleted after.cr.object ≡ rt.was_deleted before.cr.object
    pub spec : after.cr.for_provider ≡ before.cr.for_provider

  Observes-drained :
      (laws : IsRuntime rt) (s : Reconcile rt W) (w : W) (role : Role)
      → is_drained rt s.cr ≡ true
      → Observes s role
          (record { resource_exists = false; resource_up_to_date = false })
          (record { cr = named rt role s.cr; world = w })
  Observes-drained laws s w role d = record {
    exists = rw d;
    up_to_date_iff = ((λ e. absurd (cc)), λ (f, _, _). absurd (cc));
    external_name = laws.get-set_external_name _ _;
    cleared = cleared_of_drained (rt.was_deleted s.cr.object) s.cr.at_provider.cleared d;
    deletion = laws.was_deleted-set_external_name _ _;
    spec = refl;
  }
    where
      cleared_of_drained : (a b : Bool) → (a && b) ≡ true → b ≡ (a && b)
      cleared_of_drained true b e = refl
      cleared_of_drained false b e = absurd (cc)

  Observes-live :
      (laws : IsRuntime rt) (s : Reconcile rt W) (w : W) (role : Role)
      → is_drained rt s.cr ≡ false
      → Observes s role
          (record { resource_exists = true; resource_up_to_date = up_to_date rt role s.cr })
          (record { cr = observed rt role s.cr; world = w })
  Observes-live laws s w role d =
      let same =
        deep_equal-sorted_iff (flatten_permissions role.permissions)
          (elements s.cr.for_provider.permissions) in
      record {
        exists = rw d;
        up_to_date_iff = (λ e. let (n, q) = same.0 e in (d, n, q), λ (_, n, q). same.1 (n, q));
        external_name = laws.get_external_name-set_conditions _ _ ∙ laws.get-set_external_name _ _;
        cleared = sym d;
        deletion = laws.was_deleted-set_conditions _ _ ∙ laws.was_deleted-set_external_name _ _;
        spec = refl;
      }

  -- For a runtime that keeps its laws, where the role is resolved, `Observe` succeeds: it reports absence exactly if the object is being
  -- deleted and its permissions were cleared; it reports an up-to-date resource exactly if that is
  -- not so, the spec lists a permission, and the role's permissions are the spec's sorted ones; the
  -- external name becomes the role's ID, `cleared` stays set only where absence is reported, and the
  -- spec and the deletion mark do not change.
  pub observe-Observes :
      (laws : IsRuntime rt) (s : Reconcile rt W) (role : Role) (w : W)
      → resolve_role rt tables client s ≡ (ok role, record s { world = w })
      → (o : ExternalObservation) × ((observe rt tables client s).0 ≡ ok o)
        × Observes s role o (observe rt tables client s).1
  observe-Observes laws s role w h = elim (Bool-cases (is_drained rt s.cr)) [
    | inl d ↦
        let e = observe_drained laws s (record s { world = w }) role h d in
        (
          record { resource_exists = false; resource_up_to_date = false },
          ap (λ (x : Result ExternalObservation × Reconcile rt W). x.0) e,
          rw e (Observes-drained laws s w role d),
        )
    | inr d ↦
        let e = observe_live laws s (record s { world = w }) role h d in
        (
          record { resource_exists = true; resource_up_to_date = up_to_date rt role s.cr },
          ap (λ (x : Result ExternalObservation × Reconcile rt W). x.0) e,
          rw e (Observes-live laws s w role d),
        )
  ]
