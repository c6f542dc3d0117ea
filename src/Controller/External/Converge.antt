-- ===== src/Controller/External/Converge.antt =====
-- After a successful `Update`, what the next `Observe` says.
use mathlib.Core.List.{Nodup}
use mathlib.Core.Path.{subst}
use provider_strapi.Prelude.{List, [], true, false, ◌≡◌, ◌≢◌, sym, ap, ◌∙◌, ◌↔◌, All}
use provider_strapi.Text.Fold.{Unicode}
use provider_strapi.Text.Sort.{sort_strings}
use provider_strapi.Permissions.{flatten_permissions, expand_permissions}
use provider_strapi.Permissions.Flatten.{flatten_permissions-eq_of_enabled_at}
use provider_strapi.Permissions.Expand.{expand_permissions-IsTree}
use provider_strapi.Permissions.RoundTrip.{IsCanonical, flatten-expand_iff}
use provider_strapi.Roles.{Role}
use provider_strapi.Exec.{Result, ok}
use provider_strapi.Api.{Runtime, IsRuntime, RolePermissions, elements}
use provider_strapi.Controller.External.{
  StrapiClient, Reconcile, ExternalObservation, select_role, resolve_role, update, observe,
}
use provider_strapi.Controller.External.Resolve.{resolve_role-ok}
use provider_strapi.Controller.External.Observe.{is_drained, observe-Observes}
use provider_strapi.Controller.External.Server.{IsServer}
use provider_strapi.Controller.External.Put.{wanted, update-Puts}
use provider_strapi.Controller.External.Store.{Restored-of_Puts}

module _ (rt : Runtime) (laws : IsRuntime rt) (tables : Unicode) {W : Type 0}
    (client : StrapiClient W) (server : IsServer client) where
  -- For a runtime and a server that keep their laws, where an `Update` succeeded and the next listing
  -- does, `Observe` succeeds too and finds the resource up to date
  -- exactly if the object is not at the end of a deletion and the spec's list has an entry, has none
  -- twice, and holds each in the form that `FlattenPermissions` writes.
  pub observe-update :
      (s : Reconcile rt W) (roles : List Role) (w : W)
      → (update rt tables client s).0 ≡ ok tt
      → client.list_roles (update rt tables client s).1.world ≡ (ok roles, w)
      → (o : ExternalObservation) × ((observe rt tables client (update rt tables client s).1).0
          ≡ ok o)
        × ((o.resource_up_to_date ≡ true) ↔ (
            (is_drained rt s.cr ≡ false)
            × (elements s.cr.for_provider.permissions ≢ [])
            × Nodup (elements s.cr.for_provider.permissions)
            × All IsCanonical (elements s.cr.for_provider.permissions)))
  observe-update s roles w h l =
      let t = (update rt tables client s).1 in
      let p = update-Puts rt tables client s h in
      let spec = elements s.cr.for_provider.permissions in
      let sent = expand_permissions-IsTree spec in
      let found =
        Restored-of_Puts rt tables client server (wanted rt tables client s) sent s t p roles w l in
      let same_cr : t.cr ≡ s.cr = ap (λ (x : Reconcile rt W). x.cr) p.after-eq in
      let resolved : resolve_role rt tables client t ≡ (ok found.role, record t { world = w }) =
        resolve_role-ok rt tables client t roles w l
        ∙ ap (λ (r : Result Role). (r, record t { world = w }))
            (ap (select_role rt tables roles) same_cr ∙ found.selected) in
      let (o, e, seen) = observe-Observes rt tables client laws t found.role w resolved in
      let same : flatten_permissions found.role.permissions
          ≡ flatten_permissions (expand_permissions spec) =
        flatten_permissions-eq_of_enabled_at _ _ found.role-IsTree sent found.same_actions in
      let seen' =
        subst
          (λ (cr : RolePermissions rt). (o.resource_up_to_date ≡ true) ↔ (
            (is_drained rt cr ≡ false)
            × (elements cr.for_provider.permissions ≢ [])
            × (flatten_permissions found.role.permissions
                ≡ sort_strings (elements cr.for_provider.permissions))))
          same_cr seen.up_to_date_iff in
      let back = flatten-expand_iff spec in
      (
        o,
        e,
        (
          λ u.
              let (d, n, q) = seen'.0 u in
              let (nodup, canonical) = back.0 (sym same ∙ q) in (d, n, nodup, canonical),
          λ (d, n, nodup, canonical). seen'.1 (d, n, same ∙ back.1 (nodup, canonical)),
        ),
      )
