-- ===== src/Controller/External/Deletion.antt =====
-- `Delete` of internal/controller/rolepermissions/rolepermissions.go, and the `Observe` that follows it.
use mathlib.Core.Path.{subst}
use provider_strapi.Text.Sort.{sort_strings}
use provider_strapi.Prelude.{
  List, [], Bool, true, false, ◌≡◌, refl, sym, ap, ◌∙◌, ◌&&◌, inl, inr, not,
}
use provider_strapi.Text.Fold.{Unicode}
use provider_strapi.Permissions.{flatten_permissions}
use provider_strapi.Permissions.Flatten.{flatten_permissions-eq_of_enabled_at}
use provider_strapi.Roles.{Role}
use provider_strapi.Exec.{Result, ok}
use provider_strapi.Api.{Runtime, IsRuntime, RolePermissions}
use provider_strapi.Controller.External.{
  StrapiClient, Reconcile, ExternalObservation, select_role, resolve_role, delete, observe,
}
use provider_strapi.Controller.External.Resolve.{resolve_role-ok}
use provider_strapi.Controller.External.Observe.{is_drained, observe-Observes}
use provider_strapi.Controller.External.Server.{IsServer}
use provider_strapi.Controller.External.Put.{Puts, marked, clear_flag, delete-outcome}
use provider_strapi.Controller.External.Store.{Restored-of_Puts}

flatten_permissions-nil : flatten_permissions [] ≡ []
unfolding flatten_permissions sort_strings
flatten_permissions-nil = refl

select_role-clear_flag :
    (rt : Runtime) (tables : Unicode) {W : Type 0} (client : StrapiClient W) (roles : List Role)
    (t : Reconcile rt W)
    → select_role rt tables roles (clear_flag rt tables client t).cr
      ≡ select_role rt tables roles t.cr
unfolding select_role
select_role-clear_flag rt tables client roles t = refl

module _ (rt : Runtime) (laws : IsRuntime rt) (tables : Unicode) {W : Type 0}
    (client : StrapiClient W) (server : IsServer client) where
  -- the reconcile after a successful clear
  abbrev Drained : List Role → Reconcile rt W → Type 0
  Drained roles u =
      (role : Role) × (o : ExternalObservation) × (select_role rt tables roles u.cr ≡ ok role)
      × (flatten_permissions role.permissions ≡ [])
      × ((observe rt tables client u).0 ≡ ok o)
      × (o.resource_exists ≡ false)

  Drained-of_clear :
      (s t : Reconcile rt W) (roles : List Role) (w : W)
      → rt.was_deleted s.cr.object ≡ true
      → Puts rt tables client [] (marked rt tables client s) t
      → client.list_roles t.world ≡ (ok roles, w)
      → Drained roles (clear_flag rt tables client t)
  Drained-of_clear s t roles w deleted p l =
      let u = clear_flag rt tables client t in
      let before = marked rt tables client s in
      let found = Restored-of_Puts rt tables client server [] (tt, tt) before t p roles w l in
      let same_cr : t.cr ≡ before.cr = ap (λ (x : Reconcile rt W). x.cr) p.after-eq in
      let selected : select_role rt tables roles u.cr ≡ ok found.role =
        select_role-clear_flag rt tables client roles t
        ∙ ap (select_role rt tables roles) same_cr
        ∙ found.selected in
      let resolved : resolve_role rt tables client u ≡ (ok found.role, record u { world = w }) =
        resolve_role-ok rt tables client u roles w l
        ∙ ap (λ (r : Result Role). (r, record u { world = w })) selected in
      let gone : rt.was_deleted t.cr.object ≡ true =
        ap (λ (cr : RolePermissions rt). rt.was_deleted cr.object) same_cr
        ∙ laws.was_deleted-set_conditions _ _
        ∙ deleted in
      let drained : is_drained rt u.cr ≡ true = ap (λ (b : Bool). b && true) gone in
      let (o, e, seen) = observe-Observes rt tables client laws u found.role w resolved in
      (
        found.role,
        o,
        selected,
        flatten_permissions-eq_of_enabled_at _ [] found.role-IsTree (tt, tt) found.same_actions
            ∙ flatten_permissions-nil,
        e,
        seen.exists ∙ ap not drained,
      )

  -- For a runtime and a server that keep their laws, and an object that is being deleted, where `Delete`
  -- succeeds and the next listing does, the role
  -- that the resource resolves to then has no enabled permission, and `Observe` reports absence.
  pub observe-delete :
      (s : Reconcile rt W) (roles : List Role) (w : W)
      → rt.was_deleted s.cr.object ≡ true
      → (delete rt tables client s).0 ≡ ok tt
      → client.list_roles (delete rt tables client s).1.world ≡ (ok roles, w)
      → (role : Role) × (o : ExternalObservation) × (select_role rt tables roles
            (delete rt tables client s).1.cr
          ≡ ok role)
        × (flatten_permissions role.permissions ≡ [])
        × ((observe rt tables client (delete rt tables client s).1).0 ≡ ok o)
        × (o.resource_exists ≡ false)
  observe-delete s roles w deleted h l = elim (delete-outcome rt tables client s).1 [
    | inr (e, f, _) ↦ absurd (cc)
    | inl (_, (t, p, e)) ↦
        subst (Drained roles) (sym e) (Drained-of_clear s t roles w deleted p (rw e at l))
  ]
