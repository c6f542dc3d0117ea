-- ===== src/Controller/External/Stable.antt =====
-- `Observe` of internal/controller/rolepermissions/rolepermissions.go, once more on what it left.
use mathlib.Core.Path.{subst}
use mathlib.Core.List.{Mem, mem-cons, not-mem-nil}
use mathlib.Core.Bool.{Bool-set}
use mathlib.Core.Logic.Or
use provider_strapi.Prelude.{
  List, [], ◌∷◌, none, Bool, true, false, not, ◌&&◌, ◌≡◌, refl, sym, ap, ◌∙◌, ◌↔◌, inl, inr,
  Bool-cases, Option-cases,
}
use provider_strapi.Prelude.Int.{int_eq, int_eq_iff, InRange}
use provider_strapi.Text.Fold.{Unicode}
use provider_strapi.Roles.{Role}
use provider_strapi.Roles.Find.{IsFirst}
use provider_strapi.Exec.{Result, ok}
use provider_strapi.Api.{Runtime, IsRuntime}
use provider_strapi.Controller.External.{
  StrapiClient, Reconcile, ExternalObservation, find_id, select_role, resolve_role, observe,
}
use provider_strapi.Controller.External.Resolve.{
  has_id, find_id-IsFirst, select_role_pinned, resolve_role-ok,
}
use provider_strapi.Controller.External.Observe.{
  is_drained, Observes, observe-Observes, observe_drained, observe_live,
}
use provider_strapi.Controller.External.Server.{IsServer}
use provider_strapi.Controller.External.Store.{mem_of_selected, mem_of_IsFirst}

not_none : (roles : List Role) (r : Role) → find_id roles r.id ≡ none → Mem r roles → true ≡ false
unfolding find_id
not_none [] r h m = absurd (not-mem-nil m)
not_none (s ∷ roles) r h m = elim (Bool-cases (int_eq s.id r.id)) [
  | inl e ↦ absurd (let h' = rw e at h in cc)
  | inr e ↦
      let h' = rw e at h in
      Or.elim (Bool-set true false) (mem-cons.0 m)
        (λ q. let id = (int_eq_iff s.id r.id).1 (ap (λ (x : Role). x.id) (sym q)) in absurd (cc))
        (λ m'. not_none roles r h' m')
]

-- a role of a list of unique IDs is the first with its ID
IsFirst_of_Mem :
    (roles : List Role) (r : Role)
    → ((r' : Role) → Mem r' roles → r'.id ≡ r.id → r' ≡ r)
    → Mem r roles
    → IsFirst (has_id r.id) roles r
IsFirst_of_Mem roles r unique m = elim (Option-cases (find_id roles r.id)) [
  | inl e ↦ absurd (let clash = not_none roles r e m in cc)
  | inr (r', e) ↦
      let f = find_id-IsFirst roles r.id r' e in
      let same = unique r' (mem_of_IsFirst roles r' f) ((int_eq_iff r'.id r.id).0 f.passes) in
      subst (IsFirst (has_id r.id) roles) same f
]

bool_of_iff : (a b : Bool) → (a ≡ true) ↔ (b ≡ true) → a ≡ b
bool_of_iff true true h = refl
bool_of_iff false false h = refl
bool_of_iff true false h = sym (h.0 refl)
bool_of_iff false true h = h.1 refl

same_drained : (d c c' : Bool) → c' ≡ (d && c) → (d && c') ≡ (d && c)
same_drained true c c' h = h
same_drained false c c' h = refl

module _ (rt : Runtime) (laws : IsRuntime rt) (tables : Unicode) {W : Type 0}
    (client : StrapiClient W) (server : IsServer client) where
  observe-world :
      (s t : Reconcile rt W) (role : Role)
      → resolve_role rt tables client s ≡ (ok role, t)
      → (observe rt tables client s).1.world ≡ t.world
  observe-world s t role h = elim (Bool-cases (is_drained rt t.cr)) [
    | inl d ↦ ap (λ x. x.1.world) (observe_drained rt tables client laws s t role h d)
    | inr d ↦ ap (λ x. x.1.world) (observe_live rt tables client laws s t role h d)
  ]

  same_report :
      (s t : Reconcile rt W) (role : Role) (o o' : ExternalObservation) (u : Reconcile rt W)
      → Observes rt tables client s role o t
      → Observes rt tables client t role o' u
      → o' ≡ o
  same_report s t role o o' u a b =
      let drained : is_drained rt t.cr ≡ is_drained rt s.cr =
        ap (λ x. x && t.cr.at_provider.cleared) a.deletion
        ∙ same_drained (rt.was_deleted s.cr.object) s.cr.at_provider.cleared
            t.cr.at_provider.cleared a.cleared in
      let exists : o'.resource_exists ≡ o.resource_exists =
        b.exists ∙ ap not drained ∙ sym a.exists in
      let same : o'.resource_up_to_date ≡ o.resource_up_to_date = bool_of_iff _ _ (
        λ e.
            let (d, n, q) = b.up_to_date_iff.0 e in
            a.up_to_date_iff.1 (rw drained at d, rw a.spec at n, rw a.spec at q),
        λ e.
            let (d, n, q) = a.up_to_date_iff.0 e in
            b.up_to_date_iff.1 (rw drained d, rw a.spec n, rw a.spec q),
      ) in
      λ i. record { resource_exists = exists i; resource_up_to_date = same i }

  -- For a runtime and a server that keep their laws, where `Observe` resolved a role with an ID of 64
  -- bits and the next listing succeeds, with no write between them, the next `Observe` reports the same.
  pub observe-observe :
      (s : Reconcile rt W) (roles roles' : List Role) (role : Role) (w w' : W)
      → client.list_roles s.world ≡ (ok roles, w)
      → select_role rt tables roles s.cr ≡ ok role
      → InRange role.id
      → client.list_roles (observe rt tables client s).1.world ≡ (ok roles', w')
      → (o : ExternalObservation) × ((observe rt tables client s).0 ≡ ok o)
        × ((observe rt tables client (observe rt tables client s).1).0 ≡ ok o)
  observe-observe s roles roles' role w w' l selected range l' =
      let t = (observe rt tables client s).1 in
      let resolved : resolve_role rt tables client s ≡ (ok role, record s { world = w }) =
        resolve_role-ok rt tables client s roles w l
        ∙ ap (λ (r : Result Role). (r, record s { world = w })) selected in
      let (o, e, seen) = observe-Observes rt tables client laws s role w resolved in
      let world : t.world ≡ w = observe-world s (record s { world = w }) role resolved in
      let (now, kept) = server.list_roles-keeps s.world roles w l in
      let (then_now, _) = server.list_roles-keeps t.world roles' w' l' in
      let same : roles' ≡ roles = then_now ∙ ap server.roles_of world ∙ kept ∙ sym now in
      let member = mem_of_selected rt tables roles s.cr role selected in
      let first =
        IsFirst_of_Mem roles role
          (λ r m q. server.unique_ids s.world r role (rw now at m) (rw now at member) q) member in
      let pinned : select_role rt tables roles' t.cr ≡ ok role =
        ap (λ x. select_role rt tables x t.cr) same
        ∙ select_role_pinned rt tables roles t.cr role.id role range seen.external_name first in
      let resolved' : resolve_role rt tables client t ≡ (ok role, record t { world = w' }) =
        resolve_role-ok rt tables client t roles' w' l'
        ∙ ap (λ (r : Result Role). (r, record t { world = w' })) pinned in
      let (o', e', seen') = observe-Observes rt tables client laws t role w' resolved' in
      (o, e, e' ∙ ap ok (same_report s t role o o' _ seen seen'))
