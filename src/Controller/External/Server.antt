-- ===== src/Controller/External/Server.antt =====
-- The Strapi server behind the interface `strapiClient`, by what its API promises: the listing shows
-- the stored roles, IDs are unique, and a PUT replaces the role's fields. The stored tree may differ
-- from the one that was sent as long as it enables the same actions: Strapi lists the disabled ones
-- too, and leaves the order of JSON objects open.
use mathlib.Core.List.{Mem, mem-cons_self, mem-cons_of_mem}
use mathlib.Core.Option
use provider_strapi.Prelude.{
  List, [], ◌∷◌, none, some, true, false, ◌≡◌, refl, sym, ap, ◌∙◌, All, inl, inr, Bool-cases,
  Option-cases, map, if◌then◌else◌,
}
use provider_strapi.Prelude.Int.{ℤ, int_eq, int_eq_iff}
use provider_strapi.Text.{Text}
use provider_strapi.Text.Fold.{Unicode}
use provider_strapi.Decimal.{atoi}
use provider_strapi.Permissions.{PermissionsByResource}
use provider_strapi.Permissions.Tree.{IsTree, enabled_at}
use provider_strapi.Roles.{Role, find_role}
use provider_strapi.Roles.Find.{find_role-map}
use provider_strapi.Exec.{ok}
use provider_strapi.Api.{Runtime, RolePermissions}
use provider_strapi.Controller.External.Resolve.{found_of_ok}
use provider_strapi.Controller.External.{
  StrapiClient, find_id, numeric_name, find_external_name, select_found, select_named, select_role,
}

-- the stored role after a PUT to `id`
abbrev pub store : ℤ → Role → PermissionsByResource → Role → Role
store id role tree r =
    if int_eq r.id id
    then record r {
      name = role.name;
      description = role.description;
      type = role.type;
      permissions = tree;
    }
    else r

-- the roles after a PUT of `role` to `id`
pub record Stored (id : ℤ) (role : Role) (before after : List Role) : Type 0 where
  pub tree : PermissionsByResource
  pub tree-IsTree : IsTree tree
  pub same_actions : (r c a : Text) → enabled_at tree r c a ≡ enabled_at role.permissions r c a
  pub after-eq : after ≡ map (store id role tree) before

pub record IsServer {W : Type 0} (client : StrapiClient W) : Type 0 where
  pub roles_of : W → List Role
  pub unique_ids :
      (w : W) (r r' : Role) → Mem r (roles_of w) → Mem r' (roles_of w) → r.id ≡ r'.id → r ≡ r'
  pub list_roles-keeps :
      (w : W) (roles : List Role) (w' : W)
      → client.list_roles w ≡ (ok roles, w')
      → (roles ≡ roles_of w) × (roles_of w' ≡ roles_of w)
  pub update_role-stores :
      (id : ℤ) (role : Role) (w w' : W)
      → IsTree role.permissions
      → client.update_role id role w ≡ (ok tt, w')
      → Stored id role (roles_of w) (roles_of w')

-- a change of the stored roles that keeps what a role is found by
abbrev pub Keeps : (Role → Role) → Role → Type 0
Keeps f r = ((f r).id ≡ r.id) × ((f r).name ≡ r.name) × ((f r).type ≡ r.type)

Keeps-names :
    (f : Role → Role) (roles : List Role)
    → All (Keeps f) roles
    → All (λ r. ((f r).type ≡ r.type) × ((f r).name ≡ r.name)) roles
Keeps-names f [] k = tt
Keeps-names f (r ∷ roles) ((i, n, t), ks) = ((t, n), Keeps-names f roles ks)

find_id-map :
    (f : Role → Role) (roles : List Role) (id : ℤ)
    → All (Keeps f) roles
    → find_id (map f roles) id ≡ Option.map f (find_id roles id)
unfolding find_id
find_id-map f [] id k = refl
find_id-map f (r ∷ roles) id ((i, _, _), ks) = elim (Bool-cases (int_eq r.id id)) [
  | inl e ↦ let e' : int_eq (f r).id id ≡ true = rw i e in rw (e', e)
  | inr e ↦ let e' : int_eq (f r).id id ≡ false = rw i e in rw (e', e, find_id-map f roles id ks)
]

find_external_name-map :
    (f : Role → Role) (roles : List Role) (name : Text)
    → All (Keeps f) roles
    → find_external_name (map f roles) name ≡ Option.map f (find_external_name roles name)
unfolding find_external_name
find_external_name-map f roles [] k = refl
find_external_name-map f roles (c ∷ name) k = elim (Option-cases (atoi (c ∷ name))) [
  | inl e ↦ rw (e, numeric_name)
  | inr (id, e) ↦ rw (e, numeric_name) (find_id-map f roles id k)
]

module _ (rt : Runtime) (tables : Unicode) where
  -- the same role is selected, in its new form
  pub select_role-map :
      (f : Role → Role) (roles : List Role) (cr : RolePermissions rt) (r : Role)
      → All (Keeps f) roles
      → select_role rt tables roles cr ≡ ok r
      → select_role rt tables (map f roles) cr ≡ ok (f r)
  unfolding select_role
  select_role-map f roles cr r k h =
      let name = rt.get_external_name cr.object in
      let selector = cr.for_provider.role in
      elim (Option-cases (find_external_name roles name)) [
        | inl e ↦
            let missing : find_external_name (map f roles) name ≡ none =
              find_external_name-map f roles name k ∙ ap (Option.map f) e in
            let found = found_of_ok selector _ r (rw (e, select_named) at h) in
            let found' : find_role tables (map f roles) selector ≡ some (f r) =
              find_role-map tables f roles selector (Keeps-names f roles k)
              ∙ ap (Option.map f) found in
            rw (missing, select_named, found', select_found)
        | inr (s, e) ↦
            let h' = rw (e, select_named) at h in
            let same : s ≡ r = cc in
            let found' : find_external_name (map f roles) name ≡ some (f s) =
              find_external_name-map f roles name k ∙ ap (Option.map f) e in
            rw (found', select_named, same)
      ]

store-Keeps :
    (role : Role) (perms tree : PermissionsByResource) (r : Role)
    → (r.id ≡ role.id → r ≡ role)
    → Keeps (store role.id (record role { permissions = perms }) tree) r
store-Keeps role perms tree r h = elim (Bool-cases (int_eq r.id role.id)) [
  | inl e ↦
      let same = h ((int_eq_iff r.id role.id).0 e) in
      rw e (refl, ap (λ (x : Role). x.name) (sym same), ap (λ (x : Role). x.type) (sym same))
  | inr e ↦ rw e (refl, refl, refl)
]

pub All-store-Keeps :
    (role : Role) (perms tree : PermissionsByResource) (roles : List Role)
    → ((r : Role) → Mem r roles → r.id ≡ role.id → r ≡ role)
    → All (Keeps (store role.id (record role { permissions = perms }) tree)) roles
All-store-Keeps role perms tree [] h = tt
All-store-Keeps role perms tree (r ∷ roles) h = (
  store-Keeps role perms tree r (h r mem-cons_self),
  All-store-Keeps role perms tree roles (λ x m. h x (mem-cons_of_mem r m)),
)
