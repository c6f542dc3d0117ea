-- ===== src/Controller/External/Store.antt =====
-- What the next reconcile finds after a successful PUT.
use mathlib.Core.List.{Mem, mem-cons_self, mem-append_right}
use provider_strapi.Prelude.{List, Bool, ◌≡◌, refl, sym, ap, ◌∙◌, inl, inr, map}
use provider_strapi.Prelude.Int.{int_eq_iff}
use provider_strapi.Text.{Text}
use provider_strapi.Text.Fold.{Unicode}
use provider_strapi.Permissions.{PermissionsByResource}
use provider_strapi.Permissions.Tree.{IsTree, enabled_at}
use provider_strapi.Roles.{Role}
use provider_strapi.Roles.Find.{IsFirst}
use provider_strapi.Exec.{ok}
use provider_strapi.Api.{Runtime, RolePermissions}
use provider_strapi.Controller.External.{StrapiClient, Reconcile, select_role}
use provider_strapi.Controller.External.Resolve.{Resolves, select_role-iff_Resolves}
use provider_strapi.Controller.External.Server.{IsServer, store, All-store-Keeps, select_role-map}
use provider_strapi.Controller.External.Put.{Puts}

pub mem_of_IsFirst :
    {test : Role → Bool} (roles : List Role) (r : Role) → IsFirst test roles r → Mem r roles
mem_of_IsFirst roles r f = rw f.place (mem-append_right f.before mem-cons_self)

pub mem_of_selected :
    (rt : Runtime) (tables : Unicode) (roles : List Role) (cr : RolePermissions rt) (r : Role)
    → select_role rt tables roles cr ≡ ok r
    → Mem r roles
mem_of_selected rt tables roles cr r h = read ((select_role-iff_Resolves rt tables roles cr r).0 h)
  where
    read : Resolves rt tables roles cr r → Mem r roles
    read (inl n) = mem_of_IsFirst roles r n.first
    read (inr (_, inl f)) = mem_of_IsFirst roles r f
    read (inr (_, inr (_, f))) = mem_of_IsFirst roles r f

store_self :
    (role : Role) (sent : Role) (tree : PermissionsByResource)
    → ((store role.id sent tree role).permissions ≡ tree)
      × ((store role.id sent tree role).id ≡ role.id)
store_self role sent tree = rw ((int_eq_iff role.id role.id).1 refl) (refl, refl)

module _ (rt : Runtime) (tables : Unicode) {W : Type 0} (client : StrapiClient W)
    (server : IsServer client) where
  -- the role that the same resource resolves to in the next listing
  pub record Restored (tree : PermissionsByResource) (cr : RolePermissions rt) (old : Role)
      (roles : List Role) : Type 0 where
    pub role : Role
    pub selected : select_role rt tables roles cr ≡ ok role
    pub same_id : role.id ≡ old.id
    pub role-IsTree : IsTree role.permissions
    pub same_actions : (r c a : Text) → enabled_at role.permissions r c a ≡ enabled_at tree r c a

  pub Restored-of_Puts :
      (tree : PermissionsByResource) (is_tree : IsTree tree) (s t : Reconcile rt W)
      (p : Puts rt tables client tree s t) (roles' : List Role) (w' : W)
      → client.list_roles t.world ≡ (ok roles', w')
      → Restored tree s.cr p.role roles'
  Restored-of_Puts tree is_tree s t p roles' w' l =
      let role = p.role in
      let sent : Role = record role { permissions = tree } in
      let (old, kept) = server.list_roles-keeps s.world p.roles p.listing_world p.listing in
      let stored =
        server.update_role-stores role.id sent p.listing_world p.put_world is_tree p.written in
      let (new, _) = server.list_roles-keeps p.put_world roles' w' (rw p.after-eq at l) in
      let moved : roles' ≡ map (store role.id sent stored.tree) p.roles =
        new ∙ stored.after-eq ∙ ap (map (store role.id sent stored.tree)) (kept ∙ sym old) in
      let member = mem_of_selected rt tables p.roles s.cr role p.selected in
      let keeps =
        All-store-Keeps role tree stored.tree p.roles
          (λ r m e. server.unique_ids s.world r role (rw old at m) (rw old at member) e) in
      let (perms, id) = store_self role sent stored.tree in
      record {
        role = store role.id sent stored.tree role;
        selected = rw moved (
            select_role-map rt tables (store role.id sent stored.tree) p.roles s.cr role keeps
              p.selected);
        same_id = id;
        role-IsTree = rw perms stored.tree-IsTree;
        same_actions = λ r c a. rw perms (stored.same_actions r c a);
      }
