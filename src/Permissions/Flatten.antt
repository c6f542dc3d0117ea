-- ===== src/Permissions/Flatten.antt =====
-- `FlattenPermissions` of internal/clients/strapi/roles.go: the flat list of a tree.
use mathlib.Core.List.{Mem, Perm, mem-map, perm_ext_iff_of_Nodup}
use mathlib.Core.List.Perm
use mathlib.Core.Logic.Iff
use mathlib.Core.Logic.{∥∥₁_map}
use provider_strapi.Prelude.{true, ◌≡◌, ◌↔◌, map}
use provider_strapi.Text.{Text}
use provider_strapi.Text.Sort.Laws.{
  IsSorted, sort_strings-IsSorted, sort_strings-perm, sort_strings-eq_of_perm,
}
use provider_strapi.Permissions.{
  PermissionsByResource, flatten_permissions, flat_resources, flat_name,
}
use provider_strapi.Permissions.Tree.{
  IsTree, enabled_at, enabled_triples, name_of, flat_resources-eq, mem-enabled_triples_iff,
  Nodup-enabled_triples,
}

-- The result of `FlattenPermissions` is ascending.
pub flatten_permissions-IsSorted :
    (tree : PermissionsByResource) → IsSorted (flatten_permissions tree)
unfolding flatten_permissions
flatten_permissions-IsSorted tree = sort_strings-IsSorted (flat_resources tree)

pub flatten_permissions-perm :
    (tree : PermissionsByResource)
    → Perm (flatten_permissions tree) (map name_of (enabled_triples tree))
unfolding flatten_permissions
flatten_permissions-perm tree =
    rw (← flat_resources-eq tree) (sort_strings-perm (flat_resources tree))

-- In a tree of Go maps, a text is listed exactly if it is the flat form of an action that the tree enables.
pub mem-flatten_permissions_iff :
    (tree : PermissionsByResource) (q : Text)
    → IsTree tree
    → Mem q (flatten_permissions tree)
      ↔ ∥ (
          (r : Text) × (c : Text) × (a : Text) × (enabled_at tree r c a ≡ true)
          × (flat_name r c a ≡ q)) ∥₁
mem-flatten_permissions_iff tree q t = Iff.trans (Perm.mem_iff (flatten_permissions-perm tree)) (
    Iff.trans mem-map (
      λ x.
          ∥∥₁_map x (λ ((r, c, a), m, e). (r, c, a, (mem-enabled_triples_iff tree r c a t).0 m, e)),
      λ x.
          ∥∥₁_map x (λ (r, c, a, h, e). ((r, c, a), (mem-enabled_triples_iff tree r c a t).1 h, e)),
    ))

same_triples :
    (tree tree' : PermissionsByResource)
    → IsTree tree
    → IsTree tree'
    → ((r c a : Text) → enabled_at tree r c a ≡ enabled_at tree' r c a)
    → Perm (enabled_triples tree) (enabled_triples tree')
same_triples tree tree' t t' same =
    (perm_ext_iff_of_Nodup (Nodup-enabled_triples tree t) (Nodup-enabled_triples tree' t')).1
      (λ (r, c, a).
        Iff.trans (mem-enabled_triples_iff tree r c a t)
          (rw (same r c a) (Iff.symm (mem-enabled_triples_iff tree' r c a t'))))

-- Two trees of Go maps that enable the same actions are flattened to the same list, in whatever
-- order their entries are visited.
pub flatten_permissions-eq_of_enabled_at :
    (tree tree' : PermissionsByResource)
    → IsTree tree
    → IsTree tree'
    → ((r c a : Text) → enabled_at tree r c a ≡ enabled_at tree' r c a)
    → flatten_permissions tree ≡ flatten_permissions tree'
unfolding flatten_permissions
flatten_permissions-eq_of_enabled_at tree tree' t t' same =
    rw (flat_resources-eq tree, flat_resources-eq tree')
      (sort_strings-eq_of_perm (Perm.map name_of (same_triples tree tree' t t' same)))
