-- ===== src/Tests/Permissions.antt =====
-- Permissions: the parser, the two directions and the sorting.
use mathlib.Core.List.{Mem, Nodup, Perm}
use provider_strapi.Prelude.{
  List, [], ◌∷◌, none, some, true, ◌≡◌, refl, ◌↔◌, ◌⊎◌, arith, All, if◌then◌else◌,
}
use provider_strapi.Prelude.Int.{pos}
use provider_strapi.Text.{Text, codes, text_eq, last_index, has_prefix, index}
use provider_strapi.Text.Order.{text_less}
use provider_strapi.Text.Sort.{sort_strings}
use provider_strapi.Text.Sort.Laws.{sort_strings-eq_iff_perm}
use provider_strapi.Decimal.{itoa, atoi}
use provider_strapi.Decimal.RoundTrip.{atoi-itoa}
use provider_strapi.GoMap.{lookup, insert}
use provider_strapi.Permissions.{
  PermissionsByResource, split_flat, flat_name, implicit_controller, flatten_permissions,
  expand_permissions,
}
use provider_strapi.Permissions.Grammar.{Spells, explicit_name, IsApi}
use provider_strapi.Permissions.Split.{split_flat-iff_Spells}
use provider_strapi.Permissions.Names.{split_flat-flat_name, flat_name-split_flat}
use provider_strapi.Permissions.Tree.{action_at, enabled_at, IsTree}
use provider_strapi.Permissions.Flatten.{
  mem-flatten_permissions_iff, flatten_permissions-eq_of_enabled_at,
}
use provider_strapi.Permissions.Expand.{
  lists, action_at-expand_permissions, enabled_at-expand_permissions_iff,
}
use provider_strapi.Permissions.RoundTrip.{IsCanonical, flatten-expand_iff}
use provider_strapi.Tests.Data.{find, callback, enabled, article_tree}

abbrev article : Text
article = codes "api::article.article"

abbrev both : List Text
both = find ∷ callback ∷ []

abbrev many_dots : Text
many_dots = codes "plugin::p..c.act"

program : Unit {0}
unfolding split_flat flatten_permissions expand_permissions sort_strings flat_name
    implicit_controller enabled_at lookup insert itoa atoi text_eq text_less last_index has_prefix
    index
program = tt

-- `TestExpandThenFlatten` and `TestFlattenPermissions` of roles_test.go
flatten_expand_run : flatten_permissions (expand_permissions (callback ∷ find ∷ [])) ≡ both
unfolding program
flatten_expand_run = refl

flatten_run : flatten_permissions article_tree ≡ find ∷ []
unfolding program
flatten_run = refl

-- entries that are not a permission are dropped
expand_malformed :
    expand_permissions (codes "find" ∷ codes "api::a.find" ∷ codes ".x" ∷ [])
    ≡ expand_permissions (codes "api::a.find" ∷ [])
unfolding program
expand_malformed = refl

-- an empty segment passes
split_empty_segment : split_flat many_dots ≡ some (codes "plugin::p", codes ".c", codes "act")
unfolding program
split_empty_segment = refl

split_find : split_flat find ≡ some (article, codes "article", codes "find")
unfolding program
split_find = refl

explicit_find : Text
explicit_find = codes "api::article.article.article.find"

split_flat-iff_Spells_example :
    (split_flat find ≡ some (article, codes "article", codes "find"))
    ↔ Spells find article (codes "article") (codes "find")
split_flat-iff_Spells_example = split_flat-iff_Spells find article (codes "article") (codes "find")

split_flat-flat_name_example :
    split_flat (flat_name article (codes "article") (codes "find"))
    ≡ some (article, codes "article", codes "find")
split_flat-flat_name_example =
    split_flat-flat_name find article (codes "article") (codes "find") split_find

flat_name-split_flat_example :
    (flat_name article (codes "article") (codes "find") ≡ find)
    ⊎ (IsApi article (codes "article")
        × (find ≡ explicit_name article (codes "article") (codes "find")))
flat_name-split_flat_example =
    flat_name-split_flat find article (codes "article") (codes "find") split_find

article_tree-IsTree : IsTree article_tree
article_tree-IsTree = ((tt, tt), (((tt, tt), ((((λ e. cc), tt), (tt, tt)), tt)), tt))

mem-flatten_permissions_iff_example :
    Mem find (flatten_permissions article_tree)
    ↔ ∥ (
        (r : Text) × (c : Text) × (a : Text) × (enabled_at article_tree r c a ≡ true)
        × (flat_name r c a ≡ find)) ∥₁
mem-flatten_permissions_iff_example =
    mem-flatten_permissions_iff article_tree find article_tree-IsTree

-- without the disabled action
abbrev lean_tree : PermissionsByResource
lean_tree =
    (article, record { controllers = (codes "article", (codes "find", enabled) ∷ []) ∷ [] }) ∷ []

lean_tree-IsTree : IsTree lean_tree
lean_tree-IsTree = ((tt, tt), (((tt, tt), ((tt, tt), tt)), tt))

same_enabled : (r c a : Text) → enabled_at article_tree r c a ≡ enabled_at lean_tree r c a
unfolding enabled_at lookup
same_enabled r c a = ground arith

flatten_permissions-eq_of_enabled_at_example :
    flatten_permissions article_tree ≡ flatten_permissions lean_tree
flatten_permissions-eq_of_enabled_at_example =
    flatten_permissions-eq_of_enabled_at article_tree lean_tree article_tree-IsTree lean_tree-IsTree
      same_enabled

action_at-expand_permissions_example :
    action_at (expand_permissions both) article (codes "article") (codes "find")
    ≡ (if lists both article (codes "article") (codes "find") then some enabled else none)
action_at-expand_permissions_example =
    action_at-expand_permissions both article (codes "article") (codes "find")

enabled_at-expand_permissions_iff_example :
    (enabled_at (expand_permissions both) article (codes "article") (codes "find") ≡ true)
    ↔ ∥ (
        (p : Text) × Mem p both × (split_flat p ≡ some (article, codes "article", codes "find"))) ∥₁
enabled_at-expand_permissions_iff_example =
    enabled_at-expand_permissions_iff both article (codes "article") (codes "find")

flatten-expand_iff_example :
    (flatten_permissions (expand_permissions both) ≡ sort_strings both)
    ↔ (Nodup both × All IsCanonical both)
flatten-expand_iff_example = flatten-expand_iff both

sort_strings-eq_iff_perm_example :
    (sort_strings both ≡ sort_strings (callback ∷ find ∷ [])) ↔ Perm both (callback ∷ find ∷ [])
sort_strings-eq_iff_perm_example = sort_strings-eq_iff_perm both (callback ∷ find ∷ [])

atoi-itoa_example : atoi (itoa (pos 2)) ≡ some (pos 2)
atoi-itoa_example = atoi-itoa (pos 2) (omega arith)
