-- ===== src/Roles.antt =====
-- internal/clients/strapi/roles.go: `Role` and `FindRole`.
use provider_strapi.Prelude.{List, [], ◌∷◌, Option, none, some, if◌then◌else◌}
use provider_strapi.Prelude.Int.{ℤ}
use provider_strapi.Text.{Text}
use provider_strapi.Text.Fold.{Unicode, to_lower, equal_fold}
use provider_strapi.Permissions.{PermissionsByResource}
pub mod Find

pub record Role : Type 0 where
  pub id : ℤ
  pub name : Text
  pub description : Text
  pub type : Text
  pub permissions : PermissionsByResource

-- the second loop runs where the first has not returned
or_else : Option Role → Option Role → Option Role
or_else none o = o
or_else (some r) o = some r

module _ (tables : Unicode) where
  -- the loop over the types
  find_type : List Role → Text → Option Role
  find_type [] want = none
  find_type (r ∷ roles) want =
      if equal_fold tables r.type want then some r else find_type roles want

  -- the loop over the names
  find_name : List Role → Text → Option Role
  find_name [] want = none
  find_name (r ∷ roles) want =
      if equal_fold tables r.name want then some r else find_name roles want

  -- `FindRole(roles, selector)`; `none` is `false`
  unfoldable pub find_role : List Role → Text → Option Role
  unfolding find_type find_name or_else
  find_role roles selector =
      let want = to_lower tables selector in or_else (find_type roles want) (find_name roles want)
