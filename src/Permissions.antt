-- ===== src/Permissions.antt =====
-- internal/clients/strapi/roles.go: the permission tree of a role, `FlattenPermissions`,
-- `ExpandPermissions` and the parsers of the flat form.
pub mod Grammar
mod Cuts
pub mod Split
pub mod Names
pub mod Tree
pub mod Flatten
pub mod Expand
pub mod RoundTrip
use provider_strapi.Prelude.{
  ℕ, suc, ◌+◌, List, [], ◌∷◌, ◌++◌, Option, none, some, Bool, true, false, not, ◌||◌, leb, ◌==◌,
  if◌then◌else◌, length, take, drop,
}
use provider_strapi.Text.{Text, codes, text_eq, is_empty, has_prefix, index, last_index}
use provider_strapi.Text.Sort.{sort_strings}
use provider_strapi.GoMap.{Map, lookup, insert}

pub record Action : Type 0 where
  pub enabled : Bool
  pub policy : Text

pub record ResourcePermissions : Type 0 where
  pub controllers : Map (Map Action)

abbrev pub PermissionsByResource : Type 0
PermissionsByResource = Map ResourcePermissions

abbrev pub dot : ℕ
dot = b'.'

abbrev pub api_prefix : Text
api_prefix = codes "api::"

abbrev pub plugin_prefix : Text
plugin_prefix = codes "plugin::"

-- the last segment of `resource` equals `controller`
same_last : Text → Text → Option ℕ → Bool
same_last resource controller none = false
same_last resource controller (some last) = text_eq (drop (last + 1) resource) controller

unfoldable pub implicit_controller : Text → Text → Bool
unfolding same_last
implicit_controller resource controller =
    if not (has_prefix resource api_prefix)
    then false
    else same_last resource controller (last_index resource dot)

-- the flat form of one action, as `FlattenPermissions` writes it
unfoldable pub flat_name : Text → Text → Text → Text
flat_name resource controller action =
    if implicit_controller resource controller
    then resource ++ (dot ∷ action)
    else resource ++ (dot ∷ (controller ++ (dot ∷ action)))

-- the loop over the actions of one controller
flat_actions : Text → Text → Map Action → List Text
flat_actions resource controller [] = []
flat_actions resource controller ((action, a) ∷ rest) =
    let names = flat_actions resource controller rest in
    if not a.enabled then names else flat_name resource controller action ∷ names

-- the loop over the controllers of one resource
flat_controllers : Text → Map (Map Action) → List Text
flat_controllers resource [] = []
flat_controllers resource ((controller, actions) ∷ rest) =
    flat_actions resource controller actions ++ flat_controllers resource rest

-- the loop over the resources
pub flat_resources : PermissionsByResource → List Text
flat_resources [] = []
flat_resources ((resource, rp) ∷ rest) =
    flat_controllers resource rp.controllers ++ flat_resources rest

unfoldable pub flatten_permissions : PermissionsByResource → List Text
unfolding flat_actions flat_controllers flat_resources
flatten_permissions p = sort_strings (flat_resources p)

-- `splitAPI` behind the dot at `first_dot`
split_api_tail : Text → Text → ℕ → Option ℕ → Text → Option (Text × Text)
split_api_tail before after_prefix first_dot (some d) tail =
    some (api_prefix ++ take (first_dot + 1 + d) after_prefix, drop (d + 1) tail)
split_api_tail before after_prefix first_dot none tail =
    if is_empty tail then none else some (before, tail)

split_api_at : Text → Text → Option ℕ → Option (Text × Text)
split_api_at before after_prefix none = none
split_api_at before after_prefix (some first_dot) =
    if leb first_dot 0
    then none
    else let tail = drop (first_dot + 1) after_prefix in
      split_api_tail before after_prefix first_dot (index tail dot) tail

unfoldable pub split_api : Text → Option (Text × Text)
unfolding split_api_tail split_api_at
split_api before =
    let after_prefix = drop (length api_prefix) before in
    split_api_at before after_prefix (index after_prefix dot)

split_plugin_at : Text → Option ℕ → Option (Text × Text)
split_plugin_at after_prefix none = none
split_plugin_at after_prefix (some first_dot) =
    if leb first_dot 0 || (first_dot + 1) == length after_prefix
    then none
    else some (plugin_prefix ++ take first_dot after_prefix, drop (first_dot + 1) after_prefix)

unfoldable pub split_plugin : Text → Option (Text × Text)
unfolding split_plugin_at
split_plugin before =
    let after_prefix = drop (length plugin_prefix) before in
    split_plugin_at after_prefix (index after_prefix dot)

-- the `switch` on the prefix
pub split_resource : Text → Option (Text × Text)
unfolding split_api split_plugin
split_resource before =
    if has_prefix before api_prefix
    then split_api before
    else if has_prefix before plugin_prefix
    then split_plugin before
    else none

-- the test after the `switch`
pub check_parts : Text → Option (Text × Text) → Option (Text × Text × Text)
check_parts action none = none
check_parts action (some (resource, controller)) =
    if is_empty resource || is_empty controller then none else some (resource, controller, action)

split_flat_at : Text → Option ℕ → Option (Text × Text × Text)
unfolding split_resource check_parts
split_flat_at p none = none
split_flat_at p (some last_dot) =
    if leb last_dot 0 || (last_dot + 1) == length p
    then none
    else check_parts (drop (last_dot + 1) p) (split_resource (take last_dot p))

-- `splitFlat(p)`; `none` is `ok == false`
unfoldable pub split_flat : Text → Option (Text × Text × Text)
unfolding split_flat_at
split_flat p = split_flat_at p (last_index p dot)

abbrev controllers_of : Option ResourcePermissions → Map (Map Action)
controllers_of none = []
controllers_of (some rp) = rp.controllers

abbrev actions_of : Option (Map Action) → Map Action
actions_of none = []
actions_of (some actions) = actions

abbrev granted : Action
granted = record { enabled = true; policy = [] }

-- the writes of one round of `ExpandPermissions`
grant : PermissionsByResource → Text → Text → Text → PermissionsByResource
grant out resource controller action =
    let controllers = controllers_of (lookup out resource) in
    let actions = actions_of (lookup controllers controller) in
    insert out resource
      (record { controllers = insert controllers controller (insert actions action granted) })

expand_round : PermissionsByResource → Option (Text × Text × Text) → PermissionsByResource
unfolding grant
expand_round out none = out
expand_round out (some (resource, controller, action)) = grant out resource controller action

expand_from : PermissionsByResource → List Text → PermissionsByResource
unfolding expand_round
expand_from out [] = out
expand_from out (p ∷ flat) = expand_from (expand_round out (split_flat p)) flat

unfoldable pub expand_permissions : List Text → PermissionsByResource
unfolding expand_from
expand_permissions flat = expand_from [] flat
