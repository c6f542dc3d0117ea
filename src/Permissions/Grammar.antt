-- ===== src/Permissions/Grammar.antt =====
-- The flat form of a permission, described without the parser: which resources, controllers and
-- actions there are, and how one is spelled.
use provider_strapi.Prelude.{[], ◌∷◌, ◌++◌, ◌≡◌, ◌≢◌, ◌⊎◌}
use provider_strapi.Text.{Text, Lacks}
use provider_strapi.Permissions.{dot, api_prefix, plugin_prefix}

-- `<resource>.<action>`, with the controller left out
abbrev pub implicit_name : Text → Text → Text
implicit_name resource action = resource ++ (dot ∷ action)

-- `<resource>.<controller>.<action>`
abbrev pub explicit_name : Text → Text → Text → Text
explicit_name resource controller action = resource ++ (dot ∷ (controller ++ (dot ∷ action)))

-- `api::<api>.<contentType>`: neither part holds a dot, and `<api>` is not empty
pub record IsApi (resource content_type : Text) : Type 0 where
  pub api : Text
  pub spelled : resource ≡ api_prefix ++ (api ++ (dot ∷ content_type))
  pub api-ne-nil : api ≢ []
  pub api-Lacks : Lacks dot api
  pub content_type-Lacks : Lacks dot content_type

-- `plugin::<plugin>`, a plugin's name without dots and not empty
pub record IsPlugin (resource : Text) : Type 0 where
  pub plugin : Text
  pub spelled : resource ≡ plugin_prefix ++ plugin
  pub plugin-ne-nil : plugin ≢ []
  pub plugin-Lacks : Lacks dot plugin

abbrev pub IsResource : Text → Type 0
IsResource resource = ((content_type : Text) × IsApi resource content_type) ⊎ IsPlugin resource

-- a controller may hold dots, an action holds none
pub record IsTriple (resource controller action : Text) : Type 0 where
  pub resource-IsResource : IsResource resource
  pub controller-ne-nil : controller ≢ []
  pub action-ne-nil : action ≢ []
  pub action-Lacks : Lacks dot action

-- `p` spells the triple, with the controller written out or implied by the content type
abbrev pub Spells : Text → Text → Text → Text → Type 0
Spells p resource controller action =
    IsTriple resource controller action
    × ((p ≡ explicit_name resource controller action)
        ⊎ (IsApi resource controller × (p ≡ implicit_name resource action)))
