-- ===== src/Tests/Data.antt =====
-- What the tests run on: case tables, a runtime object, a server with one role, a network.
use mathlib.Core.List.{mem-singleton}
use provider_strapi.Prelude.{List, [], ◌∷◌, Option, none, Bool, true, false, refl, sym, ap, ◌∙◌}
use provider_strapi.Prelude.Int.{pos}
use provider_strapi.Text.{Text, codes}
use provider_strapi.Text.Fold.{Unicode, IsUnicode, ascii_lower}
use provider_strapi.Permissions.{PermissionsByResource, Action}
use provider_strapi.Roles.{Role}
use provider_strapi.Exec.{ok}
use provider_strapi.Api.{
  Runtime, IsRuntime, Condition, Slice, nil, RolePermissions, RolePermissionsObservation,
  ProviderConfigReference,
}
use provider_strapi.Client.{Json, Config}
use provider_strapi.Controller.External.{StrapiClient, Reconcile}
use provider_strapi.Controller.External.Server.{IsServer, store}

-- the case tables of a repertoire with ASCII letters alone
abbrev pub ascii : Unicode
ascii = record { lower = ascii_lower; fold = ascii_lower }

pub ascii-IsUnicode : IsUnicode ascii
ascii-IsUnicode = record { lower-ascii = λ c h. refl; fold-ascii = λ c d hc hd. (λ e. e, λ e. e) }

-- an object with the fields that the accessors read
pub record TestObject : Type 0 where
  pub external_name : Text
  pub deleted : Bool
  pub conditions : List Condition
  pub reference : Option ProviderConfigReference

abbrev pub runtime : Runtime
runtime = record {
  Object = TestObject;
  get_external_name = λ o. o.external_name;
  set_external_name = λ o n. record o { external_name = n };
  was_deleted = λ o. o.deleted;
  set_conditions = λ o c. record o { conditions = c ∷ o.conditions };
  get_provider_config_reference = λ o. o.reference;
  get_namespace = λ o. codes "team-a";
}

pub runtime-IsRuntime : IsRuntime runtime
runtime-IsRuntime = record {
  get-set_external_name = λ o n. refl;
  was_deleted-set_external_name = λ o n. refl;
  get_external_name-set_conditions = λ o c. refl;
  was_deleted-set_conditions = λ o c. refl;
}

abbrev pub find : Text
find = codes "api::article.article.find"

abbrev pub callback : Text
callback = codes "plugin::users-permissions.auth.callback"

abbrev pub enabled : Action
enabled = record { enabled = true; policy = [] }

abbrev pub disabled : Action
disabled = record { enabled = false; policy = [] }

-- `api::article.article.find` is enabled, `api::article.article.delete` is not
abbrev pub article_tree : PermissionsByResource
article_tree =
    (
      codes "api::article.article",
      record {
        controllers =
            (codes "article", (codes "find", enabled) ∷ (codes "delete", disabled) ∷ []) ∷ [];
      },
    )
    ∷ []

abbrev pub public_role : Role
public_role = record {
  id = pos 2;
  name = codes "Public";
  description = codes "Default role";
  type = codes "public";
  permissions = article_tree;
}

abbrev pub authenticated_role : Role
authenticated_role = record {
  id = pos 1;
  name = codes "Authenticated";
  description = [];
  type = codes "authenticated";
  permissions = [];
}

abbrev pub roles : List Role
roles = authenticated_role ∷ public_role ∷ []

-- a server that holds one role
abbrev pub one_role : StrapiClient Role
one_role = record {
  list_roles = λ w. (ok (w ∷ []), w);
  update_role = λ id role w. (ok tt, store id role role.permissions w);
}

abbrev pub fresh_status : RolePermissionsObservation
fresh_status = record { role_id = pos 0; type = []; permissions = nil; cleared = false }

abbrev pub object : Bool → TestObject
object deleted = record { external_name = []; deleted = deleted; conditions = []; reference = none }

-- a resource for the role `public` that lists some permissions
abbrev pub resource : Bool → Slice → RolePermissions runtime
resource deleted permissions = record {
  object = object deleted;
  for_provider = record { role = codes "Public"; permissions = permissions };
  at_provider = fresh_status;
}

abbrev pub reconcile : RolePermissions runtime → Reconcile runtime Role
reconcile cr = record { cr = cr; world = public_role }

Role-set : IsSet Role
Role-set = hlevel

pub one_role-IsServer : IsServer one_role
one_role-IsServer = record {
  roles_of = λ w. w ∷ [];
  unique_ids = λ w r r' m m' e. (mem-singleton Role-set).0 m ∙ sym ((mem-singleton Role-set).0 m');
  list_roles-keeps = λ w rs w' h. (cc, ap (λ x. x.1 ∷ []) (sym h));
  update_role-stores = λ id role w w' t h. record {
    tree = role.permissions;
    tree-IsTree = t;
    same_actions = λ r c a. refl;
    after-eq = ap (λ x. x.1 ∷ []) (sym h);
  };
}

-- JSON of credentials is their e-mail address, and of a login response its token
abbrev pub json : Json
json = record {
  marshal_credentials = λ c. ok c.email;
  unmarshal_credentials = λ s. ok (record { email = s; password = codes "secret" });
  decode_token = λ s. ok s;
}

abbrev pub config : Config
config = record {
  endpoint = codes "http://strapi//";
  credentials = record { email = codes "admin"; password = codes "secret" };
  insecure_skip_tls_verify = false;
}
