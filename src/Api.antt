-- ===== src/Api.antt =====
-- apis/permissions/v1alpha1: the `RolePermissions` resource, over the object of crossplane-runtime
-- that it embeds; and the Go slices that it holds.
use provider_strapi.Prelude.{List, [], ◌∷◌, Option, Bool, true, false, ◌&&◌, ◌≡◌}
use provider_strapi.Prelude.Int.{ℤ}
use provider_strapi.Text.{Text, text_eq}
use provider_strapi.Text.Sort.{sort_strings}
pub mod Slices

-- `[]string`: the nil slice differs from a slice of no elements
pub data Slice : Type 0 where
  nil : Slice
  items : List Text → Slice

abbrev pub elements : Slice → List Text
elements nil = []
elements (items l) = l

-- `append([]string(nil), s...)`, which is nil where there is nothing to append
unfoldable pub append_to_nil : List Text → Slice
append_to_nil [] = nil
append_to_nil (x ∷ l) = items (x ∷ l)

-- `sort.Strings(s)`
unfoldable pub sort_slice : Slice → Slice
sort_slice nil = nil
sort_slice (items l) = items (sort_strings l)

unfoldable pub texts_eq : List Text → List Text → Bool
texts_eq [] [] = true
texts_eq (x ∷ l) (y ∷ r) = text_eq x y && texts_eq l r
texts_eq _ _ = false

-- `reflect.DeepEqual(s, t)`
unfoldable pub deep_equal : Slice → Slice → Bool
unfolding texts_eq
deep_equal nil nil = true
deep_equal (items l) (items r) = texts_eq l r
deep_equal _ _ = false

-- `xpv1.Available()`, `xpv1.Creating()`, `xpv1.Deleting()`
pub data Condition : Type 0 where
  available creating deleting : Condition

-- `RolePermissionsParameters`
pub record RolePermissionsParameters : Type 0 where
  pub role : Text
  pub permissions : Slice

-- `RolePermissionsObservation`
pub record RolePermissionsObservation : Type 0 where
  pub role_id : ℤ
  pub type : Text
  pub permissions : Slice
  pub cleared : Bool

-- a reference to a provider config: name and kind, empty where they are not set
pub record ProviderConfigReference : Type 0 where
  pub name : Text
  pub kind : Text

-- what the controller uses of the metadata, the managed spec and the conditions that
-- crossplane-runtime and Kubernetes keep on the object
pub record Runtime : Type 1 where
  pub Object : Type 0
  pub get_external_name : Object → Text
  pub set_external_name : Object → Text → Object
  pub was_deleted : Object → Bool
  pub set_conditions : Object → Condition → Object
  pub get_provider_config_reference : Object → Option ProviderConfigReference
  pub get_namespace : Object → Text

-- the accessors of crossplane-runtime, as it documents them
pub record IsRuntime (rt : Runtime) : Type 0 where
  pub get-set_external_name :
      (o : rt.Object) (n : Text) → rt.get_external_name (rt.set_external_name o n) ≡ n
  pub was_deleted-set_external_name :
      (o : rt.Object) (n : Text) → rt.was_deleted (rt.set_external_name o n) ≡ rt.was_deleted o
  pub get_external_name-set_conditions :
      (o : rt.Object) (c : Condition)
      → rt.get_external_name (rt.set_conditions o c) ≡ rt.get_external_name o
  pub was_deleted-set_conditions :
      (o : rt.Object) (c : Condition) → rt.was_deleted (rt.set_conditions o c) ≡ rt.was_deleted o

-- `RolePermissions`: `object` stands for the embedded metadata, managed spec and conditions
pub record RolePermissions (rt : Runtime) : Type 0 where
  pub object : rt.Object
  pub for_provider : RolePermissionsParameters
  pub at_provider : RolePermissionsObservation
