-- ===== src/Exec.antt =====
-- Errors as values, and code that changes a state and may fail. What was written before the failure
-- stays written, so the state comes back beside an error too.
pub mod Journal
use provider_strapi.Prelude.{◌≡◌, refl, ◌⊎◌, inl, inr}
use provider_strapi.Text.{Text}

-- the messages that `errors.Wrap` puts in front of another error
pub data Context : Type 0 where
  track_usage get_pc get_cpc get_creds parse_creds new_client list_roles update_role : Context
  list_users_permissions_roles get_role update_role_by_id : Context
  credentials_json marshal_body build_request marshal_login build_login post_login : Context
  decode_response decode_login : Context
  register_state_metrics : Context

pub data Error : Type 0 where
  -- an error of the code that is called
  failure : Text → Error
  wrap : Context → Error → Error
  role_not_found : Text → Error
  unsupported_kind : Text → Error
  empty_credentials : Error
  endpoint_required credentials_required : Error
  -- method, path, status and the start of the body
  bad_status : Text → Text → Text → Text → Error
  -- status and the start of the body
  login_failed : Text → Text → Error
  no_token : Error
  -- a nil pointer that was read
  nil_dereference : Error
  -- a panic, which no code of the program recovers: as an error does, it ends what would come next
  panic : Error → Error
  -- `kingpin.FatalIfError` ended the program, with a message
  exit : Text → Error → Error
  -- `kingpin.MustParse` ended the program
  usage : Error

pub data Result {ℓ} (A : Type ℓ) : Type ℓ where
  ok : A → Result A
  err : Error → Result A

pub Result-cases :
    {A : Type 0} (r : Result A) → ((a : A) × (r ≡ ok a)) ⊎ ((x : Error) × (r ≡ err x))
Result-cases (ok a) = inl (a, refl)
Result-cases (err x) = inr (x, refl)

abbrev pub wrap_result {ℓ} : {A : Type ℓ} → Context → Result A → Result A
wrap_result c (ok a) = ok a
wrap_result c (err e) = err (wrap c e)

abbrev pub Exec {ℓ} : Type ℓ → Type ℓ → Type ℓ
Exec S A = S → Result A × S

module _ {ℓ} {S A B : Type ℓ} where
  abbrev pub continue : Result A × S → (A → Exec S B) → Result B × S
  continue (ok a, s) f = f a s
  continue (err e, s) f = (err e, s)

module _ {ℓ} {S A B : Type ℓ} where
  infixl 10 ◌>>=◌ ◌>>◌
  abbrev pub ◌>>=◌ : Exec S A → (A → Exec S B) → Exec S B
  ◌>>=◌ m f s = continue (m s) f

  abbrev pub ◌>>◌ : Exec S A → Exec S B → Exec S B
  ◌>>◌ m n s = continue (m s) (λ _. n)

module _ {ℓ} {S : Type ℓ} where
  abbrev pub pure : {A : Type ℓ} → A → Exec S A
  pure a s = (ok a, s)

  abbrev pub lift : {A : Type ℓ} → Result A → Exec S A
  lift r s = (r, s)

  -- the state
  abbrev pub get : Exec S S
  get s = (ok s, s)

abbrev pub modify : {S : Type 0} → (S → S) → Exec S (Unit {0})
modify f s = (ok tt, f s)

-- a chain succeeds only if each of its parts does
pub continue-ok :
    {S A B : Type 0} (r : Result A × S) (f : A → Exec S B) (b : B) (u : S)
    → continue r f ≡ (ok b, u)
    → (a : A) × (s : S) × (r ≡ (ok a, s)) × (f a s ≡ (ok b, u))
continue-ok (ok a, s) f b u h = (a, s, refl, h)
continue-ok (err e, s) f b u h = absurd (cc)

abbrev pub map_error {ℓ} : {A : Type ℓ} → (Error → Error) → Result A → Result A
map_error f (ok a) = ok a
map_error f (err e) = err (f e)
