-- ===== src/Client/Parsing.antt =====
-- `ParseCredentials` of internal/clients/strapi/strapi.go: what it accepts.
use mathlib.Core.Path.{subst}
use provider_strapi.Prelude.{[], ◌∷◌, ◌≡◌, ◌≢◌, ◌↔◌, refl, sym, ap, ◌∙◌, inl, inr}
use provider_strapi.Text.{Text}
use provider_strapi.Exec.{Context, ok, Result-cases, wrap_result}
use provider_strapi.Client.{
  Credentials, Json, parse_credentials, check_credentials, after_unmarshal,
}

-- JSON with an email and a password that are not empty
abbrev pub ParsesTo : Json → Text → Credentials → Type 0
ParsesTo json bytes creds =
    (json.unmarshal_credentials bytes ≡ ok creds) × (creds.email ≢ []) × (creds.password ≢ [])

ok_injective : {c d : Credentials} → ok c ≡ ok d → c ≡ d
ok_injective e = cc

check_credentials-ok_iff :
    (c : Credentials) (email password : Text)
    → c.email ≡ email
    → c.password ≡ password
    → (d : Credentials)
    → (check_credentials c ≡ ok d) ↔ ((ok c ≡ ok d) × (email ≢ []) × (password ≢ []))
unfolding check_credentials
check_credentials-ok_iff c [] p e q d = rw e (λ h. absurd (cc), λ (_, n, _). absurd (n refl))
check_credentials-ok_iff c (x ∷ m) [] e q d =
    rw (e, q) (λ h. absurd (cc), λ (_, _, n). absurd (n refl))
check_credentials-ok_iff c (x ∷ m) (y ∷ p) e q d =
    rw (e, q) (λ h. (h, λ z. absurd (cc), λ z. absurd (cc)), λ (h, _, _). h)

parse_credentials-ok_iff_checked :
    (json : Json) (bytes : Text) (c d : Credentials)
    → json.unmarshal_credentials bytes ≡ ok c
    → (check_credentials c ≡ ok d) ↔ ParsesTo json bytes d
parse_credentials-ok_iff_checked json bytes c d e =
    let (to, from) = check_credentials-ok_iff c c.email c.password refl refl d in
    (
      λ h.
          let (q, m, p) = to h in
          let same = ok_injective q in
          (
            e ∙ q,
            λ z. m (ap (λ (x : Credentials). x.email) same ∙ z),
            λ z. p (ap (λ (x : Credentials). x.password) same ∙ z),
          ),
      λ (q, m, p).
          let same = sym e ∙ q in
          let again = ok_injective same in
          from (
            same,
            λ z. m (sym (ap (λ (x : Credentials). x.email) again) ∙ z),
            λ z. p (sym (ap (λ (x : Credentials). x.password) again) ∙ z),
          ),
    )

pub parse_credentials-ok_iff :
    (json : Json) (bytes : Text) (creds : Credentials)
    → (parse_credentials json bytes ≡ ok creds) ↔ ParsesTo json bytes creds
unfolding parse_credentials after_unmarshal
parse_credentials-ok_iff json bytes creds = elim (Result-cases (json.unmarshal_credentials bytes)) [
  | inl (c, q) ↦
      subst
        (λ r.
          (after_unmarshal (wrap_result Context.credentials_json r) ≡ ok creds)
          ↔ ParsesTo json bytes creds)
        (sym q) (parse_credentials-ok_iff_checked json bytes c creds q)
  | inr (x, q) ↦
      (λ h. let h' = rw q at h in absurd (cc), λ (h, _, _). let h' = sym q ∙ h in absurd (cc))
]
