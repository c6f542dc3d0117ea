-- ===== src/Cache/Key.antt =====
-- `cacheKey` of internal/clients/strapi/cache.go on two configurations.
use provider_strapi.Prelude.{
  ℕ, suc, ◌/◌, ◌%◌, ◌<◌, List, [], ◌∷◌, ◌++◌, Option, some, Bool, true, false, ◌≡◌, refl, sym, ap,
  ◌∙◌, arith, All, length, take, drop, take-length-append, drop-suc-length-append,
}
use provider_strapi.Text.{Text, Lacks, index, last_index}
use provider_strapi.Text.Search.{index-append, last_index-append}
use provider_strapi.Client.{Config}
use provider_strapi.Cache.{hex_digit, hex, bool_text, fingerprint, cache_key}

hex_digit-injective : (m n : ℕ) → m < 16 → n < 16 → hex_digit m ≡ hex_digit n → m ≡ n
unfolding hex_digit
hex_digit-injective m n h k e = ground arith

abbrev pub AreBytes : List ℕ → Type 0
AreBytes = All (λ b. b < 256)

hex-injective : (l r : List ℕ) → AreBytes l → AreBytes r → hex l ≡ hex r → l ≡ r
unfolding hex
hex-injective [] [] hl hr e = refl
hex-injective [] (y ∷ r) hl hr e = cc
hex-injective (x ∷ l) [] hl hr e = cc
hex-injective (x ∷ l) (y ∷ r) (hx, hl) (hy, hr) e =
    let first : hex_digit (x / 16) ≡ hex_digit (y / 16) = cc in
    let second : hex_digit (x % 16) ≡ hex_digit (y % 16) = cc in
    let rest : hex l ≡ hex r = cc in
    let high = hex_digit-injective (x / 16) (y / 16) (omega arith) (omega arith) first in
    let low = hex_digit-injective (x % 16) (y % 16) (omega arith) (omega arith) second in
    let same : x ≡ y = omega (arith, high, low) in cc (hex-injective l r hl hr rest)

cut :
    (a b x y : Text) (i : Text → Option ℕ)
    → i (a ++ 0 ∷ x) ≡ some (length a)
    → i (b ++ 0 ∷ y) ≡ some (length b)
    → a ++ 0 ∷ x ≡ b ++ 0 ∷ y
    → (a ≡ b) × (x ≡ y)
cut a b x y i p q e =
    let same : some (length a) ≡ some (length b) = sym p ∙ ap i e ∙ q in
    let n : length a ≡ length b = cc in
    (
      sym (take-length-append a (0 ∷ x))
          ∙ ap (take (length a)) e
          ∙ ap (λ (k : ℕ). take k (b ++ 0 ∷ y)) n
          ∙ take-length-append b (0 ∷ y),
      sym (drop-suc-length-append a 0 x)
          ∙ ap (drop (suc (length a))) e
          ∙ ap (λ (k : ℕ). drop (suc k) (b ++ 0 ∷ y)) n
          ∙ drop-suc-length-append b 0 y,
    )

bool_text-Lacks : (b : Bool) → Lacks 0 (bool_text b)
bool_text-Lacks true = omega arith
bool_text-Lacks false = omega arith

bool_text-injective : (a b : Bool) → bool_text a ≡ bool_text b → a ≡ b
bool_text-injective true true e = refl
bool_text-injective false false e = refl
bool_text-injective true false e = cc
bool_text-injective false true e = cc

-- no NUL stands in the endpoint or in the e-mail address
abbrev pub IsPlain : Config → Type 0
IsPlain cfg = Lacks 0 cfg.endpoint × Lacks 0 cfg.credentials.email

pub fingerprint-injective :
    (c d : Config) → IsPlain c → IsPlain d → fingerprint c ≡ fingerprint d → c ≡ d
unfolding fingerprint
fingerprint-injective c d (ce, cm) (de, dm) e =
    let (endpoint, rest) =
      cut c.endpoint d.endpoint _ _ (λ s. index s 0) (index-append 0 _ _ ce) (index-append 0 _ _ de)
        e in
    let (email, rest') =
      cut c.credentials.email d.credentials.email _ _ (λ s. index s 0) (index-append 0 _ _ cm)
        (index-append 0 _ _ dm) rest in
    let (password, flag) =
      cut c.credentials.password d.credentials.password _ _ (λ s. last_index s 0)
        (last_index-append 0 _ _ (bool_text-Lacks c.insecure_skip_tls_verify))
        (last_index-append 0 _ _ (bool_text-Lacks d.insecure_skip_tls_verify)) rest' in
    let insecure = bool_text-injective _ _ flag in
    λ i. record {
      endpoint = endpoint i;
      credentials = record { email = email i; password = password i };
      insecure_skip_tls_verify = insecure i;
    }

-- Two configurations have one cache key only if they are equal, where the hash yields bytes and does
-- not collide on the two, and no endpoint or e-mail address holds a NUL.
pub cache_key-injective :
    (sha256 : Text → List ℕ) (c d : Config)
    → ((s : Text) → AreBytes (sha256 s))
    → (sha256 (fingerprint c) ≡ sha256 (fingerprint d) → fingerprint c ≡ fingerprint d)
    → IsPlain c
    → IsPlain d
    → cache_key sha256 c ≡ cache_key sha256 d
    → c ≡ d
unfolding cache_key
cache_key-injective sha256 c d bytes collide pc pd e =
    fingerprint-injective c d pc pd (collide (hex-injective _ _ (bytes _) (bytes _) e))
