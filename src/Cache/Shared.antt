-- ===== src/Cache/Shared.antt =====
-- `Get` of internal/clients/strapi/cache.go, between other calls of it and logins of the clients.
use mathlib.Core.Path.{subst}
use provider_strapi.Prelude.{
  ℕ, List, none, some, false, ◌≡◌, sym, ap, ◌∙◌, ◌↔◌, inl, inr, Bool-cases, Option-cases, length,
}
use provider_strapi.Text.{Text, text_eq}
use provider_strapi.Text.Equality.{text_eq_iff, text_eq_refl}
use provider_strapi.GoMap.{lookup, lookup-insert}
use provider_strapi.Exec.{Error, ok, err, Result-cases}
use provider_strapi.Client.{Config, new}
use provider_strapi.Cache.{Cache, Pointer, cache_key, build, get, new_cache}
use provider_strapi.Cache.Laws.{Entry, IsValid, new_cache-IsValid, get_hit, get_miss, added}
use provider_strapi.Cache.Steps.{Step, got, used, Steps, here, next, get-IsValid, Steps-IsValid}

module _ (sha256 : Text → List ℕ) where
  used-Get :
      (c : Cache) (key : Text) (p : Pointer)
      → lookup c.clients key ≡ some p
      → (d : Cache) → Step sha256 c d
      → lookup d.clients key ≡ some p
  unfolding build
  used-Get c key p h _ (used q cl cl' k same) = h
  used-Get c key p h _ (got cfg) = elim (Option-cases (lookup c.clients (cache_key sha256 cfg))) [
    | inl e ↦ rw (get_miss sha256 cfg c e) (elim (Result-cases (new cfg)) [
      | inl (cl, q) ↦ rw q (
          let other : text_eq (cache_key sha256 cfg) key ≡ false =
            elim (Bool-cases (text_eq (cache_key sha256 cfg) key)) [
              | inl t ↦ let same = (text_eq_iff (cache_key sha256 cfg) key).0 t in absurd (cc)
              | inr f ↦ f
            ] in
          rw (lookup-insert, other) h)
      | inr (x, q) ↦ rw q h
    ])
    | inr (q, e) ↦ rw (get_hit sha256 cfg c q e) h
  ]

  -- no call of `Get` and no login takes a key's client away
  lookup-Steps :
      (c d : Cache) (key : Text) (p : Pointer)
      → Steps sha256 c d
      → lookup c.clients key ≡ some p
      → lookup d.clients key ≡ some p
  lookup-Steps c _ key p here h = h
  lookup-Steps c _ key p (next d d' s t) h = used-Get d key p (lookup-Steps c d key p s h) d' t

  pub get-lookup :
      (cfg : Config) (c d : Cache) (p : Pointer)
      → get sha256 cfg c ≡ (ok p, d)
      → lookup d.clients (cache_key sha256 cfg) ≡ some p
  unfolding build
  get-lookup cfg c d p h = elim (Option-cases (lookup c.clients (cache_key sha256 cfg))) [
    | inl e ↦ elim (Result-cases (new cfg)) [
      | inl (cl, q) ↦
          let h' =
            sym (get_miss sha256 cfg c e ∙ ap (λ r. build sha256 (cache_key sha256 cfg) r c) q)
            ∙ h in
          let last : added sha256 c (cache_key sha256 cfg) cl ≡ d = ap (λ x. x.1) h' in
          let same : length c.heap ≡ p = cc in
          subst (λ (y : Cache). lookup y.clients (cache_key sha256 cfg) ≡ some p) last
            (rw (lookup-insert, text_eq_refl (cache_key sha256 cfg)) (ap some same))
      | inr (x, q) ↦
          let h' =
            sym (get_miss sha256 cfg c e ∙ ap (λ r. build sha256 (cache_key sha256 cfg) r c) q)
            ∙ h in
          absurd (cc)
    ]
    | inr (q, e) ↦ let h' = sym (get_hit sha256 cfg c q e) ∙ h in cc
  ]

  -- a configuration that `Get` returned a client for gets the same client again
  get_again :
      (cfg : Config) (c d d' : Cache) (p : Pointer)
      → get sha256 cfg c ≡ (ok p, d)
      → Steps sha256 d d'
      → get sha256 cfg d' ≡ (ok p, d')
  get_again cfg c d d' p h s =
      get_hit sha256 cfg d' p
        (lookup-Steps d d' (cache_key sha256 cfg) p s (get-lookup cfg c d p h))

  -- In a cache made by `NewCache`, by calls of `Get` and by logins, a client that `Get` returned and
  -- one that it returns later, for any two configurations, are the same object exactly if the
  -- configurations have the same key.
  pub get_shared_iff :
      (cfg cfg' : Config) (c d d' e : Cache) (p q : Pointer)
      → Steps sha256 new_cache c
      → get sha256 cfg c ≡ (ok p, d)
      → Steps sha256 d d'
      → get sha256 cfg' d' ≡ (ok q, e)
      → (p ≡ q) ↔ (cache_key sha256 cfg ≡ cache_key sha256 cfg')
  get_shared_iff cfg cfg' c d d' e p q s h t h' = (same_key, same_pointer)
    where
      valid_d' : IsValid sha256 d'
      valid_d' = Steps-IsValid sha256 d d' t (
          subst (IsValid sha256) (ap (λ x. x.1) h) (
            get-IsValid sha256 cfg c
              (Steps-IsValid sha256 new_cache c s (new_cache-IsValid sha256))))

      valid : IsValid sha256 e
      valid = subst (IsValid sha256) (ap (λ x. x.1) h') (get-IsValid sha256 cfg' d' valid_d')

      kept : lookup e.clients (cache_key sha256 cfg) ≡ some p
      kept =
          subst (λ (y : Cache). lookup y.clients (cache_key sha256 cfg) ≡ some p) (ap (λ x. x.1) h')
            (used-Get d' (cache_key sha256 cfg) p
              (lookup-Steps d d' (cache_key sha256 cfg) p t (get-lookup cfg c d p h))
              ((get sha256 cfg' d').1) (got cfg'))

      found : lookup e.clients (cache_key sha256 cfg') ≡ some q
      found = get-lookup cfg' d' e q h'

      same_key : p ≡ q → cache_key sha256 cfg ≡ cache_key sha256 cfg'
      same_key k =
          valid.distinct (cache_key sha256 cfg) (cache_key sha256 cfg') p kept
            (found ∙ ap some (sym k))

      same_pointer : cache_key sha256 cfg ≡ cache_key sha256 cfg' → p ≡ q
      same_pointer k = let all : some p ≡ some q = sym kept ∙ ap (lookup e.clients) k ∙ found in cc

  -- In a cache made by `NewCache`, by calls of `Get` and by logins, the pointer that `Get` returns
  -- leads to a client that `New` made for a configuration with the key of the given one, unchanged
  -- since then but for its token.
  pub get-Entry :
      (cfg : Config) (c d : Cache) (p : Pointer)
      → Steps sha256 new_cache c
      → get sha256 cfg c ≡ (ok p, d)
      → Entry sha256 d (cache_key sha256 cfg) p
  get-Entry cfg c d p s h =
      let valid : IsValid sha256 d = subst (IsValid sha256) (ap (λ x. x.1) h) (
        get-IsValid sha256 cfg c (Steps-IsValid sha256 new_cache c s (new_cache-IsValid sha256))) in
      valid.entries (cache_key sha256 cfg) p (get-lookup cfg c d p h)

  -- `Get` fails exactly if the configuration has no client yet and `New` rejects it, with the error of
  -- `New`, and then the cache is as it was.
  pub get-err_iff :
      (cfg : Config) (c d : Cache) (x : Error)
      → (get sha256 cfg c ≡ (err x, d))
        ↔ ((lookup c.clients (cache_key sha256 cfg) ≡ none) × (new cfg ≡ err x) × (c ≡ d))
  unfolding build
  get-err_iff cfg c d x = (fails, failed)
    where
      fails :
          get sha256 cfg c ≡ (err x, d)
          → (lookup c.clients (cache_key sha256 cfg) ≡ none) × (new cfg ≡ err x) × (c ≡ d)
      fails h = elim (Option-cases (lookup c.clients (cache_key sha256 cfg))) [
        | inl e ↦
            let m = get_miss sha256 cfg c e in
            elim (Result-cases (new cfg)) [
              | inl (cl, q) ↦
                  let h' = sym (m ∙ ap (λ r. build sha256 (cache_key sha256 cfg) r c) q) ∙ h in
                  absurd (cc)
              | inr (y, q) ↦
                  let h' = sym (m ∙ ap (λ r. build sha256 (cache_key sha256 cfg) r c) q) ∙ h in
                  (e, cc, ap (λ x. x.1) h')
            ]
        | inr (q, e) ↦ let h' = sym (get_hit sha256 cfg c q e) ∙ h in absurd (cc)
      ]

      failed :
          (lookup c.clients (cache_key sha256 cfg) ≡ none) × (new cfg ≡ err x) × (c ≡ d)
          → get sha256 cfg c ≡ (err x, d)
      failed (e, q, s) =
          get_miss sha256 cfg c e
          ∙ ap (λ r. build sha256 (cache_key sha256 cfg) r c) q
          ∙ ap (λ y. (err x, y)) s
