-- ===== src/Cache/Steps.antt =====
-- internal/clients/strapi/cache.go over time: calls of `Get` and logins of the clients, in any order.
use provider_strapi.Prelude.{
  ℕ, zero, suc, List, [], ◌∷◌, some, ◌≡◌, refl, sym, ap, ◌∙◌, ◌⊎◌, inl, inr, Option-cases,
  get_elem?, set,
}
use provider_strapi.Text.{Text}
use provider_strapi.GoMap.{lookup}
use provider_strapi.Exec.{Result, ok, err}
use provider_strapi.Client.{Config, Client, new}
use provider_strapi.Cache.{Cache, Pointer, cache_key, build, get}
use provider_strapi.Cache.Laws.{Entry, IsValid, get_hit, get_miss, added-IsValid}

-- what a `set` leaves at a place
get_elem?-set :
    {A : Type 0} (xs : List A) (i j : ℕ) (v x : A)
    → get_elem? xs j ≡ some x
    → ((i ≡ j) × (get_elem? (set xs i v) j ≡ some v)) ⊎ (get_elem? (set xs i v) j ≡ some x)
get_elem?-set [] i j v x h = absurd (cc)
get_elem?-set (y ∷ xs) zero zero v x h = inl (refl, refl)
get_elem?-set (y ∷ xs) zero (suc j) v x h = inr h
get_elem?-set (y ∷ xs) (suc i) zero v x h = inr h
get_elem?-set (y ∷ xs) (suc i) (suc j) v x h = elim (get_elem?-set xs i j v x h) [
  | inl (e, h') ↦ inl (ap suc e, h')
  | inr h' ↦ inr h'
]

-- the same client with another token at most
abbrev pub SameButToken : Client → Client → Type 0
SameButToken cl cl' = record cl { token = [] } ≡ record cl' { token = [] }

module _ (sha256 : Text → List ℕ) where
  -- a call of `Get`, whatever it returns, or a client that changes its token
  pub data Step (c : Cache) : Cache → Type 0 where
    got : (cfg : Config) → Step c ((get sha256 cfg c).1)
    used :
        (pointer : Pointer) (cl cl' : Client)
        → get_elem? c.heap pointer ≡ some cl
        → SameButToken cl cl'
        → Step c (record c { heap = set c.heap pointer cl' })

  pub data Steps (c : Cache) : Cache → Type 0 where
    here : Steps c c
    next : (d d' : Cache) → Steps c d → Step d d' → Steps c d'

  build-IsValid :
      (cfg : Config) (c : Cache) (r : Result Client)
      → new cfg ≡ r
      → IsValid sha256 c
      → IsValid sha256 ((build sha256 (cache_key sha256 cfg) r c).1)
  unfolding build
  build-IsValid cfg c (ok cl) e v = added-IsValid sha256 cfg c cl v e
  build-IsValid cfg c (err x) e v = v

  pub get-IsValid :
      (cfg : Config) (c : Cache) → IsValid sha256 c → IsValid sha256 ((get sha256 cfg c).1)
  get-IsValid cfg c v = elim (Option-cases (lookup c.clients (cache_key sha256 cfg))) [
    | inl e ↦ rw (get_miss sha256 cfg c e) (build-IsValid cfg c (new cfg) refl v)
    | inr (p, e) ↦ rw (get_hit sha256 cfg c p e) v
  ]

  used-IsValid :
      (c : Cache) (pointer : Pointer) (cl cl' : Client)
      → get_elem? c.heap pointer ≡ some cl
      → SameButToken cl cl'
      → IsValid sha256 c
      → IsValid sha256 (record c { heap = set c.heap pointer cl' })
  used-IsValid c pointer cl cl' h same v = record { entries = entries; distinct = v.distinct }
    where
      entries :
          (k : Text) (p : Pointer)
          → lookup c.clients k ≡ some p
          → Entry sha256 (record c { heap = set c.heap pointer cl' }) k p
      entries k p e =
          let x = v.entries k p e in
          elim (get_elem?-set c.heap pointer p cl' x.client x.stored) [
            | inl (q, h') ↦
                let was : x.client ≡ cl =
                  let a : get_elem? c.heap p ≡ some cl = sym (ap (get_elem? c.heap) q) ∙ h in
                  let b = x.stored in cc in
                record {
                  config = x.config;
                  client = cl';
                  key-eq = x.key-eq;
                  stored = h';
                  made =
                      x.made ∙ ap (λ (y : Client). ok (record y { token = [] })) was ∙ ap ok same;
                }
            | inr h' ↦ record {
              config = x.config;
              client = x.client;
              key-eq = x.key-eq;
              stored = h';
              made = x.made;
            }
          ]

  Step-IsValid : (c d : Cache) → Step c d → IsValid sha256 c → IsValid sha256 d
  Step-IsValid c _ (got cfg) v = get-IsValid cfg c v
  Step-IsValid c _ (used p cl cl' h same) v = used-IsValid c p cl cl' h same v

  pub Steps-IsValid : (c d : Cache) → Steps c d → IsValid sha256 c → IsValid sha256 d
  Steps-IsValid c _ here v = v
  Steps-IsValid c _ (next d d' s t) v = Step-IsValid d d' t (Steps-IsValid c d s v)
