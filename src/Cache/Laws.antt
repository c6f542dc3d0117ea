-- ===== src/Cache/Laws.antt =====
-- `Get` of internal/clients/strapi/cache.go: the entries of the cache, hit and miss.
use mathlib.Core.Path.{subst}
use provider_strapi.Prelude.{
  ℕ, List, [], ◌∷◌, ◌++◌, none, some, ◌≡◌, sym, ap, ◌∙◌, inl, inr, arith, Bool-cases, length,
  get_elem?, get_elem?-append, get_elem?-length, get_elem?-lt,
}
use provider_strapi.Text.{Text, text_eq}
use provider_strapi.Text.Equality.{text_eq_iff}
use provider_strapi.GoMap.{lookup, insert, lookup-insert}
use provider_strapi.Exec.{ok}
use provider_strapi.Client.{Config, Client, new}
use provider_strapi.Cache.{Cache, Pointer, cache_key, build, get, new_cache}

-- the client was made by `New` for the configuration, and has since changed its token at most
abbrev pub MadeFor : Config → Client → Type 0
MadeFor cfg cl = new cfg ≡ ok (record cl { token = [] })

new-token : (cfg : Config) (cl : Client) → new cfg ≡ ok cl → MadeFor cfg cl
unfolding new
new-token cfg cl h = ground arith

module _ (sha256 : Text → List ℕ) where
  -- the client behind a pointer under a key
  pub record Entry (c : Cache) (key : Text) (pointer : Pointer) : Type 0 where
    pub config : Config
    pub client : Client
    pub key-eq : cache_key sha256 config ≡ key
    pub stored : get_elem? c.heap pointer ≡ some client
    pub made : MadeFor config client

  -- each key leads to a client of a configuration with that key, and no two keys share a client
  pub record IsValid (c : Cache) : Type 0 where
    pub entries :
        (key : Text) (pointer : Pointer) → lookup c.clients key ≡ some pointer → Entry c key pointer
    pub distinct :
        (k j : Text) (pointer : Pointer)
        → lookup c.clients k ≡ some pointer
        → lookup c.clients j ≡ some pointer
        → k ≡ j

  pub new_cache-IsValid : IsValid new_cache
  unfolding new_cache lookup
  new_cache-IsValid = record {
    entries = λ k p h. absurd (cc);
    distinct = λ k j p h h'. absurd (cc);
  }

  -- `Get` of a cached key changes nothing
  pub get_hit :
      (cfg : Config) (c : Cache) (pointer : Pointer)
      → lookup c.clients (cache_key sha256 cfg) ≡ some pointer
      → get sha256 cfg c ≡ (ok pointer, c)
  unfolding get
  get_hit cfg c pointer h = rw h

  pub get_miss :
      (cfg : Config) (c : Cache)
      → lookup c.clients (cache_key sha256 cfg) ≡ none
      → get sha256 cfg c ≡ build sha256 (cache_key sha256 cfg) (new cfg) c
  unfolding get
  get_miss cfg c h = rw h

  abbrev pub added : Cache → Text → Client → Cache
  added c key cl = record {
    clients = insert c.clients key (length c.heap);
    heap = c.heap ++ cl ∷ [];
  }

  Entry-added :
      (c : Cache) (key : Text) (cl : Client) (k : Text) (p : Pointer)
      → Entry c k p
      → Entry (added c key cl) k p
  Entry-added c key cl k p e = record {
    config = e.config;
    client = e.client;
    key-eq = e.key-eq;
    stored = get_elem?-append c.heap (cl ∷ []) p e.client e.stored;
    made = e.made;
  }

  pub added-IsValid :
      (cfg : Config) (c : Cache) (cl : Client)
      → IsValid c
      → new cfg ≡ ok cl
      → IsValid (added c (cache_key sha256 cfg) cl)
  added-IsValid cfg c cl v h = record { entries = entries; distinct = distinct }
    where
      key : Text
      key = cache_key sha256 cfg

      new_entry : (k : Text) → key ≡ k → Entry (added c key cl) k (length c.heap)
      new_entry k e = record {
        config = cfg;
        client = cl;
        key-eq = e;
        stored = get_elem?-length c.heap cl [];
        made = new-token cfg cl h;
      }

      entries :
          (k : Text) (p : Pointer)
          → lookup (insert c.clients key (length c.heap)) k ≡ some p
          → Entry (added c key cl) k p
      entries k p e = elim (Bool-cases (text_eq key k)) [
        | inl q ↦
            let e' = rw (lookup-insert, q) at e in
            let same : length c.heap ≡ p = cc in
            subst (Entry (added c key cl) k) same (new_entry k ((text_eq_iff key k).0 q))
        | inr q ↦ Entry-added c key cl k p (v.entries k p (rw (lookup-insert, q) at e))
      ]

      fresh : (k : Text) → lookup c.clients k ≡ some (length c.heap) → ⊥
      fresh k e =
          let x = v.entries k (length c.heap) e in
          absurd (omega (arith, get_elem?-lt c.heap (length c.heap) x.client x.stored))

      distinct :
          (k j : Text) (p : Pointer)
          → lookup (insert c.clients key (length c.heap)) k ≡ some p
          → lookup (insert c.clients key (length c.heap)) j ≡ some p
          → k ≡ j
      distinct k j p e e' = elim (Bool-cases (text_eq key k)) [
        | inl q ↦ elim (Bool-cases (text_eq key j)) [
          | inl r ↦ sym ((text_eq_iff key k).0 q) ∙ (text_eq_iff key j).0 r
          | inr r ↦
              let d = rw (lookup-insert, q) at e in
              let same : p ≡ length c.heap = cc in
              let d' = rw (lookup-insert, r) at e' in absurd (fresh j (d' ∙ ap some same))
        ]
        | inr q ↦ elim (Bool-cases (text_eq key j)) [
          | inl r ↦
              let d = rw (lookup-insert, r) at e' in
              let same : p ≡ length c.heap = cc in
              let d' = rw (lookup-insert, q) at e in absurd (fresh k (d' ∙ ap some same))
          | inr r ↦ v.distinct k j p (rw (lookup-insert, q) at e) (rw (lookup-insert, r) at e')
        ]
      ]
