-- ===== src/Tests/Cache.antt =====
-- The cache, with a hash that keeps the low byte of each code point.
use provider_strapi.Prelude.{ℕ, List, [], ◌∷◌, none, true, ◌≡◌, refl, ◌↔◌, arith, ◌%◌}
use provider_strapi.Text.{Text, text_eq}
use provider_strapi.GoMap.{lookup, insert}
use provider_strapi.Exec.{ok, err, endpoint_required}
use provider_strapi.Client.{Config, new, trim_slashes}
use provider_strapi.Cache.{Cache, new_cache, fingerprint, cache_key}
use provider_strapi.Cache
use provider_strapi.Cache.Key.{AreBytes, cache_key-injective}
use provider_strapi.Cache.Laws.{Entry}
use provider_strapi.Cache.Steps.{here}
use provider_strapi.Cache.Shared.{get_shared_iff, get-Entry, get-err_iff}
use provider_strapi.Tests.Data.{config}

program : Unit {0}
unfolding Cache.get new_cache cache_key lookup insert new trim_slashes text_eq fingerprint
program = tt

-- one byte for each code point
abbrev pub hash : Text → List ℕ
hash [] = []
hash (c ∷ s) = c % 256 ∷ hash s

abbrev after_one : Cache
after_one = (Cache.get hash config new_cache).1

abbrev insecure : Config
insecure = record config { insecure_skip_tls_verify = true }

abbrev nowhere : Config
nowhere = record config { endpoint = [] }

-- `TestCache_ReusesClient`, `TestCache_DifferentConfigs` of cache_test.go
runs :
    (Cache.get hash config new_cache ≡ (ok 0, after_one))
    × (Cache.get hash config after_one ≡ (ok 0, after_one))
    × ((Cache.get hash insecure after_one).0 ≡ ok 1)
    × (Cache.get hash nowhere after_one ≡ (err endpoint_required, after_one))
unfolding program
runs = (refl, refl, refl, refl)

first_run : Cache.get hash config new_cache ≡ (ok 0, after_one)
unfolding program
first_run = refl

insecure_run : Cache.get hash insecure after_one ≡ (ok 1, (Cache.get hash insecure after_one).1)
unfolding program
insecure_run = refl

get_shared_iff_example : ◌≡◌ {A = ℕ} 0 1 ↔ (cache_key hash config ≡ cache_key hash insecure)
get_shared_iff_example =
    get_shared_iff hash config insecure new_cache after_one after_one
      (Cache.get hash insecure after_one).1 0 1 here first_run here insecure_run

get-Entry_example : Entry hash after_one (cache_key hash config) 0
get-Entry_example = get-Entry hash config new_cache after_one 0 here first_run

get-err_iff_example : (Cache.get hash nowhere after_one ≡ (err endpoint_required, after_one)) ↔ (
    (lookup after_one.clients (cache_key hash nowhere) ≡ none)
    × (new nowhere ≡ err endpoint_required)
    × (after_one ≡ after_one))
get-err_iff_example = get-err_iff hash nowhere after_one after_one endpoint_required

hash-AreBytes : (s : Text) → AreBytes (hash s)
hash-AreBytes [] = tt
hash-AreBytes (c ∷ s) = (omega arith, hash-AreBytes s)

cache_key-injective_example : config ≡ config
cache_key-injective_example =
    cache_key-injective hash config config hash-AreBytes (λ e. refl) (omega arith) (omega arith)
      refl
