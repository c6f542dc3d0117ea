-- ===== src/Cache.antt =====
-- internal/clients/strapi/cache.go: the cache of clients. A client is a shared object, so the map
-- holds pointers, and the clients stand in a heap: the pointer is the client's place in it. The mutex
-- is held for the whole of `Get`, which is one step here.
use provider_strapi.Prelude.{
  ℕ, ◌/◌, ◌%◌, ◌+◌, ◌-◌, List, [], ◌∷◌, ◌++◌, Option, none, some, Bool, true, false, ltb, length,
  if◌then◌else◌,
}
use provider_strapi.Text.{Text, codes}
use provider_strapi.GoMap.{Map, lookup, insert}
use provider_strapi.Exec.{Error, Result, ok, err, Exec}
use provider_strapi.Client.{Config, Client, new}
pub mod Key
pub mod Laws
pub mod Steps
pub mod Shared
pub mod Visits

abbrev pub Pointer : Type 0
Pointer = ℕ

-- `Cache`, beside the heap of the clients that its pointers lead to
pub record Cache : Type 0 where
  pub clients : Map Pointer
  pub heap : List Client

-- `NewCache()`
unfoldable pub new_cache : Cache
new_cache = record { clients = []; heap = [] }

-- one hexadecimal digit
hex_digit : ℕ → ℕ
hex_digit n = if ltb n 10 then b'0' + n else b'a' + (n - 10)

-- `hex.EncodeToString(bytes)`
hex : List ℕ → Text
unfolding hex_digit
hex [] = []
hex (b ∷ bytes) = hex_digit (b / 16) ∷ hex_digit (b % 16) ∷ hex bytes

-- `%t`
abbrev pub bool_text : Bool → Text
bool_text true = codes "true"
bool_text false = codes "false"

-- what is written to the hash: the parts with a NUL between
unfoldable pub fingerprint : Config → Text
fingerprint cfg =
    cfg.endpoint
    ++ (0
        ∷ (cfg.credentials.email
            ++ (0 ∷ (cfg.credentials.password ++ (0 ∷ bool_text cfg.insecure_skip_tls_verify)))))

-- SHA-256 is a parameter: a function from a text to its bytes
module _ (sha256 : Text → List ℕ) where
  unfoldable pub cache_key : Config → Text
  unfolding hex fingerprint
  cache_key cfg = hex (sha256 (fingerprint cfg))

  -- the miss: `New`, and the new client's pointer under the key
  pub build : Text → Result Client → Exec Cache Pointer
  build key (err e) c = (err e, c)
  build key (ok cl) c =
      let pointer = length c.heap in
      (ok pointer, record { clients = insert c.clients key pointer; heap = c.heap ++ cl ∷ [] })

  find_or_build : Text → Config → Option Pointer → Exec Cache Pointer
  unfolding build
  find_or_build key cfg (some pointer) c = (ok pointer, c)
  find_or_build key cfg none c = build key (new cfg) c

  -- `Get(cfg)`
  unfoldable pub get : Config → Exec Cache Pointer
  unfolding find_or_build
  get cfg c = let key = cache_key cfg in find_or_build key cfg (lookup c.clients key) c
