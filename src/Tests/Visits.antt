-- ===== src/Tests/Visits.antt =====
-- Reconciles with one cache, against the server that accepts one token: the client in the cache holds
-- an old one at first.
use mathlib.Core.Path.{subst}
use provider_strapi.Prelude.{List, [], ◌∷◌, none, some, ◌≡◌, refl, sym, length, get_elem?, set}
use provider_strapi.Text.{codes, text_eq}
use provider_strapi.GoMap.{lookup, insert}
use provider_strapi.Exec.{ok}
use provider_strapi.Client.{
  Client, Session, new, trim_slashes, login, token_locked, call_with, do_once, do_request,
  invalidate,
}
use provider_strapi.Client.Trace.{Logged, logged}
use provider_strapi.Client.Steady.{Call, Accepts, do_all}
use provider_strapi.Cache.{Cache, new_cache, fingerprint, cache_key}
use provider_strapi.Cache
use provider_strapi.Cache.Visits.{Shared, Visit, SomeCalls, visit, visit_all, visit_all-after_first}
use provider_strapi.Tests.Data.{json, config}
use provider_strapi.Tests.Client.{http, http-Accepts, roles_path, response}
use provider_strapi.Tests.Cache.{hash}

program : Unit {0}
unfolding Cache.get new_cache cache_key lookup insert new trim_slashes text_eq fingerprint login
    token_locked call_with do_once do_request invalidate visit visit_all do_all
program = tt

abbrev get_roles : Call
get_roles = record { method = codes "GET"; path = roles_path; body = none }

abbrev stale : Client
stale = record {
  endpoint = trim_slashes config.endpoint;
  creds = config.credentials;
  insecure = config.insecure_skip_tls_verify;
  token = codes "old";
}

-- the cache behind the first `Get`, and after a long time
abbrev cached : Cache
cached = let c = (Cache.get hash config new_cache).1 in record c { heap = set c.heap 0 stale }

abbrev start : Shared (Logged (Unit {0}))
start = record { cache = cached; net = record { net = tt; sent = [] } }

abbrev first_session : Session (Logged (Unit {0}))
first_session = record { client = stale; net = start.net }

abbrev later : Session (Logged (Unit {0}))
later = (do_request json (logged http) (codes "GET") roles_path none first_session).1

abbrev visits : List Visit
visits =
    record { config = config; calls = get_roles ∷ get_roles ∷ [] }
    ∷ record { config = config; calls = get_roles ∷ [] }
    ∷ []

abbrev settled : Shared (Logged (Unit {0}))
settled = visit hash json (logged http) (record { config = config; calls = get_roles ∷ [] }) start

-- a call that is refused, a login and a call, and then one call for each use of `Do`
requests :
    (length settled.net.sent ≡ 3)
    × (length (visit_all hash json (logged http) visits settled).net.sent ≡ 6)
unfolding program
requests = (refl, refl)

got : Cache.get hash config cached ≡ (ok 0, cached)
unfolding program
got = refl

stored : get_elem? cached.heap 0 ≡ some stale
unfolding program
stored = refl

answered :
    do_request json (logged http) (codes "GET") roles_path none first_session
    ≡ (ok (response 200 (codes "[]")), later)
unfolding program
answered = refl

renewed : later.client.token ≡ codes "jwt"
unfolding program
renewed = refl

visit_all-after_first_example :
    SomeCalls 3 settled.net.sent (visit_all hash json (logged http) visits settled).net.sent
    × ((visit_all hash json (logged http) visits settled).cache ≡ settled.cache)
visit_all-after_first_example =
    visit_all-after_first hash json http config get_roles start 0 cached stale
      (response 200 (codes "[]")) later visits (λ n. Unit {0}) got stored answered
      (subst (λ t. Accepts http t (λ n. Unit {0})) (sym renewed) http-Accepts) tt (refl, (refl, tt))
