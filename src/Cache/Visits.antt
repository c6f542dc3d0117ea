-- ===== src/Cache/Visits.antt =====
-- The cache of internal/clients/strapi/cache.go with the clients of strapi.go behind it: reconciles that
-- take the client of a configuration from the cache and use its `Do`.
use mathlib.Core.Path.{subst}
use provider_strapi.Prelude.{
  ℕ, zero, suc, ◌+◌, ◌≤◌, List, [], ◌∷◌, ◌++◌, Option, none, some, ◌≡◌, ◌≢◌, refl, sym, ap, ◌∙◌,
  arith, All, All-map, All-append, length, length-append, get_elem?, set, append-nil, append_assoc,
}
use provider_strapi.Text.{Text}
use provider_strapi.GoMap.{lookup}
use provider_strapi.Exec.{Result, ok, err}
use provider_strapi.Client.{Config, Client, Request, Response, do_request, Http, Json, Session}
use provider_strapi.Client.Trace.{Logged, logged}
use provider_strapi.Client.Steady.{Call, Accepts, do_all, IsAnyCall, do_all-Calls}
use provider_strapi.Cache.{Cache, Pointer, cache_key, get}
use provider_strapi.Client.Retry.{do_request-token}
use provider_strapi.Cache.Laws.{get_hit}
use provider_strapi.Cache.Shared.{get-lookup}

-- the cache with its clients, and the network
pub record Shared (N : Type 0) : Type 0 where
  pub cache : Cache
  pub net : N

-- what a reconcile does: the configuration of its resource, and its uses of `Do`
pub record Visit : Type 0 where
  pub config : Config
  pub calls : List Call

abbrev pub call_count : List Visit → ℕ
call_count [] = 0
call_count (v ∷ visits) = length v.calls + call_count visits

-- what is left of a session: the client is the one behind the pointer
abbrev put_back : {N : Type 0} → Pointer → Cache → Session N → Shared N
put_back p c s = record { cache = record c { heap = set c.heap p s.client }; net = s.net }

module _ (sha256 : Text → List ℕ) (json : Json) {N : Type 0} (http : Http N) where
  use_client : List Call → Pointer → Option Client → Cache → N → Shared N
  use_client calls p none c n = record { cache = c; net = n }
  use_client calls p (some cl) c n =
      put_back p c (do_all json http calls (record { client = cl; net = n }))

  use_found : List Call → Result Pointer × Cache → N → Shared N
  unfolding use_client
  use_found calls (err e, c) n = record { cache = c; net = n }
  use_found calls (ok p, c) n = use_client calls p (get_elem? c.heap p) c n

  -- `Get`, and `Do` of the client that it returns
  unfoldable pub visit : Visit → Shared N → Shared N
  unfolding use_found
  visit v w = use_found v.calls (get sha256 v.config w.cache) w.net

  unfoldable pub visit_all : List Visit → Shared N → Shared N
  visit_all [] w = w
  visit_all (v ∷ visits) w = visit_all visits (visit v w)

-- the cache holds a client for a configuration, and the client a certain token
pub record IsReady (sha256 : Text → List ℕ) (token : Text) (c : Cache) (cfg : Config) : Type 0 where
  pub pointer : Pointer
  pub client : Client
  pub found : lookup c.clients (cache_key sha256 cfg) ≡ some pointer
  pub stored : get_elem? c.heap pointer ≡ some client
  pub has_token : client.token ≡ token

-- a call of some client
abbrev pub IsSomeCall : Request → Type 0
IsSomeCall r = (cl : Client) × IsAnyCall cl r

-- at most `n` requests were sent, calls all of them
pub record SomeCalls (n : ℕ) (before after : List Request) : Type 0 where
  pub requests : List Request
  pub after-eq : after ≡ before ++ requests
  pub bound : length requests ≤ n
  pub all-IsSomeCall : All IsSomeCall requests

set-same : {A : Type 0} (xs : List A) (i : ℕ) (v : A) → get_elem? xs i ≡ some v → set xs i v ≡ xs
set-same [] i v h = refl
set-same (x ∷ xs) zero v h = let same : v ≡ x = cc in ap (λ y. y ∷ xs) same
set-same (x ∷ xs) (suc i) v h = ap (λ ys. x ∷ ys) (set-same xs i v h)

get_elem?-set_same :
    {A : Type 0} (xs : List A) (i : ℕ) (v x : A)
    → get_elem? xs i ≡ some x
    → get_elem? (set xs i v) i ≡ some v
get_elem?-set_same [] i v x h = absurd (cc)
get_elem?-set_same (y ∷ xs) zero v x h = refl
get_elem?-set_same (y ∷ xs) (suc i) v x h = get_elem?-set_same xs i v x h

SomeCalls-append :
    (m n : ℕ) (x y z : List Request) → SomeCalls m x y → SomeCalls n y z → SomeCalls (m + n) x z
SomeCalls-append m n x y z p q = record {
  requests = p.requests ++ q.requests;
  after-eq =
      q.after-eq ∙ ap (λ w. w ++ q.requests) p.after-eq ∙ append_assoc x p.requests q.requests;
  bound = omega (arith, length-append {0} p.requests q.requests, p.bound, q.bound);
  all-IsSomeCall = All-append IsSomeCall p.requests q.requests p.all-IsSomeCall q.all-IsSomeCall;
}

module _ (sha256 : Text → List ℕ) (json : Json) {N : Type 0} (http : Http N) (Good : N → Type 0)
    (token : Text) (accepts : Accepts http token Good) (ne_nil : token ≢ []) where
  visit-SomeCalls :
      (v : Visit) (w : Shared (Logged N))
      → IsReady sha256 token w.cache v.config
      → Good w.net.net
      → SomeCalls (length v.calls) w.net.sent (visit sha256 json (logged http) v w).net.sent
        × ((visit sha256 json (logged http) v w).cache ≡ w.cache)
        × Good (visit sha256 json (logged http) v w).net.net
  unfolding visit use_found use_client
  visit-SomeCalls v w r good =
      let s : Session (Logged N) = record { client = r.client; net = w.net } in
      let held : r.client.token ≡ token = r.has_token in
      let (c, same, last) =
        do_all-Calls json http Good v.calls s
          (subst (λ (x : Text). Accepts http x Good) (sym held) accepts)
          (λ q. ne_nil (sym held ∙ q)) good in
      let kept : set w.cache.heap r.pointer (do_all json (logged http) v.calls s).client
          ≡ w.cache.heap =
        ap (set w.cache.heap r.pointer) same ∙ set-same w.cache.heap r.pointer r.client r.stored in
      rw (get_hit sha256 v.config w.cache r.pointer r.found, r.stored)
        (
          record {
            requests = c.requests;
            after-eq = c.after-eq;
            bound = c.bound;
            all-IsSomeCall =
                All-map (IsAnyCall r.client) IsSomeCall c.requests (λ x h. (r.client, h))
                  c.all-IsAnyCall;
          },
          ap (λ h. record w.cache { heap = h }) kept,
          last,
        )

  -- clients that hold a token already
  visit_all-SomeCalls :
      (visits : List Visit) (w : Shared (Logged N))
      → All (λ v. IsReady sha256 token w.cache v.config) visits
      → Good w.net.net
      → SomeCalls
          (call_count visits)
          w.net.sent
          (visit_all sha256 json (logged http) visits w).net.sent
        × ((visit_all sha256 json (logged http) visits w).cache ≡ w.cache)
  unfolding visit_all
  visit_all-SomeCalls [] w r good = (
    record {
      requests = [];
      after-eq = sym (append-nil w.net.sent);
      bound = omega arith;
      all-IsSomeCall = tt;
    },
    refl,
  )
  visit_all-SomeCalls (v ∷ visits) w (r, rs) good =
      let u = visit sha256 json (logged http) v w in
      let (first, same, still) = visit-SomeCalls v w r good in
      let (rest, kept) =
        visit_all-SomeCalls visits u
          (subst (λ c. All (λ v. IsReady sha256 token c v.config) visits) (sym same) rs) still in
      (
        SomeCalls-append (length v.calls) (call_count visits) w.net.sent u.net.sent _ first rest,
        kept ∙ same,
      )

module _ (sha256 : Text → List ℕ) (json : Json) {N : Type 0} (http : Http N) where
  -- a first reconcile, of one use of `Do` that gets a response
  first_visit :
      (cfg : Config) (c : Call) (w : Shared (Logged N)) (p : Pointer) (d : Cache) (cl : Client)
      (resp : Response) (s : Session (Logged N))
      → get sha256 cfg w.cache ≡ (ok p, d)
      → get_elem? d.heap p ≡ some cl
      → do_request json (logged http) c.method c.path c.body (record { client = cl; net = w.net })
        ≡ (ok resp, s)
      → visit sha256 json (logged http) (record { config = cfg; calls = c ∷ [] }) w ≡ put_back p d s
  unfolding visit use_found use_client do_all
  first_visit cfg c w p d cl resp s g h r =
      rw (g, h) (ap (λ (x : Result Response × Session (Logged N)). put_back p d x.1) r)

  first_visit-IsReady :
      (cfg : Config) (c : Call) (w : Shared (Logged N)) (p : Pointer) (d : Cache) (cl : Client)
      (resp : Response) (s : Session (Logged N))
      → get sha256 cfg w.cache ≡ (ok p, d)
      → get_elem? d.heap p ≡ some cl
      → do_request json (logged http) c.method c.path c.body (record { client = cl; net = w.net })
        ≡ (ok resp, s)
      → IsReady sha256 s.client.token
          (visit sha256 json (logged http) (record { config = cfg; calls = c ∷ [] }) w).cache
          cfg
  first_visit-IsReady cfg c w p d cl resp s g h r =
      subst (λ (x : Shared (Logged N)). IsReady sha256 s.client.token x.cache cfg)
        (sym (first_visit cfg c w p d cl resp s g h r))
        (record {
          pointer = p;
          client = s.client;
          found = get-lookup sha256 cfg w.cache d p g;
          stored = get_elem?-set_same d.heap p s.client cl h;
          has_token = refl;
        })

  -- After a first reconcile of a configuration whose `Do` got a response, whatever it took, no reconcile
  -- of that configuration logs in any more if the server, from the state that it is in then, goes on to
  -- accept the token that the client holds then: requests with another token or with none may be
  -- answered in any way. Whatever the number of reconciles, and of uses of `Do` in each, they send at most
  -- one request for each use, a call with a token every one, and leave the cache and its clients as they
  -- were.
  pub visit_all-after_first :
      (cfg : Config) (c : Call) (w : Shared (Logged N)) (p : Pointer) (d : Cache) (cl : Client)
      (resp : Response) (s : Session (Logged N)) (visits : List Visit) (Good : N → Type 0)
      → get sha256 cfg w.cache ≡ (ok p, d)
      → get_elem? d.heap p ≡ some cl
      → do_request json (logged http) c.method c.path c.body (record { client = cl; net = w.net })
        ≡ (ok resp, s)
      → Accepts http s.client.token Good
      → Good s.net.net
      → All (λ v. v.config ≡ cfg) visits
      → let first = visit sha256 json (logged http) (record { config = cfg; calls = c ∷ [] }) w in
        SomeCalls
          (call_count visits)
          first.net.sent
          (visit_all sha256 json (logged http) visits first).net.sent
        × ((visit_all sha256 json (logged http) visits first).cache ≡ first.cache)
  visit_all-after_first cfg c w p d cl resp s visits Good g h r accepts good same =
      let first = visit sha256 json (logged http) (record { config = cfg; calls = c ∷ [] }) w in
      let ready = first_visit-IsReady cfg c w p d cl resp s g h r in
      let token = s.client.token in
      let ne_nil : token ≢ [] =
        do_request-token json (logged http) (record { client = cl; net = w.net }) s c.method c.path
          c.body resp r in
      visit_all-SomeCalls sha256 json http Good token accepts ne_nil visits first
        (All-map (λ v. v.config ≡ cfg) (λ v. IsReady sha256 token first.cache v.config) visits
          (λ v e. subst (IsReady sha256 token first.cache) (sym e) ready) same)
        (subst (λ (x : Shared (Logged N)). Good x.net.net)
          (sym (first_visit cfg c w p d cl resp s g h r)) good)
