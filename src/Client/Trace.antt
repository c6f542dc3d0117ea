-- ===== src/Client/Trace.antt =====
-- The requests that the client sends, by a network that keeps a log.
use mathlib.Core.Path.{subst}
use provider_strapi.Prelude.{
  ◌≤◌, List, [], ◌∷◌, ◌++◌, Option, none, some, ◌≡◌, ◌≢◌, refl, sym, ap, ◌∙◌, ◌⊎◌, inl, inr, arith,
  All, append-nil, length,
}
use provider_strapi.Text.{Text, codes}
use provider_strapi.Exec.{Result, ok, err, Exec, Result-cases, continue}
use provider_strapi.Client.{
  Client, Request, Response, Http, Json, Session, login_path, login_request, api_request, login,
  cached_or_login, token_locked, marshal_body, call_with, do_once,
}
use provider_strapi.Client.Token.{HasToken, token_locked-HasToken}

-- a network with the requests that were sent on it, oldest first
pub record Logged (N : Type 0) : Type 0 where
  pub net : N
  pub sent : List Request

abbrev pub logged : {N : Type 0} → Http N → Http (Logged N)
logged http = record {
  new_request = http.new_request;
  read_limited = http.read_limited;
  send = λ req n.
      let (r, n') = http.send req n.net in (r, record { net = n'; sent = n.sent ++ req ∷ [] });
}

-- a POST of the client's credentials to the login path
abbrev pub IsLogin : Json → Client → Request → Type 0
IsLogin json c r =
    (body : Text) × (json.marshal_credentials c.creds ≡ ok body)
    × (r ≡ record {
      method = codes "POST";
      url = c.endpoint ++ codes "/admin/login";
      headers =
          (codes "Content-Type", codes "application/json")
          ∷ (codes "Accept", codes "application/json")
          ∷ [];
      body = some body;
    })

-- the header that only a request with a body has
abbrev pub body_headers : Option Text → List (Text × Text)
body_headers none = []
body_headers (some b) = (codes "Content-Type", codes "application/json") ∷ []

-- a call of the API with a token that is not empty
abbrev pub IsCall : Client → Text → Text → Request → Type 0
IsCall c method path r =
    (token : Text) × (body : Option Text) × (token ≢ [])
    × (r ≡ record {
      method = method;
      url = c.endpoint ++ path;
      headers =
          (codes "Authorization", codes "Bearer " ++ token)
          ∷ (codes "Accept", codes "application/json")
          ∷ body_headers body;
      body = body;
    })

pub api_request-IsCall :
    (c : Client) (token method path : Text) (body : Option Text)
    → token ≢ []
    → IsCall c method path (api_request c token method path body)
api_request-IsCall c token method path none h = (token, none, h, refl)
api_request-IsCall c token method path (some b) h = (token, some b, h, refl)

-- the log after a run
abbrev pub sent_by :
    {N A : Type 0} → Exec (Session (Logged N)) A → Session (Logged N) → List Request
sent_by m s = (m s).1.net.sent

module _ (json : Json) {N : Type 0} (http : Http N) where
  -- at most one login was sent, and none if there was a token
  pub record Logins (s : Session (Logged N)) (after : List Request) : Type 0 where
    pub logins : List Request
    pub after-eq : after ≡ s.net.sent ++ logins
    pub at_most_one : length logins ≤ 1
    pub all-IsLogin : All (IsLogin json s.client) logins
    pub none_if_cached : (s.client.token ≡ []) ⊎ (logins ≡ [])

  no_login : (s : Session (Logged N)) → Logins s s.net.sent
  no_login s = record {
    logins = [];
    after-eq = sym (append-nil s.net.sent);
    at_most_one = omega arith;
    all-IsLogin = tt;
    none_if_cached = inr refl;
  }

  one_login :
      (s : Session (Logged N)) (body : Text)
      → json.marshal_credentials s.client.creds ≡ ok body
      → s.client.token ≡ []
      → Logins s (s.net.sent ++ login_request s.client body ∷ [])
  one_login s body m e = record {
    logins = login_request s.client body ∷ [];
    after-eq = refl;
    at_most_one = omega arith;
    all-IsLogin = ((body, m, refl), tt);
    none_if_cached = inl e;
  }

  -- a login sends its request, or fails before
  login_sent :
      (s : Session (Logged N))
      → (sent_by (login json (logged http)) s ≡ s.net.sent)
        ⊎ ((body : Text) × (json.marshal_credentials s.client.creds ≡ ok body)
            × (sent_by (login json (logged http)) s
                ≡ s.net.sent ++ login_request s.client body ∷ []))
  unfolding login
  login_sent s = marshalled (json.marshal_credentials s.client.creds) refl
    where
      building :
          (body : Text)
          → json.marshal_credentials s.client.creds ≡ ok body
          → (r : Result (Unit {0}))
          → http.new_request (codes "POST") (s.client.endpoint ++ login_path) ≡ r
          → (sent_by (login json (logged http)) s ≡ s.net.sent)
            ⊎ ((body : Text) × (json.marshal_credentials s.client.creds ≡ ok body)
                × (sent_by (login json (logged http)) s
                    ≡ s.net.sent ++ login_request s.client body ∷ []))
      building body m (ok u) q = inr (body, m, ground arith)
      building body m (err x) q = inl (ground arith)

      marshalled :
          (m : Result Text)
          → json.marshal_credentials s.client.creds ≡ m
          → (sent_by (login json (logged http)) s ≡ s.net.sent)
            ⊎ ((body : Text) × (json.marshal_credentials s.client.creds ≡ ok body)
                × (sent_by (login json (logged http)) s
                    ≡ s.net.sent ++ login_request s.client body ∷ []))
      marshalled (ok body) m = building body m _ refl
      marshalled (err x) m = inl (ground arith)

  cached_or_login-sent :
      (s : Session (Logged N))
      → sent_by (cached_or_login json (logged http) []) s ≡ sent_by (login json (logged http)) s
  unfolding cached_or_login
  cached_or_login-sent s = ground arith

  pub token_locked-Logins :
      (s : Session (Logged N)) → Logins s (sent_by (token_locked json (logged http)) s)
  unfolding token_locked
  token_locked-Logins s = by_cache s.client.token refl
    where
      by_cache :
          (cache : Text)
          → s.client.token ≡ cache
          → Logins s (sent_by (cached_or_login json (logged http) cache) s)
      by_cache (c ∷ cache) e = unfold cached_or_login in no_login s
      by_cache [] e = elim (login_sent s) [
        | inl p ↦ subst (Logins s) (sym (cached_or_login-sent s ∙ p)) (no_login s)
        | inr (body, m, p) ↦
            subst (Logins s) (sym (cached_or_login-sent s ∙ p)) (one_login s body m e)
      ]

  -- One attempt: what logging in sends, then at most one call.
  pub record Attempt (s : Session (Logged N)) (method path : Text) (after : List Request)
      : Type 0 where
    pub logged_in : List Request
    pub logging_in : Logins s logged_in
    pub calls : List Request
    pub after-eq : after ≡ logged_in ++ calls
    pub at_most_one : length calls ≤ 1
    pub all-IsCall : All (IsCall s.client method path) calls

  -- a call behind the token sends its request, or fails before
  pub call_with_sent :
      (s : Session (Logged N)) (token method path : Text) (body : Option (Result Text))
      → (sent_by (call_with json (logged http) token method path body) s ≡ s.net.sent)
        ⊎ ((buf : Option Text) × (sent_by (call_with json (logged http) token method path body) s
              ≡ s.net.sent ++ api_request s.client token method path buf ∷ []))
  unfolding call_with
  call_with_sent s token method path body = elim (Result-cases (marshal_body body)) [
    | inr (x, m) ↦ inl (ground arith)
    | inl (buf, m) ↦ elim (Result-cases (http.new_request method (s.client.endpoint ++ path))) [
      | inl (u, q) ↦ inr (buf, ground arith)
      | inr (x, q) ↦ inl (ground arith)
    ]
  ]

  do_once_sent :
      (s : Session (Logged N)) (method path : Text) (body : Option (Result Text)) (t : Result Text)
      (s' : Session (Logged N))
      → token_locked json (logged http) s ≡ (t, s')
      → (sent_by (do_once json (logged http) method path body) s ≡ s'.net.sent)
        ⊎ ((token : Text) × (buf : Option Text) × (t ≡ ok token)
            × (sent_by (do_once json (logged http) method path body) s
                ≡ s'.net.sent ++ api_request s'.client token method path buf ∷ []))
  unfolding do_once
  do_once_sent s method path body t s' e = read t same
    where
      rest : Text → Exec (Session (Logged N)) Response
      rest token = call_with json (logged http) token method path body

      same :
          sent_by (do_once json (logged http) method path body) s
          ≡ (continue (t, s') rest).1.net.sent
      same = ap (λ (x : Result Text × Session (Logged N)). (continue x rest).1.net.sent) e

      read :
          (r : Result Text)
          → sent_by (do_once json (logged http) method path body) s
            ≡ (continue (r, s') rest).1.net.sent
          → (sent_by (do_once json (logged http) method path body) s ≡ s'.net.sent)
            ⊎ ((token : Text) × (buf : Option Text) × (r ≡ ok token)
                × (sent_by (do_once json (logged http) method path body) s
                    ≡ s'.net.sent ++ api_request s'.client token method path buf ∷ []))
      read (err x) q = inl q
      read (ok token) q = elim (call_with_sent s' token method path body) [
        | inl p ↦ inl (q ∙ p)
        | inr (buf, p) ↦ inr (token, buf, refl, q ∙ p)
      ]

  Attempt-of :
      (s : Session (Logged N)) (method path : Text) (after : List Request) (calls : List Request)
      (l : Logins s (sent_by (token_locked json (logged http)) s))
      → after ≡ sent_by (token_locked json (logged http)) s ++ calls
      → length calls ≤ 1
      → All (IsCall s.client method path) calls
      → Attempt s method path after
  Attempt-of s method path after calls l e one all = record {
    logged_in = sent_by (token_locked json (logged http)) s;
    logging_in = l;
    calls = calls;
    after-eq = e;
    at_most_one = one;
    all-IsCall = all;
  }

  -- What one attempt sends: at most one login, and none where a token is cached; then at most one
  -- call of the API, which carries a token that is not empty.
  pub do_once-Attempt :
      (s : Session (Logged N)) (method path : Text) (body : Option (Result Text))
      → Attempt s method path (sent_by (do_once json (logged http) method path body) s)
  do_once-Attempt s method path body = read (token_locked json (logged http) s) refl
    where
      l : Logins s (sent_by (token_locked json (logged http)) s)
      l = token_locked-Logins s

      read :
          (r : Result Text × Session (Logged N))
          → token_locked json (logged http) s ≡ r
          → Attempt s method path (sent_by (do_once json (logged http) method path body) s)
      read (t, s') e = elim (do_once_sent s method path body t s' e) [
        | inl p ↦
            Attempt-of s method path _ [] l
              (p
                ∙ ap (λ (x : Result Text × Session (Logged N)). x.1.net.sent) (sym e)
                ∙ sym (append-nil _))
              (omega arith) tt
        | inr (token, buf, q, p) ↦
            let has : HasToken json (logged http) s token (token_locked json (logged http) s).1 =
              token_locked-HasToken json (logged http) s token
                (ap (λ (x : Result Text × Session (Logged N)). x.0) e ∙ q) in
            let kept : s'.client ≡ record s.client { token = token } =
              ap (λ (x : Result Text × Session (Logged N)). x.1.client) (sym e) ∙ has.cached in
            let req : Request = api_request s'.client token method path buf in
            Attempt-of s method path _ (req ∷ []) l
              (p ∙ ap (λ (x : Result Text × Session (Logged N)). x.1.net.sent ++ req ∷ []) (sym e))
              (omega arith)
              (
                subst (λ (c : Client). IsCall (record c { token = s.client.token }) method path req)
                    kept (api_request-IsCall s'.client token method path buf has.ne_nil),
                tt,
              )
      ]
