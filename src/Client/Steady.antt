-- ===== src/Client/Steady.antt =====
-- Uses of `Do` of internal/clients/strapi/strapi.go in turn, while the cached token is accepted.
use mathlib.Core.Path.{subst}
use mathlib.Core.List.{Mem, mem-cons_self}
use provider_strapi.Prelude.{
  ℕ, suc, ◌≤◌, List, [], ◌∷◌, ◌++◌, Option, none, some, ◌≡◌, ◌≢◌, refl, sym, ap, ◌∙◌, inl, inr,
  arith, append-nil, append_assoc, length, length-append, All, All-map, All-append,
}
use provider_strapi.Text.{Text, codes}
use provider_strapi.Exec.{Result, ok, err, Result-cases}
use provider_strapi.Client.{
  Client, Request, Response, Http, Json, Session, api_request, headers_of, call_with, send,
  marshal_body, do_once, do_request,
}
use provider_strapi.Client.Token.{token_locked_cached}
use provider_strapi.Client.Trace.{Logged, logged, IsCall, sent_by, do_once-Attempt}
use provider_strapi.Client.Retry.{do_request-cases}

-- one use of `Do`
pub record Call : Type 0 where
  pub method : Text
  pub path : Text
  pub body : Option (Result Text)

-- no refusal of the token
abbrev pub IsAccepted : Result Response → Type 0
IsAccepted (err e) = Unit {0}
IsAccepted (ok resp) = resp.status_code ≢ 401

-- A network that accepts a token in its good states: there it does not answer a request that carries the
-- token by 401, and the next state is good again. What it does with other requests is left open.
pub record Accepts {N : Type 0} (http : Http N) (token : Text) (Good : N → Type 0) : Type 0 where
  pub served :
      (req : Request) (n : N)
      → Good n
      → Mem (codes "Authorization", codes "Bearer " ++ token) req.headers
      → Good (http.send req n).1 × IsAccepted (http.send req n).0

has_header :
    (token : Text) (body : Option Text)
    → Mem (codes "Authorization", codes "Bearer " ++ token) (headers_of token body)
has_header token none = mem-cons_self
has_header token (some b) = mem-cons_self

module _ (json : Json) {N : Type 0} (http : Http N) where
  -- some uses of `Do` in turn, whatever they return
  unfoldable pub do_all : List Call → Session N → Session N
  do_all [] s = s
  do_all (c ∷ calls) s = do_all calls (do_request json http c.method c.path c.body s).1

  do_once-client :
      (s : Session N) (method path : Text) (body : Option (Result Text))
      → s.client.token ≢ []
      → (do_once json http method path body s).1.client ≡ s.client
  unfolding do_once send
  do_once-client s method path body h =
      let e = token_locked_cached json http s h in ground (arith, e)

  do_once-IsAccepted :
      (Good : N → Type 0) (s : Session N) (method path : Text) (body : Option (Result Text))
      → Accepts http s.client.token Good
      → s.client.token ≢ []
      → Good s.net
      → Good (do_once json http method path body s).1.net
        × IsAccepted (do_once json http method path body s).0
  unfolding do_once call_with send
  do_once-IsAccepted Good s method path body a h good =
      let e = token_locked_cached json http s h in
      elim (Result-cases (marshal_body body)) [
        | inr (x, m) ↦ rw (e, m) (good, tt)
        | inl (buf, m) ↦ elim (Result-cases (http.new_request method (s.client.endpoint ++ path))) [
          | inr (x, q) ↦ rw (e, m, q) (good, tt)
          | inl (v, q) ↦
              let req : Request = api_request s.client s.client.token method path buf in
              rw (e, m, q) (a.served req s.net good (has_header s.client.token buf))
        ]
      ]

  -- one use of `Do` with a token that is accepted: no second attempt
  do_request-steady :
      (Good : N → Type 0) (s : Session N) (method path : Text) (body : Option (Result Text))
      → Accepts http s.client.token Good
      → s.client.token ≢ []
      → Good s.net
      → (do_request json http method path body s ≡ do_once json http method path body s)
  do_request-steady Good s method path body a h good =
      elim (do_request-cases json http s method path body) [
        | inl e ↦ e
        | inr (resp, s', e, c, _) ↦ absurd (
            subst (λ (x : Result Response × Session N). IsAccepted x.0) e
              (do_once-IsAccepted Good s method path body a h good).1 c)
      ]

-- a call that some use of `Do` makes, and no login
abbrev pub IsAnyCall : Client → Request → Type 0
IsAnyCall c r = (method : Text) × (path : Text) × IsCall c method path r

-- at most `n` requests were sent, calls all of them
pub record Calls (n : ℕ) (c : Client) (before after : List Request) : Type 0 where
  pub requests : List Request
  pub after-eq : after ≡ before ++ requests
  pub bound : length requests ≤ n
  pub all-IsAnyCall : All (IsAnyCall c) requests

module _ (json : Json) {N : Type 0} (http : Http N) (Good : N → Type 0) where
  abbrev GoodLog : Logged N → Type 0
  GoodLog n = Good n.net

  accepts_logged : (token : Text) → Accepts http token Good → Accepts (logged http) token GoodLog
  accepts_logged token a = record { served = λ req n good m. a.served req n.net good m }

  do_request-Calls :
      (s : Session (Logged N)) (method path : Text) (body : Option (Result Text))
      → Accepts http s.client.token Good
      → s.client.token ≢ []
      → Good s.net.net
      → Calls 1 s.client s.net.sent (sent_by (do_request json (logged http) method path body) s)
  do_request-Calls s method path body acc h good =
      let a = do_once-Attempt json http s method path body in
      let l = a.logging_in in
      let same =
        do_request-steady json (logged http) GoodLog s method path body
          (accepts_logged s.client.token acc) h good in
      elim l.none_if_cached [
        | inl e ↦ absurd (h e)
        | inr e ↦ record {
          requests = a.calls;
          after-eq =
              ap (λ (x : Result Response × Session (Logged N)). x.1.net.sent) same
              ∙ a.after-eq
              ∙ ap (λ x. x ++ a.calls)
                  (l.after-eq ∙ ap (λ x. s.net.sent ++ x) e ∙ append-nil s.net.sent);
          bound = a.at_most_one;
          all-IsAnyCall =
              All-map (IsCall s.client method path) (IsAnyCall s.client) a.calls
                (λ r c. (method, path, c)) a.all-IsCall;
        }
      ]

  Calls-suc :
      (n : ℕ) (c : Client) (x y z : List Request)
      → Calls 1 c x y
      → Calls n c y z
      → Calls (suc n) c x z
  Calls-suc n c x y z p q = record {
    requests = p.requests ++ q.requests;
    after-eq =
        q.after-eq ∙ ap (λ w. w ++ q.requests) p.after-eq ∙ append_assoc x p.requests q.requests;
    bound = omega (arith, length-append {0} p.requests q.requests, p.bound, q.bound);
    all-IsAnyCall = All-append (IsAnyCall c) p.requests q.requests p.all-IsAnyCall q.all-IsAnyCall;
  }

  -- A client that holds a token which the network accepts does not log in again: any number of uses of
  -- `Do` sends at most one request each, a call with a token that is not empty, and leaves the client as
  -- it was.
  pub do_all-Calls :
      (calls : List Call) (s : Session (Logged N))
      → Accepts http s.client.token Good
      → s.client.token ≢ []
      → Good s.net.net
      → Calls (length calls) s.client s.net.sent (do_all json (logged http) calls s).net.sent
        × ((do_all json (logged http) calls s).client ≡ s.client)
        × Good (do_all json (logged http) calls s).net.net
  unfolding do_all
  do_all-Calls [] s a h good = (
    record {
      requests = [];
      after-eq = sym (append-nil s.net.sent);
      bound = omega arith;
      all-IsAnyCall = tt;
    },
    refl,
    good,
  )
  do_all-Calls (c ∷ calls) s a h good =
      let t = (do_request json (logged http) c.method c.path c.body s).1 in
      let la = accepts_logged s.client.token a in
      let steady =
        do_request-steady json (logged http) GoodLog s c.method c.path c.body la h good in
      let same : t.client ≡ s.client =
        ap (λ (x : Result Response × Session (Logged N)). x.1.client) steady
        ∙ do_once-client json (logged http) s c.method c.path c.body h in
      let still : Good t.net.net =
        subst (λ (x : Result Response × Session (Logged N)). Good x.1.net.net) (sym steady)
          (do_once-IsAccepted json (logged http) GoodLog s c.method c.path c.body la h good).0 in
      let (rest, kept, last) =
        do_all-Calls calls t (subst (λ (x : Client). Accepts http x.token Good) (sym same) a)
          (rw same h) still in
      (
        Calls-suc (length calls) s.client s.net.sent t.net.sent _
            (do_request-Calls s c.method c.path c.body a h good)
            (subst
              (λ (x : Client).
                Calls (length calls) x t.net.sent (do_all json (logged http) calls t).net.sent)
              same rest),
        kept ∙ same,
        last,
      )
