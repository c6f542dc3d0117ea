-- ===== src/Client/Retry.antt =====
-- `Do` of internal/clients/strapi/strapi.go: the attempts, and what they send.
use mathlib.Core.Path.{subst}
use native.Mathlib.Nat.{le_trans}
use provider_strapi.Prelude.{
  ℕ, ◌+◌, ◌≤◌, List, [], ◌++◌, Option, ◌≡◌, ◌≢◌, refl, sym, ap, ◌∙◌, ◌⊎◌, inl, inr, arith, All,
  All-append, All-map, Bool-cases, ◌==◌, ==_iff, append_assoc, length, length-append,
}
use provider_strapi.Text.{Text}
use provider_strapi.Exec.{Result, ok, err, Exec}
use provider_strapi.Client.{
  Client, Request, Response, Http, Json, Session, invalidate, token_locked, call_with, send,
  do_once, do_request,
}
use provider_strapi.Client.Token.{token_locked-HasToken, do_once-config}
use provider_strapi.Client.Trace.{
  Logged, logged, IsLogin, IsCall, sent_by, Attempt, do_once-Attempt,
}

-- the session with the token dropped
abbrev pub forget : {M : Type 0} → Session M → Session M
forget s = record s { client = record s.client { token = [] } }

module _ (json : Json) {N : Type 0} (http : Http N) where
  -- `Do` is one attempt, and a second one without the token exactly if the first response is a 401
  pub do_request-cases :
      (s : Session N) (method path : Text) (body : Option (Result Text))
      → (do_request json http method path body s ≡ do_once json http method path body s)
        ⊎ ((resp : Response) × (s' : Session N) × (do_once json http method path body s
              ≡ (ok resp, s'))
            × (resp.status_code ≡ 401)
            × (do_request json http method path body s
                ≡ do_once json http method path body (forget s')))
  unfolding do_request invalidate
  do_request-cases s method path body = first (do_once json http method path body s) refl
    where
      first :
          (r : Result Response × Session N)
          → do_once json http method path body s ≡ r
          → (do_request json http method path body s ≡ do_once json http method path body s)
            ⊎ ((resp : Response) × (s' : Session N) × (do_once json http method path body s
                  ≡ (ok resp, s'))
                × (resp.status_code ≡ 401)
                × (do_request json http method path body s
                    ≡ do_once json http method path body (forget s')))
      first (err x, s') e = inl (rw e)
      first (ok resp, s') e = elim (Bool-cases (resp.status_code == 401)) [
        | inr q ↦ inl (rw (e, q))
        | inl q ↦ inr (resp, s', e, (==_iff _ _).0 q, rw (e, q))
      ]

-- at most `n` requests were sent: logins with the credentials of the client, and calls of the method and path
pub record AtMost (json : Json) (n : ℕ) (c : Client) (method path : Text)
    (before after : List Request) : Type 0 where
  pub requests : List Request
  pub after-eq : after ≡ before ++ requests
  pub bound : length requests ≤ n
  pub kinds : All (λ r. IsLogin json c r ⊎ IsCall c method path r) requests

AtMost-trans :
    {json : Json} {m n : ℕ} {c : Client} {method path : Text} {a b d : List Request}
    → AtMost json m c method path a b
    → AtMost json n c method path b d
    → AtMost json (m + n) c method path a d
AtMost-trans {json} {c} {method} {path} {a} p q = record {
  requests = p.requests ++ q.requests;
  after-eq =
      q.after-eq ∙ ap (λ x. x ++ q.requests) p.after-eq ∙ append_assoc a p.requests q.requests;
  bound = omega (arith, length-append {0} p.requests q.requests, p.bound, q.bound);
  kinds =
      All-append (λ r. IsLogin json c r ⊎ IsCall c method path r) p.requests q.requests p.kinds
        q.kinds;
}

-- the kinds do not depend on the token
AtMost-token :
    {json : Json} {n : ℕ} {c : Client} {method path : Text} {a b : List Request}
    → AtMost json n (record c { token = [] }) method path a b
    → AtMost json n c method path a b
AtMost-token p = record {
  requests = p.requests;
  after-eq = p.after-eq;
  bound = p.bound;
  kinds = p.kinds;
}

AtMost-weaken :
    {json : Json} {m n : ℕ} {c : Client} {method path : Text} {a b : List Request}
    → m ≤ n
    → AtMost json m c method path a b
    → AtMost json n c method path a b
AtMost-weaken h p = record {
  requests = p.requests;
  after-eq = p.after-eq;
  bound = le_trans p.bound h;
  kinds = p.kinds;
}

module _ (json : Json) {N : Type 0} (http : Http N) where
  of_Attempt :
      (s : Session (Logged N)) (method path : Text) (after : List Request)
      → Attempt json http s method path after
      → AtMost json 2 s.client method path s.net.sent after
  of_Attempt s method path after a =
      let kind : Request → Type 0 = λ r. IsLogin json s.client r ⊎ IsCall s.client method path r in
      let logins = a.logging_in.logins in
      record {
        requests = logins ++ a.calls;
        after-eq =
            a.after-eq
            ∙ ap (λ x. x ++ a.calls) a.logging_in.after-eq
            ∙ append_assoc s.net.sent logins a.calls;
        bound =
            omega
              (arith, length-append {0} logins a.calls, a.logging_in.at_most_one, a.at_most_one);
        kinds =
            All-append kind logins a.calls
              (All-map (IsLogin json s.client) kind logins (λ r h. inl h) a.logging_in.all-IsLogin)
              (All-map (IsCall s.client method path) kind a.calls (λ r h. inr h) a.all-IsCall);
      }

  -- `Do` sends at most four requests, whatever the server answers: logins, each a POST of
  -- the client's own encoded credentials to /admin/login at its endpoint, and calls of its own method and
  -- path that carry a token which is not empty.
  pub do_request-AtMost :
      (s : Session (Logged N)) (method path : Text) (body : Option (Result Text))
      → AtMost json 4 s.client method path s.net.sent
          (sent_by (do_request json (logged http) method path body) s)
  do_request-AtMost s method path body =
      let one = of_Attempt s method path _ (do_once-Attempt json http s method path body) in
      elim (do_request-cases json (logged http) s method path body) [
        | inl e ↦ subst bounded (sym e) (AtMost-weaken (omega arith) one)
        | inr (resp, s', e, _, p) ↦
            let u = forget s' in
            let two = of_Attempt u method path _ (do_once-Attempt json http u method path body) in
            let same : record s'.client { token = [] } ≡ record s.client { token = [] } =
              ap (λ (x : Result Response × Session (Logged N)). record x.1.client { token = [] })
                (sym e)
              ∙ do_once-config json (logged http) s method path body in
            let two' = AtMost-token (
              subst (λ (c : Client). AtMost json 2 c method path s'.net.sent (sent_by attempt u))
                same two) in
            let one' =
              subst (λ (x : List Request). AtMost json 2 s.client method path s.net.sent x)
                (ap (λ (x : Result Response × Session (Logged N)). x.1.net.sent) e) one in
            subst bounded (sym p) (AtMost-weaken (omega arith) (AtMost-trans one' two'))
      ]
    where
      attempt : Exec (Session (Logged N)) Response
      attempt = do_once json (logged http) method path body

      bounded : Result Response × Session (Logged N) → Type 0
      bounded x = AtMost json 4 s.client method path s.net.sent x.1.net.sent

module _ (json : Json) {N : Type 0} (http : Http N) where
  call_with-client :
      (s : Session N) (token method path : Text) (body : Option (Result Text))
      → (call_with json http token method path body s).1.client ≡ s.client
  unfolding call_with send
  call_with-client s token method path body = ground arith

  do_once-token :
      (s s' : Session N) (method path : Text) (body : Option (Result Text)) (resp : Response)
      → do_once json http method path body s ≡ (ok resp, s')
      → s'.client.token ≢ []
  unfolding do_once
  do_once-token s s' method path body resp h = read (token_locked json http s) refl
    where
      read : (r : Result Text × Session N) → token_locked json http s ≡ r → s'.client.token ≢ []
      read (err x, u) e = absurd (let h' = rw e at h in cc)
      read (ok t, u) e =
          let h' = rw e at h in
          let has =
            token_locked-HasToken json http s t (ap (λ (x : Result Text × Session N). x.0) e) in
          let kept : s'.client ≡ u.client =
            ap (λ (x : Result Response × Session N). x.1.client) (sym h')
            ∙ call_with-client u t method path body in
          let held : u.client ≡ record s.client { token = t } =
            ap (λ (x : Result Text × Session N). x.1.client) (sym e) ∙ has.cached in
          λ q. has.ne_nil (ap (λ (x : Client). x.token) (sym (kept ∙ held)) ∙ q)

  -- a response comes with a token in the cache
  pub do_request-token :
      (s s' : Session N) (method path : Text) (body : Option (Result Text)) (resp : Response)
      → do_request json http method path body s ≡ (ok resp, s')
      → s'.client.token ≢ []
  do_request-token s s' method path body resp h =
      elim (do_request-cases json http s method path body) [
        | inl e ↦ do_once-token s s' method path body resp (sym e ∙ h)
        | inr (_, u, _, _, e) ↦ do_once-token (forget u) s' method path body resp (sym e ∙ h)
      ]
