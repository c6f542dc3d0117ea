-- ===== src/Client/Threads/Moves.antt =====
-- One step of a goroutine in `Do`: what it does to the client and to the log.
use mathlib.Core.Path.{subst}
use provider_strapi.Prelude.{
  ℕ, ◌+◌, ◌≤◌, List, [], ◌∷◌, ◌++◌, Option, Bool, ◌≡◌, ◌≢◌, refl, sym, ap, ◌∙◌, ◌⊎◌, inl, inr,
  arith, All, length, append-nil, Bool-cases, ◌==◌, ◌&&◌,
}
use provider_strapi.Text.{Text}
use provider_strapi.Exec.{Result, ok, err}
use provider_strapi.Client.{
  Client, Request, Response, Http, Json, Session, token_locked, call_with, invalidate, api_request,
}
use provider_strapi.Client.Token.{HasToken, token_locked-HasToken, token_locked-err}
use provider_strapi.Client.Trace.{
  Logged, logged, IsLogin, Logins, token_locked-Logins, api_request-IsCall, call_with_sent,
}
use provider_strapi.Client.Steady.{Call, IsAnyCall}
use provider_strapi.Client.Threads.{
  Phase, asking, calling, dropping, done, Event, answered, unauthorized, failed, after_asking,
  after_calling, advance, IsRunning,
}
use provider_strapi.Client.Threads.Account.{
  Sent, none_sent, login_sent, call_sent, tokenless, losses, calls, HoldsPhase,
}

-- what one step does to the client and to the log
pub record Moved (json : Json) {N : Type 0} (s : Session (Logged N)) (p : Phase) (e : Event)
    (t : Session (Logged N)) : Type 0 where
  pub same_client : record t.client { token = [] } ≡ record s.client { token = [] }
  pub holds : HoldsPhase p
  pub logins : ℕ
  pub api_calls : ℕ
  pub sent : Sent json s.client s.net.sent logins api_calls t.net.sent
  pub logins-le : logins + tokenless t.client.token ≤ tokenless s.client.token + losses (e ∷ [])
  pub api_calls-le : api_calls ≤ calls (e ∷ [])

tokenless_of_ne : (t : Text) → t ≢ [] → tokenless t ≡ 0
tokenless_of_ne [] h = absurd (h refl)
tokenless_of_ne (c ∷ t) h = refl

tokenless-le : (t : Text) → tokenless t ≤ 1
tokenless-le [] = omega arith
tokenless-le (c ∷ t) = omega arith

module _ (json : Json) {N : Type 0} (http : Http N) where
  -- the log of `tokenLocked` as an account
  sent_of_Logins :
      (s : Session (Logged N)) (after : List Request)
      → Logins json http s after
      → (k : ℕ) × Sent json s.client s.net.sent k 0 after × (k ≤ tokenless s.client.token)
  sent_of_Logins s after l = read l.logins refl l.all-IsLogin l.at_most_one
    where
      read :
          (rs : List Request)
          → l.logins ≡ rs
          → All (IsLogin json s.client) rs
          → length rs ≤ 1
          → (k : ℕ) × Sent json s.client s.net.sent k 0 after × (k ≤ tokenless s.client.token)
      read [] e all one = (
        0,
        subst (Sent json s.client s.net.sent 0 0)
            (sym (l.after-eq ∙ ap (λ x. s.net.sent ++ x) e ∙ append-nil s.net.sent)) none_sent,
        omega arith,
      )
      read (r ∷ []) e (h, _) one =
          let empty : s.client.token ≡ [] = elim l.none_if_cached [
            | inl q ↦ q
            | inr q ↦ absurd (let q' = sym e ∙ q in cc)
          ] in
          (
            1,
            subst (Sent json s.client s.net.sent 1 0)
                (sym (l.after-eq ∙ ap (λ x. s.net.sent ++ x) e))
                (login_sent 0 0 s.net.sent r none_sent h),
            rw empty (omega arith),
          )
      read (r ∷ q ∷ rs) e all one = absurd (omega arith)

  Moved-asking :
      (first : Bool) (s : Session (Logged N)) (x : Result Text × Session (Logged N))
      → token_locked json (logged http) s ≡ x
      → let y = after_asking json (logged http) first x in Moved json s y.0 y.1 y.2
  unfolding after_asking
  Moved-asking first s (ok token, t) e =
      let has : HasToken json (logged http) s token t =
        subst (HasToken json (logged http) s token) (ap (λ y. y.1) e)
          (token_locked-HasToken json (logged http) s token (ap (λ y. y.0) e)) in
      let (k, sent, k-le) =
        sent_of_Logins s t.net.sent (
          subst (Logins json http s) (ap (λ y. y.1.net.sent) e)
            (token_locked-Logins json http s)) in
      let now : t.client.token ≡ token = ap (λ (c : Client). c.token) has.cached in
      record {
        same_client = ap (λ (c : Client). record c { token = [] }) has.cached;
        holds = has.ne_nil;
        logins = k;
        api_calls = 0;
        sent = sent;
        logins-le = omega (arith, k-le, ap tokenless now ∙ tokenless_of_ne token has.ne_nil);
        api_calls-le = omega arith;
      }
  Moved-asking first s (err x, t) e =
      let (empty, kept) = token_locked-err json (logged http) s x (ap (λ y. y.0) e) in
      let (k, sent, k-le) =
        sent_of_Logins s t.net.sent (
          subst (Logins json http s) (ap (λ y. y.1.net.sent) e)
            (token_locked-Logins json http s)) in
      let kept' : t.client ≡ s.client = ap (λ y. y.1.client) (sym e) ∙ kept in
      record {
        same_client = ap (λ (c : Client). record c { token = [] }) kept';
        holds = tt;
        logins = k;
        api_calls = 0;
        sent = sent;
        logins-le = omega (
          arith,
          k-le,
          tokenless-le s.client.token,
          ap (λ (c : Client). tokenless c.token) kept',
        );
        api_calls-le = omega arith;
      }

  call_with-client :
      (s : Session (Logged N)) (token method path : Text) (body : Option (Result Text))
      → (call_with json (logged http) token method path body s).1.client ≡ s.client
  unfolding call_with
  call_with-client s token method path body = ground arith

  -- a step that leaves the client alone and sends one call at most
  Moved-call :
      (s t : Session (Logged N)) (p : Phase) (e : Event)
      → t.client ≡ s.client
      → (t.net.sent ≡ s.net.sent)
        ⊎ ((r : Request) × IsAnyCall s.client r × (t.net.sent ≡ s.net.sent ++ r ∷ []))
      → HoldsPhase p
      → calls (e ∷ []) ≡ 1
      → Moved json s p e t
  Moved-call s t p e kept (inl q) h one = record {
    same_client = ap (λ (c : Client). record c { token = [] }) kept;
    holds = h;
    logins = 0;
    api_calls = 0;
    sent = subst (Sent json s.client s.net.sent 0 0) (sym q) none_sent;
    logins-le = omega (arith, ap (λ (c : Client). tokenless c.token) kept);
    api_calls-le = omega arith;
  }
  Moved-call s t p e kept (inr (r, c, q)) h one = record {
    same_client = ap (λ (c : Client). record c { token = [] }) kept;
    holds = h;
    logins = 0;
    api_calls = 1;
    sent =
        subst (Sent json s.client s.net.sent 0 1) (sym q) (call_sent 0 0 s.net.sent r none_sent c);
    logins-le = omega (arith, ap (λ (c : Client). tokenless c.token) kept);
    api_calls-le = omega arith;
  }

  Moved-calling :
      (first : Bool) (c : Call) (token : Text) (s : Session (Logged N))
      (x : Result Response × Session (Logged N))
      → token ≢ []
      → call_with json (logged http) token c.method c.path c.body s ≡ x
      → let y = after_calling json (logged http) first x in Moved json s y.0 y.1 y.2
  unfolding after_calling
  Moved-calling first c token s (r, t) held e = read r
    where
      kept : t.client ≡ s.client
      kept = ap (λ y. y.1.client) (sym e) ∙ call_with-client s token c.method c.path c.body

      sent :
          (t.net.sent ≡ s.net.sent)
          ⊎ ((r : Request) × IsAnyCall s.client r × (t.net.sent ≡ s.net.sent ++ r ∷ []))
      sent = elim (call_with_sent json http s token c.method c.path c.body) [
        | inl p ↦ inl (ap (λ y. y.1.net.sent) (sym e) ∙ p)
        | inr (buf, p) ↦ inr (
          api_request s.client token c.method c.path buf,
          (c.method, c.path, api_request-IsCall s.client token c.method c.path buf held),
          ap (λ y. y.1.net.sent) (sym e) ∙ p,
        )
      ]

      read :
          (r : Result Response)
          → let y = after_calling json (logged http) first (r, t) in Moved json s y.0 y.1 y.2
      read (err x) = Moved-call s t (done (err x)) failed kept sent tt refl
      read (ok resp) = elim (Bool-cases (first && (resp.status_code == 401))) [
        | inl q ↦ rw q (Moved-call s t dropping unauthorized kept sent tt refl)
        | inr q ↦ rw q (Moved-call s t (done (ok resp)) answered kept sent tt refl)
      ]

  pub advance-Moved :
      (c : Call) (p : Phase) (s : Session (Logged N))
      → HoldsPhase p
      → IsRunning p
      → let y = advance json (logged http) c p s in Moved json s y.0 y.1 y.2
  unfolding advance invalidate
  advance-Moved c (asking first) s h k =
      Moved-asking first s (token_locked json (logged http) s) refl
  advance-Moved c (calling first token) s h k =
      Moved-calling first c token s (call_with json (logged http) token c.method c.path c.body s) h
        refl
  advance-Moved c dropping s h k = record {
    same_client = refl;
    holds = tt;
    logins = 0;
    api_calls = 0;
    sent = none_sent;
    logins-le = omega arith;
    api_calls-le = omega arith;
  }
  advance-Moved c (done r) s h k = absurd k
