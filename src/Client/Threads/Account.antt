-- ===== src/Client/Threads/Account.antt =====
-- Several goroutines in `Do`: the account of what they send.
use mathlib.Core.Path.{subst}
use provider_strapi.Prelude.{ℕ, suc, ◌+◌, ◌≤◌, List, [], ◌∷◌, ◌++◌, ◌≡◌, ◌≢◌, arith, All}
use provider_strapi.Text.{Text}
use provider_strapi.Client.{Client, Request, Json}
use provider_strapi.Client.Trace.{Logged, IsLogin}
use provider_strapi.Client.Steady.{IsAnyCall}
use provider_strapi.Client.Threads.{
  Phase, calling, Event, asked, refused, answered, unauthorized, failed, invalidated, idle, Thread,
  System,
}

-- the requests from one log to the next: how many logins, and how many calls with a token
pub data Sent (json : Json) (c : Client) (before : List Request)
    : ℕ → ℕ → List Request → Type 0 where
  none_sent : Sent json c before 0 0 before
  login_sent :
      (m n : ℕ) (after : List Request) (r : Request)
      → Sent json c before m n after
      → IsLogin json c r
      → Sent json c before (suc m) n (after ++ r ∷ [])
  call_sent :
      (m n : ℕ) (after : List Request) (r : Request)
      → Sent json c before m n after
      → IsAnyCall c r
      → Sent json c before m (suc n) (after ++ r ∷ [])

-- 1 for a client without a token
abbrev pub tokenless : Text → ℕ
tokenless [] = 1
tokenless (c ∷ token) = 0

-- the logins that a step may cause: a token was thrown away, or a login failed
abbrev pub losses : List Event → ℕ
losses [] = 0
losses (invalidated ∷ events) = suc (losses events)
losses (refused ∷ events) = suc (losses events)
losses (_ ∷ events) = losses events

-- the calls that were tried
abbrev pub calls : List Event → ℕ
calls [] = 0
calls (answered ∷ events) = suc (calls events)
calls (unauthorized ∷ events) = suc (calls events)
calls (failed ∷ events) = suc (calls events)
calls (_ ∷ events) = calls events

-- where there is a token, it is not empty
abbrev pub HoldsPhase : Phase → Type 0
HoldsPhase (calling first token) = token ≢ []
HoldsPhase _ = Unit {0}

abbrev pub HoldsToken : Thread → Type 0
HoldsToken th = HoldsPhase th.phase

-- after some steps
pub record Account (json : Json) {N : Type 0} (s : System (Logged N)) (events : List Event)
    (t : System (Logged N)) : Type 0 where
  pub same_client : record t.session.client { token = [] } ≡ record s.session.client { token = [] }
  pub holds : All HoldsToken t.threads
  pub logins : ℕ
  pub api_calls : ℕ
  pub sent : Sent json s.session.client s.session.net.sent logins api_calls t.session.net.sent
  pub logins-le :
      logins + tokenless t.session.client.token ≤ tokenless s.session.client.token + losses events
  pub api_calls-le : api_calls ≤ calls events

-- a client stands in a log by its endpoint alone
pub Sent-client :
    {json : Json} (c d : Client) (before : List Request) (m n : ℕ) (after : List Request)
    → record c { token = [] } ≡ record d { token = [] }
    → Sent json c before m n after
    → Sent json d before m n after
Sent-client {json} c d before _ _ _ e none_sent = none_sent
Sent-client {json} c d before _ _ _ e (login_sent m n after r x l) =
    login_sent m n after r (Sent-client c d before m n after e x)
      (subst (λ (y : Client). IsLogin json y r) e l)
Sent-client {json} c d before _ _ _ e (call_sent m n after r x l) =
    call_sent m n after r (Sent-client c d before m n after e x)
      (subst (λ (y : Client). IsAnyCall y r) e l)

pub Sent-trans :
    {json : Json} (c : Client) (x y : List Request) (m n m' n' : ℕ) (z : List Request)
    → Sent json c x m n y
    → Sent json c y m' n' z
    → (k : ℕ) × (j : ℕ) × Sent json c x k j z × (k ≡ m + m') × (j ≡ n + n')
Sent-trans c x y m n _ _ _ a none_sent = (m, n, a, omega arith, omega arith)
Sent-trans c x y m n _ _ _ a (login_sent m' n' z r b l) =
    let (k, j, d, p, q) = Sent-trans c x y m n m' n' z a b in
    (suc k, j, login_sent k j z r d l, omega (arith, p), q)
Sent-trans c x y m n _ _ _ a (call_sent m' n' z r b l) =
    let (k, j, d, p, q) = Sent-trans c x y m n m' n' z a b in
    (k, suc j, call_sent k j z r d l, p, omega (arith, q))

pub losses-cons :
    (e : Event) (events : List Event) → losses (e ∷ events) ≡ losses (e ∷ []) + losses events
losses-cons asked events = omega arith
losses-cons refused events = omega arith
losses-cons answered events = omega arith
losses-cons unauthorized events = omega arith
losses-cons failed events = omega arith
losses-cons invalidated events = omega arith
losses-cons idle events = omega arith

pub calls-cons :
    (e : Event) (events : List Event) → calls (e ∷ events) ≡ calls (e ∷ []) + calls events
calls-cons asked events = omega arith
calls-cons refused events = omega arith
calls-cons answered events = omega arith
calls-cons unauthorized events = omega arith
calls-cons failed events = omega arith
calls-cons invalidated events = omega arith
calls-cons idle events = omega arith
