-- ===== src/Client/Threads/Logins.antt =====
-- Several goroutines in `Do`, under any scheduler: what they send.
use provider_strapi.Prelude.{List, ◌∷◌, refl, ◌∙◌, arith, All, All-set, All-get_elem?}
use provider_strapi.Client.{Http, Json}
use provider_strapi.Client.Trace.{Logged, logged}
use provider_strapi.Client.Threads.{Event, advance, System, Step, pick, Run, here, next}
use provider_strapi.Client.Threads.Account.{
  none_sent, HoldsToken, Account, Sent-client, Sent-trans, losses-cons, calls-cons,
}
use provider_strapi.Client.Threads.Moves.{advance-Moved}

module _ (json : Json) {N : Type 0} (http : Http N) where
  Step-Account :
      (s t u : System (Logged N)) (events : List Event) (e : Event)
      → Account json s events t
      → Step json (logged http) t e u
      → Account json s (e ∷ events) u
  Step-Account s t _ events _ a (pick i th q k) =
      let m =
        advance-Moved json http th.call th.phase t.session
          (All-get_elem? HoldsToken t.threads i th a.holds q) k in
      let e = (advance json (logged http) th.call th.phase t.session).1 in
      let (l, c, sent, p, r) =
        Sent-trans s.session.client s.session.net.sent t.session.net.sent a.logins a.api_calls
          m.logins m.api_calls _ a.sent
          (Sent-client t.session.client s.session.client t.session.net.sent m.logins m.api_calls _
            a.same_client m.sent) in
      record {
        same_client = m.same_client ∙ a.same_client;
        holds = All-set HoldsToken t.threads i _ a.holds m.holds;
        logins = l;
        api_calls = c;
        sent = sent;
        logins-le = omega (arith, p, a.logins-le, m.logins-le, losses-cons e events);
        api_calls-le = omega (arith, r, a.api_calls-le, m.api_calls-le, calls-cons e events);
      }

  -- Under any scheduler and whatever the server answers, goroutines that start `Do` on one client send
  -- logins and calls alone, the calls with a token that is not empty, and never change the client but
  -- for its token. There is at most one login for a client that starts without a token, and one more for
  -- each token that was thrown away and each login that failed; and at most one call for each time that
  -- a goroutine reached the call.
  pub Run-Account :
      (s t : System (Logged N)) (events : List Event)
      → All HoldsToken s.threads
      → Run json (logged http) s events t
      → Account json s events t
  Run-Account s _ _ h here = record {
    same_client = refl;
    holds = h;
    logins = 0;
    api_calls = 0;
    sent = none_sent;
    logins-le = omega arith;
    api_calls-le = omega arith;
  }
  Run-Account s u _ h (next events e t _ r st) =
      Step-Account s t u events e (Run-Account s t events h r) st
