-- ===== src/Tests/Threads.antt =====
-- Two goroutines in `Do` on one client, against the server that accepts one token.
use provider_strapi.Prelude.{
  ℕ, List, length, get_elem?, some, [], ◌∷◌, none, true, ◌≡◌, refl, ◌⊎◌, All, ◌*◌, ◌≤◌,
}
use provider_strapi.Text.{codes, text_eq}
use provider_strapi.Exec.{ok}
use provider_strapi.Client.{login, token_locked, call_with, do_once, do_request, invalidate}
use provider_strapi.Client.Trace.{Logged, logged}
use provider_strapi.Client.Steady.{Call}
use provider_strapi.Client.Threads.{
  asking, calling, done, Event, asked, answered, Thread, advance, moved, System, Step, pick, Run,
  here, next,
}
use provider_strapi.Client.Threads.Progress.{IsDone, Run-terminates}
use provider_strapi.Client.Threads.Alone.{single, Run-do_request}
use provider_strapi.Client.Threads.Account.{Account}
use provider_strapi.Client.Threads.Logins.{Run-Account}
use provider_strapi.Tests.Data.{json}
use provider_strapi.Tests.Client.{http, session, roles_path, response}

program : Unit {0}
unfolding login token_locked call_with do_once do_request invalidate advance text_eq
program = tt

abbrev get_roles : Call
get_roles = record { method = codes "GET"; path = roles_path; body = none }

abbrev fresh : Thread
fresh = record { call = get_roles; phase = asking true }

-- two goroutines, and no token
abbrev start : System (Logged (Unit {0}))
start = record { session = session []; threads = fresh ∷ fresh ∷ [] }

-- the first logs in, and the second has its token
abbrev second : System (Logged (Unit {0}))
second = record {
  session = (token_locked json (logged http) start.session).1;
  threads = record fresh { phase = calling true (codes "jwt") } ∷ fresh ∷ [];
}

first-Step : Step json (logged http) start asked second
unfolding program
first-Step = pick 0 fresh refl tt

started : Run json (logged http) start (asked ∷ []) second
started = next [] asked start second here first-Step

Run-terminates_example :
    (1 ≤ 5 * 2)
    × (All IsDone second.threads
        ⊎ ((e : Event) × (u : System (Logged (Unit {0}))) × Step json (logged http) second e u))
Run-terminates_example = Run-terminates json (logged http) start second (asked ∷ []) started

Run-Account_example : Account json start (asked ∷ []) second
Run-Account_example = Run-Account json http start second (asked ∷ []) (tt, (tt, tt)) started

abbrev alone : System (Logged (Unit {0}))
alone = single json (logged http) get_roles (asking true, session (codes "jwt"))

abbrev holding : System (Logged (Unit {0}))
holding = single json (logged http) get_roles (calling true (codes "jwt"), session (codes "jwt"))

abbrev returned : System (Logged (Unit {0}))
returned = single json (logged http) get_roles (
  done (ok (response 200 (codes "[]"))),
  (do_request json (logged http) (codes "GET") roles_path none (session (codes "jwt"))).1,
)

alone-Run : Run json (logged http) alone (answered ∷ asked ∷ []) returned
unfolding program
alone-Run =
    next (asked ∷ []) answered holding returned
      (next [] asked alone holding here (pick 0 fresh refl tt))
      (pick 0 (record fresh { phase = calling true (codes "jwt") }) refl tt)

Run-do_request_example :
    returned
    ≡ single json (logged http) get_roles (
      done (do_request json (logged http) (codes "GET") roles_path none (session (codes "jwt"))).0,
      (do_request json (logged http) (codes "GET") roles_path none (session (codes "jwt"))).1,
    )
Run-do_request_example =
    Run-do_request json (logged http) get_roles (session (codes "jwt")) (answered ∷ asked ∷ [])
      returned alone-Run ((ok (response 200 (codes "[]")), refl), tt)

-- the next step of the goroutine `i`
turn : System (Logged (Unit {0})) → ℕ → System (Logged (Unit {0}))
turn s i = elim (get_elem? s.threads i) [
  | none ↦ s
  | some th ↦ moved s i th (advance json (logged http) th.call th.phase s.session)
]

turns : List ℕ → System (Logged (Unit {0})) → System (Logged (Unit {0}))
unfolding turn
turns [] s = s
turns (i ∷ is) s = turns is (turn s i)

-- two goroutines, and a token that has expired
abbrev expired : System (Logged (Unit {0}))
expired = record { session = session (codes "old"); threads = fresh ∷ fresh ∷ [] }

-- one after the other they send four requests: a call that is refused, a login, and their calls
in_turn : length (turns (0 ∷ 0 ∷ 0 ∷ 0 ∷ 0 ∷ 1 ∷ 1 ∷ []) expired).session.net.sent ≡ 4
unfolding program turns turn
in_turn = refl

-- at once they send six: both calls are refused, and the second throws away the token of the first one's
-- login, so that it has to log in too
at_once : length (turns (0 ∷ 1 ∷ 0 ∷ 1 ∷ 0 ∷ 0 ∷ 1 ∷ 1 ∷ 0 ∷ 1 ∷ []) expired).session.net.sent ≡ 6
unfolding program turns turn
at_once = refl
