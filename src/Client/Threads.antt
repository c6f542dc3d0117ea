-- ===== src/Client/Threads.antt =====
-- internal/clients/strapi/strapi.go used by several goroutines at once: `Do` cut at the places where it
-- takes or gives back the mutex and at the call of the network, each piece one step.
pub mod Alone
pub mod Progress
pub mod Account
pub mod Moves
pub mod Logins
use provider_strapi.Prelude.{
  ℕ, suc, List, [], ◌∷◌, Option, none, some, Bool, true, false, ◌≡◌, ◌==◌, ◌&&◌, get_elem?, set,
  if◌then◌else◌,
}
use provider_strapi.Text.{Text}
use provider_strapi.Exec.{Error, Result, ok, err}
use provider_strapi.Client.{
  Client, Request, Response, Http, Json, Session, token_locked, call_with, invalidate,
}
use provider_strapi.Client.Steady.{Call}

-- where a goroutine stands in `Do`; the flag says whether this is the first attempt
pub data Phase : Type 0 where
  -- before `tokenLocked`
  asking : Bool → Phase
  -- with a token, before the call
  calling : Bool → Text → Phase
  -- after a first response of 401, before `invalidate`
  dropping : Phase
  done : Result Response → Phase

-- what a step did
pub data Event : Type 0 where
  -- got a token, or no token
  asked refused : Event
  -- the call was answered, but not by a 401 to a first attempt; or it failed
  answered unauthorized failed : Event
  invalidated : Event
  idle : Event

pub record Thread : Type 0 where
  pub call : Call
  pub phase : Phase

-- the client and the network that the goroutines share, and the goroutines
pub record System (N : Type 0) : Type 0 where
  pub session : Session N
  pub threads : List Thread

-- `Do` has not returned
abbrev pub IsRunning : Phase → Type 0
IsRunning (done r) = ⊥
IsRunning _ = Unit {0}

abbrev pub moved : {N : Type 0} → System N → ℕ → Thread → Phase × Event × Session N → System N
moved s i th x = record { session = x.2; threads = set s.threads i (record th { phase = x.0 }) }

module _ (json : Json) {N : Type 0} (http : Http N) where
  after_asking : Bool → Result Text × Session N → Phase × Event × Session N
  after_asking first (ok token, s) = (calling first token, asked, s)
  after_asking first (err e, s) = (done (err e), refused, s)

  after_calling : Bool → Result Response × Session N → Phase × Event × Session N
  after_calling first (ok resp, s) =
      if first && (resp.status_code == 401)
      then (dropping, unauthorized, s)
      else (done (ok resp), answered, s)
  after_calling first (err e, s) = (done (err e), failed, s)

  -- the next piece of `Do`
  unfoldable pub advance : Call → Phase → Session N → Phase × Event × Session N
  unfolding after_asking after_calling
  advance c (asking first) s = after_asking first (token_locked json http s)
  advance c (calling first token) s =
      after_calling first (call_with json http token c.method c.path c.body s)
  advance c dropping s = (asking false, invalidated, (invalidate json http s).1)
  advance c (done r) s = (done r, idle, s)

  -- the scheduler lets any goroutine take its next step
  pub data Step (s : System N) : Event → System N → Type 0 where
    pick :
        (i : ℕ) (th : Thread)
        → get_elem? s.threads i ≡ some th
        → IsRunning th.phase
        → Step s
            (advance th.call th.phase s.session).1
            (moved s i th (advance th.call th.phase s.session))

  -- steps in turn, with what they did, the last step first
  pub data Run (s : System N) : List Event → System N → Type 0 where
    here : Run s [] s
    next :
        (events : List Event) (e : Event) (t u : System N)
        → Run s events t
        → Step t e u
        → Run s (e ∷ events) u
