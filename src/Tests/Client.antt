-- ===== src/Tests/Client.antt =====
-- The client against a server that accepts one token.
use mathlib.Core.List.{Mem, mem-cons, not-mem-nil}
use mathlib.Core.Logic.Or
use native.Mathlib.Nat.{ℕ_set}
use provider_strapi.Prelude.{
  false, ℕ, List, [], ◌∷◌, none, some, ◌≡◌, refl, ◌/◌, ◌↔◌, sym, ap, arith, ◌&&◌, Bool-cases, inl,
  inr, length, if◌then◌else◌, take,
}
use provider_strapi.Text.{Text, codes, text_eq}
use provider_strapi.Text.Trim.{trim_space}
use provider_strapi.Text.Equality.{text_eq_refl}
use provider_strapi.Exec.{Result, ok, Exec}
use provider_strapi.Client.{
  Client, Response, Http, Session, login, token_locked, invalidate, do_once, do_request, new,
  trim_slashes, do_json,
}
use provider_strapi.Client.Token.{HasToken, token_locked-HasToken}
use provider_strapi.Client.Trace.{Logged, logged, sent_by, Attempt, do_once-Attempt}
use provider_strapi.Client.Retry.{AtMost, do_request-AtMost}
use provider_strapi.Client.Decode.{Decodes, do_json-ok_iff}
use provider_strapi.Client.Steady.{Accepts}
use provider_strapi.Tests.Data.{json, config}

program : Unit {0}
unfolding login token_locked invalidate do_once do_request new trim_slashes text_eq
program = tt

abbrev pub response : ℕ → Text → Response
response code body = record { status_code = code; status = []; body = body }

-- a call is answered if some header carries the token
abbrev pub answer : List (Text × Text) → Response
answer [] = response 401 []
answer ((name, value) ∷ rest) =
    let others = answer rest in
    if text_eq name (codes "Authorization") && text_eq value (codes "Bearer jwt")
    then response 200 (codes "[]")
    else others

-- every login returns the token, every other request is checked for it
abbrev pub http : Http (Unit {0})
http = record {
  new_request = λ method url. ok tt;
  read_limited = take;
  send = λ req n. (
    ok (
        if text_eq req.method (codes "POST")
        then response 200 (codes "jwt")
        else answer req.headers),
    n,
  );
}

abbrev pub client : Text → Client
client token = record {
  endpoint = codes "http://strapi";
  creds = config.credentials;
  insecure = false;
  token = token;
}

abbrev pub session : Text → Session (Logged (Unit {0}))
session token = record { client = client token; net = record { net = tt; sent = [] } }

abbrev pub roles_path : Text
roles_path = codes "/users-permissions/roles"

abbrev get_roles : Exec (Session (Logged (Unit {0}))) Response
get_roles = do_request json (logged http) (codes "GET") roles_path none

abbrev get_roles_once : Exec (Session (Logged (Unit {0}))) Response
get_roles_once = do_once json (logged http) (codes "GET") roles_path none

abbrev sent : Text → ℕ
sent token = length (get_roles (session token)).1.net.sent

trims : trim_space (codes "  not found ") ≡ codes "not found"
unfolding trim_space
trims = refl

-- `New` strips the slashes
new_run : new config ≡ ok (client [])
unfolding program
new_run = refl

-- a first login, a cached token, and a token that has expired: the last is answered by 401
requests : (sent [] ≡ 2) × (sent (codes "jwt") ≡ 1) × (sent (codes "old") ≡ 3)
unfolding program
requests = (refl, refl, refl)

-- an expired token is replaced
recovers : (get_roles (session (codes "old"))).0 ≡ ok (response 200 (codes "[]"))
unfolding program
recovers = refl

token_run : (token_locked json (logged http) (session [])).0 ≡ ok (codes "jwt")
unfolding program
token_run = refl

token_locked-HasToken_example :
    HasToken json
      (logged http)
      (session [])
      (codes "jwt")
      (token_locked json (logged http) (session [])).1
token_locked-HasToken_example =
    token_locked-HasToken json (logged http) (session []) (codes "jwt") token_run

do_once-Attempt_example :
    Attempt json http
      (session (codes "old"))
      (codes "GET")
      roles_path
      (sent_by get_roles_once (session (codes "old")))
do_once-Attempt_example =
    do_once-Attempt json http (session (codes "old")) (codes "GET") roles_path none

do_request-AtMost_example :
    AtMost json 4
      (client (codes "old"))
      (codes "GET")
      roles_path
      []
      (sent_by get_roles (session (codes "old")))
do_request-AtMost_example =
    do_request-AtMost json http (session (codes "old")) (codes "GET") roles_path none

abbrev as_text : Text → Result Text
as_text s = ok s

do_json-ok_iff_example :
    (do_json json
        (logged http)
        (codes "GET")
        roles_path
        none
        (some as_text)
        []
        (session (codes "jwt"))
      ≡ (ok (codes "[]"), (get_roles (session (codes "jwt"))).1))
    ↔ ((resp : Response) × (get_roles (session (codes "jwt"))
          ≡ (ok resp, (get_roles (session (codes "jwt"))).1))
        × (resp.status_code / 100 ≡ 2)
        × Decodes (some as_text) [] resp.body (codes "[]"))
do_json-ok_iff_example =
    do_json-ok_iff json (logged http) (codes "GET") roles_path none (some as_text) [] (codes "[]")
      (session (codes "jwt")) (get_roles (session (codes "jwt"))).1

answer_lem :
    (headers : List (Text × Text))
    → Mem (codes "Authorization", codes "Bearer jwt") headers
    → (answer headers).status_code ≡ 200
answer_lem [] m = absurd (not-mem-nil m)
answer_lem ((name, value) ∷ rest) m =
    Or.elim (ℕ_set _ _) (mem-cons.0 m)
      (λ e.
        rw
          (
            sym (ap (λ h. h.0) e),
            sym (ap (λ h. h.1) e),
            text_eq_refl (codes "Authorization"),
            text_eq_refl (codes "Bearer jwt"),
          )
          refl)
      (λ h.
        let later = answer_lem rest h in
        elim (Bool-cases
          (text_eq name (codes "Authorization") && text_eq value (codes "Bearer jwt"))) [
            | inl q ↦ rw q refl
            | inr q ↦ rw q later
          ])

-- the server goes on to accept its token, and no other
pub http-Accepts : Accepts http (codes "jwt") (λ n. Unit {0})
http-Accepts = record {
  served = λ req n good m. (
    tt,
    elim (Bool-cases (text_eq req.method (codes "POST"))) [
      | inl q ↦ rw q (λ e. absurd (omega (arith, e)))
      | inr q ↦ rw q (λ e. absurd (omega (arith, e, answer_lem req.headers m)))
    ],
  );
}
