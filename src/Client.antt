-- ===== src/Client.antt =====
-- internal/clients/strapi/strapi.go: the HTTP client of Strapi's admin API, with its cached token. The
-- mutex is held for the whole of `tokenLocked` and of `invalidate`, so each is one step here.
pub mod Parsing
pub mod Token
pub mod Trace
pub mod Retry
pub mod Decode
pub mod Steady
pub mod Threads
pub mod RolesApi
use provider_strapi.Prelude.{
  ℕ, ◌/◌, List, [], ◌∷◌, ◌++◌, Option, none, some, Bool, true, false, not, ◌||◌, ◌==◌,
  if◌then◌else◌,
}
use provider_strapi.Text.{Text, codes, is_empty}
use provider_strapi.Text.Trim.{trim_space}
use provider_strapi.Exec.{
  Context, Error, Result, ok, err, wrap_result, empty_credentials, endpoint_required,
  credentials_required, bad_status, login_failed, no_token, Exec, continue, ◌>>=◌, ◌>>◌, pure, lift,
  get, modify,
}

-- `Credentials`
pub record Credentials : Type 0 where
  pub email : Text
  pub password : Text

-- `Config`
pub record Config : Type 0 where
  pub endpoint : Text
  pub credentials : Credentials
  pub insecure_skip_tls_verify : Bool

-- `Client`: `http` is its transport, which is set up once, with or without the check of certificates
pub record Client : Type 0 where
  pub endpoint : Text
  pub creds : Credentials
  pub insecure : Bool
  pub token : Text

-- an `http.Request`
pub record Request : Type 0 where
  pub method : Text
  pub url : Text
  pub headers : List (Text × Text)
  pub body : Option Text

-- an `http.Response`
pub record Response : Type 0 where
  pub status_code : ℕ
  pub status : Text
  pub body : Text

-- `net/http` over a network `N`
pub record Http (N : Type 0) : Type 0 where
  -- whether `http.NewRequestWithContext` accepts the method and the URL
  pub new_request : Text → Text → Result (Unit {0})
  -- `http.Client.Do`
  pub send : Request → N → Result Response × N
  -- the text of `io.ReadAll(io.LimitReader(body, n))`: a limit of bytes, which may cut a character
  pub read_limited : ℕ → Text → Text

-- `encoding/json`, at the types that the client encodes and decodes
pub record Json : Type 0 where
  pub marshal_credentials : Credentials → Result Text
  pub unmarshal_credentials : Text → Result Credentials
  -- `data.token` of a login response, empty where it is missing
  pub decode_token : Text → Result Text

-- the checks of `ParseCredentials`
check_credentials : Credentials → Result Credentials
check_credentials c =
    if is_empty c.email || is_empty c.password then err empty_credentials else ok c

after_unmarshal : Result Credentials → Result Credentials
unfolding check_credentials
after_unmarshal (err e) = err e
after_unmarshal (ok c) = check_credentials c

-- `ParseCredentials(data)`
unfoldable pub parse_credentials : Json → Text → Result Credentials
unfolding after_unmarshal
parse_credentials json bytes =
    after_unmarshal (wrap_result Context.credentials_json (json.unmarshal_credentials bytes))

-- `strings.TrimRight(s, "/")`
unfoldable pub trim_slashes : Text → Text
trim_slashes [] = []
trim_slashes (c ∷ s) = elim (trim_slashes s) [
  | [] ↦ if c == b'/' then [] else c ∷ []
  | d ∷ t ↦ c ∷ d ∷ t
]

-- `New(cfg)`
unfoldable pub new : Config → Result Client
unfolding trim_slashes
new cfg =
    if is_empty cfg.endpoint
    then err endpoint_required
    else if is_empty cfg.credentials.email || is_empty cfg.credentials.password
    then err credentials_required
    else ok (record {
      endpoint = trim_slashes cfg.endpoint;
      creds = cfg.credentials;
      insecure = cfg.insecure_skip_tls_verify;
      token = [];
    })

-- a client and the network that it talks to
pub record Session (N : Type 0) : Type 0 where
  pub client : Client
  pub net : N

abbrev pub login_path : Text
login_path = codes "/admin/login"

abbrev pub content_type : Text × Text
content_type = (codes "Content-Type", codes "application/json")

abbrev pub accept : Text × Text
accept = (codes "Accept", codes "application/json")

abbrev pub authorization : Text → Text × Text
authorization token = (codes "Authorization", codes "Bearer " ++ token)

-- the headers of `do`: `Content-Type` goes with a body
abbrev pub headers_of : Text → Option Text → List (Text × Text)
headers_of token none = authorization token ∷ accept ∷ []
headers_of token (some b) = authorization token ∷ accept ∷ content_type ∷ []

-- `json.Marshal(body)` for a body that is not nil
pub marshal_body : Option (Result Text) → Result (Option Text)
marshal_body none = ok none
marshal_body (some (err e)) = err (Error.wrap Context.marshal_body e)
marshal_body (some (ok b)) = ok (some b)

abbrev pub login_request : Client → Text → Request
login_request c body = record {
  method = codes "POST";
  url = c.endpoint ++ login_path;
  headers = content_type ∷ accept ∷ [];
  body = some body;
}

abbrev pub api_request : Client → Text → Text → Text → Option Text → Request
api_request c token method path body = record {
  method = method;
  url = c.endpoint ++ path;
  headers = headers_of token body;
  body = body;
}

module _ (json : Json) {N : Type 0} (http : Http N) where
  -- `c.http.Do(req)`
  pub send : Request → Exec (Session N) Response
  send req s = let (r, n) = http.send req s.net in (r, record s { net = n })

  pub wrap_error : {A : Type 0} → Context → Exec (Session N) A → Exec (Session N) A
  wrap_error c m s = let (r, s') = m s in (wrap_result c r, s')

  check_token : Text → Result Text
  check_token [] = err no_token
  check_token (c ∷ t) = ok (c ∷ t)

  -- `login` behind the response
  pub read_login : Response → Exec (Session N) Text
  unfolding check_token
  read_login resp =
      if not (resp.status_code == 200)
      then lift (err (login_failed resp.status (trim_space (http.read_limited 512 resp.body))))
      else do
        token ← lift (wrap_result Context.decode_login (json.decode_token resp.body))
        lift (check_token token)

  unfoldable pub login : Exec (Session N) Text
  unfolding send wrap_error read_login
  login = do
    s ← get
    body ← lift (wrap_result Context.marshal_login (json.marshal_credentials s.client.creds))
    lift (
        wrap_result Context.build_login
          (http.new_request (codes "POST") (s.client.endpoint ++ login_path)))
    resp ← wrap_error Context.post_login (send (login_request s.client body))
    read_login resp

  set_token : Text → Exec (Session N) (Unit {0})
  set_token token = modify (λ s. record s { client = record s.client { token = token } })

  cached_or_login : Text → Exec (Session N) Text
  unfolding set_token
  cached_or_login (c ∷ t) = pure (c ∷ t)
  cached_or_login [] = do token ← login; set_token token; pure token

  unfoldable pub token_locked : Exec (Session N) Text
  unfolding cached_or_login
  token_locked = do s ← get; cached_or_login s.client.token

  unfoldable pub invalidate : Exec (Session N) (Unit {0})
  unfolding set_token
  invalidate = set_token []

  -- `do` behind the token
  unfoldable pub call_with : Text → Text → Text → Option (Result Text) → Exec (Session N) Response
  unfolding send marshal_body
  call_with token method path body = do
    buf ← lift (marshal_body body)
    s ← get
    lift (wrap_result Context.build_request (http.new_request method (s.client.endpoint ++ path)))
    send (api_request s.client token method path buf)

  -- `do`: one attempt, with the token of the cache or of a fresh login
  unfoldable pub do_once : Text → Text → Option (Result Text) → Exec (Session N) Response
  unfolding call_with
  do_once method path body = do token ← token_locked; call_with token method path body

  -- the test for 401 of `Do`
  retry : Text → Text → Option (Result Text) → Response → Exec (Session N) Response
  retry method path body resp =
      if not (resp.status_code == 401) then pure resp else do invalidate; do_once method path body

  -- `Do`
  unfoldable pub do_request : Text → Text → Option (Result Text) → Exec (Session N) Response
  unfolding retry
  do_request method path body = do resp ← do_once method path body; retry method path body resp

  -- `DoJSON` behind the response
  pub read_json :
      {A : Type 0} → Text → Text → Option (Text → Result A) → A → Response → Exec (Session N) A
  read_json method path decode unset resp =
      if not ((resp.status_code / 100) == 2)
      then lift
          (err (bad_status method path resp.status (trim_space (http.read_limited 512 resp.body))))
      else elim decode [
        | none ↦ pure unset
        | some f ↦ lift (wrap_result Context.decode_response (f resp.body))
      ]

  -- `DoJSON`: `decode` is `none` where `out` is nil, and then `unset` is returned
  unfoldable pub do_json :
      {A : Type 0}
      → Text
      → Text
      → Option (Result Text)
      → Option (Text → Result A)
      → A
      → Exec (Session N) A
  unfolding read_json
  do_json method path body decode unset = do
    resp ← do_request method path body
    read_json method path decode unset resp
