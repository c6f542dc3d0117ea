-- ===== src/Client/Token.antt =====
-- `tokenLocked`, `login` and the cached token of internal/clients/strapi/strapi.go.
use provider_strapi.Prelude.{
  [], ◌∷◌, Option, ◌≡◌, ◌≢◌, refl, sym, ap, ◌∙◌, ◌⊎◌, inl, inr, arith, Bool-cases, ◌==◌,
}
use provider_strapi.Text.{Text}
use provider_strapi.Exec.{Error, Context, Result, ok, err, wrap_result, continue}
use provider_strapi.Client.{
  Client, Response, Http, Json, Session, check_token, read_login, login, cached_or_login,
  token_locked, do_once,
}

module _ (json : Json) {N : Type 0} (http : Http N) where
  pub read_login-client : (resp : Response) (s : Session N) → (read_login json http resp s).1 ≡ s
  unfolding read_login
  read_login-client resp s = ground arith

  pub login-client : (s : Session N) → (login json http s).1.client ≡ s.client
  unfolding login
  login-client s = ground arith

  check_token-ne-nil : (u t : Text) → check_token json http u ≡ ok t → t ≢ []
  unfolding check_token
  check_token-ne-nil [] t h = absurd (cc)
  check_token-ne-nil (c ∷ u) t h = λ e. cc

  read_login-ne-nil :
      (resp : Response) (s : Session N) (t : Text) → (read_login json http resp s).0 ≡ ok t → t ≢ []
  unfolding read_login
  read_login-ne-nil resp s t h = elim (Bool-cases (resp.status_code == 200)) [
    | inr e ↦ absurd (let h' = rw e at h in cc)
    | inl e ↦ decoded (json.decode_token resp.body) (rw e at h)
  ]
    where
      decoded :
          (d : Result Text)
          → (continue
              (wrap_result Context.decode_login d, s)
              (λ u s. (check_token json http u, s))).0
            ≡ ok t
          → t ≢ []
      decoded (ok u) h' = check_token-ne-nil u t h'
      decoded (err x) h' = absurd (cc)

  login-ne-nil : (s : Session N) (t : Text) → (login json http s).0 ≡ ok t → t ≢ []
  unfolding login
  login-ne-nil s t h = grind (arith, read_login-ne-nil)

  -- What a successful `tokenLocked` leaves: a non-empty token, cached and returned, and the rest of the
  -- client as it was. Where the cache held a token, nothing was sent.
  pub record HasToken (before : Session N) (token : Text) (after : Session N) : Type 0 where
    pub ne_nil : token ≢ []
    pub cached : after.client ≡ record before.client { token = token }
    pub reused : (before.client.token ≡ []) ⊎ (after ≡ before)

  has_token :
      (s : Session N) (cache : Text) (t : Text)
      → s.client.token ≡ cache
      → (cached_or_login json http cache s).0 ≡ ok t
      → HasToken s t (cached_or_login json http cache s).1
  unfolding cached_or_login
  has_token s (c ∷ cache) t e h =
      let same : c ∷ cache ≡ t = cc in
      record {
        ne_nil = λ p. cc;
        cached = ap (λ (x : Text). record s.client { token = x }) (e ∙ same);
        reused = inr refl;
      }
  has_token s [] t e h = fresh (login json http s) refl
    where
      fresh :
          (l : Result Text × Session N)
          → login json http s ≡ l
          → HasToken s t (cached_or_login json http [] s).1
      fresh (ok u, s') l =
          let h' = rw l at h in
          let same : u ≡ t = cc in
          let kept : s'.client ≡ s.client =
            ap (λ (x : Result Text × Session N). x.1.client) (sym l) ∙ login-client s in
          rw l (record {
            ne_nil = λ p. login-ne-nil s u (ap (λ (x : Result Text × Session N). x.0) l) (same ∙ p);
            cached =
                ap (λ (x : Client). record x { token = u }) kept
                ∙ ap (λ (x : Text). record s.client { token = x }) same;
            reused = inl e;
          })
      fresh (err x, s') l = absurd (let h' = rw l at h in cc)

  -- A token that `tokenLocked` returns is not empty and is cached in the client, which is otherwise as it
  -- was; and where the client had a token before, nothing at all changed, on the network neither.
  pub token_locked-HasToken :
      (s : Session N) (t : Text)
      → (token_locked json http s).0 ≡ ok t
      → HasToken s t (token_locked json http s).1
  unfolding token_locked
  token_locked-HasToken s t h = has_token s s.client.token t refl h

  -- a cached token is used as it is
  pub token_locked_cached :
      (s : Session N) → s.client.token ≢ [] → token_locked json http s ≡ (ok s.client.token, s)
  unfolding token_locked
  token_locked_cached s h = reuse s.client.token h
    where
      reuse : (cache : Text) → cache ≢ [] → cached_or_login json http cache s ≡ (ok cache, s)
      reuse [] k = absurd (k refl)
      reuse (c ∷ cache) k = refl

  -- where no token is to be had, the client is as it was, without one
  pub token_locked-err :
      (s : Session N) (e : Error)
      → (token_locked json http s).0 ≡ err e
      → (s.client.token ≡ []) × ((token_locked json http s).1.client ≡ s.client)
  unfolding token_locked cached_or_login
  token_locked-err s e h = by_cache s.client.token refl h
    where
      by_cache :
          (cache : Text)
          → s.client.token ≡ cache
          → (cached_or_login json http cache s).0 ≡ err e
          → (s.client.token ≡ []) × ((cached_or_login json http cache s).1.client ≡ s.client)
      by_cache (c ∷ cache) q h = absurd (cc)
      by_cache [] q h = (q, ground (arith, login-client s))

  -- logging in changes nothing of the client but its token
  pub token_locked-config :
      (s : Session N)
      → record (token_locked json http s).1.client { token = [] } ≡ record s.client { token = [] }
  unfolding token_locked
  token_locked-config s = by_cache s.client.token
    where
      by_cache :
          (cache : Text)
          → record (cached_or_login json http cache s).1.client { token = [] }
            ≡ record s.client { token = [] }
      by_cache (c ∷ cache) = refl
      by_cache [] = ground (arith, login-client s)

  pub do_once-config :
      (s : Session N) (method path : Text) (body : Option (Result Text))
      → record (do_once json http method path body s).1.client { token = [] }
        ≡ record s.client { token = [] }
  unfolding do_once
  do_once-config s method path body = ground (arith, token_locked-config s)
