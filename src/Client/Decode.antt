-- ===== src/Client/Decode.antt =====
-- When `DoJSON` succeeds.
use provider_strapi.Prelude.{
  ◌/◌, Option, none, some, ◌≡◌, refl, sym, ap, ◌∙◌, ◌↔◌, inl, inr, arith, Bool-cases, ◌==◌, ==_iff,
}
use provider_strapi.Text.{Text}
use provider_strapi.Exec.{Result, ok, err, Result-cases}
use provider_strapi.Client.{Response, Http, Json, Session, do_request, read_json, do_json}

-- the value that comes of a body: nothing is decoded where `out` is nil
abbrev pub Decodes : {A : Type 0} → Option (Text → Result A) → A → Text → A → Type 0
Decodes none unset body a = unset ≡ a
Decodes (some f) unset body a = f body ≡ ok a

module _ (json : Json) {N : Type 0} (http : Http N) where
  -- reading the response changes neither the client nor the network
  pub do_json-session :
      {A : Type 0} (method path : Text) (body : Option (Result Text))
      (decode : Option (Text → Result A)) (unset : A) (s : Session N)
      → (do_json json http method path body decode unset s).1
        ≡ (do_request json http method path body s).1
  unfolding do_json read_json
  do_json-session method path body none unset s = ground arith
  do_json-session method path body (some f) unset s = ground arith

  read_json-ok_iff :
      {A : Type 0} (method path : Text) (decode : Option (Text → Result A)) (unset a : A)
      (resp : Response) (s t : Session N)
      → (read_json json http method path decode unset resp s ≡ (ok a, t))
        ↔ ((s ≡ t) × (resp.status_code / 100 ≡ 2) × Decodes decode unset resp.body a)
  unfolding read_json
  read_json-ok_iff method path none unset a resp s t = (
    λ h. elim (Bool-cases ((resp.status_code / 100) == 2)) [
      | inl e ↦ let h' = rw e at h in (ap (λ x. x.1) h', (==_iff _ _).0 e, cc)
      | inr e ↦ absurd (let h' = rw e at h in cc)
    ],
    λ (k, c, d). rw ((==_iff _ _).1 c) (λ i. (ok (d i), k i)),
  )
  read_json-ok_iff method path (some f) unset a resp s t = (
    λ h. elim (Bool-cases ((resp.status_code / 100) == 2)) [
      | inl e ↦ elim (Result-cases (f resp.body)) [
        | inl (b, q) ↦
            let h' = rw (e, q) at h in
            let same : b ≡ a = cc in (ap (λ x. x.1) h', (==_iff _ _).0 e, q ∙ ap ok same)
        | inr (x, q) ↦ absurd (let h' = rw (e, q) at h in cc)
      ]
      | inr e ↦ absurd (let h' = rw e at h in cc)
    ],
    λ (k, c, d). rw ((==_iff _ _).1 c, d) (λ i. (ok a, k i)),
  )

  -- `DoJSON` succeeds exactly if `Do` returned a response with a status of 200 to 299 and its body
  -- decodes to the result, or nothing is to be decoded; in every other case it returns an error.
  pub do_json-ok_iff :
      {A : Type 0} (method path : Text) (body : Option (Result Text))
      (decode : Option (Text → Result A)) (unset a : A) (s t : Session N)
      → (do_json json http method path body decode unset s ≡ (ok a, t)) ↔ (
          (resp : Response) × (do_request json http method path body s ≡ (ok resp, t))
          × (resp.status_code / 100 ≡ 2)
          × Decodes decode unset resp.body a)
  unfolding do_json
  do_json-ok_iff {A} method path body decode unset a s t =
      read (do_request json http method path body s) refl
    where
      read :
          (r : Result Response × Session N)
          → do_request json http method path body s ≡ r
          → (do_json json http method path body decode unset s ≡ (ok a, t)) ↔ (
              (resp : Response) × (do_request json http method path body s ≡ (ok resp, t))
              × (resp.status_code / 100 ≡ 2)
              × Decodes decode unset resp.body a)
      read (err x, u) e = (
        λ h. absurd (let h' = rw e at h in cc),
        λ (resp, q, _, _). absurd (let q' = sym e ∙ q in cc),
      )
      read (ok resp, u) e = (
        λ h.
            let (k, c, d) = (read_json-ok_iff method path decode unset a resp u t).0 (rw e at h) in
            (resp, e ∙ (λ i. (ok resp, k i)), c, d),
        λ (resp', q, c, d).
            let q' = sym e ∙ q in
            let same : resp ≡ resp' = cc in
            let k : u ≡ t = ap (λ x. x.1) q' in
            rw e
              ((read_json-ok_iff method path decode unset a resp u t).1 (k, rw same c, rw same d)),
      )
