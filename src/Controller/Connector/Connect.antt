-- ===== src/Controller/Connector/Connect.antt =====
-- The clients that `Connect` asks for, and what a failing `Connect` leaves.
use mathlib.Core.Path.{subst}
use provider_strapi.Prelude.{
  ℕ, List, [], ◌∷◌, Option, none, some, ◌≢◌, ◌≡◌, refl, sym, ap, ◌∙◌, ◌↔◌, ◌⊎◌, inl, inr,
  Bool-cases,
}
use provider_strapi.Text.{Text, codes, text_eq}
use provider_strapi.Text.Equality.{text_eq_iff}
use provider_strapi.Exec.{Context, Error, ok, err, wrap_result, Result-cases}
use provider_strapi.Api.{Runtime, RolePermissions, ProviderConfigReference}
use provider_strapi.Client.{Config, Credentials, Json, parse_credentials}
use provider_strapi.Client.Parsing.{ParsesTo, parse_credentials-ok_iff}
use provider_strapi.Cache.{Cache, Pointer}
use provider_strapi.Cache
use provider_strapi.Cache.Shared.{get-err_iff}
use provider_strapi.Controller.Connector.{
  Kubernetes, ProviderConfigSpec, or_default, override, provider_config_ref, Connecting, Connector,
  find_config, track_usage, new_client, connect, setup_connector,
}

-- a text, or a default where the text is empty
abbrev pub OrDefault : Text → Text → Text → Type 0
OrDefault s default t = ((s ≡ []) × (t ≡ default)) ⊎ ((s ≢ []) × (t ≡ s))

-- the name and the kind of the provider config that a reference stands for
pub data Named : Option ProviderConfigReference → Text → Text → Type 0 where
  no_reference : Named none (codes "default") (codes "ClusterProviderConfig")
  reference :
      (ref : ProviderConfigReference) (name kind : Text)
      → OrDefault ref.name (codes "default") name
      → OrDefault ref.kind (codes "ClusterProviderConfig") kind
      → Named (some ref) name kind

or_default-OrDefault : (s default : Text) → OrDefault s default (or_default s default)
unfolding or_default
or_default-OrDefault [] default = inl (refl, refl)
or_default-OrDefault (c ∷ s) default = inr (λ e. absurd (cc), refl)

or_default_unique : (s default t : Text) → OrDefault s default t → or_default s default ≡ t
unfolding or_default
or_default_unique [] default t (inl (e, q)) = sym q
or_default_unique [] default t (inr (n, q)) = absurd (n refl)
or_default_unique (c ∷ s) default t (inl (e, q)) = absurd (cc)
or_default_unique (c ∷ s) default t (inr (n, q)) = sym q

override-Named : (o : Option ProviderConfigReference) → Named o (override o).0 (override o).1
unfolding override
override-Named none = no_reference
override-Named (some ref) =
    reference ref _ _ (or_default-OrDefault ref.name (codes "default"))
      (or_default-OrDefault ref.kind (codes "ClusterProviderConfig"))

override_unique :
    (o : Option ProviderConfigReference) (name kind : Text)
    → Named o name kind
    → override o ≡ (name, kind)
unfolding override
override_unique _ _ _ no_reference = refl
override_unique _ _ _ (reference ref name kind n q) =
    let same_name = or_default_unique ref.name (codes "default") name n in
    let same_kind = or_default_unique ref.kind (codes "ClusterProviderConfig") kind q in
    λ i. (same_name i, same_kind i)

module _ (rt : Runtime) {K : Type 0} (kube : Kubernetes rt K) (cr : RolePermissions rt)
    (k : K) where
  -- the spec of the config that the resource refers to: one of its own namespace, or of the cluster
  pub data Refers : Text × Text → ProviderConfigSpec kube.Selectors → Type 0 where
    namespaced :
        (name : Text) (spec : ProviderConfigSpec kube.Selectors)
        → kube.get_provider_config (rt.get_namespace cr.object) name k ≡ ok spec
        → Refers (name, codes "ProviderConfig") spec
    cluster_wide :
        (name : Text) (spec : ProviderConfigSpec kube.Selectors)
        → kube.get_cluster_provider_config name k ≡ ok spec
        → Refers (name, codes "ClusterProviderConfig") spec

module _ (rt : Runtime) (json : Json) {K C P : Type 0} (c : Connector rt K C P) where
  -- the configuration that `Connect` asks a client for
  pub data Asks (cr : RolePermissions rt) (s : Connecting K C)
      : Config → Connecting K C → Type 0 where
    asked :
        (k : K) (name kind : Text) (spec : ProviderConfigSpec c.kube.Selectors) (bytes : Text)
        (creds : Credentials)
        → c.kube.track cr s.cluster ≡ (ok tt, k)
        → Named (rt.get_provider_config_reference cr.object) name kind
        → Refers rt c.kube cr k (name, kind) spec
        → c.kube.credential_extractor spec.credentials k ≡ ok bytes
        → ParsesTo json bytes creds
        → Asks cr s
            (record {
              endpoint = spec.endpoint;
              credentials = creds;
              insecure_skip_tls_verify = spec.insecure_skip_tls_verify;
            })
            (record { cluster = k; clients = s.clients })

  pub Asks-clients :
      (cr : RolePermissions rt) (s : Connecting K C) (cfg : Config) (t : Connecting K C)
      → Asks cr s cfg t
      → t.clients ≡ s.clients
  Asks-clients cr s _ _ (asked k name kind spec bytes creds e m r x z) = refl

  find_config-ok :
      (cr : RolePermissions rt) (k : K) (name kind : Text)
      (spec : ProviderConfigSpec c.kube.Selectors)
      → find_config rt json c kind name (rt.get_namespace cr.object) k ≡ ok spec
      → Refers rt c.kube cr k (name, kind) spec
  unfolding find_config
  find_config-ok cr k name kind spec h = elim (Bool-cases (text_eq kind (codes "ProviderConfig"))) [
    | inl e ↦
        let same = (text_eq_iff kind (codes "ProviderConfig")).0 e in
        elim (Result-cases (c.kube.get_provider_config (rt.get_namespace cr.object) name k)) [
          | inl (spec', q) ↦
              let h' = rw (e, q) at h in
              let same_spec : spec' ≡ spec = cc in
              subst (λ (x : Text). Refers rt c.kube cr k (name, x) spec) (sym same)
                (namespaced name spec (q ∙ ap ok same_spec))
          | inr (x, q) ↦ let h' = rw (e, q) at h in absurd (cc)
        ]
    | inr e ↦ elim (Bool-cases (text_eq kind (codes "ClusterProviderConfig"))) [
      | inl e' ↦
          let same = (text_eq_iff kind (codes "ClusterProviderConfig")).0 e' in
          elim (Result-cases (c.kube.get_cluster_provider_config name k)) [
            | inl (spec', q) ↦
                let h' = rw (e, e', q) at h in
                let same_spec : spec' ≡ spec = cc in
                subst (λ (x : Text). Refers rt c.kube cr k (name, x) spec) (sym same)
                  (cluster_wide name spec (q ∙ ap ok same_spec))
            | inr (x, q) ↦ let h' = rw (e, e', q) at h in absurd (cc)
          ]
      | inr e' ↦ let h' = rw (e, e') at h in absurd (cc)
    ]
  ]

  Refers-find_config :
      (cr : RolePermissions rt) (k : K) (ref : Text × Text)
      (spec : ProviderConfigSpec c.kube.Selectors)
      → Refers rt c.kube cr k ref spec
      → find_config rt json c (ref.1) (ref.0) (rt.get_namespace cr.object) k ≡ ok spec
  unfolding find_config text_eq
  Refers-find_config cr k _ _ (namespaced name spec e) = rw e refl
  Refers-find_config cr k _ _ (cluster_wide name spec e) = rw e refl

  provider_config_ref_unique :
      (cr : RolePermissions rt) (name kind : Text)
      → Named (rt.get_provider_config_reference cr.object) name kind
      → provider_config_ref rt cr ≡ (name, kind)
  unfolding provider_config_ref
  provider_config_ref_unique cr name kind m =
      override_unique (rt.get_provider_config_reference cr.object) name kind m

  Asks-connect :
      (cr : RolePermissions rt) (s t : Connecting K C) (cfg : Config)
      → Asks cr s cfg t
      → connect rt json c cr s ≡ new_client rt json c cfg t
  unfolding connect
  Asks-connect cr s _ _ (asked k name kind spec bytes creds e m r x p) =
      rw
        (
          e,
          provider_config_ref_unique cr name kind m,
          Refers-find_config cr k _ spec r,
          x,
          (parse_credentials-ok_iff json bytes creds).1 p,
        )
        refl

  -- `Connect` reaches `newClientFn`, or fails before it
  abbrev Reaches : RolePermissions rt → Connecting K C → Type 0
  Reaches cr s =
      ((cfg : Config) × (t : Connecting K C) × Asks cr s cfg t)
      ⊎ ((e : Error) × (k : K) × (connect rt json c cr s
            ≡ (err e, record { cluster = k; clients = s.clients })))

  connect-Reaches : (cr : RolePermissions rt) (s : Connecting K C) → Reaches cr s
  unfolding connect track_usage provider_config_ref
  connect-Reaches cr s = elim (Result-cases ((c.kube.track cr s.cluster).0)) [
    | inr (x, q) ↦ inr (Error.wrap Context.track_usage x, k, rw q refl)
    | inl (u, q) ↦
        elim (Result-cases (find_config rt json c kind name (rt.get_namespace cr.object) k)) [
          | inr (x, r) ↦ inr (x, k, rw (q, r) refl)
          | inl (spec, r) ↦ elim (Result-cases (c.kube.credential_extractor spec.credentials k)) [
            | inr (x, y) ↦ inr (Error.wrap Context.get_creds x, k, rw (q, r, y) refl)
            | inl (bytes, y) ↦ elim (Result-cases (parse_credentials json bytes)) [
              | inr (x, z) ↦ inr (Error.wrap Context.parse_creds x, k, rw (q, r, y, z) refl)
              | inl (creds, z) ↦ inl (
                _,
                _,
                asked k name kind spec bytes creds (λ i. (q i, k))
                    (override-Named (rt.get_provider_config_reference cr.object))
                    (find_config-ok cr k name kind spec r) y
                    ((parse_credentials-ok_iff json bytes creds).0 z),
              )
            ]
          ]
        ]
  ]
    where
      k : K
      k = (c.kube.track cr s.cluster).1

      name : Text
      name = (provider_config_ref rt cr).0

      kind : Text
      kind = (provider_config_ref rt cr).1

  new_client-ok_iff :
      (cfg : Config) (t s' : Connecting K C) (p : P)
      → (new_client rt json c cfg t ≡ (ok p, s'))
        ↔ ((c.new_client_fn cfg t.clients ≡ (ok p, s'.clients)) × (s'.cluster ≡ t.cluster))
  unfolding new_client
  new_client-ok_iff cfg t s' p = (returned, λ (e, k). returns e k)
    where
      returned :
          new_client rt json c cfg t ≡ (ok p, s')
          → (c.new_client_fn cfg t.clients ≡ (ok p, s'.clients)) × (s'.cluster ≡ t.cluster)
      returned h =
          let clients : (c.new_client_fn cfg t.clients).1 ≡ s'.clients = ap (λ x. x.1.clients) h in
          elim (Result-cases ((c.new_client_fn cfg t.clients).0)) [
            | inl (p', q) ↦
                let first : wrap_result Context.new_client ((c.new_client_fn cfg t.clients).0)
                    ≡ ok p =
                  ap (λ x. x.0) h in
                let first' = rw q at first in
                let same : ok p' ≡ ok p = cc in
                ((λ i. ((q ∙ same) i, clients i)), sym (ap (λ x. x.1.cluster) h))
            | inr (x, q) ↦
                let first : wrap_result Context.new_client ((c.new_client_fn cfg t.clients).0)
                    ≡ ok p =
                  ap (λ x. x.0) h in
                let first' = rw q at first in absurd (cc)
          ]

      returns :
          c.new_client_fn cfg t.clients ≡ (ok p, s'.clients)
          → s'.cluster ≡ t.cluster
          → new_client rt json c cfg t ≡ (ok p, s')
      returns e k = rw e (λ i. (ok p, record { cluster = sym k i; clients = s'.clients }))

  -- `Connect` succeeds with a client exactly if the usage was tracked, the provider config that the
  -- resource refers to was found, in the resource's namespace or cluster-wide, its credentials were
  -- extracted and are JSON with an email and a password that are not empty, and `newClientFn` returned that client for the endpoint and the flag of the
  -- config's spec with these credentials. The name and the kind of the config are those of the resource's
  -- reference; "default" stands for a name, and "ClusterProviderConfig" for a kind, that is not given.
  pub connect-ok_iff :
      (cr : RolePermissions rt) (s s' : Connecting K C) (p : P)
      → (connect rt json c cr s ≡ (ok p, s')) ↔ (
          (cfg : Config) × (t : Connecting K C) × Asks cr s cfg t
          × (c.new_client_fn cfg t.clients ≡ (ok p, s'.clients))
          × (s'.cluster ≡ t.cluster))
  connect-ok_iff cr s s' p = (asks, answers)
    where
      asks :
          connect rt json c cr s ≡ (ok p, s')
          → (cfg : Config) × (t : Connecting K C) × Asks cr s cfg t
            × (c.new_client_fn cfg t.clients ≡ (ok p, s'.clients))
            × (s'.cluster ≡ t.cluster)
      asks h = elim (connect-Reaches cr s) [
        | inr (e, k, q) ↦ absurd (cc)
        | inl (cfg, t, a) ↦
            let (e, k) = (new_client-ok_iff cfg t s' p).0 (sym (Asks-connect cr s t cfg a) ∙ h) in
            (cfg, t, a, e, k)
      ]

      answers :
          (cfg : Config) × (t : Connecting K C) × Asks cr s cfg t
            × (c.new_client_fn cfg t.clients ≡ (ok p, s'.clients))
            × (s'.cluster ≡ t.cluster)
          → connect rt json c cr s ≡ (ok p, s')
      answers (cfg, t, a, e, k) =
          Asks-connect cr s t cfg a ∙ (new_client-ok_iff cfg t s' p).1 (e, k)

module _ (rt : Runtime) (json : Json) {K : Type 0} (kube : Kubernetes rt K)
    (sha256 : Text → List ℕ) where
  -- A `Connect` that fails, with the connector of `Setup`, leaves the cache of clients as it was.
  pub connect-err_clients :
      (cr : RolePermissions rt) (s s' : Connecting K Cache) (x : Error)
      → connect rt json (setup_connector rt sha256 kube) cr s ≡ (err x, s')
      → s'.clients ≡ s.clients
  unfolding setup_connector new_client
  connect-err_clients cr s s' x h = elim (connect-Reaches rt json c cr s) [
    | inr (e, k, q) ↦ ap (λ y. y.1.clients) (sym h ∙ q)
    | inl (cfg, t, a) ↦
        let h' = sym (Asks-connect rt json c cr s t cfg a) ∙ h in
        let stored : (Cache.get sha256 cfg t.clients).1 ≡ s'.clients = ap (λ y. y.1.clients) h' in
        let kept : t.clients ≡ s.clients = Asks-clients rt json c cr s cfg t a in
        elim (Result-cases ((Cache.get sha256 cfg t.clients).0)) [
          | inl (p, q) ↦
              let first : wrap_result Context.new_client ((Cache.get sha256 cfg t.clients).0)
                  ≡ err x =
                ap (λ y. y.0) h' in
              let first' = rw q at first in absurd (cc)
          | inr (y, q) ↦
              let (_, _, same) =
                (get-err_iff sha256 cfg t.clients ((Cache.get sha256 cfg t.clients).1) y).0
                  (λ i. (q i, (Cache.get sha256 cfg t.clients).1)) in
              sym stored ∙ sym same ∙ kept
        ]
  ]
    where
      c : Connector rt K Cache Pointer
      c = setup_connector rt sha256 kube
