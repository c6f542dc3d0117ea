-- ===== src/Controller/Setup/OptionList.antt =====
-- internal/controller/rolepermissions/rolepermissions.go: lists of options of a reconciler, and which
-- options are in them.
use provider_strapi.Prelude.{
  ℕ, ◌<◌, ◌≢◌, All, IsIn, IsIn-All, IsIn-left, IsIn-right, IsIn-append, arith, List, [], ◌∷◌, ◌++◌,
  Option, none, some, Bool, true, false, ◌≡◌, refl, sym, ap, ◌∙◌, inl, inr, ◌↔◌,
}
use provider_strapi.Prelude.Int.{ℤ}
use provider_strapi.Apis.{provider_config_usage}
use provider_strapi.Controller.Setup.{
  alpha_change_logs, Toolkit, MetricOptions, ChangeLogOptions, ControllerOptions, ReconcilerOption,
  typed_external_connector, with_logger, with_poll_interval, with_recorder,
  with_management_policies, with_change_logger, with_metric_recorder,
}

module _ {A : Type 0} where
  -- among four lists, it can be in one alone
  IsIn-only :
      (a : A) (ws xs ys zs : List A)
      → (P : Type 0) → (IsIn a ws → P)
      → (IsIn a xs → P)
      → (IsIn a ys → P)
      → (IsIn a zs → P)
      → IsIn a (((ws ++ xs) ++ ys) ++ zs)
      → P
  IsIn-only a ws xs ys zs P w x y z h = elim (IsIn-append a ((ws ++ xs) ++ ys) zs h) [
    | inl m ↦ elim (IsIn-append a (ws ++ xs) ys m) [
      | inl n ↦ elim (IsIn-append a ws xs n) [ inl o ↦ w o | inr o ↦ x o ]
      | inr n ↦ y n
    ]
    | inr m ↦ z m
  ]

module _ (tk : Toolkit) where
  -- whether the options of a reconciler hold what the provider's options ask for
  abbrev pub Configured :
      ℤ
      → Bool
      → Bool
      → Option (ChangeLogOptions tk)
      → Option (MetricOptions tk)
      → List (ReconcilerOption tk)
      → Type 0
  Configured poll policies changes change_log metric opts =
      IsIn (typed_external_connector provider_config_usage) opts
      × IsIn (with_poll_interval poll) opts
      × (IsIn with_management_policies opts ↔ (policies ≡ true))
      × ((l : tk.ChangeLogger)
          → IsIn (with_change_logger l) opts ↔ (
              (changes ≡ true)
              × ((c : ChangeLogOptions tk) × (change_log ≡ some c) × (l ≡ c.change_logger))))
      × ((r : tk.MetricRecorder)
          → IsIn (with_metric_recorder r) opts
            ↔ ((m : MetricOptions tk) × (metric ≡ some m) × (r ≡ m.mr_metrics)))

  -- there is a change logger if the feature is on
  abbrev pub IsComplete : ControllerOptions tk → Type 0
  IsComplete o =
      tk.is_enabled o.features alpha_change_logs ≡ true
      → (c : ChangeLogOptions tk) × (o.change_log_options ≡ some c)

  abbrev four : tk.Logger → ℤ → tk.Recorder → List (ReconcilerOption tk)
  four l poll r =
      typed_external_connector provider_config_usage
      ∷ with_logger l
      ∷ with_poll_interval poll
      ∷ with_recorder r
      ∷ []

  abbrev changing : Bool → Option (ChangeLogOptions tk) → List (ReconcilerOption tk)
  changing true (some c) = with_change_logger c.change_logger ∷ []
  changing true none = []
  changing false c = []

  abbrev measuring : Option (MetricOptions tk) → List (ReconcilerOption tk)
  measuring (some m) = with_metric_recorder m.mr_metrics ∷ []
  measuring none = []

  abbrev allowing : Bool → List (ReconcilerOption tk)
  allowing true = with_management_policies ∷ []
  allowing false = []

  -- the function that makes an option
  kind_of : ReconcilerOption tk → ℕ
  kind_of (typed_external_connector t) = 0
  kind_of (with_logger l) = 1
  kind_of (with_poll_interval n) = 2
  kind_of (with_recorder r) = 3
  kind_of with_management_policies = 4
  kind_of (with_change_logger l) = 5
  kind_of (with_metric_recorder r) = 6

  abbrev LacksKind : ℕ → List (ReconcilerOption tk) → Type 0
  LacksKind n = All (λ x. kind_of x ≢ n)

  IsIn-LacksKind :
      (x : ReconcilerOption tk) (xs : List (ReconcilerOption tk))
      → LacksKind (kind_of x) xs
      → IsIn x xs
      → ⊥
  IsIn-LacksKind x xs h m = IsIn-All (λ y. kind_of y ≢ kind_of x) x xs h m refl

  four-LacksKind :
      (n : ℕ) (l : tk.Logger) (poll : ℤ) (r : tk.Recorder) → 3 < n → LacksKind n (four l poll r)
  unfolding kind_of
  four-LacksKind n l poll r h = (
    λ e. omega (arith, h, e),
    (λ e. omega (arith, h, e), (λ e. omega (arith, h, e), (λ e. omega (arith, h, e), tt))),
  )

  allowing-LacksKind : (n : ℕ) (p : Bool) → 4 < n → LacksKind n (allowing p)
  unfolding kind_of
  allowing-LacksKind n true h = (λ e. omega (arith, h, e), tt)
  allowing-LacksKind n false h = tt

  changing-LacksKind :
      (n : ℕ) (a : Bool) (co : Option (ChangeLogOptions tk)) → 5 ≢ n → LacksKind n (changing a co)
  unfolding kind_of
  changing-LacksKind n true (some c) h = (h, tt)
  changing-LacksKind n true none h = tt
  changing-LacksKind n false co h = tt

  measuring-LacksKind :
      (n : ℕ) (mo : Option (MetricOptions tk)) → n < 6 → LacksKind n (measuring mo)
  unfolding kind_of
  measuring-LacksKind n (some m) h = (λ e. omega (arith, h, e), tt)
  measuring-LacksKind n none h = tt

  policies-allowing : (p : Bool) → IsIn with_management_policies (allowing p) → p ≡ true
  policies-allowing true h = refl
  policies-allowing false h = elim h [ ]

  some_injective : {A : Type 0} {a b : A} → some a ≡ some b → a ≡ b
  some_injective e = cc

  abbrev Logs : tk.ChangeLogger → Bool → Option (ChangeLogOptions tk) → Type 0
  Logs y a co = (a ≡ true) × ((c : ChangeLogOptions tk) × (co ≡ some c) × (y ≡ c.change_logger))

  logger_injective :
      (y z : tk.ChangeLogger)
      → ◌≡◌ {A = ReconcilerOption tk} (with_change_logger y) (with_change_logger z)
      → y ≡ z
  logger_injective y z e = cc

  recorder_injective :
      (y z : tk.MetricRecorder)
      → ◌≡◌ {A = ReconcilerOption tk} (with_metric_recorder y) (with_metric_recorder z)
      → y ≡ z
  recorder_injective y z e = cc

  changes-changing :
      (y : tk.ChangeLogger) (a : Bool) (co : Option (ChangeLogOptions tk))
      → IsIn (with_change_logger y) (changing a co) ↔ Logs y a co
  changes-changing y true (some c) = (
    λ h. elim h [
      | inl e ↦ (refl, (c, refl, logger_injective y c.change_logger e))
      | inr m ↦ elim m [ ]
    ],
    λ (_, (d, e, q)). inl (
        let same : d.change_logger ≡ c.change_logger =
          ap (λ z. z.change_logger) (some_injective (sym e)) in
        ap with_change_logger (q ∙ same)),
  )
  changes-changing y true none = (λ h. elim h [ ], λ (_, (d, e, q)). absurd (cc))
  changes-changing y false co = (λ h. elim h [ ], λ (e, _). absurd (cc))

  metrics-measuring :
      (y : tk.MetricRecorder) (mo : Option (MetricOptions tk))
      → IsIn (with_metric_recorder y) (measuring mo)
        ↔ ((m : MetricOptions tk) × (mo ≡ some m) × (y ≡ m.mr_metrics))
  metrics-measuring y (some m) = (
    λ h. elim h [ inl e ↦ (m, refl, recorder_injective y m.mr_metrics e) | inr n ↦ elim n [ ] ],
    λ (d, e, q). inl (
        let same : d.mr_metrics ≡ m.mr_metrics = ap (λ z. z.mr_metrics) (some_injective (sym e)) in
        ap with_metric_recorder (q ∙ same)),
  )
  metrics-measuring y none = (λ h. elim h [ ], λ (d, e, q). absurd (cc))

  module _ (l : tk.Logger) (poll : ℤ) (r : tk.Recorder) (p : Bool) (a : Bool)
      (co : Option (ChangeLogOptions tk)) (mo : Option (MetricOptions tk)) where
    abbrev all_options : List (ReconcilerOption tk)
    all_options = ((four l poll r ++ allowing p) ++ changing a co) ++ measuring mo

    policies_iff : IsIn with_management_policies all_options ↔ (p ≡ true)
    unfolding kind_of
    policies_iff = (
      IsIn-only with_management_policies (four l poll r) (allowing p) (changing a co) (measuring mo)
          (p ≡ true)
          (λ h. absurd (
            IsIn-LacksKind with_management_policies (four l poll r)
              (four-LacksKind 4 l poll r (omega arith)) h))
          (policies-allowing p)
          (λ h. absurd (
            IsIn-LacksKind with_management_policies (changing a co)
              (changing-LacksKind 4 a co (λ e. omega (arith, e))) h))
          (λ h. absurd (
            IsIn-LacksKind with_management_policies (measuring mo)
              (measuring-LacksKind 4 mo (omega arith)) h)),
      λ e. rw e (inr (inr (inr (inr (inl refl))))),
    )

    changes_iff : (y : tk.ChangeLogger) → IsIn (with_change_logger y) all_options ↔ Logs y a co
    unfolding kind_of
    changes_iff y = (
      IsIn-only (with_change_logger y) (four l poll r) (allowing p) (changing a co) (measuring mo)
          (Logs y a co)
          (λ h. absurd (
            IsIn-LacksKind (with_change_logger y) (four l poll r)
              (four-LacksKind 5 l poll r (omega arith)) h))
          (λ h. absurd (
            IsIn-LacksKind (with_change_logger y) (allowing p)
              (allowing-LacksKind 5 p (omega arith)) h))
          (changes-changing y a co).0
          (λ h. absurd (
            IsIn-LacksKind (with_change_logger y) (measuring mo)
              (measuring-LacksKind 5 mo (omega arith)) h)),
      λ h.
          IsIn-left (with_change_logger y) ((four l poll r ++ allowing p) ++ changing a co)
            (measuring mo)
            (IsIn-right (with_change_logger y) (four l poll r ++ allowing p) (changing a co)
              ((changes-changing y a co).1 h)),
    )

    metrics_iff :
        (y : tk.MetricRecorder)
        → IsIn (with_metric_recorder y) all_options
          ↔ ((m : MetricOptions tk) × (mo ≡ some m) × (y ≡ m.mr_metrics))
    unfolding kind_of
    metrics_iff y = (
      IsIn-only (with_metric_recorder y) (four l poll r) (allowing p) (changing a co) (measuring mo)
          ((m : MetricOptions tk) × (mo ≡ some m) × (y ≡ m.mr_metrics))
          (λ h. absurd (
            IsIn-LacksKind (with_metric_recorder y) (four l poll r)
              (four-LacksKind 6 l poll r (omega arith)) h))
          (λ h. absurd (
            IsIn-LacksKind (with_metric_recorder y) (allowing p)
              (allowing-LacksKind 6 p (omega arith)) h))
          (λ h. absurd (
            IsIn-LacksKind (with_metric_recorder y) (changing a co)
              (changing-LacksKind 6 a co (λ e. omega (arith, e))) h))
          (metrics-measuring y mo).0,
      λ h.
          IsIn-right (with_metric_recorder y) ((four l poll r ++ allowing p) ++ changing a co)
            (measuring mo) ((metrics-measuring y mo).1 h),
    )

    pub all_options-Configured : Configured poll p a co mo all_options
    all_options-Configured =
        (inl refl, inr (inr (inl refl)), policies_iff, changes_iff, metrics_iff)
