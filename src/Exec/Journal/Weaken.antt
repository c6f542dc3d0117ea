-- ===== src/Exec/Journal/Weaken.antt =====
-- Plans that say less of the same calls.
use provider_strapi.Prelude.{List, [], ◌∷◌, Option, ◌≡◌, ◌∙◌, inl, inr}
use provider_strapi.Exec.{Error, Result, ok, err, Exec}
use provider_strapi.Exec.Journal.{
  Journal, Planned, calling, computing, Succeeds, Fails, Outcome, Does,
}

module _ {C : Type 0} where
  abbrev pub Weakens : List (Planned C) → List (Planned C) → Type 0
  Weakens [] [] = Unit
  Weakens (calling P f ∷ plan) (calling Q g ∷ more) =
      ((c : C) → P c → Q c) × ((e : Error) → f e ≡ g e) × Weakens plan more
  Weakens (computing f ∷ plan) (computing g ∷ more) = ((e : Error) → f e ≡ g e) × Weakens plan more
  Weakens _ _ = ⊥

  Succeeds-weaken :
      (plan more : List (Planned C)) (es : List (C × Option Error))
      → Weakens plan more
      → Succeeds plan es
      → Succeeds more es
  Succeeds-weaken [] [] es w h = h
  Succeeds-weaken (calling P f ∷ plan) (calling Q g ∷ more) es (i, _, w) (c, fs, e, p, h) =
      (c, fs, e, i c p, Succeeds-weaken plan more fs w h)
  Succeeds-weaken (computing f ∷ plan) (computing g ∷ more) es (_, w) h =
      Succeeds-weaken plan more es w h
  Succeeds-weaken (calling P f ∷ plan) (computing g ∷ more) es w h = elim w [ ]
  Succeeds-weaken [] (_ ∷ more) es w h = elim w [ ]
  Succeeds-weaken (calling P f ∷ plan) [] es w h = elim w [ ]
  Succeeds-weaken (computing f ∷ plan) [] es w h = elim w [ ]
  Succeeds-weaken (computing f ∷ plan) (calling Q g ∷ more) es w h = elim w [ ]

  Fails-weaken :
      (plan more : List (Planned C)) (es : List (C × Option Error)) (x : Error)
      → Weakens plan more
      → Fails plan es x
      → Fails more es x
  Fails-weaken (calling P f ∷ plan) (calling Q g ∷ more) es x (i, s, w) (inl (c, e, h, p, q)) =
      inl (c, e, h, i c p, q ∙ s e)
  Fails-weaken (calling P f ∷ plan) (calling Q g ∷ more) es x (i, s, w) (inr (c, fs, e, p, h)) =
      inr (c, fs, e, i c p, Fails-weaken plan more fs x w h)
  Fails-weaken (computing f ∷ plan) (computing g ∷ more) es x (s, w) (inl (e, h, q)) =
      inl (e, h, q ∙ s e)
  Fails-weaken (computing f ∷ plan) (computing g ∷ more) es x (s, w) (inr h) =
      inr (Fails-weaken plan more es x w h)
  Fails-weaken (calling P f ∷ plan) (computing g ∷ more) es x w h = elim w [ ]
  Fails-weaken [] more es x w h = elim h [ ]
  Fails-weaken (calling P f ∷ plan) [] es x w h = elim w [ ]
  Fails-weaken (computing f ∷ plan) [] es x w h = elim w [ ]
  Fails-weaken (computing f ∷ plan) (calling Q g ∷ more) es x w h = elim w [ ]

  pub Does-weaken :
      {W A : Type 0} (plan more : List (Planned C)) (Q : A → Type 0) (m : Exec (Journal W C) A)
      → Weakens plan more
      → Does m plan Q
      → Does m more Q
  Does-weaken {W} {A} plan more Q m w h j = read (m j) (h j)
    where
      read : (r : Result A × Journal W C) → Outcome j.calls plan Q r → Outcome j.calls more Q r
      read (ok a, k) (es, e, s, q) = (es, e, Succeeds-weaken plan more es w s, q)
      read (err x, k) (es, e, f) = (es, e, Fails-weaken plan more es x w f)
