-- ===== src/Exec/Journal.antt =====
-- A journal of the calls that code makes of other code, each with its error if it failed, and plans:
-- which calls are made in which order, and what is made of an error of each.
pub mod Weaken
use mathlib.Core.Path.{subst}
use provider_strapi.Prelude.{
  List, [], ◌∷◌, ◌++◌, Option, none, some, ◌≡◌, refl, sym, ap, ◌∙◌, ◌⊎◌, inl, inr, map,
  append_assoc, append-nil,
}
use provider_strapi.Exec.{Error, Result, ok, err, map_error, Exec, continue, pure, lift}

pub record Journal (W C : Type 0) : Type 0 where
  pub world : W
  pub calls : List (C × Option Error)

abbrev pub error_of : {A : Type 0} → Result A → Option Error
error_of (ok a) = none
error_of (err e) = some e

-- a call that is written down
abbrev pub noted : {W C A : Type 0} → C → Exec W A → Exec (Journal W C) A
noted c m j =
    let (r, w) = m j.world in (r, record { world = w; calls = j.calls ++ ((c, error_of r) ∷ []) })

-- a part of a plan, with what is returned of its error
pub data Planned (C : Type 0) : Type 1 where
  -- a call with a property
  calling : (C → Type 0) → (Error → Error) → Planned C
  -- a computation that is not written down, but can fail
  computing : (Error → Error) → Planned C

module _ {C : Type 0} where
  -- what was written down is the whole plan
  abbrev pub Succeeds : List (Planned C) → List (C × Option Error) → Type 0
  Succeeds [] es = es ≡ []
  Succeeds (calling P report ∷ plan) es =
      (c : C) × (fs : List (C × Option Error)) × (es ≡ (c, none) ∷ fs) × P c × Succeeds plan fs
  Succeeds (computing report ∷ plan) es = Succeeds plan es

  -- what was written down is the plan up to a part that failed, of which `x` was returned
  abbrev pub Fails : List (Planned C) → List (C × Option Error) → Error → Type 0
  Fails [] es x = ⊥
  Fails (calling P report ∷ plan) es x =
      ((c : C) × (e : Error) × (es ≡ (c, some e) ∷ []) × P c × (x ≡ report e))
      ⊎ ((c : C) × (fs : List (C × Option Error)) × (es ≡ (c, none) ∷ fs) × P c × Fails plan fs x)
  Fails (computing report ∷ plan) es x =
      ((e : Error) × (es ≡ []) × (x ≡ report e)) ⊎ Fails plan es x

  Succeeds-append :
      (plan more : List (Planned C)) (es fs : List (C × Option Error))
      → Succeeds plan es
      → Succeeds more fs
      → Succeeds (plan ++ more) (es ++ fs)
  Succeeds-append [] more es fs e h = rw e h
  Succeeds-append (calling P report ∷ plan) more es fs (c, gs, e, p, s) h =
      (c, gs ++ fs, ap (λ l. l ++ fs) e, p, Succeeds-append plan more gs fs s h)
  Succeeds-append (computing report ∷ plan) more es fs s h = Succeeds-append plan more es fs s h

  Fails-append :
      (plan more : List (Planned C)) (es : List (C × Option Error)) (x : Error)
      → Fails plan es x
      → Fails (plan ++ more) es x
  Fails-append [] more es x h = elim h [ ]
  Fails-append (calling P report ∷ plan) more es x (inl h) = inl h
  Fails-append (calling P report ∷ plan) more es x (inr (c, fs, e, p, h)) =
      inr (c, fs, e, p, Fails-append plan more fs x h)
  Fails-append (computing report ∷ plan) more es x (inl h) = inl h
  Fails-append (computing report ∷ plan) more es x (inr h) = inr (Fails-append plan more es x h)

  Succeeds-Fails :
      (plan more : List (Planned C)) (es fs : List (C × Option Error)) (x : Error)
      → Succeeds plan es
      → Fails more fs x
      → Fails (plan ++ more) (es ++ fs) x
  Succeeds-Fails [] more es fs x e h = rw e h
  Succeeds-Fails (calling P report ∷ plan) more es fs x (c, gs, e, p, s) h =
      inr (c, gs ++ fs, ap (λ l. l ++ fs) e, p, Succeeds-Fails plan more gs fs x s h)
  Succeeds-Fails (computing report ∷ plan) more es fs x s h =
      inr (Succeeds-Fails plan more es fs x s h)

  -- a result after the calls `prior`, by a plan; `Q` holds of what is returned
  abbrev pub Outcome :
      {W A : Type 0}
      → List (C × Option Error)
      → List (Planned C)
      → (A → Type 0)
      → Result A × Journal W C
      → Type 0
  Outcome prior plan Q (ok a, j) =
      (es : List (C × Option Error)) × (j.calls ≡ prior ++ es) × Succeeds plan es × Q a
  Outcome prior plan Q (err x, j) =
      (es : List (C × Option Error)) × (j.calls ≡ prior ++ es) × Fails plan es x

  abbrev pub Does : {W A : Type 0} → Exec (Journal W C) A → List (Planned C) → (A → Type 0) → Type 0
  Does {W} m plan Q = (j : Journal W C) → Outcome j.calls plan Q (m j)

  Outcome-after :
      {W A : Type 0} (prior es : List (C × Option Error)) (plan more : List (Planned C))
      (Q : A → Type 0) (j : Journal W C) (r : Result A × Journal W C)
      → j.calls ≡ prior ++ es
      → Succeeds plan es
      → Outcome j.calls more Q r
      → Outcome prior (plan ++ more) Q r
  Outcome-after prior es plan more Q j (ok a, k) e s (fs, f, t, q) =
      (es ++ fs, rw (f, e) (append_assoc prior es fs), Succeeds-append plan more es fs s t, q)
  Outcome-after prior es plan more Q j (err x, k) e s (fs, f, t) =
      (es ++ fs, rw (f, e) (append_assoc prior es fs), Succeeds-Fails plan more es fs x s t)

  Outcome-continue :
      {W A B : Type 0} (prior : List (C × Option Error)) (plan more : List (Planned C))
      (Q : A → Type 0) (R : B → Type 0) (r : Result A × Journal W C) (f : A → Exec (Journal W C) B)
      → Outcome prior plan Q r
      → ((a : A) → Q a → Does (f a) more R)
      → Outcome prior (plan ++ more) R (continue r f)
  Outcome-continue prior plan more Q R (ok a, j) f (es, e, s, q) next =
      Outcome-after prior es plan more R j (f a j) e s (next a q j)
  Outcome-continue prior plan more Q R (err x, j) f (es, e, s) next =
      (es, e, Fails-append plan more es x s)

  -- one part of a program after another
  pub Does-continue :
      {W A B : Type 0} (plan more : List (Planned C)) (Q : A → Type 0) (R : B → Type 0)
      (m : Exec (Journal W C) A) (f : A → Exec (Journal W C) B)
      → Does m plan Q
      → ((a : A) → Q a → Does (f a) more R)
      → Does (λ j. continue (m j) f) (plan ++ more) R
  Does-continue plan more Q R m f h next j =
      Outcome-continue j.calls plan more Q R (m j) f (h j) next

  pub Does-noted :
      {W A : Type 0} (P : C → Type 0) (c : C) (m : Exec W A)
      → P c
      → Does (noted c m) (calling P (λ e. e) ∷ []) (λ a. Unit {0})
  Does-noted {W} {A} P c m p j = read (m j.world)
    where
      read :
          (r : Result A × W)
          → Outcome j.calls
              (calling P (λ e. e) ∷ [])
              (λ a. Unit {0})
              (r.0, record { world = r.1; calls = j.calls ++ ((c, error_of r.0) ∷ []) })
      read (ok a, w) = ((c, none) ∷ [], refl, (c, [], refl, p, refl), tt)
      read (err e, w) = ((c, some e) ∷ [], refl, inl (c, e, refl, p, refl))

  -- a value that is there
  pub Does-value :
      {W A : Type 0} (Q : A → Type 0) (r : Result A) (a : A)
      → r ≡ ok a
      → Q a
      → Does {W = W} (lift r) [] Q
  Does-value Q r a e q j = rw e ([], sym (append-nil j.calls), refl, q)

  -- a value that may be missing, with its error passed on in another form
  pub Does-lift :
      {W A : Type 0} (Q : A → Type 0) (f : Error → Error) (r : Result A)
      → ((a : A) → r ≡ ok a → Q a)
      → Does {W = W} (lift (map_error f r)) (computing f ∷ []) Q
  Does-lift Q f (ok a) q j = ([], sym (append-nil j.calls), refl, q a refl)
  Does-lift Q f (err e) q j = ([], sym (append-nil j.calls), inl (e, refl, refl))

  -- nothing is done
  pub Does-pure : {W A : Type 0} (Q : A → Type 0) (a : A) → Q a → Does {W = W} (pure a) [] Q
  Does-pure Q a q j = ([], sym (append-nil j.calls), refl, q)

  -- a program with a return behind it
  pub Does-last :
      {W A B : Type 0} (plan : List (Planned C)) (Q : A → Type 0) (R : B → Type 0)
      (m : Exec (Journal W C) A) (b : B)
      → Does m plan Q
      → R b
      → Does (λ j. continue (m j) (λ _. pure b)) plan R
  Does-last plan Q R m b h r =
      subst (λ p. Does (λ j. continue (m j) (λ _. pure b)) p R) (append-nil plan)
        (Does-continue plan [] Q R m (λ _. pure b) h (λ _ _. Does-pure R b r))

  abbrev pub reported : (Error → Error) → Planned C → Planned C
  reported f (calling P report) = calling P (λ e. f (report e))
  reported f (computing report) = computing (λ e. f (report e))

  reported-Succeeds :
      (f : Error → Error) (plan : List (Planned C)) (es : List (C × Option Error))
      → Succeeds plan es
      → Succeeds (map (reported f) plan) es
  reported-Succeeds f [] es h = h
  reported-Succeeds f (calling P report ∷ plan) es (c, fs, e, p, h) =
      (c, fs, e, p, reported-Succeeds f plan fs h)
  reported-Succeeds f (computing report ∷ plan) es h = reported-Succeeds f plan es h

  reported-Fails :
      (f : Error → Error) (plan : List (Planned C)) (es : List (C × Option Error)) (x : Error)
      → Fails plan es x
      → Fails (map (reported f) plan) es (f x)
  reported-Fails f [] es x h = h
  reported-Fails f (calling P report ∷ plan) es x (inl (c, e, h, p, q)) = inl (c, e, h, p, ap f q)
  reported-Fails f (calling P report ∷ plan) es x (inr (c, fs, e, p, h)) =
      inr (c, fs, e, p, reported-Fails f plan fs x h)
  reported-Fails f (computing report ∷ plan) es x (inl (e, h, q)) = inl (e, h, ap f q)
  reported-Fails f (computing report ∷ plan) es x (inr h) = inr (reported-Fails f plan es x h)

  -- code whose errors are passed on in another form
  pub Does-map_error :
      {W A : Type 0} (f : Error → Error) (plan : List (Planned C)) (Q : A → Type 0)
      (m : Exec (Journal W C) A)
      → Does m plan Q
      → Does (λ j. (map_error f (m j).0, (m j).1)) (map (reported f) plan) Q
  Does-map_error {W} {A} f plan Q m h j = read (m j) (h j)
    where
      read :
          (r : Result A × Journal W C)
          → Outcome j.calls plan Q r
          → Outcome j.calls (map (reported f) plan) Q (map_error f r.0, r.1)
      read (ok a, k) (es, e, s, q) = (es, e, reported-Succeeds f plan es s, q)
      read (err x, k) (es, e, s) = (es, e, reported-Fails f plan es x s)
