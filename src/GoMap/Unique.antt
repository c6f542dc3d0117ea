-- ===== src/GoMap/Unique.antt =====
-- Go maps hold a key once.
use mathlib.Core.Path.{subst}
use provider_strapi.Prelude.{some, [], ◌∷◌, none, ◌≡◌, refl, ◌≢◌, inl, inr, arith, Bool-cases}
use provider_strapi.Text.{Text, text_eq}
use provider_strapi.Text.Equality.{text_eq_iff}
use provider_strapi.GoMap.{Map, lookup, insert}

module _ {ℓ} {V : Type ℓ} where
  -- no entry has the key
  abbrev pub Fresh : Text → Map V → Type 0
  Fresh k [] = Unit
  Fresh k ((j, v) ∷ m) = (j ≢ k) × Fresh k m

  abbrev pub Unique : Map V → Type 0
  Unique [] = Unit
  Unique ((k, v) ∷ m) = Fresh k m × Unique m

  pub lookup_of_Fresh : (m : Map V) (k : Text) → Fresh k m → lookup m k ≡ none
  unfolding lookup
  lookup_of_Fresh [] k h = refl
  lookup_of_Fresh ((j, v) ∷ m) k (hj, hm) = ground (arith, text_eq_iff j k, lookup_of_Fresh m k hm)

  Fresh-insert : (m : Map V) (i k : Text) (v : V) → k ≢ i → Fresh i m → Fresh i (insert m k v)
  unfolding insert
  Fresh-insert [] i k v h f = (h, tt)
  Fresh-insert ((j, w) ∷ m) i k v h (fj, fm) = elim (Bool-cases (text_eq j k)) [
    | inl e ↦ rw e (h, fm)
    | inr e ↦ rw e (fj, Fresh-insert m i k v h fm)
  ]

  pub Unique-insert : (m : Map V) (k : Text) (v : V) → Unique m → Unique (insert m k v)
  unfolding insert
  Unique-insert [] k v h = (tt, tt)
  Unique-insert ((j, w) ∷ m) k v (fj, um) = elim (Bool-cases (text_eq j k)) [
    | inl e ↦ rw e (rw (← (text_eq_iff j k).0 e) fj, um)
    | inr e ↦ rw e (
      Fresh-insert m j k v (λ p. absurd (ground (arith, text_eq_iff j k))) fj,
      Unique-insert m k v um,
    )
  ]

module _ {ℓ κ} {V : Type ℓ} (P : V → Type κ) where
  -- every value of the map satisfies `P`
  abbrev pub Values : Map V → Type κ
  Values [] = Unit
  Values ((k, v) ∷ m) = P v × Values m

  pub Values-insert : (m : Map V) (k : Text) (v : V) → P v → Values m → Values (insert m k v)
  unfolding insert
  Values-insert [] k v p h = (p, tt)
  Values-insert ((j, w) ∷ m) k v p (pw, h) = elim (Bool-cases (text_eq j k)) [
    | inl e ↦ rw e (p, h)
    | inr e ↦ rw e (pw, Values-insert m k v p h)
  ]

  pub Values-lookup : (m : Map V) (k : Text) (v : V) → Values m → lookup m k ≡ some v → P v
  unfolding lookup
  Values-lookup [] k v h e = absurd (cc)
  Values-lookup ((j, w) ∷ m) k v (pw, h) e = elim (Bool-cases (text_eq j k)) [
    | inl q ↦ let e' = rw q at e in let same : w ≡ v = cc in subst P same pw
    | inr q ↦ Values-lookup m k v h (rw q at e)
  ]

pub Values-map {ℓ κ μ} :
    {V : Type ℓ} (P : V → Type κ) (Q : V → Type μ) (m : Map V)
    → ((v : V) → P v → Q v)
    → Values P m
    → Values Q m
Values-map P Q [] f h = tt
Values-map P Q ((k, v) ∷ m) f (p, h) = (f v p, Values-map P Q m f h)
