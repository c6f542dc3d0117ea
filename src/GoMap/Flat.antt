-- ===== src/GoMap/Flat.antt =====
-- A nested `range` over Go maps: one list for each entry, collected.
use mathlib.Core.Path.{subst}
use mathlib.Core.List.{Mem, Mem-prop, Nodup, Nodup-nil, Nodup-append, mem-append, not-mem-nil}
use mathlib.Core.Logic.Or
use provider_strapi.Prelude.{
  List, [], ◌∷◌, ◌++◌, Option, none, some, ◌≡◌, sym, ◌↔◌, inl, inr, arith, Bool-cases,
}
use provider_strapi.Text.{Text, text_eq}
use provider_strapi.Text.Equality.{text_eq_iff}
use provider_strapi.GoMap.{Map, lookup}
use provider_strapi.GoMap.Unique.{Unique, Fresh, Values, lookup_of_Fresh}

module _ {ℓ κ} {V : Type ℓ} {B : Type κ} where
  abbrev pub flat : (Text → V → List B) → Map V → List B
  flat f [] = []
  flat f ((k, v) ∷ m) = f k v ++ flat f m

  -- what one value contributes
  abbrev pub part : (Text → V → List B) → Text → Option V → List B
  part f k none = []
  part f k (some v) = f k v

module _ {ℓ κ} {V : Type ℓ} {B : Type κ} (f : Text → V → List B) where
  pub flat-all :
      (P : B → Type 0)
      → ((b : B) → IsProp (P b))
      → ((k : Text) (v : V) (b : B) → Mem b (f k v) → P b)
      → (m : Map V) (b : B) → Mem b (flat f m)
      → P b
  flat-all P prop h [] b mem = absurd (not-mem-nil mem)
  flat-all P prop h ((k, v) ∷ m) b mem =
      Or.elim (prop b) (mem-append.0 mem) (h k v b) (flat-all P prop h m b)

module _ {ℓ κ} {V : Type ℓ} {B : Type κ} (f : Text → V → List B) (key : B → Text)
    (keyed : (k : Text) (v : V) (b : B) → Mem b (f k v) → key b ≡ k) where
  -- nothing comes from a key that the map lacks
  not-mem-flat :
      (m : Map V) (b : B)
      → (Mem b (flat f m) → Mem b (part f (key b) (lookup m (key b))))
      → Fresh (key b) m
      → ¬ Mem b (flat f m)
  not-mem-flat m b back fresh mem =
      not-mem-nil
        (subst (λ o. Mem b (part f (key b) o)) (lookup_of_Fresh m (key b) fresh) (back mem))

  pub mem-flat_iff :
      (m : Map V) (b : B) → Unique m → Mem b (flat f m) ↔ Mem b (part f (key b) (lookup m (key b)))
  unfolding lookup
  mem-flat_iff [] b u = (λ h. h, λ h. h)
  mem-flat_iff ((k, v) ∷ m) b (fresh, u) =
      let ih = mem-flat_iff m b u in
      elim (Bool-cases (text_eq k (key b))) [
        | inl e ↦
            let here : k ≡ key b = (text_eq_iff k (key b)).0 e in
            let tail = not-mem-flat m b ih.0 (subst (λ j. Fresh j m) here fresh) in
            rw e (
              λ h.
                  Or.elim Mem-prop (mem-append.0 h) (subst (λ j. Mem b (f j v)) here)
                    (λ t. absurd (tail t)),
              λ h. mem-append.1 (Or.inl (subst (λ j. Mem b (f j v)) (sym here) h)),
            )
        | inr e ↦ rw e (
          λ h.
              Or.elim Mem-prop (mem-append.0 h)
                (λ (p : Mem b (f k v)).
                  absurd (ground (arith, text_eq_iff k (key b), keyed k v b p)))
                ih.0,
          λ h. mem-append.1 (Or.inr (ih.1 h)),
        )
      ]

  pub Nodup-flat :
      (m : Map V) → Unique m → ((k : Text) → Values (λ v. Nodup (f k v)) m) → Nodup (flat f m)
  Nodup-flat [] u h = Nodup-nil
  Nodup-flat ((k, v) ∷ m) (fresh, u) h = Nodup-append.1 (
    (h k).0,
    Nodup-flat m u (λ j. (h j).1),
    λ b first rest.
        not-mem-flat m b (mem-flat_iff m b u).0
          (subst (λ j. Fresh j m) (sym (keyed k v b first)) fresh) rest,
  )
