-- ===== src/Text/Search.antt =====
-- `Index`, `LastIndex` and `HasPrefix` cut a text: the views that the parsers' proofs use.
use provider_strapi.Prelude.{
  ℕ, [], ◌∷◌, ◌++◌, none, some, true, false, ◌≡◌, refl, ◌⊎◌, inl, inr, ap, arith, ◌==◌, length,
  Bool-cases,
}
use provider_strapi.Text.{Text, Lacks, has_prefix, index, last_index}

-- the first separator of `a ++ sep ∷ b` stands behind `a`
pub index-append : (sep : ℕ) (a b : Text) → Lacks sep a → index (a ++ sep ∷ b) sep ≡ some (length a)
unfolding index
index-append sep [] b h = ground arith
index-append sep (c ∷ a) b (hc, ha) = ground (arith, index-append sep a b ha)

pub index_of_Lacks : (sep : ℕ) (s : Text) → Lacks sep s → index s sep ≡ none
unfolding index
index_of_Lacks sep [] h = refl
index_of_Lacks sep (c ∷ s) (hc, hs) = ground (arith, index_of_Lacks sep s hs)

pub last_index_of_Lacks : (sep : ℕ) (s : Text) → Lacks sep s → last_index s sep ≡ none
unfolding last_index
last_index_of_Lacks sep [] h = refl
last_index_of_Lacks sep (c ∷ s) (hc, hs) = ground (arith, last_index_of_Lacks sep s hs)

-- the last separator of `a ++ sep ∷ b` stands before `b`
pub last_index-append :
    (sep : ℕ) (a b : Text) → Lacks sep b → last_index (a ++ sep ∷ b) sep ≡ some (length a)
unfolding last_index
last_index-append sep [] b h = ground (arith, last_index_of_Lacks sep b h)
last_index-append sep (c ∷ a) b h = ground (arith, last_index-append sep a b h)

-- Either there is no separator, or the text is cut at the first one.
pub index-cases :
    (sep : ℕ) (s : Text)
    → ((index s sep ≡ none) × Lacks sep s)
      ⊎ ((a : Text) × (b : Text) × (s ≡ a ++ sep ∷ b)
          × Lacks sep a
          × (index s sep ≡ some (length a)))
unfolding index
index-cases sep [] = inl (refl, tt)
index-cases sep (c ∷ s) = elim (Bool-cases (c == sep)) [
  | inl e ↦ inr ([], s, ground arith, tt, ground arith)
  | inr e ↦ elim (index-cases sep s) [
    | inl (p, h) ↦ inl (ground arith, (ground arith, h))
    | inr (a, b, p, h, q) ↦ inr (c ∷ a, b, ap (◌∷◌ c) p, (ground arith, h), ground arith)
  ]
]

-- Either there is no separator, or the text is cut at the last one.
pub last_index-cases :
    (sep : ℕ) (s : Text)
    → ((last_index s sep ≡ none) × Lacks sep s)
      ⊎ ((a : Text) × (b : Text) × (s ≡ a ++ sep ∷ b)
          × Lacks sep b
          × (last_index s sep ≡ some (length a)))
unfolding last_index
last_index-cases sep [] = inl (refl, tt)
last_index-cases sep (c ∷ s) = elim (last_index-cases sep s) [
  | inr (a, b, p, h, q) ↦ inr (c ∷ a, b, ap (◌∷◌ c) p, h, ground arith)
  | inl (p, h) ↦ elim (Bool-cases (c == sep)) [
    | inl e ↦ inr ([], s, ground arith, h, ground arith)
    | inr e ↦ inl (ground arith, (ground arith, h))
  ]
]

pub has_prefix-append : (p s : Text) → has_prefix (p ++ s) p ≡ true
unfolding has_prefix
has_prefix-append [] s = refl
has_prefix-append (c ∷ p) s = ground (arith, has_prefix-append p s)

pub append_of_has_prefix : (s p : Text) → has_prefix s p ≡ true → (t : Text) × (s ≡ p ++ t)
unfolding has_prefix
append_of_has_prefix s [] h = (s, refl)
append_of_has_prefix [] (c ∷ p) h = elim (Bool-cases false) [ inl e ↦ ([], cc) | inr _ ↦ ([], cc) ]
append_of_has_prefix (d ∷ s) (c ∷ p) h =
    let (t, e) = append_of_has_prefix s p (ground arith) in (t, ground arith)
