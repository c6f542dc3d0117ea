-- ===== src/Text/Fold.antt =====
-- `strings.ToLower` and `strings.EqualFold`. Both go through a text by code points and ask the
-- tables of Go's `unicode` package, which are a parameter here.
use provider_strapi.Prelude.{
  ℕ, ◌+◌, ◌<◌, [], ◌∷◌, Bool, true, false, ◌&&◌, ◌≡◌, refl, ◌↔◌, ==_iff, ◌∙◌, sym, map, leb, ◌==◌,
  arith, All, if◌then◌else◌,
}
use provider_strapi.Text.{Text}

-- the lower case of an ASCII letter
abbrev pub ascii_lower : ℕ → ℕ
ascii_lower c = if leb b'A' c && leb c b'Z' then c + 32 else c

-- the case tables
pub record Unicode : Type 0 where
  -- `unicode.ToLower(c)`
  pub lower : ℕ → ℕ
  -- the smallest code point of the orbit of `c` under `unicode.SimpleFold`
  pub fold : ℕ → ℕ

-- what `unicode` documents of ASCII
pub record IsUnicode (tables : Unicode) : Type 0 where
  pub lower-ascii : (c : ℕ) → c < 128 → tables.lower c ≡ ascii_lower c
  pub fold-ascii :
      (c d : ℕ)
      → c < 128
      → d < 128
      → (tables.fold c ≡ tables.fold d) ↔ (ascii_lower c ≡ ascii_lower d)

abbrev pub IsAscii : Text → Type 0
IsAscii = All (λ c. c < 128)

module _ (tables : Unicode) where
  -- `strings.ToLower(s)`
  unfoldable pub to_lower : Text → Text
  to_lower s = map tables.lower s

  -- `strings.EqualFold(s, t)`
  unfoldable pub equal_fold : Text → Text → Bool
  equal_fold [] [] = true
  equal_fold (c ∷ s) (d ∷ t) = tables.fold c == tables.fold d && equal_fold s t
  equal_fold _ _ = false

module _ (tables : Unicode) (laws : IsUnicode tables) where
  folds :
      (c d : ℕ)
      → c < 128
      → d < 128
      → ((tables.fold c == tables.fold (ascii_lower d)) ≡ true) ↔ (ascii_lower c ≡ ascii_lower d)
  folds c d hc hd =
      let small : ascii_lower d < 128 = ground arith in
      let idem : ascii_lower (ascii_lower d) ≡ ascii_lower d = ground arith in
      let same = laws.fold-ascii c (ascii_lower d) hc small in
      (λ e. same.0 ((==_iff _ _).0 e) ∙ idem, λ e. (==_iff _ _).1 (same.1 (e ∙ sym idem)))

  -- a text that is compared to a lowered text: the case of neither matters
  pub equal_fold-to_lower_iff :
      (s t : Text)
      → IsAscii s
      → IsAscii t
      → (equal_fold tables s (to_lower tables t) ≡ true) ↔ (map ascii_lower s ≡ map ascii_lower t)
  unfolding equal_fold to_lower
  equal_fold-to_lower_iff [] [] hs ht = (λ _. refl, λ _. refl)
  equal_fold-to_lower_iff [] (d ∷ t) hs ht = (λ e. absurd (cc), λ e. absurd (cc))
  equal_fold-to_lower_iff (c ∷ s) [] hs ht = (λ e. absurd (cc), λ e. absurd (cc))
  equal_fold-to_lower_iff (c ∷ s) (d ∷ t) (hc, hs) (hd, ht) =
      let ih = equal_fold-to_lower_iff s t hs ht in
      let low = laws.lower-ascii d hd in
      let same = folds c d hc hd in
      (λ e. ground (arith, low, ih.0, same.0), λ e. ground (arith, low, ih.1, same.1))
