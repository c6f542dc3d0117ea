-- ===== src/Text/Order.antt =====
-- The order of Go strings.
use provider_strapi.Prelude.{[], ◌∷◌, Bool, true, false, ◌≡◌, refl, arith, ◌==◌, ltb, if◌then◌else◌}
use provider_strapi.Text.{Text}

-- `s < t`
unfoldable pub text_less : Text → Text → Bool
text_less s [] = false
text_less [] (y ∷ t) = true
text_less (x ∷ s) (y ∷ t) = if ltb x y then true else if x == y then text_less s t else false

-- `s <= t`: `t < s` fails
abbrev pub Le : Text → Text → Type 0
Le s t = text_less t s ≡ false

pub Le_refl : (s : Text) → Le s s
unfolding text_less
Le_refl [] = refl
Le_refl (x ∷ s) = ground (arith, Le_refl s)

pub Le_antisymm : (s t : Text) → Le s t → Le t s → s ≡ t
unfolding text_less
Le_antisymm [] [] h k = refl
Le_antisymm [] (y ∷ t) h k = cc
Le_antisymm (x ∷ s) [] h k = cc
Le_antisymm (x ∷ s) (y ∷ t) h k = ground (arith, Le_antisymm s t)

pub Le_trans : (s t u : Text) → Le s t → Le t u → Le s u
unfolding text_less
Le_trans [] t u h k = unfold text_less in Le-nil u
  where
    Le-nil : (v : Text) → Le [] v
    Le-nil [] = refl
    Le-nil (y ∷ v) = refl
Le_trans (x ∷ s) [] u h k = cc
Le_trans (x ∷ s) (y ∷ t) [] h k = cc
Le_trans (x ∷ s) (y ∷ t) (z ∷ u) h k = ground (arith, Le_trans s t u)

pub Le_of_text_less : (s t : Text) → text_less s t ≡ true → Le s t
unfolding text_less
Le_of_text_less s [] h = cc
Le_of_text_less [] (y ∷ t) h = refl
Le_of_text_less (x ∷ s) (y ∷ t) h = ground (arith, Le_of_text_less s t)
