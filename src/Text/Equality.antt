-- ===== src/Text/Equality.antt =====
-- Equality of texts.
use native.Mathlib.Decide.{ℕ_discrete}
use provider_strapi.Prelude.{[], ◌∷◌, true, ◌≡◌, refl, ◌↔◌, arith}
use provider_strapi.Text.{Text, text_eq}

eq_of_text_eq : (s t : Text) → text_eq s t ≡ true → s ≡ t
unfolding text_eq
eq_of_text_eq [] [] h = refl
eq_of_text_eq [] (y ∷ t) h = cc
eq_of_text_eq (x ∷ s) [] h = cc
eq_of_text_eq (x ∷ s) (y ∷ t) h = ground (arith, eq_of_text_eq s t)

pub text_eq_refl : (s : Text) → text_eq s s ≡ true
unfolding text_eq
text_eq_refl [] = refl
text_eq_refl (x ∷ s) = ground (arith, text_eq_refl s)

pub text_eq_iff : (s t : Text) → (text_eq s t ≡ true) ↔ (s ≡ t)
text_eq_iff s t = (eq_of_text_eq s t, λ e. rw e (text_eq_refl t))

pub Text-discrete : Discrete Text
Text-discrete = hlevel ℕ_discrete
