-- ===== src/Api/Slices.antt =====
-- When the comparison of `Observe` holds.
use provider_strapi.Prelude.{List, [], ◌∷◌, true, ◌≡◌, ◌≢◌, refl, ◌↔◌, arith}
use provider_strapi.Text.{Text}
use provider_strapi.Text.Equality.{text_eq_iff}
use provider_strapi.Text.Sort.{sort_strings}
use provider_strapi.Api.{items, append_to_nil, sort_slice, texts_eq, deep_equal}

eq_of_texts_eq : (l r : List Text) → texts_eq l r ≡ true → l ≡ r
unfolding texts_eq
eq_of_texts_eq [] [] h = refl
eq_of_texts_eq [] (y ∷ r) h = cc
eq_of_texts_eq (x ∷ l) [] h = cc
eq_of_texts_eq (x ∷ l) (y ∷ r) h = ground (arith, text_eq_iff x y, eq_of_texts_eq l r)

texts_eq_refl : (l : List Text) → texts_eq l l ≡ true
unfolding texts_eq
texts_eq_refl [] = refl
texts_eq_refl (x ∷ l) = ground (arith, text_eq_iff x x, texts_eq_refl l)

-- a list that is not nil equals the sorted copy of another exactly if that has an element and
-- sorting it gives the list
pub deep_equal-sorted_iff :
    (current desired : List Text)
    → (deep_equal (items current) (sort_slice (append_to_nil desired)) ≡ true)
      ↔ ((desired ≢ []) × (current ≡ sort_strings desired))
unfolding deep_equal sort_slice append_to_nil
deep_equal-sorted_iff current [] = (λ h. absurd (cc), λ (h, _). absurd (h refl))
deep_equal-sorted_iff current (x ∷ l) = (
  λ h. ((λ e. cc), eq_of_texts_eq current (sort_strings (x ∷ l)) h),
  λ (_, e). rw e (texts_eq_refl (sort_strings (x ∷ l))),
)
