-- ===== src/Text/Sort.antt =====
-- `sort.Strings`: the ascending permutation of a list of texts, computed by insertion.
pub mod Laws
use provider_strapi.Prelude.{List, [], ◌∷◌, if◌then◌else◌}
use provider_strapi.Text.{Text}
use provider_strapi.Text.Order.{text_less}

insert_sorted : Text → List Text → List Text
insert_sorted x [] = x ∷ []
insert_sorted x (y ∷ l) = if text_less y x then y ∷ insert_sorted x l else x ∷ y ∷ l

-- `sort.Strings(l)`
unfoldable pub sort_strings : List Text → List Text
unfolding insert_sorted
sort_strings [] = []
sort_strings (x ∷ l) = insert_sorted x (sort_strings l)
