-- ===== src/Text/Sort/Laws.antt =====
-- Ascending lists of texts, and `sort.Strings`.
use mathlib.Core.List.{Perm, Permᴰ}
use mathlib.Core.List.Perm
use mathlib.Core.Path.{ap₂}
use mathlib.Core.Logic.{∥∥₁_elim}
use provider_strapi.Prelude.{
  List, [], ◌∷◌, ◌≡◌, refl, sym, ◌∙◌, ◌↔◌, inl, inr, Bool-cases, All, arith,
}
use provider_strapi.Text.{Text}
use provider_strapi.Text.Order.{text_less, Le, Le_antisymm, Le_trans, Le_of_text_less}
use provider_strapi.Text.Sort.{insert_sorted, sort_strings}

-- every text is at most each text behind it
abbrev pub IsSorted : List Text → Type 0
IsSorted [] = Unit
IsSorted (x ∷ l) = All (Le x) l × IsSorted l

All-weaken : (x y : Text) (l : List Text) → Le x y → All (Le y) l → All (Le x) l
All-weaken x y [] p h = tt
All-weaken x y (z ∷ l) p (hz, hl) = (Le_trans x y z p hz, All-weaken x y l p hl)

All-insert_sorted :
    (a x : Text) (l : List Text) → Le a x → All (Le a) l → All (Le a) (insert_sorted x l)
unfolding insert_sorted
All-insert_sorted a x [] p h = (p, tt)
All-insert_sorted a x (y ∷ l) p (hy, hl) = elim (Bool-cases (text_less y x)) [
  | inl e ↦ rw e (hy, All-insert_sorted a x l p hl)
  | inr e ↦ rw e (p, (hy, hl))
]

insert_sorted-IsSorted : (x : Text) (l : List Text) → IsSorted l → IsSorted (insert_sorted x l)
unfolding insert_sorted
insert_sorted-IsSorted x [] h = (tt, tt)
insert_sorted-IsSorted x (y ∷ l) (hy, hl) = elim (Bool-cases (text_less y x)) [
  | inl e ↦ rw e (All-insert_sorted y x l (Le_of_text_less y x e) hy, insert_sorted-IsSorted x l hl)
  | inr e ↦ rw e ((e, All-weaken x y l e hy), (hy, hl))
]

pub sort_strings-IsSorted : (l : List Text) → IsSorted (sort_strings l)
unfolding sort_strings
sort_strings-IsSorted [] = tt
sort_strings-IsSorted (x ∷ l) = insert_sorted-IsSorted x (sort_strings l) (sort_strings-IsSorted l)

insert_sorted-perm : (x : Text) (l : List Text) → Perm (insert_sorted x l) (x ∷ l)
unfolding insert_sorted
insert_sorted-perm x [] = Perm.rfl
insert_sorted-perm x (y ∷ l) = elim (Bool-cases (text_less y x)) [
  | inl e ↦ rw e (Perm.trans (Perm.cons y (insert_sorted-perm x l)) (Perm.swap x y l))
  | inr e ↦ rw e Perm.rfl
]

pub sort_strings-perm : (l : List Text) → Perm (sort_strings l) l
unfolding sort_strings
sort_strings-perm [] = Perm.rfl
sort_strings-perm (x ∷ l) =
    Perm.trans (insert_sorted-perm x (sort_strings l)) (Perm.cons x (sort_strings-perm l))

insert_sorted_comm :
    (x y : Text) (l : List Text)
    → insert_sorted x (insert_sorted y l) ≡ insert_sorted y (insert_sorted x l)
unfolding insert_sorted
insert_sorted_comm x y [] = ground (arith, Le_antisymm x y, Le_of_text_less x y)
insert_sorted_comm x y (z ∷ l) = ground (
  arith,
  insert_sorted_comm x y l,
  Le_antisymm x y,
  Le_of_text_less x y,
  Le_trans x y z,
  Le_trans y x z,
  Le_of_text_less z x,
  Le_of_text_less z y,
)

sort_strings-eq_of_Permᴰ : {l r : List Text} → Permᴰ l r → sort_strings l ≡ sort_strings r
unfolding sort_strings
sort_strings-eq_of_Permᴰ Permᴰ.nil = refl
sort_strings-eq_of_Permᴰ (Permᴰ.cons e p) = ap₂ insert_sorted e (sort_strings-eq_of_Permᴰ p)
sort_strings-eq_of_Permᴰ (Permᴰ.swap {a = x} {b = y} {l = l} e f) =
    rw (← e, ← f) (insert_sorted_comm x y (sort_strings l))
sort_strings-eq_of_Permᴰ (Permᴰ.trans p q) = sort_strings-eq_of_Permᴰ p ∙ sort_strings-eq_of_Permᴰ q

Texts-set : IsSet (List Text)
Texts-set = hlevel

pub sort_strings-eq_of_perm : {l r : List Text} → Perm l r → sort_strings l ≡ sort_strings r
sort_strings-eq_of_perm p = ∥∥₁_elim p (Texts-set _ _) sort_strings-eq_of_Permᴰ

-- Two lists are sorted to one list exactly when each is a permutation of the other.
pub sort_strings-eq_iff_perm : (l r : List Text) → (sort_strings l ≡ sort_strings r) ↔ Perm l r
sort_strings-eq_iff_perm l r = (
  λ e. Perm.trans (Perm.symm (sort_strings-perm l)) (rw e (sort_strings-perm r)),
  sort_strings-eq_of_perm,
)

insert_sorted_of_All : (x : Text) (l : List Text) → All (Le x) l → insert_sorted x l ≡ x ∷ l
unfolding insert_sorted
insert_sorted_of_All x [] h = refl
insert_sorted_of_All x (y ∷ l) (hy, hl) = rw hy

-- Sorting an ascending list changes nothing.
pub sort_strings_of_IsSorted : (l : List Text) → IsSorted l → l ≡ sort_strings l
unfolding sort_strings
sort_strings_of_IsSorted [] h = refl
sort_strings_of_IsSorted (x ∷ l) (hx, hl) =
    rw (← sort_strings_of_IsSorted l hl) (sym (insert_sorted_of_All x l hx))
