-- ===== src/Roles/Find.antt =====
-- Which role `FindRole` selects.
use mathlib.Core.Option
use provider_strapi.Prelude.{
  List, [], ◌∷◌, ◌++◌, Option, none, some, Bool, true, false, ◌≡◌, refl, sym, ap, ◌∙◌, ◌↔◌, ◌⊎◌,
  inl, inr, All, Bool-cases, map, if◌then◌else◌,
}
use provider_strapi.Text.{Text}
use provider_strapi.Text.Fold.{
  Unicode, IsUnicode, IsAscii, ascii_lower, to_lower, equal_fold, equal_fold-to_lower_iff,
}
use provider_strapi.Roles.{Role, or_else, find_type, find_name, find_role}

-- `r` is the first role of the list that passes the test
pub record IsFirst (test : Role → Bool) (roles : List Role) (r : Role) : Type 0 where
  pub before : List Role
  pub after : List Role
  pub place : roles ≡ before ++ r ∷ after
  pub passes : test r ≡ true
  pub before-fails : All (λ b. test b ≡ false) before

module _ (test : Role → Bool) where
  first : List Role → Option Role
  first [] = none
  first (r ∷ roles) = if test r then some r else first roles

  first-IsFirst : (roles : List Role) (r : Role) → first roles ≡ some r → IsFirst test roles r
  unfolding first
  first-IsFirst [] r h = absurd (cc)
  first-IsFirst (s ∷ roles) r h = elim (Bool-cases (test s)) [
    | inl e ↦
        let h' = rw e at h in
        let same : s ≡ r = cc in
        record {
          before = [];
          after = roles;
          place = ap (λ x. x ∷ roles) same;
          passes = rw (← same) e;
          before-fails = tt;
        }
    | inr e ↦
        let f = first-IsFirst roles r (rw e at h) in
        record {
          before = s ∷ f.before;
          after = f.after;
          place = ap (◌∷◌ s) f.place;
          passes = f.passes;
          before-fails = (e, f.before-fails);
        }
  ]

  first-append :
      (before : List Role) (r : Role) (after : List Role)
      → All (λ b. test b ≡ false) before
      → test r ≡ true
      → first (before ++ r ∷ after) ≡ some r
  unfolding first
  first-append [] r after h e = rw e
  first-append (b ∷ before) r after (hb, h) e = rw hb (first-append before r after h e)

  first_of_fails : (roles : List Role) → All (λ b. test b ≡ false) roles → first roles ≡ none
  unfolding first
  first_of_fails [] h = refl
  first_of_fails (r ∷ roles) (hr, h) = rw hr (first_of_fails roles h)

  fails_of_first : (roles : List Role) → first roles ≡ none → All (λ b. test b ≡ false) roles
  unfolding first
  fails_of_first [] h = tt
  fails_of_first (r ∷ roles) h = elim (Bool-cases (test r)) [
    | inl e ↦ absurd (let h' = rw e at h in cc)
    | inr e ↦ (e, fails_of_first roles (rw e at h))
  ]

module _ (tables : Unicode) where
  abbrev pub type_matches : Text → Role → Bool
  type_matches selector r = equal_fold tables r.type (to_lower tables selector)

  abbrev pub name_matches : Text → Role → Bool
  name_matches selector r = equal_fold tables r.name (to_lower tables selector)

  find_type-first :
      (roles : List Role) (want : Text)
      → find_type tables roles want ≡ first (λ r. equal_fold tables r.type want) roles
  unfolding find_type first
  find_type-first [] want = refl
  find_type-first (r ∷ roles) want = rw (find_type-first roles want)

  find_name-first :
      (roles : List Role) (want : Text)
      → find_name tables roles want ≡ first (λ r. equal_fold tables r.name want) roles
  unfolding find_name first
  find_name-first [] want = refl
  find_name-first (r ∷ roles) want = rw (find_name-first roles want)

  find_role-first :
      (roles : List Role) (selector : Text)
      → find_role tables roles selector
        ≡ or_else (first (type_matches selector) roles) (first (name_matches selector) roles)
  unfolding find_role
  find_role-first roles selector = rw (find_type-first, find_name-first)

  -- the first role whose type matches, and failing that the first whose name does
  abbrev pub Selects : List Role → Text → Role → Type 0
  Selects roles selector r =
      IsFirst (type_matches selector) roles r
      ⊎ (All (λ b. type_matches selector b ≡ false) roles × IsFirst (name_matches selector) roles r)

  or_else_cases :
      (o o' : Option Role) (r : Role)
      → or_else o o' ≡ some r
      → (o ≡ some r) ⊎ ((o ≡ none) × (o' ≡ some r))
  unfolding or_else
  or_else_cases none o' r h = inr (refl, h)
  or_else_cases (some s) o' r h = inl h

  first_of_IsFirst :
      (test : Role → Bool) (roles : List Role) (r : Role)
      → IsFirst test roles r
      → first test roles ≡ some r
  first_of_IsFirst test roles r f =
      rw f.place (first-append test f.before r f.after f.before-fails f.passes)

  Selects-of_find :
      (roles : List Role) (selector : Text) (r : Role)
      → find_role tables roles selector ≡ some r
      → Selects roles selector r
  Selects-of_find roles selector r h =
      elim (or_else_cases _ _ r (sym (find_role-first roles selector) ∙ h)) [
        | inl e ↦ inl (first-IsFirst _ roles r e)
        | inr (e, e') ↦ inr (fails_of_first _ roles e, first-IsFirst _ roles r e')
      ]

  find_of_Selects :
      (roles : List Role) (selector : Text) (r : Role)
      → Selects roles selector r
      → find_role tables roles selector ≡ some r
  unfolding or_else
  find_of_Selects roles selector r (inl f) = rw (find_role-first, first_of_IsFirst _ roles r f)
  find_of_Selects roles selector r (inr (none_matches, f)) =
      rw (find_role-first, first_of_fails _ roles none_matches) (first_of_IsFirst _ roles r f)

  -- `FindRole` returns a role exactly if it is the first whose type matches the selector, or no type
  -- matches and it is the first whose name matches.
  pub find_role-iff_Selects :
      (roles : List Role) (selector : Text) (r : Role)
      → (find_role tables roles selector ≡ some r) ↔ Selects roles selector r
  find_role-iff_Selects roles selector r =
      (Selects-of_find roles selector r, find_of_Selects roles selector r)

  none_of_or_else : (o o' : Option Role) → or_else o o' ≡ none → (o ≡ none) × (o' ≡ none)
  unfolding or_else
  none_of_or_else none o' h = (refl, h)
  none_of_or_else (some s) o' h = absurd (cc)

  -- `FindRole` fails exactly if neither the type nor the name of any role matches.
  pub find_role-eq-none_iff :
      (roles : List Role) (selector : Text)
      → (find_role tables roles selector ≡ none) ↔ (
          All (λ b. type_matches selector b ≡ false) roles
          × All (λ b. name_matches selector b ≡ false) roles)
  unfolding or_else
  find_role-eq-none_iff roles selector = (
    λ h.
        let (e, e') = none_of_or_else _ _ (sym (find_role-first roles selector) ∙ h) in
        (fails_of_first _ roles e, fails_of_first _ roles e'),
    λ (h, h'). rw (find_role-first, first_of_fails _ roles h) (first_of_fails _ roles h'),
  )

module _ (tables : Unicode) (laws : IsUnicode tables) where
  to_lower-ascii : (s : Text) → IsAscii s → to_lower tables s ≡ map ascii_lower s
  unfolding to_lower
  to_lower-ascii [] h = refl
  to_lower-ascii (c ∷ s) (hc, hs) = rw (laws.lower-ascii c hc, to_lower-ascii s hs)

  -- With case tables that are right on ASCII, two ASCII selectors that differ in case alone select the same role from every list, and an
  -- ASCII type matches an ASCII selector exactly if the two differ in case at most.
  pub find_role_ignores_case :
      (roles : List Role) (s t : Text) (r : Role)
      → IsAscii s
      → IsAscii t
      → IsAscii r.type
      → map ascii_lower s ≡ map ascii_lower t
      → (find_role tables roles s ≡ find_role tables roles t)
        × ((type_matches tables s r ≡ true) ↔ (map ascii_lower r.type ≡ map ascii_lower t))
  unfolding find_role
  find_role_ignores_case roles s t r hs ht hr e = (
    ap (λ want. or_else (find_type tables roles want) (find_name tables roles want))
        (to_lower-ascii s hs ∙ e ∙ sym (to_lower-ascii t ht)),
    rw (← e) (equal_fold-to_lower_iff tables laws r.type s hr hs),
  )

module _ (tables : Unicode) (f : Role → Role) where
  -- a change of the roles that keeps their types and names changes what is found alike
  pub find_role-map :
      (roles : List Role) (selector : Text)
      → All (λ r. ((f r).type ≡ r.type) × ((f r).name ≡ r.name)) roles
      → find_role tables (map f roles) selector ≡ Option.map f (find_role tables roles selector)
  unfolding find_role
  find_role-map roles selector k =
      rw (types roles (to_lower tables selector) k, names roles (to_lower tables selector) k)
        (both (find_type tables roles (to_lower tables selector)) _)
    where
      types :
          (roles : List Role) (want : Text)
          → All (λ r. ((f r).type ≡ r.type) × ((f r).name ≡ r.name)) roles
          → find_type tables (map f roles) want ≡ Option.map f (find_type tables roles want)
      types [] want k = refl
      types (r ∷ roles) want ((t, n), ks) = elim (Bool-cases (equal_fold tables r.type want)) [
        | inl e ↦ let e' : equal_fold tables (f r).type want ≡ true = rw t e in rw (e', e)
        | inr e ↦
            let e' : equal_fold tables (f r).type want ≡ false = rw t e in
            rw (e', e, types roles want ks)
      ]

      names :
          (roles : List Role) (want : Text)
          → All (λ r. ((f r).type ≡ r.type) × ((f r).name ≡ r.name)) roles
          → find_name tables (map f roles) want ≡ Option.map f (find_name tables roles want)
      names [] want k = refl
      names (r ∷ roles) want ((t, n), ks) = elim (Bool-cases (equal_fold tables r.name want)) [
        | inl e ↦ let e' : equal_fold tables (f r).name want ≡ true = rw n e in rw (e', e)
        | inr e ↦
            let e' : equal_fold tables (f r).name want ≡ false = rw n e in
            rw (e', e, names roles want ks)
      ]

      both :
          (o o' : Option Role)
          → or_else (Option.map f o) (Option.map f o') ≡ Option.map f (or_else o o')
      both none o' = refl
      both (some r) o' = refl
