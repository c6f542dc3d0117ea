-- ===== src/Controller/External/Resolve.antt =====
-- `resolveRole`: which role the controller works on.
use provider_strapi.Prelude.{
  List, [], ◌∷◌, ◌++◌, Option, none, some, Bool, true, false, ◌≡◌, ◌≢◌, refl, sym, ap, ◌∙◌, ◌⊎◌,
  ◌↔◌, inl, inr, All, Bool-cases, Option-cases,
}
use provider_strapi.Prelude.Int.{ℤ, int_eq, InRange}
use provider_strapi.Text.{Text}
use provider_strapi.Text.Fold.{Unicode}
use provider_strapi.Decimal.{itoa, atoi}
use provider_strapi.Decimal.RoundTrip.{atoi-itoa, atoi-nil}
use provider_strapi.Roles.{Role}
use provider_strapi.Roles.Find.{IsFirst, Selects, find_role-iff_Selects}
use provider_strapi.Exec.{Context, Error, Result, ok, err, wrap}
use provider_strapi.Api.{Runtime, RolePermissions}
use provider_strapi.Controller.External.{
  StrapiClient, Reconcile, find_id, numeric_name, find_external_name, select_found, select_named,
  select_role, resolve_role,
}

abbrev pub has_id : ℤ → Role → Bool
has_id id r = int_eq r.id id

pub find_id-IsFirst :
    (roles : List Role) (id : ℤ) (r : Role)
    → find_id roles id ≡ some r
    → IsFirst (has_id id) roles r
unfolding find_id
find_id-IsFirst [] id r h = absurd (cc)
find_id-IsFirst (s ∷ roles) id r h = elim (Bool-cases (int_eq s.id id)) [
  | inl e ↦
      let h' = rw e at h in
      let same : s ≡ r = cc in
      record {
        before = [];
        after = roles;
        place = ap (λ x. x ∷ roles) same;
        passes = rw (← same) e;
        before-fails = tt;
      }
  | inr e ↦
      let f = find_id-IsFirst roles id r (rw e at h) in
      record {
        before = s ∷ f.before;
        after = f.after;
        place = ap (◌∷◌ s) f.place;
        passes = f.passes;
        before-fails = (e, f.before-fails);
      }
]

find_id-append :
    (id : ℤ) (before : List Role) (r : Role) (after : List Role)
    → All (λ b. has_id id b ≡ false) before
    → has_id id r ≡ true
    → find_id (before ++ r ∷ after) id ≡ some r
unfolding find_id
find_id-append id [] r after h e = rw e
find_id-append id (b ∷ before) r after (hb, h) e = rw hb (find_id-append id before r after h e)

find_id_of_IsFirst :
    (roles : List Role) (id : ℤ) (r : Role)
    → IsFirst (has_id id) roles r
    → find_id roles id ≡ some r
find_id_of_IsFirst roles id r f =
    rw f.place (find_id-append id f.before r f.after f.before-fails f.passes)

-- the external name is the numeral of the ID of a listed role, and `r` is the first such role
pub record Named (name : Text) (roles : List Role) (r : Role) : Type 0 where
  pub id : ℤ
  pub name-ne-nil : name ≢ []
  pub numeral : atoi name ≡ some id
  pub first : IsFirst (has_id id) roles r

Named-of_find :
    (name : Text) (roles : List Role) (r : Role)
    → find_external_name roles name ≡ some r
    → Named name roles r
unfolding find_external_name
Named-of_find [] roles r h = absurd (cc)
Named-of_find (c ∷ name) roles r h = elim (Option-cases (atoi (c ∷ name))) [
  | inl e ↦ absurd (let h' = rw e at h in cc)
  | inr (id, e) ↦ record {
    id = id;
    name-ne-nil = λ p. cc;
    numeral = e;
    first = find_id-IsFirst roles id r (rw (e, numeric_name) at h);
  }
]

find_of_Named :
    (name : Text) (roles : List Role) (r : Role)
    → Named name roles r
    → find_external_name roles name ≡ some r
unfolding find_external_name
find_of_Named [] roles r h = absurd (h.name-ne-nil refl)
find_of_Named (c ∷ name) roles r h =
    rw (h.numeral, numeric_name) (find_id_of_IsFirst roles h.id r h.first)

pub found_of_ok :
    (selector : Text) (o : Option Role) (r : Role) → select_found selector o ≡ ok r → o ≡ some r
unfolding select_found
found_of_ok selector none r h = absurd (cc)
found_of_ok selector (some s) r h = cc

module _ (rt : Runtime) (tables : Unicode) where
  -- By the external name if that is the numeral of a listed role's ID, else by the selector.
  abbrev pub Resolves : List Role → RolePermissions rt → Role → Type 0
  Resolves roles cr r =
      Named (rt.get_external_name cr.object) roles r
      ⊎ ((find_external_name roles (rt.get_external_name cr.object) ≡ none)
          × Selects tables roles cr.for_provider.role r)

  Resolves-of_ok :
      (roles : List Role) (cr : RolePermissions rt) (r : Role)
      → select_role rt tables roles cr ≡ ok r
      → Resolves roles cr r
  unfolding select_role
  Resolves-of_ok roles cr r h =
      elim (Option-cases (find_external_name roles (rt.get_external_name cr.object))) [
        | inl e ↦ inr (
          e,
          (find_role-iff_Selects tables roles cr.for_provider.role r).0
              (found_of_ok cr.for_provider.role _ r (rw (e, select_named) at h)),
        )
        | inr (s, e) ↦
            let h' = rw (e, select_named) at h in
            let same : s ≡ r = cc in inl (Named-of_find _ roles r (rw (← same) e))
      ]

  ok_of_Resolves :
      (roles : List Role) (cr : RolePermissions rt) (r : Role)
      → Resolves roles cr r
      → select_role rt tables roles cr ≡ ok r
  unfolding select_role select_found
  ok_of_Resolves roles cr r (inl h) = rw (find_of_Named _ roles r h, select_named)
  ok_of_Resolves roles cr r (inr (e, h)) =
      rw (e, select_named, (find_role-iff_Selects tables roles cr.for_provider.role r).1 h)

  -- `resolveRole` returns a role of the list exactly if the external name is the numeral of its ID and
  -- it is the first role with that ID, or the external name leads to no role and `FindRole` selects it.
  pub select_role-iff_Resolves :
      (roles : List Role) (cr : RolePermissions rt) (r : Role)
      → (select_role rt tables roles cr ≡ ok r) ↔ Resolves roles cr r
  select_role-iff_Resolves roles cr r = (Resolves-of_ok roles cr r, ok_of_Resolves roles cr r)

  -- A resource whose external name is the numeral of a 64-bit ID resolves to the first role with that
  -- ID, whatever the role's name and type and the resource's selector have become.
  pub select_role_pinned :
      (roles : List Role) (cr : RolePermissions rt) (id : ℤ) (r : Role)
      → InRange id
      → rt.get_external_name cr.object ≡ itoa id
      → IsFirst (has_id id) roles r
      → select_role rt tables roles cr ≡ ok r
  select_role_pinned roles cr id r range name f = ok_of_Resolves roles cr r (
      inl (record {
        id = id;
        name-ne-nil = λ e. itoa-ne-nil (sym name ∙ e);
        numeral = rw name (atoi-itoa id range);
        first = f;
      }))
    where
      itoa-ne-nil : itoa id ≢ []
      itoa-ne-nil e =
          let read : atoi (itoa id) ≡ none = rw e atoi-nil in let whole = atoi-itoa id range in cc

module _ (rt : Runtime) (tables : Unicode) {W : Type 0} (client : StrapiClient W) where
  -- `resolveRole` lists the roles, and then selects; a failure to list is passed on.
  pub resolve_role-ok :
      (s : Reconcile rt W) (roles : List Role) (w : W)
      → client.list_roles s.world ≡ (ok roles, w)
      → resolve_role rt tables client s ≡ (select_role rt tables roles s.cr, record s { world = w })
  unfolding resolve_role
  resolve_role-ok s roles w h = rw h

  pub resolve_role-err :
      (s : Reconcile rt W) (e : Error) (w : W)
      → client.list_roles s.world ≡ (err e, w)
      → resolve_role rt tables client s ≡ (err (wrap Context.list_roles e), record s { world = w })
  unfolding resolve_role
  resolve_role-err s e w h = rw h

  -- however it ends, `resolveRole` leaves the resource alone
  pub resolve_role-cr : (s : Reconcile rt W) → (resolve_role rt tables client s).1.cr ≡ s.cr
  resolve_role-cr s = read (client.list_roles s.world) refl
    where
      read :
          (l : Result (List Role) × W)
          → client.list_roles s.world ≡ l
          → (resolve_role rt tables client s).1.cr ≡ s.cr
      read (ok roles, w) h = rw (resolve_role-ok s roles w h)
      read (err e, w) h = rw (resolve_role-err s e w h)
