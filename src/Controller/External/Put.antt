-- ===== src/Controller/External/Put.antt =====
-- `Create`, `Update` and `Delete` share one step: resolve the role, and send it with a new tree.
use mathlib.Core.Path.{subst}
use provider_strapi.Prelude.{List, [], true, ◌≡◌, refl, sym, ap, ◌∙◌, ◌⊎◌, ◌↔◌, inl, inr}
use provider_strapi.Text.Fold.{Unicode}
use provider_strapi.Permissions.{PermissionsByResource, expand_permissions}
use provider_strapi.Roles.{Role}
use provider_strapi.Exec.{Context, Error, Result, ok, err, Exec, continue, ◌>>=◌}
use provider_strapi.Api.{Runtime, RolePermissions, elements, deleting}
use provider_strapi.Controller.External.{
  StrapiClient, Reconcile, select_role, resolve_role, call, wrapped, apply_permissions, update,
  delete,
}
use provider_strapi.Controller.External.Resolve.{resolve_role-ok, resolve_role-err}

module _ (rt : Runtime) (tables : Unicode) {W : Type 0} (client : StrapiClient W) where
  put : PermissionsByResource → Exec (Reconcile rt W) (Unit {0})
  unfolding call wrapped
  put tree = do
    role ← resolve_role rt tables client
    call rt tables client (
        wrapped rt tables client Context.update_role
          (client.update_role role.id (record role { permissions = tree })))

  -- a successful step: one listing, one role, one PUT of that role with the new tree alone changed
  pub record Puts (tree : PermissionsByResource) (before after : Reconcile rt W) : Type 0 where
    pub roles : List Role
    pub listing_world : W
    pub role : Role
    pub put_world : W
    pub listing : client.list_roles before.world ≡ (ok roles, listing_world)
    pub selected : select_role rt tables roles before.cr ≡ ok role
    pub written :
        client.update_role role.id (record role { permissions = tree }) listing_world
        ≡ (ok tt, put_world)
    pub after-eq : after ≡ record before { world = put_world }

  put-Puts :
      (tree : PermissionsByResource) (s : Reconcile rt W)
      → (put tree s).0 ≡ ok tt
      → Puts tree s (put tree s).1
  unfolding put
  put-Puts tree s h = listing (client.list_roles s.world) refl
    where
      writing :
          (roles : List Role) (w : W) (role : Role)
          → client.list_roles s.world ≡ (ok roles, w)
          → select_role rt tables roles s.cr ≡ ok role
          → (u : Result (Unit {0}) × W)
          → client.update_role role.id (record role { permissions = tree }) w ≡ u
          → Puts tree s (put tree s).1
      writing roles w role l e (ok u, w') p = record {
        roles = roles;
        listing_world = w;
        role = role;
        put_world = w';
        listing = l;
        selected = e;
        written = p;
        after-eq = rw (resolve_role-ok rt tables client s roles w l, e, p);
      }
      writing roles w role l e (err x, w') p =
          absurd (let h' = rw (resolve_role-ok rt tables client s roles w l, e, p) at h in cc)

      selecting :
          (roles : List Role) (w : W)
          → client.list_roles s.world ≡ (ok roles, w)
          → (r : Result Role) → select_role rt tables roles s.cr ≡ r
          → Puts tree s (put tree s).1
      selecting roles w l (ok role) e = writing roles w role l e _ refl
      selecting roles w l (err x) e =
          absurd (let h' = rw (resolve_role-ok rt tables client s roles w l, e) at h in cc)

      listing :
          (l : Result (List Role) × W) → client.list_roles s.world ≡ l → Puts tree s (put tree s).1
      listing (ok roles, w) l = selecting roles w l _ refl
      listing (err x, w) l =
          absurd (let h' = rw (resolve_role-err rt tables client s x w l) at h in cc)

  -- what the step does where its listing, its choice and its PUT succeed
  put-of_Puts :
      (tree : PermissionsByResource) (s t : Reconcile rt W)
      → Puts tree s t
      → put tree s ≡ (ok tt, t)
  unfolding put
  put-of_Puts tree s t p =
      let done : put tree s ≡ (ok tt, record s { world = p.put_world }) = rw (
        resolve_role-ok rt tables client s p.roles p.listing_world p.listing,
        p.selected,
        p.written,
      ) in
      done ∙ ap (λ (u : Reconcile rt W). (ok tt, u)) (sym p.after-eq)

  abbrev pub wanted : Reconcile rt W → PermissionsByResource
  wanted s = expand_permissions (elements s.cr.for_provider.permissions)

  abbrev pub marked : (s : Reconcile rt W) → Reconcile rt W
  marked s = record s { cr = record s.cr { object = rt.set_conditions s.cr.object deleting } }

  abbrev pub clear_flag : Reconcile rt W → Reconcile rt W
  clear_flag s = record s {
    cr = record s.cr { at_provider = record s.cr.at_provider { cleared = true } };
  }

  apply-put : (s : Reconcile rt W) → apply_permissions rt tables client s ≡ put (wanted s) s
  unfolding apply_permissions put
  apply-put s = listing (client.list_roles s.world) refl
    where
      selecting :
          (roles : List Role) (w : W)
          → client.list_roles s.world ≡ (ok roles, w)
          → (r : Result Role) → select_role rt tables roles s.cr ≡ r
          → apply_permissions rt tables client s ≡ put (wanted s) s
      selecting roles w l (ok role) e = rw (resolve_role-ok rt tables client s roles w l, e)
      selecting roles w l (err x) e = rw (resolve_role-ok rt tables client s roles w l, e)

      listing :
          (l : Result (List Role) × W)
          → client.list_roles s.world ≡ l
          → apply_permissions rt tables client s ≡ put (wanted s) s
      listing (ok roles, w) l = selecting roles w l _ refl
      listing (err x, w) l = rw (resolve_role-err rt tables client s x w l)

  -- A successful `Update` is one listing and one PUT: of the resolved role, with its name, description
  -- and type as they were listed and the spec's permissions expanded; the resource does not change.
  pub update-Puts :
      (s : Reconcile rt W)
      → (update rt tables client s).0 ≡ ok tt
      → Puts (wanted s) s (update rt tables client s).1
  unfolding update
  update-Puts s h = rw (apply-put s) (put-Puts (wanted s) s (rw (apply-put s) at h))

  delete-put :
      (s : Reconcile rt W)
      → delete rt tables client s ≡ continue (put [] (marked s)) (λ _ t. (ok tt, clear_flag t))
  unfolding delete put
  delete-put s = listing (client.list_roles s.world) refl
    where
      selecting :
          (roles : List Role) (w : W)
          → client.list_roles s.world ≡ (ok roles, w)
          → (r : Result Role) → select_role rt tables roles (marked s).cr ≡ r
          → delete rt tables client s ≡ continue (put [] (marked s)) (λ _ t. (ok tt, clear_flag t))
      selecting roles w l (ok role) e =
          rw (resolve_role-ok rt tables client (marked s) roles w l, e)
      selecting roles w l (err x) e = rw (resolve_role-ok rt tables client (marked s) roles w l, e)

      listing :
          (l : Result (List Role) × W)
          → client.list_roles s.world ≡ l
          → delete rt tables client s ≡ continue (put [] (marked s)) (λ _ t. (ok tt, clear_flag t))
      listing (ok roles, w) l = selecting roles w l _ refl
      listing (err x, w) l = rw (resolve_role-err rt tables client (marked s) x w l)

  put-cr : (tree : PermissionsByResource) (s : Reconcile rt W) → (put tree s).1.cr ≡ s.cr
  unfolding put
  put-cr tree s = listing (client.list_roles s.world) refl
    where
      selecting :
          (roles : List Role) (w : W)
          → client.list_roles s.world ≡ (ok roles, w)
          → (r : Result Role) → select_role rt tables roles s.cr ≡ r
          → (put tree s).1.cr ≡ s.cr
      selecting roles w l (ok role) e = rw (resolve_role-ok rt tables client s roles w l, e)
      selecting roles w l (err x) e = rw (resolve_role-ok rt tables client s roles w l, e)

      listing :
          (l : Result (List Role) × W) → client.list_roles s.world ≡ l → (put tree s).1.cr ≡ s.cr
      listing (ok roles, w) l = selecting roles w l _ refl
      listing (err x, w) l = rw (resolve_role-err rt tables client s x w l)

  -- what `Delete` returns and leaves, by what its PUT of an empty tree returned
  delete_cases :
      (s : Reconcile rt W) (p : Result (Unit {0}) × Reconcile rt W)
      → put [] (marked s) ≡ p
      → p.1.cr ≡ (marked s).cr
      → ((delete rt tables client s).0 ≡ ok tt)
          × Puts [] (marked s) p.1
          × ((delete rt tables client s).1 ≡ clear_flag p.1)
        ⊎ ((e : Error) × ((delete rt tables client s).0 ≡ err e)
            × ((delete rt tables client s).1.cr ≡ (marked s).cr))
  delete_cases s (ok u, t) h c = inl (
    rw (delete-put s, h),
    subst (λ (q : Result (Unit {0}) × Reconcile rt W). Puts [] (marked s) q.1) h
        (put-Puts [] (marked s) (rw h)),
    rw (delete-put s, h),
  )
  delete_cases s (err e, t) h c = inr (e, rw (delete-put s, h), rw (delete-put s, h) c)

  delete-of_Puts :
      (s t : Reconcile rt W) → Puts [] (marked s) t → (delete rt tables client s).0 ≡ ok tt
  delete-of_Puts s t p = rw (delete-put s, put-of_Puts [] (marked s) t p)

  delete_result :
      (s : Reconcile rt W)
      → ((delete rt tables client s).0 ≡ ok tt)
          × ((t : Reconcile rt W) × Puts [] (marked s) t
              × ((delete rt tables client s).1 ≡ clear_flag t))
        ⊎ ((e : Error) × ((delete rt tables client s).0 ≡ err e)
            × ((delete rt tables client s).1.cr.at_provider ≡ s.cr.at_provider))
  delete_result s = elim (delete_cases s (put [] (marked s)) refl (put-cr [] (marked s))) [
    | inl (o, p, e) ↦ inl (o, ((put [] (marked s)).1, p, e))
    | inr (x, o, c) ↦ inr (x, o, ap (λ (cr : RolePermissions rt). cr.at_provider) c)
  ]

  -- `Delete` succeeds exactly if the listing succeeds, the resource resolves to a listed role and the
  -- PUT of that role with an empty tree succeeds. The resource is marked as deleting first. Where
  -- `Delete` succeeds, that is all it did, and `cleared` is then set; where it fails, the resource keeps
  -- the status that it had.
  pub delete-outcome :
      (s : Reconcile rt W)
      → (((delete rt tables client s).0 ≡ ok tt) ↔ ((t : Reconcile rt W) × Puts [] (marked s) t))
        × (((delete rt tables client s).0 ≡ ok tt)
              × ((t : Reconcile rt W) × Puts [] (marked s) t
                  × ((delete rt tables client s).1 ≡ clear_flag t))
            ⊎ ((e : Error) × ((delete rt tables client s).0 ≡ err e)
                × ((delete rt tables client s).1.cr.at_provider ≡ s.cr.at_provider)))
  delete-outcome s = (
    (
      λ h. elim (delete_result s) [
        | inl (_, (t, p, _)) ↦ (t, p)
        | inr (e, f, _) ↦ absurd (let no = sym h ∙ f in cc)
      ],
      λ (t, p). delete-of_Puts s t p,
    ),
    delete_result s,
  )
