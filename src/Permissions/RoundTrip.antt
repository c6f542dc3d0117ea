-- ===== src/Permissions/RoundTrip.antt =====
-- `FlattenPermissions` after `ExpandPermissions`: which flat lists come back as they were.
use mathlib.Core.Bool.{Bool-set}
use mathlib.Core.HLevel.{⊥_prop}
use mathlib.Core.List.{
  Mem, Mem-prop, Nodup, Nodup-nil, Nodup-cons, mem-map, mem-cons_self, mem-cons_of_mem,
  perm_ext_iff_of_Nodup, Perm, mem-cons, not-mem-nil,
}
use mathlib.Core.List.Perm
use mathlib.Core.Logic.Iff
use mathlib.Core.Logic.Or
use mathlib.Core.Logic.{∥∥₁_elim, ∥∥₁_map}
use mathlib.Core.Path.{subst}
use provider_strapi.Prelude.{
  List, [], ◌∷◌, Option, none, some, Bool, true, false, ◌≡◌, refl, sym, ◌∙◌, ◌↔◌, map, All,
}
use provider_strapi.Text.{Text, text_eq}
use provider_strapi.Text.Equality.{text_eq_iff}
use provider_strapi.Text.Sort.{sort_strings}
use provider_strapi.Text.Sort.Laws.{
  sort_strings-perm, sort_strings-eq_of_perm, sort_strings_of_IsSorted,
}
use provider_strapi.Permissions.{flat_name, split_flat, expand_permissions, flatten_permissions}
use provider_strapi.Permissions.Names.{split_flat-flat_name}
use provider_strapi.Permissions.Tree.{
  Triple, enabled_triples, name_of, mem-enabled_triples_iff, Nodup-enabled_triples,
}
use provider_strapi.Permissions.Flatten.{
  mem-flatten_permissions_iff, flatten_permissions-perm, flatten_permissions-IsSorted,
}
use provider_strapi.Permissions.Expand.{
  expand_permissions-IsTree, enabled_at-expand_permissions_iff,
}

-- `FlattenPermissions` spells what `splitFlat` reads from the text as the same text
abbrev pub IsCanonical : Text → Type 0
IsCanonical p =
    (r : Text) × (c : Text) × (a : Text) × (split_flat p ≡ some (r, c, a)) × (flat_name r c a ≡ p)

-- what comes back is the flat form of what an entry is read as
pub mem-flatten-expand_iff :
    (l : List Text) (q : Text)
    → Mem q (flatten_permissions (expand_permissions l))
      ↔ ∥ (
          (p : Text) × (r : Text) × (c : Text) × (a : Text) × Mem p l
          × (split_flat p ≡ some (r, c, a))
          × (flat_name r c a ≡ q)) ∥₁
mem-flatten-expand_iff l q =
    Iff.trans (mem-flatten_permissions_iff (expand_permissions l) q (expand_permissions-IsTree l)) (
      λ x. ∥∥₁_elim x squash₁ (λ (r, c, a, h, e).
          ∥∥₁_map ((enabled_at-expand_permissions_iff l r c a).0 h)
            (λ (p, m, s). (p, r, c, a, m, s, e))),
      λ x. ∥∥₁_map x (λ (p, r, c, a, m, s, e).
          (r, c, a, (enabled_at-expand_permissions_iff l r c a).1 ∣ (p, m, s) ∣₁, e)),
    )

mem_IsCanonical :
    (l : List Text) (q : Text)
    → Mem q (flatten_permissions (expand_permissions l))
    → ∥ IsCanonical q ∥₁
mem_IsCanonical l q m = ∥∥₁_map ((mem-flatten-expand_iff l q).0 m) (λ (p, r, c, a, m, s, e).
    (r, c, a, subst (λ x. split_flat x ≡ some (r, c, a)) e (split_flat-flat_name p r c a s), e))

Nodup-map {ℓ} :
    {A B : Type ℓ} (f : A → B) (l : List A)
    → ((x y : A) → Mem x l → Mem y l → f x ≡ f y → ∥ x ≡ y ∥₁)
    → Nodup l
    → Nodup (map f l)
Nodup-map f [] inj d = Nodup-nil
Nodup-map f (x ∷ l) inj d =
    let (fresh, rest) = Nodup-cons.0 d in
    Nodup-cons.1 (
      λ m. ∥∥₁_elim (mem-map.0 m) ⊥_prop (λ (y, my, e).
          ∥∥₁_elim (inj y x (mem-cons_of_mem x my) mem-cons_self e) ⊥_prop
            (λ q. fresh (subst (λ z. Mem z l) q my))),
      Nodup-map f l (λ y z my mz. inj y z (mem-cons_of_mem x my) (mem-cons_of_mem x mz)) rest,
    )

-- `FlattenPermissions` tells the triples of an expanded list apart
name_of-injective :
    (l : List Text) (t u : Triple)
    → Mem t (enabled_triples (expand_permissions l))
    → Mem u (enabled_triples (expand_permissions l))
    → name_of t ≡ name_of u
    → ∥ t ≡ u ∥₁
name_of-injective l (r, c, a) (r', c', a') m m' e =
    ∥∥₁_elim (read r c a m) squash₁
      (λ s. ∥∥₁_map (read r' c' a' m') (λ s'. same s (rw (← e) at s')))
  where
    read :
        (r c a : Text)
        → Mem (r, c, a) (enabled_triples (expand_permissions l))
        → ∥ split_flat (flat_name r c a) ≡ some (r, c, a) ∥₁
    read r c a m =
        ∥∥₁_map
          ((enabled_at-expand_permissions_iff l r c a).0
            ((mem-enabled_triples_iff _ r c a (expand_permissions-IsTree l)).0 m))
          (λ (p, _, s). split_flat-flat_name p r c a s)

    same : {o : Option Triple} {x y : Triple} → o ≡ some x → o ≡ some y → x ≡ y
    same h k = cc

pub Nodup-flatten-expand : (l : List Text) → Nodup (flatten_permissions (expand_permissions l))
Nodup-flatten-expand l = (Perm.Nodup-iff (flatten_permissions-perm (expand_permissions l))).1 (
    Nodup-map name_of _ (name_of-injective l)
      (Nodup-enabled_triples _ (expand_permissions-IsTree l)))

is_canonical : Text → Option Triple → Bool
is_canonical p none = false
is_canonical p (some (r, c, a)) = text_eq (flat_name r c a) p

IsCanonical-of :
    (p : Text) (o : Option Triple) → split_flat p ≡ o → is_canonical p o ≡ true → IsCanonical p
unfolding is_canonical
IsCanonical-of p none s h = absurd (cc)
IsCanonical-of p (some (r, c, a)) s h = (r, c, a, s, (text_eq_iff (flat_name r c a) p).0 h)

of_canonical : (p : Text) → IsCanonical p → is_canonical p (split_flat p) ≡ true
unfolding is_canonical
of_canonical p (r, c, a, s, e) = rw (s, is_canonical) ((text_eq_iff (flat_name r c a) p).1 e)

pub IsCanonical-stable : (p : Text) → ∥ IsCanonical p ∥₁ → IsCanonical p
IsCanonical-stable p x =
    IsCanonical-of p (split_flat p) refl (∥∥₁_elim x (Bool-set _ _) (of_canonical p))

All-mem : (l : List Text) (q : Text) → All IsCanonical l → Mem q l → IsCanonical q
All-mem [] q h m = absurd (not-mem-nil m)
All-mem (x ∷ l) q (hx, hl) m = IsCanonical-stable q (
    Or.elim squash₁ (mem-cons.0 m) (λ e. ∣ subst IsCanonical (sym e) hx ∣₁)
      (λ t. ∣ All-mem l q hl t ∣₁))

All-of_mem : (l : List Text) → ((q : Text) → Mem q l → IsCanonical q) → All IsCanonical l
All-of_mem [] h = tt
All-of_mem (x ∷ l) h = (h x mem-cons_self, All-of_mem l (λ q m. h q (mem-cons_of_mem x m)))

-- an entry in canonical form comes back, and only such entries do
mem-flatten-expand_of_canonical :
    (l : List Text) (q : Text)
    → All IsCanonical l
    → Mem q (flatten_permissions (expand_permissions l)) ↔ Mem q l
mem-flatten-expand_of_canonical l q h = Iff.trans (mem-flatten-expand_iff l q) (
  λ x. ∥∥₁_elim x Mem-prop (λ (p, r, c, a, m, s, e).
      let (r', c', a', s', e') = All-mem l p h m in
      let same : flat_name r c a ≡ flat_name r' c' a' = names s s' in
      subst (λ z. Mem z l) (sym e' ∙ sym same ∙ e) m),
  λ m. let (r, c, a, s, e) = All-mem l q h m in ∣ (q, r, c, a, m, s, e) ∣₁,
)
  where
    names :
        {o : Option Triple} {r c a r' c' a' : Text}
        → o ≡ some (r, c, a)
        → o ≡ some (r', c', a')
        → flat_name r c a ≡ flat_name r' c' a'
    names s s' = cc

-- Expanding a flat list and flattening the tree gives the sorted list exactly if the list has no
-- entry twice and each of its entries is in the form that `FlattenPermissions` writes.
pub flatten-expand_iff :
    (l : List Text)
    → (flatten_permissions (expand_permissions l) ≡ sort_strings l) ↔ (Nodup l × All IsCanonical l)
flatten-expand_iff l = (forth, back)
  where
    forth :
        flatten_permissions (expand_permissions l) ≡ sort_strings l → Nodup l × All IsCanonical l
    forth e =
        let p : Perm (flatten_permissions (expand_permissions l)) l = rw e (sort_strings-perm l) in
        (
          (Perm.Nodup-iff p).0 (Nodup-flatten-expand l),
          All-of_mem l (λ q m. IsCanonical-stable q (mem_IsCanonical l q ((Perm.mem_iff p).1 m))),
        )

    back : Nodup l × All IsCanonical l → flatten_permissions (expand_permissions l) ≡ sort_strings l
    back (d, h) =
        sort_strings_of_IsSorted _ (flatten_permissions-IsSorted (expand_permissions l))
        ∙ sort_strings-eq_of_perm (
            (perm_ext_iff_of_Nodup (Nodup-flatten-expand l) d).1
              (λ q. mem-flatten-expand_of_canonical l q h))
