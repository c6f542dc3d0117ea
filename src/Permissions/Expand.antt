-- ===== src/Permissions/Expand.antt =====
-- `ExpandPermissions` of internal/clients/strapi/roles.go: the tree of a flat list.
use mathlib.Core.Bool.{Bool-set}
use mathlib.Core.Logic.{∥∥₁_elim}
use mathlib.Core.Logic.Or
use mathlib.Core.List.{Mem, mem-cons, not-mem-nil, mem-cons_self, mem-cons_of_mem}
use provider_strapi.Prelude.{
  List, [], ◌∷◌, Option, none, some, Bool, true, false, ◌&&◌, ◌||◌, ◌≡◌, refl, ◌↔◌, inl, inr,
  Bool-cases, arith, if◌then◌else◌,
}
use provider_strapi.Text.{Text, text_eq}
use provider_strapi.Text.Equality.{text_eq_iff, text_eq_refl}
use provider_strapi.GoMap.{Map, lookup, insert, lookup-insert}
use provider_strapi.GoMap.Unique.{Unique, Unique-insert, Values-insert}
use provider_strapi.Permissions.{
  Action, PermissionsByResource, split_flat, granted, grant, expand_round, expand_from,
  expand_permissions, controllers_of, actions_of,
}
use provider_strapi.Permissions.Tree.{
  IsTree, ControllersIsTree, action_at, enabled_at, actions_of-Unique, controllers_of-IsTree,
}

is_triple : Option (Text × Text × Text) → Text → Text → Text → Bool
is_triple none r c a = false
is_triple (some (r', c', a')) r c a = text_eq r' r && text_eq c' c && text_eq a' a

-- some entry of the list is read as the triple
unfoldable pub lists : List Text → Text → Text → Text → Bool
unfolding is_triple
lists [] r c a = false
lists (p ∷ flat) r c a = is_triple (split_flat p) r c a || lists flat r c a

lookup-grant :
    (m : Map (Map Action)) (c a c' a' : Text)
    → lookup (actions_of (lookup (insert m c (insert (actions_of (lookup m c)) a granted)) c')) a'
      ≡ (if text_eq c c' && text_eq a a'
          then some granted
          else lookup (actions_of (lookup m c')) a')
lookup-grant m c a c' a' = elim (Bool-cases (text_eq c c')) [
  | inr e ↦ rw (lookup-insert, e)
  | inl e ↦
      let same : c ≡ c' = (text_eq_iff c c').0 e in
      rw (lookup-insert, e) (rw lookup-insert (rw same))
]

action_at-grant :
    (out : PermissionsByResource) (r c a r' c' a' : Text)
    → action_at (grant out r c a) r' c' a' ≡ (
        if text_eq r r' && text_eq c c' && text_eq a a'
        then some granted
        else action_at out r' c' a')
unfolding grant action_at
action_at-grant out r c a r' c' a' = elim (Bool-cases (text_eq r r')) [
  | inr e ↦ rw (lookup-insert, e)
  | inl e ↦
      let same : r ≡ r' = (text_eq_iff r r').0 e in
      rw (lookup-insert, e) (rw (lookup-grant (controllers_of (lookup out r)) c a c' a') (rw same))
]

action_at-expand_round :
    (out : PermissionsByResource) (o : Option (Text × Text × Text)) (r c a : Text)
    → action_at (expand_round out o) r c a
      ≡ (if is_triple o r c a then some granted else action_at out r c a)
unfolding expand_round is_triple
action_at-expand_round out none r c a = refl
action_at-expand_round out (some (r', c', a')) r c a = action_at-grant out r' c' a' r c a

action_at-expand_from :
    (flat : List Text) (out : PermissionsByResource) (r c a : Text)
    → action_at (expand_from out flat) r c a
      ≡ (if lists flat r c a then some granted else action_at out r c a)
unfolding expand_from lists
action_at-expand_from [] out r c a = refl
action_at-expand_from (p ∷ flat) out r c a =
    rw
      (
        action_at-expand_from flat (expand_round out (split_flat p)) r c a,
        action_at-expand_round out (split_flat p) r c a,
      )
      (ground arith)

-- In the expanded tree an action is there exactly if some entry of the list is read as its resource,
-- controller and name, and then it is enabled and has no policy.
pub action_at-expand_permissions :
    (flat : List Text) (r c a : Text)
    → action_at (expand_permissions flat) r c a ≡ (if lists flat r c a then some granted else none)
unfolding expand_permissions action_at lookup
action_at-expand_permissions flat r c a = action_at-expand_from flat [] r c a

pub enabled_at-expand_permissions :
    (flat : List Text) (r c a : Text)
    → enabled_at (expand_permissions flat) r c a ≡ lists flat r c a
unfolding enabled_at
enabled_at-expand_permissions flat r c a =
    rw (action_at-expand_permissions flat r c a) (ground arith)

grant-IsTree : (out : PermissionsByResource) (r c a : Text) → IsTree out → IsTree (grant out r c a)
unfolding grant
grant-IsTree out r c a t =
    let (u, us) = controllers_of-IsTree out r t in
    let actions = actions_of (lookup (controllers_of (lookup out r)) c) in
    let below = Unique-insert actions a granted (actions_of-Unique _ c us) in
    (
      Unique-insert out r _ t.0,
      Values-insert (λ rp. ControllersIsTree rp.controllers) out r _
          (Unique-insert _ c _ u, Values-insert (λ actions. Unique actions) _ c _ below us) t.1,
    )

expand_round-IsTree :
    (out : PermissionsByResource) (o : Option (Text × Text × Text))
    → IsTree out
    → IsTree (expand_round out o)
unfolding expand_round
expand_round-IsTree out none t = t
expand_round-IsTree out (some (r, c, a)) t = grant-IsTree out r c a t

expand_from-IsTree :
    (flat : List Text) (out : PermissionsByResource) → IsTree out → IsTree (expand_from out flat)
unfolding expand_from
expand_from-IsTree [] out t = t
expand_from-IsTree (p ∷ flat) out t =
    expand_from-IsTree flat _ (expand_round-IsTree out (split_flat p) t)

-- The tree that `ExpandPermissions` makes holds a key once at each of its levels.
pub expand_permissions-IsTree : (flat : List Text) → IsTree (expand_permissions flat)
unfolding expand_permissions
expand_permissions-IsTree flat = expand_from-IsTree flat [] (tt, tt)

is_triple→eq :
    (o : Option (Text × Text × Text)) (r c a : Text) → is_triple o r c a ≡ true → o ≡ some (r, c, a)
unfolding is_triple
is_triple→eq none r c a h = absurd (cc)
is_triple→eq (some (r', c', a')) r c a h =
    ground (arith, text_eq_iff r' r, text_eq_iff c' c, text_eq_iff a' a)

eq→is_triple :
    (o : Option (Text × Text × Text)) (r c a : Text) → o ≡ some (r, c, a) → is_triple o r c a ≡ true
unfolding is_triple
eq→is_triple o r c a h = rw (h, is_triple, text_eq_refl r, text_eq_refl c, text_eq_refl a)

mem_of_lists :
    (flat : List Text) (r c a : Text)
    → lists flat r c a ≡ true
    → (p : Text) × Mem p flat × (split_flat p ≡ some (r, c, a))
unfolding lists
mem_of_lists [] r c a h = absurd (cc)
mem_of_lists (p ∷ flat) r c a h = elim (Bool-cases (is_triple (split_flat p) r c a)) [
  | inl e ↦ (p, mem-cons_self, is_triple→eq _ r c a e)
  | inr e ↦ let (q, m, s) = mem_of_lists flat r c a (rw e at h) in (q, mem-cons_of_mem p m, s)
]

lists_of_mem :
    (flat : List Text) (p r c a : Text)
    → split_flat p ≡ some (r, c, a)
    → Mem p flat
    → lists flat r c a ≡ true
unfolding lists
lists_of_mem [] p r c a s m = absurd (not-mem-nil m)
lists_of_mem (q ∷ flat) p r c a s m =
    Or.elim (Bool-set _ _) (mem-cons.0 m) (λ e. rw (eq→is_triple (split_flat q) r c a (rw (← e) s)))
      (λ m. rw (lists_of_mem flat p r c a s m) (ground arith))

-- An action is enabled in the expanded tree exactly if an entry of the list is read as it.
pub enabled_at-expand_permissions_iff :
    (flat : List Text) (r c a : Text)
    → (enabled_at (expand_permissions flat) r c a ≡ true)
      ↔ ∥ ((p : Text) × Mem p flat × (split_flat p ≡ some (r, c, a))) ∥₁
enabled_at-expand_permissions_iff flat r c a = rw (enabled_at-expand_permissions flat r c a) (
  λ h. ∣ mem_of_lists flat r c a h ∣₁,
  λ x. ∥∥₁_elim x (Bool-set _ _) (λ (p, m, s). lists_of_mem flat p r c a s m),
)
