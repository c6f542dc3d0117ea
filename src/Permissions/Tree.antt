-- ===== src/Permissions/Tree.antt =====
-- The permission tree as what it says of each action: whether it is enabled.
use mathlib.Core.List.{
  Mem, Nodup, Nodup-nil, map-append, mem-cons_self, mem-singleton, not-mem-nil, Pairwise-singleton,
}
use mathlib.Core.Logic.Iff
use provider_strapi.Prelude.{
  List, [], ◌∷◌, Option, none, some, Bool, true, false, ◌≡◌, refl, ◌↔◌, ap, map, Bool-cases,
  Option-cases, inl, inr, if◌then◌else◌,
}
use provider_strapi.Text.{Text}
use provider_strapi.GoMap.{Map, lookup}
use provider_strapi.GoMap.Unique.{Unique, Values, Values-lookup, Values-map}
use provider_strapi.GoMap.Flat.{flat, part, flat-all, mem-flat_iff, Nodup-flat}
use provider_strapi.Permissions.{
  Action, ResourcePermissions, PermissionsByResource, flat_name, flat_actions, flat_controllers,
  flat_resources, controllers_of, actions_of,
}

abbrev pub Triple : Type 0
Triple = Text × Text × Text

abbrev pub is_enabled : Option Action → Bool
is_enabled none = false
is_enabled (some a) = a.enabled

-- `p[resource].Controllers[controller][action]`; `none` is a missing key
unfoldable pub action_at : PermissionsByResource → Text → Text → Text → Option Action
action_at tree resource controller action =
    let controllers = controllers_of (lookup tree resource) in
    let actions = actions_of (lookup controllers controller) in lookup actions action

-- the action is there and enabled
unfoldable pub enabled_at : PermissionsByResource → Text → Text → Text → Bool
unfolding action_at
enabled_at tree resource controller action = is_enabled (action_at tree resource controller action)

-- a tree of Go maps: at each level a key occurs once
abbrev pub IsTree : PermissionsByResource → Type 0
IsTree tree =
    Unique tree
    × Values (λ rp. Unique rp.controllers × Values (λ actions. Unique actions) rp.controllers) tree

-- the enabled actions, in the order in which the three loops meet them
action_triples : Text → Text → Text → Action → List Triple
action_triples r c a act = if act.enabled then (r, c, a) ∷ [] else []

controller_triples : Text → Text → Map Action → List Triple
controller_triples r c = flat (action_triples r c)

resource_triples : Text → ResourcePermissions → List Triple
resource_triples r rp = flat (controller_triples r) rp.controllers

pub enabled_triples : PermissionsByResource → List Triple
enabled_triples = flat resource_triples

abbrev pub name_of : Triple → Text
name_of (r, c, a) = flat_name r c a

flat_actions-eq :
    (r c : Text) (m : Map Action) → flat_actions r c m ≡ map name_of (controller_triples r c m)
unfolding flat_actions controller_triples action_triples
flat_actions-eq r c [] = refl
flat_actions-eq r c ((a, act) ∷ m) = elim (Bool-cases act.enabled) [
  | inl e ↦ rw (e, ap (◌∷◌ (flat_name r c a)) (flat_actions-eq r c m))
  | inr e ↦ rw e (flat_actions-eq r c m)
]

flat_controllers-eq :
    (r : Text) (m : Map (Map Action))
    → flat_controllers r m ≡ map name_of (flat (controller_triples r) m)
unfolding flat_controllers
flat_controllers-eq r [] = refl
flat_controllers-eq r ((c, actions) ∷ m) =
    rw (map-append, flat_actions-eq r c actions, flat_controllers-eq r m)

pub flat_resources-eq :
    (tree : PermissionsByResource) → flat_resources tree ≡ map name_of (enabled_triples tree)
unfolding flat_resources enabled_triples resource_triples
flat_resources-eq [] = refl
flat_resources-eq ((r, rp) ∷ tree) =
    rw (map-append, flat_controllers-eq r rp.controllers, flat_resources-eq tree)

Text-set : IsSet Text
Text-set = hlevel

Triple-set : IsSet Triple
Triple-set = hlevel

action_keyed :
    (r c : Text) (a : Text) (act : Action) (t : Triple)
    → Mem t (action_triples r c a act)
    → t ≡ (r, c, a)
unfolding action_triples
action_keyed r c a act t h = elim (Bool-cases act.enabled) [
  | inl e ↦ (mem-singleton Triple-set).0 (rw e at h)
  | inr e ↦ absurd (not-mem-nil (rw e at h))
]

controller_keyed :
    (r c : Text) (m : Map Action) (t : Triple)
    → Mem t (controller_triples r c m)
    → (t.0 ≡ r) × (t.1 ≡ c)
unfolding controller_triples
controller_keyed r c m t h = (
  flat-all (action_triples r c) (λ t. t.0 ≡ r) (λ t. Text-set _ _)
      (λ a act t h. ap (λ (t : Triple). t.0) (action_keyed r c a act t h)) m t h,
  flat-all (action_triples r c) (λ t. t.1 ≡ c) (λ t. Text-set _ _)
      (λ a act t h. ap (λ (t : Triple). t.1) (action_keyed r c a act t h)) m t h,
)

resource_keyed :
    (r : Text) (rp : ResourcePermissions) (t : Triple) → Mem t (resource_triples r rp) → t.0 ≡ r
unfolding resource_triples
resource_keyed r rp t h =
    flat-all (controller_triples r) (λ t. t.0 ≡ r) (λ t. Text-set _ _)
      (λ c m t h. (controller_keyed r c m t h).0) rp.controllers t h

mem-action_triples_iff :
    (r c a : Text) (o : Option Action)
    → Mem (r, c, a) (part (action_triples r c) a o) ↔ (is_enabled o ≡ true)
unfolding action_triples
mem-action_triples_iff r c a none = (λ h. absurd (not-mem-nil h), λ e. absurd (cc))
mem-action_triples_iff r c a (some act) = elim (Bool-cases act.enabled) [
  | inl e ↦ rw e (λ _. refl, λ _. mem-cons_self)
  | inr e ↦ rw e (λ h. absurd (not-mem-nil h), λ e'. absurd (cc))
]

mem-controller_triples_iff :
    (r c a : Text) (o : Option (Map Action))
    → Unique (actions_of o)
    → Mem (r, c, a) (part (controller_triples r) c o)
      ↔ (is_enabled (lookup (actions_of o) a) ≡ true)
unfolding controller_triples lookup
mem-controller_triples_iff r c a none u = (λ h. absurd (not-mem-nil h), λ e. absurd (cc))
mem-controller_triples_iff r c a (some m) u =
    Iff.trans
      (mem-flat_iff (action_triples r c) (λ t. t.2)
        (λ a' act t h. ap (λ (t : Triple). t.2) (action_keyed r c a' act t h)) m (r, c, a) u)
      (mem-action_triples_iff r c a (lookup m a))

abbrev pub ControllersIsTree : Map (Map Action) → Type 0
ControllersIsTree m = Unique m × Values (λ actions. Unique actions) m

pub actions_of-Unique :
    (m : Map (Map Action)) (c : Text)
    → Values (λ actions. Unique actions) m
    → Unique (actions_of (lookup m c))
actions_of-Unique m c h = elim (Option-cases (lookup m c)) [
  | inl e ↦ rw e tt
  | inr (v, e) ↦ rw e (Values-lookup (λ actions. Unique actions) m c v h e)
]

mem-resource_triples_iff :
    (r c a : Text) (o : Option ResourcePermissions)
    → ControllersIsTree (controllers_of o)
    → Mem (r, c, a) (part resource_triples r o)
      ↔ (is_enabled (lookup (actions_of (lookup (controllers_of o) c)) a) ≡ true)
unfolding resource_triples lookup
mem-resource_triples_iff r c a none u = (λ h. absurd (not-mem-nil h), λ e. absurd (cc))
mem-resource_triples_iff r c a (some rp) (u, us) =
    Iff.trans
      (mem-flat_iff (controller_triples r) (λ t. t.1) (λ c' m t h. (controller_keyed r c' m t h).1)
        rp.controllers (r, c, a) u)
      (mem-controller_triples_iff r c a (lookup rp.controllers c)
        (actions_of-Unique rp.controllers c us))

pub controllers_of-IsTree :
    (tree : PermissionsByResource) (r : Text)
    → IsTree tree
    → ControllersIsTree (controllers_of (lookup tree r))
controllers_of-IsTree tree r (u, us) = elim (Option-cases (lookup tree r)) [
  | inl e ↦ rw e (tt, tt)
  | inr (rp, e) ↦ rw e (Values-lookup (λ rp. ControllersIsTree rp.controllers) tree r rp us e)
]

-- an action is among the triples exactly if it is enabled
pub mem-enabled_triples_iff :
    (tree : PermissionsByResource) (r c a : Text)
    → IsTree tree
    → Mem (r, c, a) (enabled_triples tree) ↔ (enabled_at tree r c a ≡ true)
unfolding enabled_triples enabled_at
mem-enabled_triples_iff tree r c a t =
    Iff.trans (mem-flat_iff resource_triples (λ t. t.0) resource_keyed tree (r, c, a) t.0)
      (mem-resource_triples_iff r c a (lookup tree r) (controllers_of-IsTree tree r t))

Nodup-action_triples : (r c a : Text) (act : Action) → Nodup (action_triples r c a act)
unfolding action_triples
Nodup-action_triples r c a act = elim (Bool-cases act.enabled) [
  | inl e ↦ rw e (Pairwise-singleton _ (r, c, a))
  | inr e ↦ rw e Nodup-nil
]

Values-all {ℓ κ} : {V : Type ℓ} (P : V → Type κ) (m : Map V) → ((v : V) → P v) → Values P m
Values-all P [] h = tt
Values-all P ((k, v) ∷ m) h = (h v, Values-all P m h)

Nodup-controller_triples :
    (r c : Text) (m : Map Action) → Unique m → Nodup (controller_triples r c m)
unfolding controller_triples
Nodup-controller_triples r c m u =
    Nodup-flat (action_triples r c) (λ t. t.2)
      (λ a' act t h. ap (λ (t : Triple). t.2) (action_keyed r c a' act t h)) m u
      (λ a. Values-all _ m (Nodup-action_triples r c a))

Nodup-resource_triples :
    (r : Text) (rp : ResourcePermissions)
    → ControllersIsTree rp.controllers
    → Nodup (resource_triples r rp)
unfolding resource_triples
Nodup-resource_triples r rp (u, us) =
    Nodup-flat (controller_triples r) (λ t. t.1) (λ c' m t h. (controller_keyed r c' m t h).1)
      rp.controllers u (λ c. Values-map _ _ rp.controllers (Nodup-controller_triples r c) us)

pub Nodup-enabled_triples :
    (tree : PermissionsByResource) → IsTree tree → Nodup (enabled_triples tree)
unfolding enabled_triples
Nodup-enabled_triples tree (u, us) =
    Nodup-flat resource_triples (λ t. t.0) resource_keyed tree u
      (λ r. Values-map _ _ tree (Nodup-resource_triples r) us)
