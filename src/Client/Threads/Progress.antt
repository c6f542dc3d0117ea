-- ===== src/Client/Threads/Progress.antt =====
-- Several goroutines in `Do`, under any scheduler: how many steps they take.
use provider_strapi.Prelude.{
  ℕ, zero, suc, ◌+◌, ◌*◌, ◌≤◌, ◌<◌, List, [], ◌∷◌, some, true, false, ◌≡◌, refl, ap, ◌⊎◌, inl, inr,
  arith, All, length, get_elem?, set,
}
use provider_strapi.Exec.{Result}
use provider_strapi.Client.{Response, Http, Json, Session}
use provider_strapi.Client.Steady.{Call}
use provider_strapi.Client.Threads.{
  Phase, asking, calling, dropping, done, Event, Thread, advance, System, IsRunning, Step, pick,
  Run, here, next,
}

-- the steps that are left at most
abbrev pub steps_left : Phase → ℕ
steps_left (asking true) = 5
steps_left (calling true token) = 4
steps_left dropping = 3
steps_left (asking false) = 2
steps_left (calling false token) = 1
steps_left (done r) = 0

abbrev pub work : List Thread → ℕ
work [] = 0
work (th ∷ threads) = steps_left th.phase + work threads

abbrev pub IsDone : Thread → Type 0
IsDone th = (r : Result Response) × (th.phase ≡ done r)

work-set :
    (threads : List Thread) (i : ℕ) (old new : Thread)
    → get_elem? threads i ≡ some old
    → work (set threads i new) + steps_left old.phase ≡ work threads + steps_left new.phase
work-set [] i old new h = absurd (cc)
work-set (th ∷ threads) zero old new h =
    let same : th ≡ old = cc in
    let left = ap (λ (x : Thread). steps_left x.phase) same in omega (arith, left)
work-set (th ∷ threads) (suc i) old new h = omega (arith, work-set threads i old new h)

work-le : (threads : List Thread) → work threads ≤ 5 * length threads
work-le [] = omega arith
work-le (th ∷ threads) = omega (arith, work-le threads, phase th.phase)
  where
    phase : (p : Phase) → steps_left p ≤ 5
    phase (asking true) = omega arith
    phase (calling true token) = omega arith
    phase dropping = omega arith
    phase (asking false) = omega arith
    phase (calling false token) = omega arith
    phase (done r) = omega arith

module _ (json : Json) {N : Type 0} (http : Http N) where
  advance-lt :
      (c : Call) (p : Phase) (s : Session N)
      → IsRunning p
      → steps_left (advance json http c p s).0 < steps_left p
  unfolding advance
  advance-lt c (asking true) s h = ground arith
  advance-lt c (asking false) s h = ground arith
  advance-lt c (calling true token) s h = ground arith
  advance-lt c (calling false token) s h = ground arith
  advance-lt c dropping s h = omega arith
  advance-lt c (done r) s h = absurd h

  Step-lt : (s t : System N) (e : Event) → Step json http s e t → work t.threads < work s.threads
  Step-lt s _ _ (pick i th h k) =
      omega (arith, work-set s.threads i th _ h, advance-lt th.call th.phase s.session k)

  Run-work :
      (s t : System N) (events : List Event)
      → Run json http s events t
      → length events + work t.threads ≤ work s.threads
  Run-work s _ _ here = omega arith
  Run-work s u _ (next events e t _ r st) = omega (arith, Run-work s t events r, Step-lt t u e st)

  some-IsRunning :
      (threads : List Thread)
      → All IsDone threads
        ⊎ ((i : ℕ) × (th : Thread) × (get_elem? threads i ≡ some th) × IsRunning th.phase)
  some-IsRunning [] = inl tt
  some-IsRunning (th ∷ threads) = split th.phase refl (some-IsRunning threads)
    where
      split :
          (p : Phase)
          → th.phase ≡ p
          → All IsDone threads
            ⊎ ((i : ℕ) × (x : Thread) × (get_elem? threads i ≡ some x) × IsRunning x.phase)
          → All IsDone (th ∷ threads)
            ⊎ ((i : ℕ) × (x : Thread) × (get_elem? (th ∷ threads) i ≡ some x) × IsRunning x.phase)
      split (done r) e rest = elim rest [
        | inl all ↦ inl ((r, e), all)
        | inr (i, x, q, k) ↦ inr (suc i, x, q, k)
      ]
      split (asking b) e rest = inr (zero, th, refl, rw e tt)
      split (calling b token) e rest = inr (zero, th, refl, rw e tt)
      split dropping e rest = inr (zero, th, refl, rw e tt)

  -- Whatever the server answers and in whatever order the goroutines take turns, some
  -- goroutines in `Do` take at most five steps for each of them in all; and until each call of `Do` has
  -- returned a response or an error, there is a next step.
  pub Run-terminates :
      (s t : System N) (events : List Event)
      → Run json http s events t
      → (length events ≤ 5 * length s.threads)
        × (All IsDone t.threads ⊎ ((e : Event) × (u : System N) × Step json http t e u))
  Run-terminates s t events r = (
    omega (arith, Run-work s t events r, work-le s.threads),
    elim (some-IsRunning t.threads) [
      | inl all ↦ inl all
      | inr (i, th, e, k) ↦ inr (_, _, pick i th e k)
    ],
  )
