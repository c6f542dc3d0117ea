-- ===== src/Client/Threads/Alone.antt =====
-- One goroutine alone.
use mathlib.Core.Path.{subst}
use provider_strapi.Prelude.{
  ◌≤◌, length, All, ℕ, zero, suc, List, [], ◌∷◌, true, ◌≡◌, refl, sym, ap, ◌∙◌, arith,
}
use provider_strapi.Exec.{Result}
use provider_strapi.Client.{Response, Http, Json, Session, invalidate, do_once, do_request}
use provider_strapi.Client.Steady.{Call}
use provider_strapi.Client.Threads.{
  Phase, asking, done, Event, Thread, advance, System, moved, Step, pick, Run, here, next,
}
use provider_strapi.Client.Threads.Progress.{IsDone, Run-terminates}

module _ (json : Json) {N : Type 0} (http : Http N) where
  -- some steps of one goroutine, with no other in between
  pub run_alone : ℕ → Call → Phase × Session N → Phase × Session N
  unfolding advance
  run_alone zero c x = x
  run_alone (suc n) c x = let y = advance json http c x.0 x.1 in run_alone n c (y.0, y.2)

  -- five steps are enough for `Do`, and give what it gives
  pub run_alone-do_request :
      (c : Call) (s : Session N)
      → run_alone 5 c (asking true, s) ≡ (
        done (do_request json http c.method c.path c.body s).0,
        (do_request json http c.method c.path c.body s).1,
      )
  unfolding run_alone do_request do_once invalidate
  run_alone-do_request c s = ground arith

  run_alone_done :
      (n : ℕ) (c : Call) (r : Result Response) (s : Session N)
      → run_alone n c (done r, s) ≡ (done r, s)
  unfolding run_alone
  run_alone_done zero c r s = refl
  run_alone_done (suc n) c r s = run_alone_done n c r s

  -- once `Do` has returned, more steps change nothing
  run_alone_le :
      (n m : ℕ) (c : Call) (x : Phase × Session N) (r : Result Response)
      → (run_alone n c x).0 ≡ done r
      → n ≤ m
      → run_alone m c x ≡ run_alone n c x
  unfolding run_alone
  run_alone_le zero m c x r e h =
      let pair : x ≡ (done r, x.1) = λ i. (e i, x.1) in
      ap (run_alone m c) pair ∙ run_alone_done m c r x.1 ∙ sym pair
  run_alone_le (suc n) zero c x r e h = absurd (omega arith)
  run_alone_le (suc n) (suc m) c x r e h =
      let y = advance json http c x.0 x.1 in run_alone_le n m c (y.0, y.2) r e (omega arith)

  run_alone-suc :
      (n : ℕ) (c : Call) (x : Phase × Session N)
      → let z = run_alone n c x in
        let y = advance json http c z.0 z.1 in run_alone (suc n) c x ≡ (y.0, y.2)
  unfolding run_alone
  run_alone-suc zero c x = refl
  run_alone-suc (suc n) c x = let y = advance json http c x.0 x.1 in run_alone-suc n c (y.0, y.2)

  -- a system of one goroutine
  abbrev pub single : Call → Phase × Session N → System N
  single c x = record { session = x.1; threads = record { call = c; phase = x.0 } ∷ [] }

  Step-single :
      (c : Call) (x : Phase × Session N) (e : Event) (t : System N)
      → Step json http (single c x) e t
      → let y = advance json http c x.0 x.1 in t ≡ single c (y.0, y.2)
  Step-single c x _ _ (pick zero th h k) =
      let same : record { call = c; phase = x.0 } ≡ th = cc in
      ap (λ (y : Thread). moved (single c x) zero y (advance json http y.call y.phase x.1))
        (sym same)
  Step-single c x _ _ (pick (suc i) th h k) = absurd (cc)

  Run-single :
      (c : Call) (x : Phase × Session N) (events : List Event) (t : System N)
      → Run json http (single c x) events t
      → t ≡ single c (run_alone (length events) c x)
  unfolding run_alone
  Run-single c x _ _ here = refl
  Run-single c x _ u (next events e t _ r st) =
      let z = run_alone (length events) c x in
      Step-single c z e u
        (subst (λ (y : System N). Step json http y e u) (Run-single c x events t r) st)
      ∙ ap (single c) (sym (run_alone-suc (length events) c x))

  -- A goroutine that is alone in `Do`, once `Do` has returned by whatever steps, has the result, the
  -- client and the network of the sequential `Do`.
  pub Run-do_request :
      (c : Call) (s : Session N) (events : List Event) (t : System N)
      → Run json http (single c (asking true, s)) events t
      → All IsDone t.threads
      → t
        ≡ single c (
          done (do_request json http c.method c.path c.body s).0,
          (do_request json http c.method c.path c.body s).1,
        )
  Run-do_request c s events t r ended =
      let n = length events in
      let same = Run-single c (asking true, s) events t r in
      let (finish, _) = subst (λ (y : System N). All IsDone y.threads) same ended in
      let (few, _) = Run-terminates json http _ t events r in
      same
      ∙ ap (single c) (
          sym (run_alone_le n 5 c (asking true, s) finish.0 finish.1 (omega arith))
          ∙ run_alone-do_request c s)
