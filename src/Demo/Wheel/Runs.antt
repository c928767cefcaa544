-- ===== src/Demo/Wheel/Runs.antt =====
-- main.c: `unit_test_for_wheel` does not end; `wheel_test` is a session on an agenda.
use clibrary.Base.{
  ℕ, zero, suc, ◌+◌, ◌*◌, ◌%◌, ◌≤◌, ◌<◌, ◌≡◌, refl, ap, true, false, some, List, [], ◌∷◌, ◌++◌,
  length, add64, ltb, arith,
}
use mathlib.Core.Path.{subst}
use mathlib.Core.Option.{some-injective}
use clibrary.Timer.{TimerWheel, timer_wheel, Timer, create, add, add_wheel, fresh}
use clibrary.Timer.Check.{check, check_wheel}
use clibrary.Timer.Agenda.{Call, checking, adding, Shown, fires, removed, play, Plays, IsAllowed}
use clibrary.Timer.Agenda.Refine.{play-agenda, uncount-body}
use clibrary.Demo.{Line, add_planned, call_back}
use clibrary.Demo.Wheel.{
  Run, printed, next_event, wheel_rounds, unit_test_for_wheel, test_rounds, wheel_test,
}

next_event-lt : (i : ℕ) → i < 9999 → next_event i < 9999
next_event-lt i h = ground arith

-- A timer that is a wheel stays one.
abbrev IsWheel : Timer → Type 0
IsWheel t = (w : TimerWheel) × (t.body ≡ timer_wheel w)

add-IsWheel :
    (t : Timer) (current timeout callback event address : ℕ)
    → IsWheel t
    → (IsWheel (add t current timeout callback event address).0)
      × ((add t current timeout callback event address).1 ≡ some address)
unfolding add
add-IsWheel t current timeout callback event address (w, b) = (
  (add_wheel w current timeout (fresh callback event address), rw (b, add) refl),
  rw (b, add) refl,
)

check-IsWheel : (t : Timer) (current most : ℕ) → IsWheel t → IsWheel (check t current most).timer
unfolding check
check-IsWheel t current most (w, b) =
    let out = check_wheel w current most in (out.wheel, rw (b, check) (uncount-body out.fired _))

created-wheel : (t : Timer) × (create 3000 1 ≡ some t)
unfolding create
created-wheel = (_, refl)

created-IsWheel : {t : Timer} → create 6 1 ≡ some t → IsWheel t
unfolding create
created-IsWheel e = subst IsWheel (some-injective _ _ e) (_, refl)

module _ (clock rand malloc : ℕ → ℕ) (events cb : ℕ) where
  wheel_rounds-running :
      (k i j n : ℕ) (t : Timer)
      → i < 9999
      → (wheel_rounds clock rand malloc events cb k i j n t).ended ≡ false
  unfolding wheel_rounds
  wheel_rounds-running zero i j n t h = refl
  wheel_rounds-running (suc k) i j n t h =
      let inside : ltb i 10000 ≡ true = ground arith in
      rw (inside) (wheel_rounds-running k (next_event i) _ _ _ (next_event-lt i h))

  -- Whatever the clock and `rand` give, `unit_test_for_wheel` does not come to the end of its loop,
  -- however many rounds it makes, so that it never destroys its timer.
  unit_test_for_wheel_lem :
      (rounds : ℕ)
      → (run : Run) × (unit_test_for_wheel clock rand malloc events cb rounds ≡ some run)
        × (run.ended ≡ false)
  unfolding unit_test_for_wheel
  unit_test_for_wheel_lem rounds =
      let (t, e) = created-wheel in
      (
        wheel_rounds clock rand malloc events cb rounds 0 0 0 t,
        rw (e, unit_test_for_wheel) refl,
        wheel_rounds-running rounds 0 0 0 t (omega arith),
      )

  -- The calls of `wheel_test`, and what it prints of a session.
  unfoldable pub test_calls : ℕ → ℕ → List Call
  test_calls zero i = []
  test_calls (suc k) i =
      checking i ∷ adding (rand i % 10) cb (events + 4 * i) (malloc i) ∷ test_calls k (i + 1)

  unfoldable pub report : ℕ → ℕ → List Shown → List Line
  report i n [] = []
  report i n (removed time ∷ shown) = report i n shown
  report i n (fires fired ∷ shown) =
      call_back clock events n fired
      ++ (add_planned i i (rand i % 10) (add64 i (rand i % 10))
          ∷ report (i + 1) (n + length fired) shown)

  test_calls-IsAllowed :
      (k i now : ℕ) → now ≤ i → i ≤ now + 1 → i + k ≤ 20 → IsAllowed 10000 6 now i (test_calls k i)
  unfolding test_calls
  test_calls-IsAllowed zero i now from to few = tt
  test_calls-IsAllowed (suc k) i now from to few = (
    from,
    omega arith,
    omega arith,
    (
      omega arith,
      omega arith,
      omega arith,
      subst (λ n. IsAllowed 10000 6 i n (test_calls k (i + 1))) (omega arith)
          (test_calls-IsAllowed k (i + 1) i (omega arith) (omega arith) (omega arith)),
    ),
  )

  test_rounds-report :
      (k i now n : ℕ) (t : Timer)
      → IsWheel t
      → (shown : List Shown) × (play 10000 (test_calls k i) now t ≡ some shown)
        × (test_rounds clock rand malloc events cb k i n t ≡ report i n shown)
  unfolding test_rounds test_calls report play
  test_rounds-report zero i now n t h = ([], refl, refl)
  test_rounds-report (suc k) i now n t h =
      let timeout = rand i % 10 in
      let out = check t i 10000 in
      let r = add out.timer i timeout cb (events + 4 * i) (malloc i) in
      let (wheel, given) =
        add-IsWheel out.timer i timeout cb (events + 4 * i) (malloc i)
          (check-IsWheel t i 10000 h) in
      let (shown, played, printed) =
        test_rounds-report k (i + 1) i (n + length out.fired) r.0 wheel in
      (fires out.fired ∷ shown, rw (played) refl, rw (given, printed) refl)

  -- Whatever `rand` gives: what `wheel_test` prints is the report of its twenty checks, each at one
  -- time later than the one before and followed by an add at that time, and these are checks of an
  -- agenda: each fires exactly the events added so far whose time is before the check's and that have
  -- not fired.
  pub wheel_test-Plays :
      (t : Timer) × (shown : List Shown) × (create 6 1 ≡ some t)
      × (wheel_test clock rand malloc events cb ≡ some (report 0 0 shown))
      × Plays 0 [] (test_calls 20 0) (some shown)
  unfolding wheel_test
  wheel_test-Plays =
      let (t, e, plays) =
        play-agenda 10000 6 0 (test_calls 20 0) (omega arith) (omega arith) (omega arith)
          (omega arith) (test_calls-IsAllowed 20 0 0 (omega arith) (omega arith) (omega arith)) in
      let (shown, played, printed) = test_rounds-report 20 0 0 0 t (created-IsWheel e) in
      (
        t,
        shown,
        e,
        rw (e, wheel_test) (ap some printed),
        subst (Plays 0 [] (test_calls 20 0)) played plays,
      )
