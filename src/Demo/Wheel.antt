-- ===== src/Demo/Wheel.antt =====
-- main.c: `unit_test_for_wheel` and `wheel_test`, which use a wheel timer. The parameters are those of
-- Demo/Queue, and `rand j` is the j-th number that `rand` gives.
pub mod Runs
use clibrary.Base.{
  ℕ, zero, suc, ◌+◌, ◌-◌, ◌*◌, ◌/◌, ◌%◌, ◌^◌, ◌≤◌, ◌<◌, ◌≡◌, refl, sym, ap, ◌∙◌, inl, inr, Bool,
  true, false, Bool-cases, Option, none, some, List, [], ◌∷◌, ◌++◌, length, add64, ulong_max, ltb,
  ◌==◌, if◌then◌else◌, arith,
}
use clibrary.Timer.{Elem, Timer, create, add}
use clibrary.Timer.Check.{check}
use clibrary.Timer.Agenda.{
  Call, checking, adding, Shown, fires, removed, before, play, Plays, IsAllowed,
}
use clibrary.Timer.Agenda.Refine.{play-agenda}
use clibrary.Demo.{Line, add_failed, add_planned, call_back}

-- What a program has printed, and whether it has come to its end.
pub record Run : Type 0 where
  pub lines : List Line
  pub ended : Bool

abbrev pub printed : List Line → Run → Run
printed ls r = record r { lines = ls ++ r.lines }

-- What `unit_test_for_wheel` prints behind an add.
abbrev planned_line : ℕ → ℕ → ℕ → Option ℕ → Line
planned_line i curtime timeout none = add_failed i
planned_line i curtime timeout (some index) =
    add_planned i (curtime / 1000) timeout (add64 curtime timeout / 1000)

-- `i++; if(i==9999) i=0;`
abbrev pub next_event : ℕ → ℕ
next_event i = if i + 1 == 9999 then 0 else i + 1

module _ (clock rand malloc : ℕ → ℕ) (events cb : ℕ) where
  -- The loop of `unit_test_for_wheel`, for at most so many rounds: event, round, reading.
  unfoldable pub wheel_rounds : ℕ → ℕ → ℕ → ℕ → Timer → Run
  wheel_rounds zero i j n t = record { lines = []; ended = false }
  wheel_rounds (suc k) i j n t =
      let timeout = (rand j % 10 + 1) * 1000 in
      let curtime = clock n in
      let out = check t curtime 10000 in
      let r = add out.timer curtime timeout cb (events + 4 * i) (malloc j) in
      let rest = wheel_rounds k (next_event i) (j + 1) (n + 1 + length out.fired) r.0 in
      if ltb i 10000
      then printed
          (call_back clock events (n + 1) out.fired ++ planned_line i curtime timeout r.1 ∷ []) rest
      else record { lines = []; ended = true }

  -- `unit_test_for_wheel`, for at most so many rounds.
  unfoldable pub unit_test_for_wheel : ℕ → Option Run
  unit_test_for_wheel rounds = elim (create 3000 1) [
    | none ↦ none
    | some t ↦ some (wheel_rounds rounds 0 0 0 t)
  ]

  -- The loop of `wheel_test`, with the rounds left: the time is the number of the event. The number
  -- behind a refused event, i - 10, is its bit pattern.
  unfoldable pub test_rounds : ℕ → ℕ → ℕ → Timer → List Line
  test_rounds zero i n t = []
  test_rounds (suc k) i n t =
      let timeout = rand i % 10 in
      let out = check t i 10000 in
      let r = add out.timer i timeout cb (events + 4 * i) (malloc i) in
      call_back clock events n out.fired
      ++ ((elim r.1 [
        | none ↦ add_failed ((i + (2 ^ 32 - 10)) % 2 ^ 32)
        | some index ↦ add_planned i i timeout (add64 i timeout)
      ])
          ∷ test_rounds k (i + 1) (n + length out.fired) r.0)

  -- `wheel_test`
  unfoldable pub wheel_test : Option (List Line)
  wheel_test = elim (create 6 1) [ none ↦ none | some t ↦ some (test_rounds 20 0 0 t) ]
