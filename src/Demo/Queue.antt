-- ===== src/Demo/Queue.antt =====
-- main.c: `unit_test_for_queue1` and `unit_test_for_queue`, which use a queue timer. `clock n` is the
-- n-th reading of `gettimeofday`, in microseconds and below 2 ^ 63; `malloc` gives the timer's
-- elements their addresses, `events` is the address of the array of events and `cb` that of
-- `event_cb`.
use clibrary.Base.{
  ℕ, zero, suc, ◌+◌, ◌-◌, ◌*◌, ◌/◌, ◌≡◌, ◌≢◌, refl, ap, ◌∙◌, Option, none, some, List, [], ◌∷◌,
  ◌++◌, length, append-nil, add64, ulong_max, arith,
}
use clibrary.Timer.{
  TimerQueue, Timer, timer_queue, create, add, timer_count, timer_memsize, sizeof_timer,
}
use clibrary.Timer.Check.{check, visit_queue, uncount}
use clibrary.Timer.Queue.{created, add-refused}
use clibrary.Demo.{Line, add_failed, add_succeeded, number, call_back}

-- What is printed behind an add.
abbrev add_line : ℕ → ℕ → Option ℕ → Line
add_line i at none = add_failed i
add_line i at (some index) = add_succeeded i (at / 1000)

-- The next event, the next reading and the timer behind a loop.
pub record Loop : Type 0 where
  pub i : ℕ
  pub reading : ℕ
  pub timer : Timer
  pub lines : List Line

abbrev pub after : List Line → Loop → Loop
after ls l = record l { lines = ls ++ l.lines }

module _ (clock malloc : ℕ → ℕ) (events cb : ℕ) where
  -- The loop of `unit_test_for_queue1`, with the rounds left: an add and a check.
  unfoldable check_rounds : ℕ → ℕ → ℕ → Timer → Loop
  check_rounds zero i n t = record { i = i; reading = n; timer = t; lines = [] }
  check_rounds (suc k) i n t =
      let curtime = clock n in
      let r = add t curtime 5 cb (events + 4 * i) (malloc i) in
      let out = check r.0 curtime 10000 in
      let rest = check_rounds k (i + 1) (n + 1 + length out.fired) out.timer in
      after (add_line i (add64 curtime 5) r.1 ∷ call_back clock events (n + 1) out.fired) rest

  abbrev queue1_from : Timer → List Line
  queue1_from t =
      let done = check_rounds 5 0 0 t in
      done.lines ++ number (timer_count done.timer) ∷ number (timer_memsize done.timer) ∷ []

  -- `unit_test_for_queue1`
  unfoldable unit_test_for_queue1 : Option (List Line)
  unit_test_for_queue1 = elim (create 0 0) [ none ↦ none | some t ↦ some (queue1_from t) ]

  -- The first and the second loop of `unit_test_for_queue`, with the rounds left: adds only.
  unfoldable pub add_rounds : ℕ → ℕ → ℕ → Timer → Loop
  add_rounds zero i n t = record { i = i; reading = n; timer = t; lines = [] }
  add_rounds (suc k) i n t =
      let curtime = clock n in
      let r = add t curtime 1000000 cb (events + 4 * i) (malloc i) in
      after (add_line i (add64 curtime 1000000) r.1 ∷ []) (add_rounds k (i + 1) (n + 1) r.0)

  -- Its last loop, which has no end, after so many rounds: checks only.
  unfoldable pub endless_rounds : ℕ → ℕ → Timer → List Line
  endless_rounds zero n t = []
  endless_rounds (suc k) n t =
      let out = check t (clock n) 10000 in
      call_back clock events (n + 1) out.fired
      ++ endless_rounds k (n + 1 + length out.fired) out.timer

  abbrev queue_from : ℕ → ℕ → Timer → List Line
  queue_from limit rounds t =
      let first = add_rounds limit 0 0 t in
      let second = add_rounds (limit - first.i) first.i first.reading first.timer in
      first.lines ++ (second.lines ++ endless_rounds rounds second.reading second.timer)

  -- `unit_test_for_queue`: what it has printed after so many rounds of its last loop.
  unfoldable pub unit_test_for_queue : ℕ → Option (List Line)
  unit_test_for_queue rounds = elim (create 0 0) [
    | none ↦ none
    | some t ↦ some (queue_from 5000 rounds t)
  ]

-- The lines of so many refused events.
abbrev pub failures : ℕ → ℕ → List Line
failures i zero = []
failures i (suc k) = add_failed i ∷ failures (i + 1) k

-- A queue timer as it is made.
abbrev new_queue : TimerQueue
new_queue = record { last_expire_time = ulong_max; queue = [] }

abbrev new_timer : Timer
new_timer = record { body = timer_queue new_queue; elem_cnt = 0; mem_ocupy = sizeof_timer }

create-new : create 0 0 ≡ some new_timer
unfolding create
create-new = refl

refused :
    (curtime timeout callback event address : ℕ)
    → add64 curtime timeout ≢ ulong_max
    → add new_timer curtime timeout callback event address ≡ (new_timer, none)
refused curtime timeout callback event address ne =
    add-refused new_timer curtime timeout callback event address (created refl) refl ne

idle_check :
    (current : ℕ)
    → check new_timer current 10000 ≡ record { timer = new_timer; fired = []; count = 0 }
unfolding check visit_queue uncount
idle_check current = refl

-- A loop of so many rounds in which every event is refused.
record IsRefused (k i : ℕ) (l : Loop) : Type 0 where
  index : l.i ≡ i + k
  timer : l.timer ≡ new_timer
  lines : l.lines ≡ failures i k

after-IsRefused :
    (k i : ℕ) (l : Loop) → IsRefused k (i + 1) l → IsRefused (suc k) i (after (add_failed i ∷ []) l)
after-IsRefused k i l h = record {
  index = omega (arith, h.index);
  timer = h.timer;
  lines = ap (λ ls. add_failed i ∷ ls) h.lines;
}

module _ (clock malloc : ℕ → ℕ) (events cb : ℕ) where
  check_rounds-IsRefused :
      ((n : ℕ) → add64 (clock n) 5 ≢ ulong_max)
      → (k i n : ℕ) → IsRefused k i (check_rounds clock malloc events cb k i n new_timer)
  unfolding check_rounds call_back
  check_rounds-IsRefused fits zero i n = record { index = omega arith; timer = refl; lines = refl }
  check_rounds-IsRefused fits (suc k) i n =
      let no = refused (clock n) 5 cb (events + 4 * i) (malloc i) (fits n) in
      rw (no, idle_check (clock n))
        (after-IsRefused k i _ (check_rounds-IsRefused fits k (i + 1) (n + 1 + 0)))

  add_rounds-IsRefused :
      ((n : ℕ) → add64 (clock n) 1000000 ≢ ulong_max)
      → (k i n : ℕ) → IsRefused k i (add_rounds clock malloc events cb k i n new_timer)
  unfolding add_rounds
  add_rounds-IsRefused fits zero i n = record { index = omega arith; timer = refl; lines = refl }
  add_rounds-IsRefused fits (suc k) i n =
      let no = refused (clock n) 1000000 cb (events + 4 * i) (malloc i) (fits n) in
      rw (no) (after-IsRefused k i _ (add_rounds-IsRefused fits k (i + 1) (n + 1)))

  endless_rounds-nothing : (k n : ℕ) → endless_rounds clock malloc events cb k n new_timer ≡ []
  unfolding endless_rounds call_back
  endless_rounds-nothing zero n = refl
  endless_rounds-nothing (suc k) n =
      rw (idle_check (clock n)) (endless_rounds-nothing k (n + 1 + 0))

  queue_from-failures :
      ((n : ℕ) → add64 (clock n) 1000000 ≢ ulong_max)
      → (limit rounds : ℕ)
      → queue_from clock malloc events cb limit rounds new_timer ≡ failures 0 limit
  unfolding add_rounds
  queue_from-failures fits limit rounds =
      let h = add_rounds-IsRefused fits limit 0 0 in
      let left : limit - (add_rounds clock malloc events cb limit 0 0 new_timer).i ≡ 0 =
        omega (arith, h.index) in
      rw (left, h.timer, h.lines)
        (ap (λ ls. failures 0 limit ++ ls) (endless_rounds-nothing rounds _)
          ∙ append-nil (failures 0 limit))

  -- Whatever the clock shows, as long as no time is 5 microseconds before the largest `unsigned long`:
  -- `unit_test_for_queue1` prints that each of its five events was refused, then a count of 0 and the
  -- size of an empty timer. No event ever fires.
  unit_test_for_queue1_lem :
      ((n : ℕ) → add64 (clock n) 5 ≢ ulong_max)
      → unit_test_for_queue1 clock malloc events cb
        ≡ some (failures 0 5 ++ number 0 ∷ number sizeof_timer ∷ [])
  unfolding unit_test_for_queue1 timer_count timer_memsize
  unit_test_for_queue1_lem fits =
      let h = check_rounds-IsRefused fits 5 0 0 in
      rw (create-new, unit_test_for_queue1) (ap some (rw (h.lines, h.timer) refl))

  -- Whatever the clock shows, as long as no time is a second before the largest `unsigned long`:
  -- `unit_test_for_queue` prints that each of its 5000 events was refused, its second loop makes no
  -- round, and however long its last loop runs, no event fires.
  pub unit_test_for_queue_lem :
      ((n : ℕ) → add64 (clock n) 1000000 ≢ ulong_max)
      → (rounds : ℕ) → unit_test_for_queue clock malloc events cb rounds ≡ some (failures 0 5000)
  unfolding unit_test_for_queue
  unit_test_for_queue_lem fits rounds =
      rw (create-new, unit_test_for_queue) (ap some (queue_from-failures fits 5000 rounds))
