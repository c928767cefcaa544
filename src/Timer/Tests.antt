-- ===== src/Timer/Tests.antt =====
-- Runs of the timers at concrete inputs.
use clibrary.Base.{
  ℕ, zero, suc, ◌+◌, ◌≤◌, ◌<◌, ◌≡◌, ◌≢◌, refl, inl, [], ◌∷◌, ◌++◌, length, get_or, set, All, none,
  some, ulong_max, add64, arith,
}
use clibrary.Timer.{Elem, TimerQueue, TimerWheel, Timer, timer_queue, add_wheel, add, create}
use clibrary.Timer.Check.{check_wheel, visit_queue, ticks, tick, visit_spoke}
use clibrary.Timer.Queue.{IsSorted, Front, visit_queue-Front, created, add-refused}
use clibrary.Timer.Wheel.{At, ahead}
use clibrary.Timer.Wheel.Ticks.{InTime}
use clibrary.Timer.Wheel.Check.{total, IsSynced, check_wheel_lem}
use clibrary.Timer.Wheel.Add.{timed, add_wheel_lem}
use clibrary.Base.{◌-◌, ◌⊎◌}
use clibrary.Timer.Wheel.Limit.{limit_lem}
use clibrary.Timer.Wheel.Edit.{Moved, reset_wheel-IsSynced}
use clibrary.Timer.Edit.{reset_wheel, find, find_spoke}
use clibrary.Timer.{timer_wheel, sizeof_timer, sizeof_head, sizeof_elem, timer_count, timer_memsize}
use clibrary.Timer.Check.{check}
use clibrary.Timer.Edit.{reset}
use clibrary.Timer.Count.{Reach, elements, frame, created, added, checked}
use clibrary.Timer.Count.Calls.{timer_count_lem, reset-refused}
use clibrary.Base.{replicate, true, false, ◌*◌, ◌%◌, ◌^◌}

-- An element that expires at 15 on a wheel of four spokes made at 10: spoke 1, one rotation.
abbrev fifteen : Elem
fifteen = record {
  address = 100;
  expire = 15;
  rotation_cnt = 1;
  cursor = 1;
  callback = 7;
  event = 8;
}

abbrev wheel : TimerWheel
wheel = record {
  wheel_size = 4;
  create_time = 10;
  spoke_index = 0;
  last_check_relative_tick = 0;
  spokes = [] ∷ (fifteen ∷ []) ∷ [] ∷ [] ∷ [];
}

wheel_due : (s : ℕ) → s < 4 → All (At 4 s (10 + ahead 4 0 s)) (get_or wheel.spokes s [])
wheel_due zero h = tt
wheel_due (suc zero) h = (record { place = refl; small = omega arith; time = refl }, tt)
wheel_due (suc (suc zero)) h = tt
wheel_due (suc (suc (suc zero))) h = tt
wheel_due (suc (suc (suc (suc s)))) h = absurd (omega arith)

wheel-IsSynced : IsSynced wheel
wheel-IsSynced = record {
  last_in = omega arith;
  on_time = record {
    some_spokes = omega arith;
    few_spokes = omega arith;
    all_spokes = refl;
    index_in = omega arith;
    begun = omega arith;
    phase = refl;
    due = wheel_due;
  };
}

check_wheel_run : (check_wheel wheel 15 10).count ≡ 0
unfolding check_wheel ticks tick visit_spoke
check_wheel_run = refl

check_wheel_next_run : (check_wheel wheel 16 10).fired ≡ record fifteen { rotation_cnt = 0 } ∷ []
unfolding check_wheel ticks tick visit_spoke
check_wheel_next_run = refl

check_wheel_lem_example :
    let out = check_wheel wheel 16 10 in
    All (InTime 10 16) out.fired
    × All (All (λ e. 16 ≤ e.expire)) out.wheel.spokes
    × (total out.wheel.spokes + length out.fired ≡ total wheel.spokes)
    × (out.count ≡ length out.fired)
    × IsSynced out.wheel
    × (out.wheel.create_time + out.wheel.last_check_relative_tick ≡ 16)
unfolding total
check_wheel_lem_example =
    check_wheel_lem 16 10 wheel-IsSynced (omega arith) (omega arith) (omega arith) (omega arith)
      (omega arith)

add_wheel_lem_example :
    let w' = add_wheel wheel 10 6 fifteen in
    (s : ℕ) × (s < 4)
    × (w'.spokes ≡ set wheel.spokes s (get_or wheel.spokes s [] ++ timed 4 s 10 6 fifteen ∷ []))
    × (w'.wheel_size ≡ 4)
    × IsSynced w'
    × (w'.create_time + w'.last_check_relative_tick ≡ 10)
add_wheel_lem_example =
    add_wheel_lem 10 6 fifteen (inl (wheel-IsSynced, refl)) (omega arith) (omega arith)
      (omega arith)

abbrev at_time : ℕ → Elem
at_time t = record {
  address = t;
  expire = t;
  rotation_cnt = 0;
  cursor = 0;
  callback = 1;
  event = 2;
}

three-IsSorted : IsSorted (at_time 3 ∷ at_time 5 ∷ at_time 9 ∷ [])
three-IsSorted = ((omega arith, (omega arith, tt)), ((omega arith, tt), (tt, tt)))

visit_queue-Front_example :
    Front 8 5 0
      (at_time 3 ∷ at_time 5 ∷ at_time 9 ∷ [])
      (visit_queue 8 5 0 (at_time 3 ∷ at_time 5 ∷ at_time 9 ∷ []))
visit_queue-Front_example =
    visit_queue-Front 8 5 0 (at_time 3 ∷ at_time 5 ∷ at_time 9 ∷ []) three-IsSorted (omega arith)
      (omega arith)

-- The queue timer as `zx_timer_create` makes it.
abbrev new_queue : TimerQueue
new_queue = record { last_expire_time = ulong_max; queue = [] }

abbrev new_timer : Timer
new_timer = record { body = timer_queue new_queue; elem_cnt = 0; mem_ocupy = 64 }

create_run : create 0 0 ≡ some new_timer
unfolding create
create_run = refl

ten_later : add64 1000 10 ≢ ulong_max
ten_later h = omega arith

add-refused_example : add new_timer 1000 10 1 2 3 ≡ (new_timer, none)
add-refused_example = add-refused new_timer 1000 10 1 2 3 (created refl) refl ten_later

abbrev one_wheel : Timer
one_wheel = record {
  body = timer_wheel (record {
    wheel_size = 4;
    create_time = ulong_max;
    spoke_index = 0;
    last_check_relative_tick = ulong_max;
    spokes = replicate 4 [];
  });
  elem_cnt = 0;
  mem_ocupy = add64 sizeof_timer (sizeof_head * 4);
}

-- An element is added to a new wheel, and the wheel is checked.
abbrev wheel_checked : Timer
wheel_checked = (check (add one_wheel 10 5 7 8 100).0 20 10).timer

wheel_checked-Reach : Reach wheel_checked
unfolding create
wheel_checked-Reach = checked 20 10 (added 10 5 7 8 100 (created 4 1 refl))

timer_count_lem_example :
    (timer_count wheel_checked ≡ elements wheel_checked.body % 2 ^ 64)
    × (timer_memsize wheel_checked
        ≡ (frame wheel_checked.body + sizeof_elem * elements wheel_checked.body) % 2 ^ 64)
timer_count_lem_example = timer_count_lem wheel_checked-Reach

-- A queue timer with an element of the time 15 at the address 100 and one of 25 at 200, and what a
-- reset of the first to 16 leaves of it.
abbrev two_queued : Timer
two_queued = record {
  body = timer_queue (record {
    last_expire_time = 25;
    queue = record fifteen { expire = 15 } ∷ record fifteen { address = 200; expire = 25 } ∷ [];
  });
  elem_cnt = 2;
  mem_ocupy = 160;
}

abbrev one_queued : Timer
one_queued = record {
  body = timer_queue (record {
    last_expire_time = 25;
    queue = record fifteen { address = 200; expire = 25 } ∷ [];
  });
  elem_cnt = 2;
  mem_ocupy = 160;
}

reset-refused_example :
    (elements one_queued.body + 1 ≡ elements two_queued.body)
    × (timer_count one_queued ≡ timer_count two_queued)
    × (timer_memsize one_queued ≡ timer_memsize two_queued)
unfolding reset
reset-refused_example = reset-refused two_queued one_queued 100 10 6 refl

reset_wheel-IsSynced_example : Moved 100 wheel fifteen 10 6 (reset_wheel wheel fifteen 10 6)
unfolding find_spoke find
reset_wheel-IsSynced_example =
    reset_wheel-IsSynced 100 10 6 wheel fifteen wheel-IsSynced refl refl (omega arith) (omega arith)
      (omega arith)

-- With no callback allowed, the check at 17 stops at the tick of 15.
limit_lem_example :
    let out = (check_wheel wheel 17 0).wheel in
    (k : ℕ) × (10 + k < 17)
    × ((ticks k 0 0 wheel).full ≡ false)
    × ((ticks (suc k) 0 0 wheel).full ≡ true)
    × ((check_wheel wheel 17 0).fired ≡ (ticks (suc k) 0 0 wheel).fired)
    × (out.spokes ≡ (ticks (suc k) 0 0 wheel).wheel.spokes)
    × (out.spoke_index ≡ (0 + k) % 4)
    × (out.create_time + out.last_check_relative_tick ≡ 17)
    × (((17 - 10 - k) % 4 ≡ 0) ⊎ ¬ IsSynced out)
unfolding ticks tick visit_spoke
limit_lem_example =
    limit_lem 17 0 wheel wheel-IsSynced (omega arith) (omega arith) (omega arith) refl
