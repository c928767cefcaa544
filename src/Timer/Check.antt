-- ===== src/Timer/Check.antt =====
-- timer.c: `zx_timer_check`. A callback is called with the element's event and nothing else; the
-- model lists the elements whose callbacks are called, in order, and assumes that a callback does
-- not itself call the timer.
use clibrary.Base.{
  ℕ, zero, suc, ◌+◌, ◌-◌, ◌%◌, ◌^◌, Bool, true, false, not, List, [], ◌∷◌, ◌++◌, get_or, set, ltb,
  leb, ◌==◌, if◌then◌else◌, ulong_max, add64, sub64,
}
use clibrary.Timer.{Elem, TimerWheel, timer_queue, timer_wheel, Timer, uncounted}

-- `fired` in the order of the calls, `count` is `cb_cnt`, `full` is `cb_max_flag`.
pub record Visit : Type 0 where
  pub kept : List Elem
  pub fired : List Elem
  pub count : ℕ
  pub full : Bool

abbrev pub keep : Elem → Visit → Visit
keep e v = record v { kept = e ∷ v.kept }

abbrev fire : Elem → Visit → Visit
fire e v = record v { fired = e ∷ v.fired }

abbrev pub stop : List Elem → ℕ → Bool → Visit
stop es count full = record { kept = es; fired = []; count = count; full = full }

-- The `while` over a queue timer: it ends at the limit, and at the first element not yet due.
unfoldable pub visit_queue : ℕ → ℕ → ℕ → List Elem → Visit
visit_queue most current count [] = stop [] count false
visit_queue most current count (e ∷ es) =
    let rest = visit_queue most current (add64 count 1) es in
    if leb most count
    then stop (e ∷ es) count true
    else if ltb current e.expire
    then stop (e ∷ es) count false
    else fire e rest

-- `rotation_cnt --` on an int
abbrev pub turned : Elem → Elem
turned e = record e { rotation_cnt = (e.rotation_cnt + (2 ^ 32 - 1)) % 2 ^ 32 }

-- The `while` over one spoke: an element with rotations left loses one, any other is due.
unfoldable pub visit_spoke : ℕ → ℕ → List Elem → Visit
visit_spoke most count [] = stop [] count false
visit_spoke most count (e ∷ es) =
    let stay = visit_spoke most count es in
    let rest = visit_spoke most (add64 count 1) es in
    if not (e.rotation_cnt == 0)
    then keep (turned e) stay
    else if leb most count
    then stop (e ∷ es) count true
    else fire e rest

pub record Turned : Type 0 where
  pub wheel : TimerWheel
  pub fired : List Elem
  pub count : ℕ
  pub full : Bool

-- One tick: the spoke under the index, and the index moved on unless the limit stopped the visit.
unfoldable pub tick : ℕ → ℕ → TimerWheel → Turned
tick most count w =
    let v = visit_spoke most count (get_or w.spokes w.spoke_index []) in
    let w' = record w { spokes = set w.spokes w.spoke_index v.kept } in
    record {
      wheel =
          if v.full then w' else record w' { spoke_index = add64 w.spoke_index 1 % w.wheel_size };
      fired = v.fired;
      count = v.count;
      full = v.full;
    }

-- The `for` over the ticks since the last check. Its `i` is an int, so that C gives the loop a meaning
-- up to 2 ^ 31 - 1 ticks.
unfoldable pub ticks : ℕ → ℕ → ℕ → TimerWheel → Turned
ticks zero most count w = record { wheel = w; fired = []; count = count; full = false }
ticks (suc n) most count w =
    let now = tick most count w in
    let later = ticks n most now.count now.wheel in
    if now.full then now else record later { fired = now.fired ++ later.fired }

-- An unstarted wheel has nothing to do.
unfoldable pub check_wheel : TimerWheel → ℕ → ℕ → Turned
check_wheel w current most =
    let n = sub64 (sub64 current w.create_time) w.last_check_relative_tick in
    let done = ticks n most 0 w in
    let checked : Turned = record done {
      wheel = record (done.wheel) { last_check_relative_tick = sub64 current w.create_time };
    } in
    if w.create_time == ulong_max
    then record { wheel = w; fired = []; count = 0; full = false }
    else checked

-- The statistics lose each element that fires.
unfoldable pub uncount : List Elem → Timer → Timer
uncount [] t = t
uncount (e ∷ es) t = uncount es (uncounted t)

pub record Checked : Type 0 where
  pub timer : Timer
  pub fired : List Elem
  pub count : ℕ

-- `zx_timer_check` returns `count`.
unfoldable pub check : Timer → ℕ → ℕ → Checked
check t current most = elim t.body [
  | timer_queue q ↦
      let v = visit_queue most current 0 q.queue in
      record {
        timer = uncount v.fired (record t { body = timer_queue (record q { queue = v.kept }) });
        fired = v.fired;
        count = v.count;
      }
  | timer_wheel w ↦
      let v = check_wheel w current most in
      record {
        timer = uncount v.fired (record t { body = timer_wheel (v.wheel) });
        fired = v.fired;
        count = v.count;
      }
]
