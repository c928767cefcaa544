-- ===== src/Timer/Wheel/Check.antt =====
-- timer.c: `zx_timer_check` on a wheel that is on time, with a limit that it does not reach.
use clibrary.Base.{
  ℕ, zero, suc, ◌+◌, ◌^◌, ◌≤◌, ◌<◌, ◌≡◌, ◌⊎◌, ◌∙◌, false, List, [], ◌∷◌, length, length-append,
  get_or, set, All, All-map, All-get_or, arith, ◌==◌, add64, sub64, ulong_max,
}
use mathlib.Core.Path.{subst}
use clibrary.Timer.{Elem, TimerWheel}
use clibrary.Timer.Check.{visit_spoke, Turned, tick, ticks, check_wheel}
use clibrary.Timer.Wheel.{ahead, At, OnTime}
use clibrary.Timer.Wheel.Ticks.{InTime, tick-OnTime, ticks-OnTime}

-- The elements of a wheel.
unfoldable pub total : List (List Elem) → ℕ
total [] = 0
total (es ∷ ess) = length es + total ess

pub total-set :
    (ess : List (List Elem)) (i : ℕ) (es : List Elem)
    → i < length ess
    → total (set ess i es) + length (get_or ess i []) ≡ total ess + length es
unfolding total
total-set [] i es h = absurd (omega arith)
total-set (x ∷ ess) zero es h = omega arith
total-set (x ∷ ess) (suc i) es h = omega (arith, total-set ess i es)

-- A visit loses what it fires, and counts it; a stop means that the limit was reached.
visit_spoke-length :
    (most count : ℕ) (es : List Elem)
    → count + length es < 2 ^ 64
    → let v = visit_spoke most count es in
      (length v.kept + length v.fired ≡ length es)
      × (v.count ≡ count + length v.fired)
      × ((v.full ≡ false) ⊎ (most < count + length es))
unfolding visit_spoke
visit_spoke-length most count [] h = ground arith
visit_spoke-length most count (e ∷ es) h =
    ground (arith, visit_spoke-length most count es, visit_spoke-length most (add64 count 1) es)

length-le-total : (ess : List (List Elem)) (i : ℕ) → length (get_or ess i []) ≤ total ess
unfolding total
length-le-total [] i = omega arith
length-le-total (es ∷ ess) zero = omega arith
length-le-total (es ∷ ess) (suc i) = omega (arith, length-le-total ess i)

-- Ticks lose what they fire, and count it; the wheel's frame stays.
record Spent (most count : ℕ) (w : TimerWheel) (out : Turned) : Type 0 where
  lost : total out.wheel.spokes + length out.fired ≡ total w.spokes
  counted : out.count ≡ count + length out.fired
  ended : (out.full ≡ false) ⊎ (most < count + total w.spokes)
  created : out.wheel.create_time ≡ w.create_time
  size : out.wheel.wheel_size ≡ w.wheel_size

tick-Spent :
    (most count : ℕ) {now : ℕ} {w : TimerWheel}
    → OnTime now w
    → count + total w.spokes < 2 ^ 64
    → Spent most count w (tick most count w)
unfolding tick
tick-Spent most count {now} {w} ot h =
    let es = get_or w.spokes w.spoke_index [] in
    let v = visit_spoke most count es in
    let few = length-le-total w.spokes w.spoke_index in
    ground (
      arith,
      few,
      visit_spoke-length most count es (omega (arith, few)),
      total-set w.spokes w.spoke_index v.kept (omega (arith, ot.index_in, ot.all_spokes)),
    )

ticks-Spent :
    (n most count : ℕ) {now : ℕ} {w : TimerWheel}
    → OnTime now w
    → count + total w.spokes < 2 ^ 64
    → total w.spokes + count ≤ most
    → Spent most count w (ticks n most count w)
unfolding ticks
ticks-Spent zero most count {now} {w} ot h enough = ground arith
ticks-Spent (suc n) most count {now} {w} ot h enough =
    let one = tick-Spent most count ot h in
    let go : (tick most count w).full ≡ false = ground (arith, one) in
    let rest =
      ticks-Spent n most (tick most count w).count (tick-OnTime ot most count go).0
        (omega (arith, one.lost, one.counted)) (omega (arith, one.lost, one.counted)) in
    rw go (record {
      lost = omega (
        arith,
        one.lost,
        rest.lost,
        length-append (tick most count w).fired
            (ticks n most (tick most count w).count (tick most count w).wheel).fired,
      );
      counted = omega (
        arith,
        one.counted,
        rest.counted,
        length-append (tick most count w).fired
            (ticks n most (tick most count w).count (tick most count w).wheel).fired,
      );
      ended = ground (arith, rest.ended, one.lost, one.counted);
      created = rest.created ∙ one.created;
      size = rest.size ∙ one.size;
    })

-- A started wheel between two calls: on time at its last check. The largest time is the code's -1.
pub record IsSynced (w : TimerWheel) : Type 0 where
  pub last_in : w.create_time + w.last_check_relative_tick < ulong_max
  pub on_time : OnTime (w.create_time + w.last_check_relative_tick) w

-- The time of the last check is no part of being on time.
OnTime-checked :
    {now : ℕ} {w : TimerWheel} (last : ℕ)
    → OnTime now w
    → OnTime now (record w { last_check_relative_tick = last })
OnTime-checked last ot = record {
  some_spokes = ot.some_spokes;
  few_spokes = ot.few_spokes;
  all_spokes = ot.all_spokes;
  index_in = ot.index_in;
  begun = ot.begun;
  phase = ot.phase;
  due = ot.due;
}

-- On time, nothing that is left has expired.
none_late : {now : ℕ} {w : TimerWheel} → OnTime now w → All (All (λ e. now ≤ e.expire)) w.spokes
none_late {now} {w} ot = All-get_or (All (λ e. now ≤ e.expire)) [] w.spokes λ s h.
    All-map (At w.wheel_size s (now + ahead w.wheel_size w.spoke_index s)) (λ e. now ≤ e.expire)
      (λ e a. omega (arith, a.time)) (get_or w.spokes s [])
      (ot.due s (omega (arith, ot.all_spokes)))

-- `zx_timer_check` on a wheel timer that is on time, at a time not before its last check and
-- below the largest `unsigned long`, fewer than 2 ^ 31 ticks after it, with a limit of callbacks no
-- lower than the number of its elements: it fires elements that expire from the last check up to, and without, the current
-- time, and keeps those that expire at the current time or later. None is lost, the result counts
-- those that fire, and the wheel is on time at the current time.
pub check_wheel_lem :
    (current most : ℕ) {w : TimerWheel}
    → IsSynced w
    → w.create_time + w.last_check_relative_tick ≤ current
    → current < ulong_max
    → current < w.create_time + w.last_check_relative_tick + 2 ^ 31
    → total w.spokes ≤ most
    → most < 2 ^ 64
    → let out = check_wheel w current most in
      All (InTime (w.create_time + w.last_check_relative_tick) current) out.fired
      × All (All (λ e. current ≤ e.expire)) out.wheel.spokes
      × (total out.wheel.spokes + length out.fired ≡ total w.spokes)
      × (out.count ≡ length out.fired)
      × IsSynced out.wheel
      × (out.wheel.create_time + out.wheel.last_check_relative_tick ≡ current)
unfolding check_wheel
check_wheel_lem current most {w} sy from to soon enough small =
    let n = sub64 (sub64 current w.create_time) w.last_check_relative_tick in
    let last = w.create_time + w.last_check_relative_tick in
    let arrive : last + n ≡ current = omega arith in
    let sp = ticks-Spent n most 0 sy.on_time (omega arith) (omega arith) in
    let done = ticks n most 0 w in
    let more : done.full ≡ false = ground (arith, sp.ended) in
    let (ot, fired) = ticks-OnTime n most 0 sy.on_time more in
    let ot' = subst (λ t. OnTime t done.wheel) arrive ot in
    let rel = sub64 current w.create_time in
    let started : (w.create_time == ulong_max) ≡ false = ground arith in
    rw started (
      subst (λ t. All (InTime last t) done.fired) arrive fired,
      none_late ot',
      sp.lost,
      sp.counted ∙ omega arith,
      record {
        last_in = omega (arith, sp.created);
        on_time =
            subst (λ t. OnTime t (record (done.wheel) { last_check_relative_tick = rel }))
              (omega (arith, sp.created)) (OnTime-checked rel ot');
      },
      omega (arith, sp.created),
    )
