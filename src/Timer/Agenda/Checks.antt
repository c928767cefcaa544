-- ===== src/Timer/Agenda/Checks.antt =====
-- timer.c: `zx_timer_check` on the agenda of a wheel.
use mathlib.Core.List.{Perm}
use mathlib.Core.List.Perm
use mathlib.Core.Path.{subst}
use clibrary.Base.{
  ℕ, zero, suc, ◌+◌, ◌^◌, ◌≤◌, ◌<◌, ◌≡◌, ◌⊎◌, inl, inr, refl, sym, ap, ◌∙◌, true, false, List, [],
  ◌∷◌, ◌++◌, map, All, All-append, All-map, Bool-cases, append-nil, replicate, arith, ◌==◌,
  ulong_max, sub64,
}
use clibrary.Timer.{Elem, TimerWheel}
use clibrary.Timer.Check.{Turned, check_wheel}
use clibrary.Timer.Count.{IsFramed}
use clibrary.Timer.Count.Ticks.{ticks_lem}
use clibrary.Timer.Wheel.Add.{IsIdle}
use clibrary.Timer.Wheel.Check.{total, IsSynced, check_wheel_lem}
use clibrary.Timer.Wheel.Edit.{OnTime-IsFramed}
use clibrary.Timer.Wheel.Ticks.{InTime}
use clibrary.Timer.Agenda.{Due, due_of, agenda}
use clibrary.Timer.Agenda.Bag.{ticks-Perm}

-- A wheel at a time: checked at that time, or new.
abbrev pub IsReady : TimerWheel → ℕ → Type 0
IsReady w now =
    IsSynced w × (w.create_time + w.last_check_relative_tick ≡ now)
    ⊎ IsIdle w × (w.create_time ≡ ulong_max)

pub agenda-replicate : (n : ℕ) → agenda (replicate n []) ≡ []
agenda-replicate zero = refl
agenda-replicate (suc n) = agenda-replicate n

map-All : (P : Due → Type 0) (es : List Elem) → All (λ e. P (due_of e)) es → All P (map due_of es)
map-All P [] h = tt
map-All P (e ∷ es) h = (h.0, map-All P es h.1)

agenda-All :
    (P : Due → Type 0) (ess : List (List Elem))
    → All (All (λ e. P (due_of e))) ess
    → All P (agenda ess)
agenda-All P [] h = tt
agenda-All P (es ∷ ess) h =
    All-append P (map due_of es) (agenda ess) (map-All P es h.0) (agenda-All P ess h.1)

-- What a check does: it fires the events whose time is past, and keeps the others.
pub record Checks (w : TimerWheel) (current : ℕ) (out : Turned) : Type 0 where
  pub bag : Perm (agenda out.wheel.spokes ++ map due_of out.fired) (agenda w.spokes)
  pub late : All (λ d. current ≤ d.expire) (agenda out.wheel.spokes)
  pub early : All (λ d. d.expire < current) (map due_of out.fired)
  pub ready : IsReady out.wheel current
  pub size : out.wheel.wheel_size ≡ w.wheel_size
  pub few : total out.wheel.spokes ≤ total w.spokes

check_wheel-Perm :
    (w : TimerWheel) (current most : ℕ)
    → IsFramed w
    → let out = check_wheel w current most in
      Perm (agenda out.wheel.spokes ++ map due_of out.fired) (agenda w.spokes)
      × (out.wheel.wheel_size ≡ w.wheel_size)
unfolding check_wheel
check_wheel-Perm w current most f =
    let n = sub64 (sub64 current w.create_time) w.last_check_relative_tick in
    elim (Bool-cases (w.create_time == ulong_max)) [
      | inl new ↦ rw new (rw (append-nil (agenda w.spokes)) (Perm.refl (agenda w.spokes)), refl)
      | inr begun ↦ rw begun (ticks-Perm n most 0 f, (ticks_lem n most 0 f).1)
    ]

unstarted_lem :
    (w : TimerWheel) (current most : ℕ)
    → w.create_time ≡ ulong_max
    → check_wheel w current most ≡ record { wheel = w; fired = []; count = 0; full = false }
unfolding check_wheel
unstarted_lem w current most new =
    let e : (w.create_time == ulong_max) ≡ true = ground arith in rw (e) refl

idle-Checks :
    (w : TimerWheel) (current : ℕ)
    → IsIdle w
    → w.create_time ≡ ulong_max
    → Checks w current (record { wheel = w; fired = []; count = 0; full = false })
idle-Checks w current idle new =
    let empty : agenda w.spokes ≡ [] = ap agenda idle.no_elements ∙ agenda-replicate w.wheel_size in
    record {
      bag = rw (append-nil (agenda w.spokes)) (Perm.refl (agenda w.spokes));
      late = subst (All (λ d. current ≤ d.expire)) (sym empty) tt;
      early = tt;
      ready = inr (idle, new);
      size = refl;
      few = omega arith;
    }

pub check_wheel-Checks :
    (w : TimerWheel) (now current most : ℕ)
    → IsReady w now
    → now ≤ current
    → current < ulong_max
    → current < now + 2 ^ 31
    → total w.spokes ≤ most
    → most < 2 ^ 64
    → Checks w current (check_wheel w current most)
check_wheel-Checks w now current most (inl (sy, at)) from to soon enough small =
    let last = w.create_time + w.last_check_relative_tick in
    let (bag, size) = check_wheel-Perm w current most (OnTime-IsFramed sy.on_time) in
    let (fired, kept, sum, _, sy', at') =
      check_wheel_lem current most sy (omega (arith, at)) to (omega (arith, at)) enough small in
    record {
      bag = bag;
      late = agenda-All (λ d. current ≤ d.expire) _ kept;
      early =
          map-All (λ d. d.expire < current) _
            (All-map (InTime last current) (λ e. e.expire < current) (λ e h. h.1) _ fired);
      ready = inl (sy', at');
      size = size;
      few = omega (arith, sum);
    }
check_wheel-Checks w now current most (inr (idle, new)) from to soon enough small =
    subst (Checks w current) (sym (unstarted_lem w current most new))
      (idle-Checks w current idle new)
