-- ===== src/Timer/Agenda/Refine.antt =====
-- timer.c: a session on a wheel timer against the session on its agenda.
use mathlib.Core.List.Perm
use mathlib.Core.Path.{subst}
use clibrary.Base.{
  ℕ, suc, ◌-◌, ◌*◌, ◌^◌, ◌≤◌, ◌<◌, ◌≡◌, inl, inr, refl, sym, ap, false, Option-cases, some, List,
  [], ◌∷◌, replicate, arith, ulong_max, add64, ◌==◌, ◌||◌, ltb,
}
use clibrary.Timer.{
  Elem, TimerWheel, timer_wheel, Timer, create, add, add_wheel, fresh, uncounted, sizeof_timer,
  sizeof_head, max_wheel_size,
}
use clibrary.Timer.Check.{check, check_wheel, uncount}
use clibrary.Timer.Edit.{find_spoke, unspoke, reset_wheel, del, reset}
use clibrary.Timer.Count.Spokes.{total-replicate}
use clibrary.Timer.Agenda.{
  Due, due_of, pending, Call, checking, adding, deleting, moving, removed, before, play, Plays,
  ends, checks, adds, deletes, moves, strays, strays_moving, IsAllowed,
}
use clibrary.Timer.Agenda.Stands.{
  Stands, check-Stands, add-Stands, del-Stands, Stands-le, reset-Stands, none-Stands,
}
use clibrary.Timer.Agenda.Checks.{agenda-replicate}

pub uncount-body : (fired : List Elem) (t : Timer) → (uncount fired t).body ≡ t.body
unfolding uncount
uncount-body [] t = refl
uncount-body (e ∷ es) t = uncount-body es (uncounted t)

-- A wheel timer with its statistics.
abbrev wheel_timer : ℕ → ℕ → TimerWheel → Timer
wheel_timer c m w = record { body = timer_wheel w; elem_cnt = c; mem_ocupy = m }

uncount-wheel :
    (fired : List Elem) (c m : ℕ) (w : TimerWheel)
    → let t = uncount fired (wheel_timer c m w) in t ≡ wheel_timer t.elem_cnt t.mem_ocupy w
uncount-wheel fired c m w =
    let t = uncount fired (wheel_timer c m w) in
    ap (λ b. record t { body = b }) (uncount-body fired (wheel_timer c m w))

module _ (most size : ℕ) (small : most < 2 ^ 64) where
  play-Plays :
      (cs : List Call) (now n c m : ℕ) (ds : List Due) (w : TimerWheel)
      → Stands size now n ds w
      → now < ulong_max
      → n ≤ most
      → IsAllowed most size now n cs
      → Plays now ds cs (play most cs now (wheel_timer c m w))
  unfolding play check add del reset
  play-Plays [] now n c m ds w s fits le h = ends now ds
  play-Plays (checking current ∷ cs) now n c m ds w s fits le h =
      let out = check_wheel w current most in
      let (fired, s') = check-Stands size now n most current ds w s h.0 h.2 h.1 le small in
      let t' = uncount out.fired (wheel_timer c m (out.wheel)) in
      let rest =
        play-Plays cs current n t'.elem_cnt t'.mem_ocupy (pending current ds) (out.wheel) s' h.2 le
          h.3 in
      checks now current ds out.fired fired (
        subst (λ t. Plays current (pending current ds) cs (play most cs current t))
          (sym (uncount-wheel out.fired c m (out.wheel))) rest)
  play-Plays (adding timeout callback event address ∷ cs) now n c m ds w s fits le h =
      let e = fresh callback event address in
      let s' = add-Stands size now n timeout e ds w s fits h.0 h.1 in
      adds now timeout callback event address ds
        (play-Plays cs now (suc n) _ _ _ (add_wheel w now timeout e) s' fits h.2 h.3)
  play-Plays (deleting index ∷ cs) now n c m ds w s fits le h =
      elim (Option-cases (find_spoke index w.spokes)) [
        | inl miss ↦
            rw (miss, play) (strays now ds index (none-Stands size now n index ds w s miss))
        | inr (e, hit) ↦
            let (same, bag, pos, s') = del-Stands size now n index ds w s hit in
            let t' = uncounted (wheel_timer c m (unspoke w e)) in
            let kept = Stands-le size now n (n - 1) _ _ (omega arith) s' in
            let rest =
              play-Plays cs now n t'.elem_cnt t'.mem_ocupy _ (unspoke w e) kept fits le h in
            rw (hit, play)
              (subst
                (λ i.
                  Plays now ds (deleting i ∷ cs) (before (removed e.expire) (play most cs now t')))
                same (deletes now (due_of e) ds _ bag rest))
      ]
  play-Plays (moving index timeout ∷ cs) now n c m ds w s fits le h =
      elim (Option-cases (find_spoke index w.spokes)) [
        | inl miss ↦
            rw (miss, play)
              (strays_moving now ds index timeout (none-Stands size now n index ds w s miss))
        | inr (e, hit) ↦
            let (same, bag, pos, s') = del-Stands size now n index ds w s hit in
            let s'' = reset-Stands size now n timeout e _ w s' pos fits h.0 h.1 in
            let rest = play-Plays cs now n c m _ (reset_wheel w e now timeout) s'' fits le h.2 in
            rw (hit, play)
              (subst
                (λ i.
                  Plays now ds (moving i timeout ∷ cs)
                    (play most cs now (wheel_timer c m (reset_wheel w e now timeout))))
                same (moves now (due_of e) ds _ timeout bag rest))
      ]

-- On a wheel timer as `zx_timer_create` makes it, and for any session of calls in which each add,
-- delete and reset is made at the time of the check before it, the times do not go back, a check
-- comes fewer than 2 ^ 31 ticks behind the one before, times and rotations fit their fields and
-- the limit of callbacks is no lower than the number of adds: the timer does what an agenda does.
-- Each check fires exactly the events whose time is before the check's, an add brings in one
-- event with the time `now + timeout`, a delete takes out the event of its handle and returns its
-- time, and a reset gives it the time `now + timeout`; a handle that names no event is the only
-- one that is not found.
pub play-agenda :
    (most size now : ℕ) (cs : List Call)
    → 0 < size
    → size ≤ max_wheel_size
    → most < 2 ^ 64
    → now < ulong_max
    → IsAllowed most size now 0 cs
    → (t : Timer) × (create size 1 ≡ some t) × Plays now [] cs (play most cs now t)
unfolding create
play-agenda most size now cs pos fits small early h =
    let w : TimerWheel = record {
      wheel_size = size;
      create_time = ulong_max;
      spoke_index = 0;
      last_check_relative_tick = ulong_max;
      spokes = replicate size [];
    } in
    let refused : ((size == 0) || ltb max_wheel_size size) ≡ false = ground arith in
    let s : Stands size now 0 [] w = record {
      ready = inr (
        record { unstarted = refl; some_spokes = pos; few_spokes = fits; no_elements = refl },
        refl,
      );
      bag = rw (agenda-replicate size) Perm.nil;
      few = omega (arith, total-replicate size);
      same = refl;
    } in
    (
      wheel_timer 0 (add64 sizeof_timer (sizeof_head * size)) w,
      rw (refused) refl,
      play-Plays most size small cs now 0 0 _ [] w s early (omega arith) h,
    )
