-- ===== src/Timer/Count/Lose.antt =====
-- timer.c: `zx_timer_del` and `zx_timer_check` keep the statistics.
use clibrary.Base.{
  some_lem, ℕ, ◌+◌, ◌*◌, ◌^◌, ◌%◌, ◌≡◌, inl, inr, refl, sym, ap, ◌∙◌, Bool-cases, some, List, [],
  ◌∷◌, length, ◌==◌, add64, sub64, ulong_max, arith,
}
use mathlib.Core.Path.{subst}
use clibrary.Timer.{Elem, TimerWheel, Body, timer_queue, timer_wheel, Timer, uncounted, sizeof_elem}
use clibrary.Timer.Check.{visit_queue, check_wheel, uncount, check}
use clibrary.Timer.Edit.{find, find_spoke, unqueue, unspoke, del, called}
use clibrary.Timer.Wheel.Check.{total}
use clibrary.Timer.Count.{IsFramed, elements, frame, Framed, IsCounted}
use clibrary.Timer.Count.Spokes.{remove-length, unspoke_lem}
use clibrary.Timer.Count.Ticks.{ticks_lem}

uncount_lem :
    (es : List Elem) (t : Timer) (n k : ℕ)
    → t.elem_cnt ≡ (n + length es) % 2 ^ 64
    → t.mem_ocupy ≡ (k + sizeof_elem * (n + length es)) % 2 ^ 64
    → ((uncount es t).elem_cnt ≡ n % 2 ^ 64)
      × ((uncount es t).mem_ocupy ≡ (k + sizeof_elem * n) % 2 ^ 64)
      × ((uncount es t).body ≡ t.body)
unfolding uncount
uncount_lem [] t n k c m = (omega arith, omega arith, refl)
uncount_lem (e ∷ es) t n k c m = uncount_lem es (uncounted t) n k (omega arith) (omega arith)

uncount-IsCounted :
    (es : List Elem) (t : Timer) (b : Body)
    → IsCounted t
    → Framed b
    → frame b ≡ frame t.body
    → elements b + length es ≡ elements t.body
    → IsCounted (uncount es (record t { body = b }))
uncount-IsCounted es t b c f same fewer =
    let (count, memory, body) =
      uncount_lem es (record t { body = b }) (elements b) (frame b) (omega (arith, c.count, fewer))
        (omega (arith, c.memory, same, fewer)) in
    record {
      framed = subst Framed (sym body) f;
      count = count ∙ ap (λ x. elements x % 2 ^ 64) (sym body);
      memory = memory ∙ ap (λ x. (frame x + sizeof_elem * elements x) % 2 ^ 64) (sym body);
    }

pub deleted-IsCounted :
    (b : Body) (n m index callback para expire : ℕ) (calls : List (ℕ × ℕ)) {t' : Timer}
    → let t : Timer = record { body = b; elem_cnt = n; mem_ocupy = m } in
      IsCounted t → del t index callback para ≡ some (t', expire, calls) → IsCounted t'
unfolding del unqueue uncount
deleted-IsCounted (timer_queue q) n m index callback para expire calls c h =
    let t : Timer = record { body = timer_queue q; elem_cnt = n; mem_ocupy = m } in
    let (e, hit, same) =
      some_lem
        (λ (e : Elem). (
          uncounted (record t { body = timer_queue (unqueue q index) }),
          e.expire,
          called callback para,
        ))
        (find index q.queue) h in
    subst IsCounted (ap (λ r. r.0) same) (
      uncount-IsCounted (e ∷ []) t (timer_queue (unqueue q index)) c tt refl
        (remove-length index q.queue hit))
deleted-IsCounted (timer_wheel w) n m index callback para expire calls c h =
    let t : Timer = record { body = timer_wheel w; elem_cnt = n; mem_ocupy = m } in
    let (e, hit, same) =
      some_lem
        (λ (e : Elem). (
          uncounted (record t { body = timer_wheel (unspoke w e) }),
          e.expire,
          called callback para,
        ))
        (find_spoke index w.spokes) h in
    let (framed, fewer) = unspoke_lem index c.framed hit in
    subst IsCounted (ap (λ r. r.0) same)
      (uncount-IsCounted (e ∷ []) t (timer_wheel (unspoke w e)) c framed refl fewer)

visit_queue-length :
    (most current count : ℕ) (es : List Elem)
    → let v = visit_queue most current count es in length v.kept + length v.fired ≡ length es
unfolding visit_queue
visit_queue-length most current count [] = refl
visit_queue-length most current count (e ∷ es) =
    ground (arith, visit_queue-length most current (add64 count 1) es)

check_wheel_frame :
    {w : TimerWheel} (current most : ℕ)
    → IsFramed w
    → let out = check_wheel w current most in
      IsFramed out.wheel
      × (out.wheel.wheel_size ≡ w.wheel_size)
      × (total out.wheel.spokes + length out.fired ≡ total w.spokes)
unfolding check_wheel
check_wheel_frame {w} current most f = elim (Bool-cases (w.create_time == ulong_max)) [
  | inl e ↦ rw e (f, refl, omega arith)
  | inr e ↦
      let (framed, size, sum) =
        ticks_lem (sub64 (sub64 current w.create_time) w.last_check_relative_tick) most 0 f in
      rw e (
        record {
          some_spokes = framed.some_spokes;
          all_spokes = framed.all_spokes;
          index_in = framed.index_in;
          placed = framed.placed;
        },
        size,
        sum,
      )
]

pub checked-IsCounted :
    (b : Body) (n m current most : ℕ)
    → let t : Timer = record { body = b; elem_cnt = n; mem_ocupy = m } in
      IsCounted t → IsCounted (check t current most).timer
unfolding check
checked-IsCounted (timer_queue q) n m current most c =
    let v = visit_queue most current 0 q.queue in
    uncount-IsCounted v.fired (record { body = timer_queue q; elem_cnt = n; mem_ocupy = m })
      (timer_queue (record q { queue = v.kept })) c tt refl
      (visit_queue-length most current 0 q.queue)
checked-IsCounted (timer_wheel w) n m current most c =
    let v = check_wheel w current most in
    let (framed, size, sum) = check_wheel_frame current most c.framed in
    uncount-IsCounted v.fired (record { body = timer_wheel w; elem_cnt = n; mem_ocupy = m })
      (timer_wheel v.wheel) c framed (omega (arith, size)) sum
