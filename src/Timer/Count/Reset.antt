-- ===== src/Timer/Count/Reset.antt =====
-- timer.c: what `zx_timer_reset` does to the number of elements.
use clibrary.Base.{
  some_lem, ℕ, ◌+◌, ◌^◌, ◌%◌, ◌/◌, ◌≡◌, ◌⊎◌, inl, inr, refl, sym, ap, ◌∙◌, true, false, some, List,
  [], ◌∷◌, length, length-append, add64, arith,
}
use mathlib.Core.Bool.{false≢true}
use mathlib.Core.Path.{subst}
use clibrary.Timer.{
  Elem, TimerQueue, TimerWheel, Body, timer_queue, timer_wheel, Timer, start_wheel,
}
use clibrary.Timer.Edit.{
  find, find_spoke, remove, unqueue, unspoke, reset_queue, reset_wheel, reset,
}
use clibrary.Timer.Wheel.Check.{total}
use clibrary.Timer.Count.{IsFramed, elements, frame, Framed, IsCounted}
use clibrary.Timer.Count.Spokes.{
  remove-length, find-address, unspoke_lem, start_wheel-IsFramed, insert_spoke_lem,
}

kept-IsCounted :
    (t : Timer) (b : Body)
    → IsCounted t
    → Framed b
    → frame b ≡ frame t.body
    → elements b ≡ elements t.body
    → IsCounted (record t { body = b })
kept-IsCounted t b c f same many = record {
  framed = f;
  count = omega (arith, c.count, many);
  memory = omega (arith, c.memory, same, many);
}

-- A reset of a queue timer that fails leaves one element less.
reset_queue_lem :
    (q : TimerQueue) (current timeout : ℕ) {e : Elem}
    → find e.address q.queue ≡ some e
    → let out = reset_queue q e current timeout in
      (out.1 ≡ true) × (length out.0.queue ≡ length q.queue)
      ⊎ (out.1 ≡ false) × (length out.0.queue + 1 ≡ length q.queue)
unfolding reset_queue unqueue
reset_queue_lem q current timeout {e} hit = ground (
  arith,
  remove-length e.address q.queue hit,
  length-append (remove e.address q.queue) (record e { expire = add64 current timeout } ∷ []),
)

pub reset_wheel_lem :
    (a : ℕ) {w : TimerWheel} (current timeout : ℕ) {e : Elem}
    → IsFramed w
    → find_spoke a w.spokes ≡ some e
    → let w' = reset_wheel w e current timeout in
      IsFramed w' × (w'.wheel_size ≡ w.wheel_size) × (total w'.spokes ≡ total w.spokes)
unfolding reset_wheel
reset_wheel_lem a {w} current timeout {e} f h =
    let (framed, fewer) = unspoke_lem a f h in
    let (framed', spokes, size) = start_wheel-IsFramed current framed in
    let placed : Elem = record e {
      expire = add64 current timeout;
      rotation_cnt = timeout / (start_wheel (unspoke w e) current).wheel_size % 2 ^ 32;
    } in
    let (framed'', more) = insert_spoke_lem current timeout placed framed' in
    (framed'', size, more ∙ ap (λ ess. total ess + 1) spokes ∙ fewer)

-- An element that is found under a handle has the handle as its address.
find_self : (a : ℕ) (es : List Elem) {e : Elem} → find a es ≡ some e → find e.address es ≡ some e
find_self a es {e} hit = subst (λ x. find x es ≡ some e) (sym (find-address a es hit)) hit

pub moved-IsCounted :
    (b : Body) (n m index current timeout : ℕ) {t' : Timer}
    → let t : Timer = record { body = b; elem_cnt = n; mem_ocupy = m } in
      IsCounted t → reset t index current timeout ≡ some (t', true) → IsCounted t'
unfolding reset
moved-IsCounted (timer_queue q) n m index current timeout c h =
    let t : Timer = record { body = timer_queue q; elem_cnt = n; mem_ocupy = m } in
    let (e, hit, same) =
      some_lem
        (λ (e : Elem).
          let out = reset_queue q e current timeout in
          (record t { body = timer_queue out.0 }, out.1))
        (find index q.queue) h in
    let there : find e.address q.queue ≡ some e = find_self index q.queue hit in
    elim (reset_queue_lem q current timeout there) [
      | inl (_, many) ↦
          subst IsCounted (ap (λ r. r.0) same)
            (kept-IsCounted t (timer_queue (reset_queue q e current timeout).0) c tt refl many)
      | inr (refused, _) ↦ absurd (false≢true (sym refused ∙ ap (λ r. r.1) same))
    ]
moved-IsCounted (timer_wheel w) n m index current timeout c h =
    let t : Timer = record { body = timer_wheel w; elem_cnt = n; mem_ocupy = m } in
    let (e, hit, same) =
      some_lem
        (λ (e : Elem). (record t { body = timer_wheel (reset_wheel w e current timeout) }, true))
        (find_spoke index w.spokes) h in
    let (framed, size, many) = reset_wheel_lem index current timeout c.framed hit in
    subst IsCounted (ap (λ r. r.0) same) (
      kept-IsCounted t (timer_wheel (reset_wheel w e current timeout)) c framed
        (omega (arith, size)) many)

pub refused_lem :
    (b : Body) (n m index current timeout : ℕ) {t' : Timer}
    → let t : Timer = record { body = b; elem_cnt = n; mem_ocupy = m } in
      reset t index current timeout ≡ some (t', false)
      → (elements t'.body + 1 ≡ elements b) × (t'.elem_cnt ≡ n) × (t'.mem_ocupy ≡ m)
unfolding reset
refused_lem (timer_queue q) n m index current timeout h =
    let t : Timer = record { body = timer_queue q; elem_cnt = n; mem_ocupy = m } in
    let (e, hit, same) =
      some_lem
        (λ (e : Elem).
          let out = reset_queue q e current timeout in
          (record t { body = timer_queue out.0 }, out.1))
        (find index q.queue) h in
    elim (reset_queue_lem q current timeout (find_self index q.queue hit)) [
      | inl (went, _) ↦ absurd (false≢true (sym (ap (λ r. r.1) same) ∙ went))
      | inr (_, fewer) ↦
          subst (λ u. (elements u.body + 1 ≡ length q.queue) × (u.elem_cnt ≡ n) × (u.mem_ocupy ≡ m))
            (ap (λ r. r.0) same) (fewer, refl, refl)
    ]
refused_lem (timer_wheel w) n m index current timeout h =
    let t : Timer = record { body = timer_wheel w; elem_cnt = n; mem_ocupy = m } in
    let (e, hit, same) =
      some_lem
        (λ (e : Elem). (record t { body = timer_wheel (reset_wheel w e current timeout) }, true))
        (find_spoke index w.spokes) h in
    absurd (false≢true (sym (ap (λ r. r.1) same)))
