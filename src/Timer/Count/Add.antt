-- ===== src/Timer/Count/Add.antt =====
-- timer.c: `zx_timer_create` and `zx_timer_add` keep the statistics.
use clibrary.Base.{
  ℕ, ◌+◌, ◌^◌, ◌%◌, ◌/◌, ◌≡◌, ◌⊎◌, inl, inr, refl, ap, ◌∙◌, Bool, true, false, ◌||◌, Option-cases,
  Option, some, [], ◌∷◌, length-append, length-replicate, ltb, ◌==◌, add64, if◌then◌else◌, arith,
}
use mathlib.Core.Path.{subst}
use mathlib.Core.Option.{some-injective, none-ne-some}
use clibrary.Timer.{
  Elem, TimerQueue, TimerWheel, Body, timer_queue, timer_wheel, Timer, create, add, add_queue,
  add_wheel, fresh, counted, start_wheel, max_wheel_size,
}
use clibrary.Timer.Wheel.Check.{total}
use clibrary.Timer.Count.{elements, frame, Framed, IsCounted}
use clibrary.Timer.Count.Spokes.{
  Placed-replicate, total-replicate, start_wheel-IsFramed, insert_spoke_lem,
}

-- The timer with another body that holds one element more, or some fewer.
counted-IsCounted :
    (t : Timer) (b : Body)
    → IsCounted t
    → Framed b
    → frame b ≡ frame t.body
    → elements b ≡ elements t.body + 1
    → IsCounted (counted (record t { body = b }))
counted-IsCounted t b c f same more = record {
  framed = f;
  count = omega (arith, c.count, more);
  memory = omega (arith, c.memory, same, more);
}

if_some :
    {A : Type 0} (b : Bool) (x y : Option A) {a : A}
    → (if b then x else y) ≡ some a
    → (b ≡ true) × (x ≡ some a) ⊎ (b ≡ false) × (y ≡ some a)
if_some true x y h = inl (refl, h)
if_some false x y h = inr (refl, h)

pub created-IsCounted :
    (wheel_size tm_type : ℕ) {t : Timer} → create wheel_size tm_type ≡ some t → IsCounted t
unfolding create
created-IsCounted wheel_size tm_type {t} h = elim (if_some (tm_type == 0) _ _ h) [
  | inl (_, e) ↦
      subst IsCounted (some-injective _ _ e) (record { framed = tt; count = refl; memory = refl })
  | inr (_, h') ↦ elim (if_some (tm_type == 1) _ _ h') [
    | inr (_, e) ↦ absurd (none-ne-some _ e)
    | inl (_, h'') ↦ elim (if_some ((wheel_size == 0) || ltb max_wheel_size wheel_size) _ _ h'') [
      | inl (_, e) ↦ absurd (none-ne-some _ e)
      | inr (fits, e) ↦ subst IsCounted (some-injective _ _ e) (record {
        framed = record {
          some_spokes = ground arith;
          all_spokes = length-replicate wheel_size [];
          index_in = ground arith;
          placed = Placed-replicate wheel_size 0;
        };
        count = omega (arith, total-replicate wheel_size);
        memory = omega (arith, total-replicate wheel_size);
      })
    ]
  ]
]

added-queue :
    (t : Timer) (q : TimerQueue) (current timeout : ℕ) (e : Elem)
    → IsCounted (record t { body = timer_queue q })
    → {q' : TimerQueue} → add_queue q current timeout e ≡ some q'
    → IsCounted (counted (record t { body = timer_queue q' }))
unfolding add_queue
added-queue t q current timeout e c {q'} h =
    counted-IsCounted (record t { body = timer_queue q }) (timer_queue q') c tt refl
      (ground (arith, length-append q.queue (record e { expire = add64 current timeout } ∷ [])))

added-wheel :
    (t : Timer) (w : TimerWheel) (current timeout : ℕ) (e : Elem)
    → IsCounted (record t { body = timer_wheel w })
    → IsCounted (counted (record t { body = timer_wheel (add_wheel w current timeout e) }))
unfolding add_wheel
added-wheel t w current timeout e c =
    let (framed, spokes, size) = start_wheel-IsFramed current c.framed in
    let placed : Elem = record e {
      expire = add64 current timeout;
      rotation_cnt = timeout / (start_wheel w current).wheel_size % 2 ^ 32;
    } in
    let (framed', more) = insert_spoke_lem current timeout placed framed in
    counted-IsCounted (record t { body = timer_wheel w })
      (timer_wheel (add_wheel w current timeout e)) c framed' (omega (arith, size))
      (more ∙ ap (λ ess. total ess + 1) spokes)

pub added-IsCounted :
    (b : Body) (n m current timeout callback event address : ℕ)
    → let t : Timer = record { body = b; elem_cnt = n; mem_ocupy = m } in
      IsCounted t → IsCounted (add t current timeout callback event address).0
unfolding add
added-IsCounted (timer_wheel w) n m current timeout callback event address c =
    added-wheel (record { body = timer_wheel w; elem_cnt = n; mem_ocupy = m }) w current timeout
      (fresh callback event address) c
added-IsCounted (timer_queue q) n m current timeout callback event address c =
    elim (Option-cases (add_queue q current timeout (fresh callback event address))) [
      | inl e ↦ rw (e, add) c
      | inr (q', e) ↦
          rw (e, add)
            (added-queue (record { body = timer_queue q; elem_cnt = n; mem_ocupy = m }) q current
              timeout (fresh callback event address) c e)
    ]
