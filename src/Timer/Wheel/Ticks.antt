-- ===== src/Timer/Wheel/Ticks.antt =====
-- timer.c: a tick of a wheel that is on time fires what expires at that very tick.
use clibrary.Base.{
  ℕ, zero, suc, ◌+◌, ◌-◌, ◌*◌, ◌%◌, ◌^◌, ◌≤◌, ◌<◌, ◌≡◌, ◌≢◌, inl, inr, refl, ap, sym, ◌∙◌, false,
  Bool-cases, List, [], ◌∷◌, length-set, get_or, get_or-set_self, get_or-set_ne, All, All-append,
  All-map, arith, leb, ◌==◌, add64, wrap_cases,
}
use mathlib.Core.Path.{subst}
use native.Mathlib.Decide.{ℕ_discrete}
use native.Mathlib.Nat.{mod-add-mod}
use clibrary.Timer.{Elem, TimerWheel, max_wheel_size}
use clibrary.Timer.Check.{Visit, visit_spoke, turned, tick, ticks}
use clibrary.Timer.Wheel.{ahead, At, OnTime}

pred-mul : (r size : ℕ) → r ≢ 0 → (r - 1) * size + size ≡ r * size
pred-mul zero size ne = absurd (ne refl)
pred-mul (suc r) size ne = let back : suc r - 1 ≡ r = omega arith in rw back (omega arith)

-- One rotation fewer, one round later.
At-turned :
    (size s visit : ℕ) (e : Elem)
    → At size s visit e
    → e.rotation_cnt ≢ 0
    → At size s (visit + size) (turned e)
At-turned size s visit e a ne = record {
  place = a.place;
  small = omega arith;
  time =
      let back : (e.rotation_cnt + (2 ^ 32 - 1)) % 2 ^ 32 ≡ e.rotation_cnt - 1 =
        omega (arith, a.small) in
      rw back (omega (arith, a.time, pred-mul e.rotation_cnt size ne));
}

-- A visit that the limit does not stop fires what is due at the tick, and turns the others.
record Visited (size s now : ℕ) (v : Visit) : Type 0 where
  stay : All (At size s (now + size)) v.kept
  due : All (λ e. e.expire ≡ now) v.fired

visit_spoke-Visited :
    (size s now most count : ℕ) (es : List Elem)
    → All (At size s now) es
    → (visit_spoke most count es).full ≡ false
    → Visited size s now (visit_spoke most count es)
unfolding visit_spoke
visit_spoke-Visited size s now most count [] h f = ground arith
visit_spoke-Visited size s now most count (e ∷ es) h f = elim (Bool-cases (e.rotation_cnt == 0)) [
  | inr more ↦
      let rest = visit_spoke-Visited size s now most count es h.1 (ground arith) in
      rw more
        (record { stay = (At-turned size s now e h.0 (ground arith), rest.stay); due = rest.due })
  | inl last ↦ elim (Bool-cases (leb most count)) [
    | inl stop ↦ ground arith
    | inr go ↦
        let rest = visit_spoke-Visited size s now most (add64 count 1) es h.1 (ground arith) in
        rw (last, go) (record { stay = rest.stay; due = (ground (arith, h.0.time), rest.due) })
  ]
]

-- Moving the index on by one tick brings every other spoke one tick nearer.
ahead_next :
    (size index s : ℕ)
    → index < size
    → s < size
    → s ≢ index
    → size ≤ max_wheel_size
    → 1 + ahead size ((index + 1) % 2 ^ 64 % size) s ≡ ahead size index s
ahead_next size index s hi hs ne few = ground (arith, wrap_cases size index)

ahead_self :
    (size index : ℕ)
    → index < size
    → size ≤ max_wheel_size
    → 1 + ahead size (add64 index 1 % size) index ≡ size
ahead_self size index hi h = ground (arith, wrap_cases size index)

phase_next :
    (size r index : ℕ)
    → 0 < size
    → size ≤ max_wheel_size
    → index ≡ r % size
    → add64 index 1 % size ≡ (r + 1) % size
phase_next size r index h few e =
    let low : index < size = omega (arith, e) in
    let plain : add64 index 1 ≡ index + 1 = omega arith in rw (plain, e, mod-add-mod)

module _ {now : ℕ} {w : TimerWheel} (ot : OnTime now w) (most count : ℕ) where
  -- A tick that the limit does not stop fires exactly what expires at its time, and leaves the
  -- wheel on time for the next.
  pub tick-OnTime :
      (tick most count w).full ≡ false
      → OnTime (now + 1) (tick most count w).wheel
        × All (λ e. e.expire ≡ now) (tick most count w).fired
  unfolding tick
  tick-OnTime f = rw f (
    record {
      some_spokes = ot.some_spokes;
      few_spokes = ot.few_spokes;
      all_spokes = length-set w.spokes index v.kept ∙ ot.all_spokes;
      index_in = omega (arith, ot.some_spokes);
      begun = omega (arith, ot.begun);
      phase =
          phase_next size (now - w.create_time) index ot.some_spokes ot.few_spokes ot.phase
          ∙ ap (λ r. r % size) (omega (arith, ot.begun));
      due = λ s h. elim (ℕ_discrete s index) [
        | yes same ↦
            rw
              (
                same,
                get_or-set_self w.spokes index v.kept []
                    (omega (arith, ot.all_spokes, ot.index_in)),
              )
              (subst (λ x. All (At size index x) v.kept)
                (omega (arith, ahead_self size index ot.index_in ot.few_spokes)) seen.stay)
        | no other ↦ rw (get_or-set_ne w.spokes index s v.kept [] (λ e. other (sym e))) (
            subst (λ x. All (At size s x) (get_or w.spokes s []))
              (omega (arith, ahead_next size index s ot.index_in h other ot.few_spokes))
              (ot.due s h))
      ];
    },
    seen.due,
  )
    where
      size : ℕ
      size = w.wheel_size

      index : ℕ
      index = w.spoke_index

      v : Visit
      v = visit_spoke most count (get_or w.spokes index [])

      here : All (At size index now) (get_or w.spokes index [])
      here =
          subst (λ x. All (At size index x) (get_or w.spokes index [])) (ground arith)
            (ot.due index ot.index_in)

      seen : Visited size index now v
      seen = visit_spoke-Visited size index now most count (get_or w.spokes index []) here f

-- What `n` ticks of a wheel that is on time fire: the elements that expire in that time.
abbrev pub InTime : ℕ → ℕ → Elem → Type 0
InTime from to e = (from ≤ e.expire) × (e.expire < to)

pub ticks-OnTime :
    (n most count : ℕ) {now : ℕ} {w : TimerWheel}
    → OnTime now w
    → (ticks n most count w).full ≡ false
    → OnTime (now + n) (ticks n most count w).wheel
      × All (InTime now (now + n)) (ticks n most count w).fired
unfolding ticks
ticks-OnTime zero most count {now} {w} ot f = (subst (λ t. OnTime t w) (omega arith) ot, tt)
ticks-OnTime (suc n) most count {now} {w} ot f = elim (Bool-cases (tick most count w).full) [
  | inl stop ↦ absurd (ground arith)
  | inr go ↦
      let w' = (tick most count w).wheel in
      let count' = (tick most count w).count in
      let (next, fired) = tick-OnTime ot most count go in
      let go' : (ticks n most count' w').full ≡ false = ground arith in
      let (last, later) = ticks-OnTime n most count' next go' in
      rw go (
        subst (λ t. OnTime t (ticks n most count' w').wheel) (omega arith) last,
        All-append (InTime now (now + suc n)) (tick most count w).fired
            (ticks n most count' w').fired
            (All-map (λ e. e.expire ≡ now) (InTime now (now + suc n)) (λ e h. omega arith)
              (tick most count w).fired fired)
            (All-map (InTime (now + 1) (now + 1 + n)) (InTime now (now + suc n))
              (λ e h. omega arith) (ticks n most count' w').fired later),
      )
]
