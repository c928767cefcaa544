-- ===== src/Timer/Count/Ticks.antt =====
-- timer.c: ticks of a wheel keep its frame and lose the elements that fire.
use clibrary.Base.{
  ℕ, zero, suc, ◌+◌, ◌≡◌, inl, inr, refl, ◌∙◌, Bool-cases, List, [], ◌∷◌, length, length-append,
  get_or, All, arith, add64,
}
use clibrary.Timer.{Elem, TimerWheel}
use clibrary.Timer.Check.{visit_spoke, tick, ticks}
use clibrary.Timer.Wheel.Check.{total, total-set}
use clibrary.Timer.Count.{IsFramed}
use clibrary.Timer.Count.Spokes.{In, set-IsFramed, spoke_lem, next_in}

visit_spoke_lem :
    (most count i : ℕ) (es : List Elem)
    → All (In i) es
    → let v = visit_spoke most count es in
      All (In i) v.kept × (length v.kept + length v.fired ≡ length es)
unfolding visit_spoke
visit_spoke_lem most count i [] h = ground arith
visit_spoke_lem most count i (e ∷ es) h =
    ground
      (arith, visit_spoke_lem most count i es h.1, visit_spoke_lem most (add64 count 1) i es h.1)

pub tick_lem :
    (most count : ℕ) {w : TimerWheel}
    → IsFramed w
    → let out = tick most count w in
      IsFramed out.wheel
      × (out.wheel.wheel_size ≡ w.wheel_size)
      × (total out.wheel.spokes + length out.fired ≡ total w.spokes)
unfolding tick
tick_lem most count {w} f =
    let i = w.spoke_index in
    let v = visit_spoke most count (get_or w.spokes i []) in
    let (kept, sum) = visit_spoke_lem most count i (get_or w.spokes i []) (spoke_lem i f) in
    let framed = set-IsFramed i v.kept f kept in
    ground (
      arith,
      framed,
      sum,
      total-set w.spokes i v.kept (omega (arith, f.index_in, f.all_spokes)),
      next_in w.spoke_index w.wheel_size f.some_spokes,
    )

pub ticks_lem :
    (n most count : ℕ) {w : TimerWheel}
    → IsFramed w
    → let out = ticks n most count w in
      IsFramed out.wheel
      × (out.wheel.wheel_size ≡ w.wheel_size)
      × (total out.wheel.spokes + length out.fired ≡ total w.spokes)
unfolding ticks
ticks_lem zero most count f = (f, refl, omega arith)
ticks_lem (suc n) most count {w} f =
    let now = tick most count w in
    let later = ticks n most now.count now.wheel in
    let (framed, size, one) = tick_lem most count f in
    elim (Bool-cases now.full) [
      | inl stop ↦ rw stop (framed, size, one)
      | inr go ↦
          let (framed', size', rest) = ticks_lem n most now.count framed in
          rw go
            (framed', size' ∙ size, omega (arith, one, rest, length-append now.fired later.fired))
    ]
