-- ===== src/Timer/Count.antt =====
-- timer.c: the statistics of a timer against its elements, in every state that its calls lead to.
pub mod Spokes
pub mod Ticks
pub mod Add
pub mod Lose
pub mod Reset
pub mod Calls
use clibrary.Base.{
  ℕ, suc, ◌+◌, ◌*◌, ◌%◌, ◌^◌, ◌<◌, ◌≡◌, Bool, true, Option, none, some, List, [], ◌∷◌, length, All,
}
use clibrary.Timer.{
  Elem, TimerQueue, TimerWheel, Body, timer_queue, timer_wheel, Timer, create, add, sizeof_timer,
  sizeof_elem, sizeof_head,
}
use clibrary.Timer.Check.{check}
use clibrary.Timer.Edit.{del, reset}
use clibrary.Timer.Wheel.Check.{total}

-- Each element stands in the spoke of its cursor; `i` is the number of the first spoke.
abbrev pub Placed : ℕ → List (List Elem) → Type 0
Placed i [] = Unit {0}
Placed i (es ∷ ess) = All (λ e. e.cursor ≡ i) es × Placed (suc i) ess

-- The frame of a wheel.
pub record IsFramed (w : TimerWheel) : Type 0 where
  pub some_spokes : 0 < w.wheel_size
  pub all_spokes : length w.spokes ≡ w.wheel_size
  pub index_in : w.spoke_index < w.wheel_size
  pub placed : Placed 0 w.spokes

-- The elements that a timer holds, and the bytes that it holds beside them.
abbrev pub elements : Body → ℕ
elements (timer_queue q) = length q.queue
elements (timer_wheel w) = total w.spokes

abbrev pub frame : Body → ℕ
frame (timer_queue q) = sizeof_timer
frame (timer_wheel w) = sizeof_timer + sizeof_head * w.wheel_size

abbrev pub Framed : Body → Type 0
Framed (timer_queue q) = Unit {0}
Framed (timer_wheel w) = IsFramed w

-- The statistics, with the wrap-around of an `unsigned long`.
pub record IsCounted (t : Timer) : Type 0 where
  pub framed : Framed t.body
  pub count : t.elem_cnt ≡ elements t.body % 2 ^ 64
  pub memory : t.mem_ocupy ≡ (frame t.body + sizeof_elem * elements t.body) % 2 ^ 64

-- The timers that the calls lead to, but for a reset that fails. A handle is that of an element.
pub data Reach : Timer → Type 0 where
  created : (wheel_size tm_type : ℕ) {t : Timer} → create wheel_size tm_type ≡ some t → Reach t
  added :
      {t : Timer} (current timeout callback event address : ℕ)
      → Reach t
      → Reach (add t current timeout callback event address).0
  deleted :
      {t t' : Timer} (index callback para expire : ℕ) (calls : List (ℕ × ℕ))
      → Reach t
      → del t index callback para ≡ some (t', expire, calls)
      → Reach t'
  checked : {t : Timer} (current most : ℕ) → Reach t → Reach (check t current most).timer
  moved :
      {t t' : Timer} (index current timeout : ℕ)
      → Reach t
      → reset t index current timeout ≡ some (t', true)
      → Reach t'
