-- ===== src/Timer/Wheel.antt =====
-- timer.c: when a wheel timer is on time. The invariant ties each element's absolute time to the
-- spoke that it stands in and to its rotations left, at an absolute time `now`: that of the next
-- tick, `create_time + last_check_relative_tick` between calls.
pub mod Ticks
pub mod Check
pub mod Add
pub mod Edit
pub mod Limit
use clibrary.Base.{
  ℕ, ◌+◌, ◌-◌, ◌*◌, ◌%◌, ◌^◌, ◌≤◌, ◌<◌, ◌≡◌, List, [], length, get_or, All, ltb, if◌then◌else◌,
}
use clibrary.Timer.{Elem, TimerWheel, max_wheel_size}

-- How many ticks pass before the index reaches a spoke.
abbrev pub ahead : ℕ → ℕ → ℕ → ℕ
ahead size index s = if ltb s index then s + size - index else s - index

-- An element of spoke `s` whose next visit is the tick of time `visit`.
pub record At (size s visit : ℕ) (e : Elem) : Type 0 where
  pub place : e.cursor ≡ s
  pub small : e.rotation_cnt < 2 ^ 32
  pub time : e.expire ≡ visit + e.rotation_cnt * size

pub record OnTime (now : ℕ) (w : TimerWheel) : Type 0 where
  pub some_spokes : 0 < w.wheel_size
  pub few_spokes : w.wheel_size ≤ max_wheel_size
  pub all_spokes : length w.spokes ≡ w.wheel_size
  pub index_in : w.spoke_index < w.wheel_size
  pub begun : w.create_time ≤ now
  pub phase : w.spoke_index ≡ (now - w.create_time) % w.wheel_size
  pub due :
      (s : ℕ)
      → s < w.wheel_size
      → All (At w.wheel_size s (now + ahead w.wheel_size w.spoke_index s)) (get_or w.spokes s [])
