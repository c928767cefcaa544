-- ===== src/Demo.antt =====
-- main.c: the demonstration programs, as what they print. They put the library's parts together:
-- Demo/Map the hash map with a third-party list, Demo/Queue and Demo/Wheel the two kinds of timer.
pub mod Map
pub mod Queue
pub mod Wheel
mod Tests
use clibrary.Base.{ℕ, ◌+◌, ◌-◌, ◌*◌, ◌/◌, List, [], ◌∷◌, ◌++◌, Bool, if◌then◌else◌}
use clibrary.Timer.{Elem}

-- The lines that main.c prints. A time in the two timer programs is in milliseconds.
pub data Line : Type 0 where
  got_value : ℕ → Line  -- Get value:%d
  list_value : List ℕ → Line  -- List value:%s
  add_failed : ℕ → Line  -- add event %d failed
  add_succeeded : (i at : ℕ) → Line  -- add event %d success, it will occur at %ld
  add_planned : (i now timeout at : ℕ) → Line  -- add event %d at time %ld, timeout %ld, it ...
  timed_out : (i now : ℕ) → Line  -- event %d timeout, current time is %ld
  number : ℕ → Line  -- %ld
  balloc_failed : Line

-- `Malloc`, where `bopen` has returned a negative number or not; the result and what it prints.
abbrev balloc : Bool → ℕ × List Line
balloc negative = if negative then (1, balloc_failed ∷ []) else (0, [])

-- `event_cb`: `clock n` is the n-th reading of `gettimeofday` in microseconds, `events` the address
-- of the array of events, each of which has its index as `id`.
abbrev event_cb : (ℕ → ℕ) → ℕ → ℕ → ℕ → Line
event_cb clock events n event = timed_out ((event - events) / 4) (clock n / 1000)

-- The callbacks of a check, one reading each.
unfoldable pub call_back : (ℕ → ℕ) → ℕ → ℕ → List Elem → List Line
call_back clock events n [] = []
call_back clock events n (e ∷ es) =
    event_cb clock events n e.event ∷ call_back clock events (n + 1) es
