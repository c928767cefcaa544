-- ===== src/Ring/Try.antt =====
-- ring_buffer.c: the calls that give up instead of waiting.
pub mod Queue
pub mod Refine
use clibrary.Base.{ℕ, Bool, true, false, Option, none, some, List, [], if◌then◌else◌}
use clibrary.Ring.{
  Ring, is_empty, is_full, Outcome, waiting, aborted, returned, Waited, write, read,
}

-- The flag is the int that the call returns.
pub try_write : List ℕ → Ring → ℕ → Outcome (Bool × Waited ℕ)
try_write ks rb value =
    if is_full rb
    then returned (false, record { ring = rb; passed = []; turns = ks })
    else elim (write ks rb value) [
      | waiting ↦ waiting
      | aborted ↦ aborted
      | returned w ↦ returned (true, w)
    ]

-- The option is what goes through `value`: with `none` the call returns 0 and leaves it alone.
pub try_read : List (List ℕ) → Ring → Outcome (Option ℕ × Waited (List ℕ))
try_read vss rb =
    if is_empty rb
    then returned (none, record { ring = rb; passed = []; turns = vss })
    else elim (read vss rb) [
      | waiting ↦ waiting
      | aborted ↦ aborted
      | returned (value, w) ↦ returned (some value, w)
    ]
