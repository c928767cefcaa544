-- ===== src/Ring/Locked.antt =====
-- ring_buffer.c: the calls that take a lock. `pthread_spin_lock` is a parameter: it gives no lock
-- (an error code), or the lock and the buffer as other threads have left it by then. Whether
-- `pthread_spin_unlock` returns 0 is another.
use clibrary.Base.{
  ℕ, ◌-◌, ◌≡◌, ◌⊎◌, inl, inr, refl, Bool, true, false, Bool-cases, Option-cases, Option, none, some,
  List, [], ◌==◌, ◌&&◌, if◌then◌else◌,
}
use clibrary.Ring.{
  Ring, is_empty, is_full, Outcome, waiting, aborted, returned, Waited, write, read,
}
use mathlib.Core.Option
use clibrary.Ring.Bounds.{IsValid}
use clibrary.Ring.Fifo.{contents}
use clibrary.Ring.Try.{try_write, try_read}
use clibrary.Ring.Try.Queue.{offer, poll}
use clibrary.Ring.Try.Refine.{Kept, try_write_lem, try_read_lem}
use clibrary.Ring.Bulk.{write_bulk, read_bulk}

-- `UNLOCK`, behind the work that the lock guards.
abbrev unlocked : {A : Type 0} → Bool → Outcome A → Outcome A
unlocked true o = o
unlocked false waiting = waiting
unlocked false o = aborted

module _ (spin_lock : Ring → Option Ring) (unlocks : Bool) where
  swrite : List ℕ → Ring → ℕ → Outcome (Waited ℕ)
  swrite ks rb value = elim (spin_lock rb) [
    | none ↦ aborted
    | some rb' ↦ unlocked unlocks (write ks rb' value)
  ]

  sread : List (List ℕ) → Ring → Outcome (ℕ × Waited (List ℕ))
  sread vss rb = elim (spin_lock rb) [ none ↦ aborted | some rb' ↦ unlocked unlocks (read vss rb') ]

  -- `TRY_LOCK` returns 0 where the lock call fails.
  try_swrite : List ℕ → Ring → ℕ → Outcome (Bool × Waited ℕ)
  try_swrite ks rb value =
      if is_full rb
      then returned (false, record { ring = rb; passed = []; turns = ks })
      else elim (spin_lock rb) [
        | none ↦ returned (false, record { ring = rb; passed = []; turns = ks })
        | some rb' ↦ unlocked unlocks (try_write ks rb' value)
      ]

  try_sread : List (List ℕ) → Ring → Outcome (Option ℕ × Waited (List ℕ))
  try_sread vss rb =
      if is_empty rb
      then returned (none, record { ring = rb; passed = []; turns = vss })
      else elim (spin_lock rb) [
        | none ↦ returned (none, record { ring = rb; passed = []; turns = vss })
        | some rb' ↦ unlocked unlocks (try_read vss rb')
      ]

  -- These two insist on the lock.
  try_swrite_bl : List ℕ → Ring → ℕ → Outcome (Bool × Waited ℕ)
  try_swrite_bl ks rb value =
      if is_full rb
      then returned (false, record { ring = rb; passed = []; turns = ks })
      else elim (spin_lock rb) [
        | none ↦ aborted
        | some rb' ↦ unlocked unlocks (try_write ks rb' value)
      ]

  try_sread_bl : List (List ℕ) → Ring → Outcome (Option ℕ × Waited (List ℕ))
  try_sread_bl vss rb =
      if is_empty rb
      then returned (none, record { ring = rb; passed = []; turns = vss })
      else elim (spin_lock rb) [ none ↦ aborted | some rb' ↦ unlocked unlocks (try_read vss rb') ]

  -- The bulk calls test early only if they may return nothing. `none` is the loop's fuel run out.
  swrite_bulk : List ℕ → Ring → List ℕ → ℕ → ℕ → Option (Outcome (ℕ × Waited ℕ))
  swrite_bulk ks rb values nb least =
      if (least == 0) && is_full rb
      then some (returned (0, record { ring = rb; passed = []; turns = ks }))
      else elim (spin_lock rb) [
        | none ↦ some aborted
        | some rb' ↦ Option.map (unlocked unlocks) (write_bulk ks rb' values nb least)
      ]

  sread_bulk :
      List (List ℕ) → Ring → List ℕ → ℕ → ℕ → Option (Outcome ((ℕ × List ℕ) × Waited (List ℕ)))
  sread_bulk vss rb values nb least =
      if (least == 0) && is_empty rb
      then some (returned ((0, values), record { ring = rb; passed = []; turns = vss }))
      else elim (spin_lock rb) [
        | none ↦ some aborted
        | some rb' ↦ Option.map (unlocked unlocks) (read_bulk vss rb' values nb least)
      ]

  -- `zx_ringbuffer_try_swrite` returns 0 and leaves the buffer alone if that is full at its early
  -- test, or if the lock call fails. Otherwise it does to the buffer that it finds under the lock
  -- what the queue does, whatever other threads have changed since the early test. This is so
  -- where the lock call finds a valid buffer and the unlock call succeeds.
  try_swrite_lem :
      (ks : List ℕ) {rb : Ring} (value : ℕ)
      → ((rb' : Ring) → spin_lock rb ≡ some rb' → IsValid rb')
      → unlocks ≡ true
      → ((is_full rb ≡ true) ⊎ (spin_lock rb ≡ none))
          × (try_swrite ks rb value
              ≡ returned (false, record { ring = rb; passed = []; turns = ks }))
        ⊎ (rb' : Ring) × (w : Waited ℕ) × (spin_lock rb ≡ some rb')
          × (try_swrite ks rb value ≡ returned ((offer (rb'.size - 1) (contents rb') value).0, w))
          × Kept rb' ks w
          × (contents w.ring ≡ (offer (rb'.size - 1) (contents rb') value).1)
  unfolding try_swrite
  try_swrite_lem ks {rb} value valid ok = elim (Bool-cases (is_full rb)) [
    | inl full ↦ inl (inl full, rw full refl)
    | inr room ↦ elim (Option-cases (spin_lock rb)) [
      | inl refused ↦ inl (inr refused, rw (room, refused) refl)
      | inr (rb', locked) ↦
          let (w, same, kept, q) = try_write_lem ks value (valid rb' locked) in
          inr (rb', w, locked, rw (room, locked, same, ok) refl, kept, q)
    ]
  ]

  -- `zx_ringbuffer_try_sread` returns 0 and leaves its argument and the buffer alone if that is
  -- empty at its early test, or if the lock call fails. Otherwise it does to the buffer that it
  -- finds under the lock what the queue does, whatever other threads have changed since. This is
  -- so where the lock call finds a valid buffer and the unlock call succeeds.
  try_sread_lem :
      (vss : List (List ℕ)) {rb : Ring}
      → ((rb' : Ring) → spin_lock rb ≡ some rb' → IsValid rb')
      → unlocks ≡ true
      → ((is_empty rb ≡ true) ⊎ (spin_lock rb ≡ none))
          × (try_sread vss rb ≡ returned (none, record { ring = rb; passed = []; turns = vss }))
        ⊎ (rb' : Ring) × (w : Waited (List ℕ)) × (spin_lock rb ≡ some rb')
          × (try_sread vss rb ≡ returned ((poll (contents rb')).0, w))
          × Kept rb' vss w
          × (contents w.ring ≡ (poll (contents rb')).1)
  unfolding try_sread
  try_sread_lem vss {rb} valid ok = elim (Bool-cases (is_empty rb)) [
    | inl dry ↦ inl (inl dry, rw dry refl)
    | inr more ↦ elim (Option-cases (spin_lock rb)) [
      | inl refused ↦ inl (inr refused, rw (more, refused) refl)
      | inr (rb', locked) ↦
          let (w, same, kept, q) = try_read_lem vss (valid rb' locked) in
          inr (rb', w, locked, rw (more, locked, same, ok) refl, kept, q)
    ]
  ]
