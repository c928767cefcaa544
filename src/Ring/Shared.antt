-- ===== src/Ring/Shared.antt =====
-- ring_buffer.c: any number of threads that call `zx_ringbuffer_swrite` and `zx_ringbuffer_sread` on
-- the same buffer. A caller spins for the lock of its side, makes the call of `zx_ringbuffer_write`
-- or `zx_ringbuffer_read`, whose actions are those of the one writer and the one reader of
-- Ring/Threads.antt, and gives the lock back. A thread is a number; the spin locks work.
pub mod Owner
pub mod Refine
pub mod Quiet
mod Tests
use clibrary.Base.{ℕ, Bool, Option, none, some, ◌≡◌, ◌==◌, if◌then◌else◌}
use clibrary.Ring.{Ring}
use clibrary.Ring.Threads
use clibrary.Ring.Threads.{
  Pc, idle, sleeping, woken, System, writer_action, reader_action, call_write, call_read,
}

-- Where a caller stands: outside of a call, in `LOCK`, behind it, in the call on the buffer, or
-- before `UNLOCK` with what that call returned.
pub data Place (A B : Type 0) : Type 0 where
  outside : Place A B
  spinning : A → Place A B
  locked : A → Place A B
  inside : Place A B
  unlocking : B → Place A B

-- The lock of a side, with the caller that holds it, and the callers of that side.
pub record Side (A B : Type 0) : Type 0 where
  pub lock : Option ℕ
  pub place : ℕ → Place A B

-- A caller's new place.
abbrev pub put : {A B : Type 0} → ℕ → Place A B → Side A B → Side A B
put i p side = record side { place = λ j. if j == i then p else side.place j }

-- What a caller does on its side alone, where the call on the buffer stands at `pc` and gives
-- `result`: `LOCK`, the return of the call, and `UNLOCK`.
pub data Turn {A B : Type 0} (pc : Pc) (result : B) (side : Side A B) : Side A B → Type 0 where
  takes :
      (i : ℕ) (a : A)
      → side.place i ≡ spinning a
      → side.lock ≡ none
      → Turn pc result side (record (put i (locked a) side) { lock = some i })
  returns :
      (i : ℕ)
      → side.place i ≡ inside
      → pc ≡ idle
      → Turn pc result side (put i (unlocking result) side)
  gives :
      (i : ℕ) (b : B)
      → side.place i ≡ unlocking b
      → Turn pc result side (record (put i outside side) { lock = none })

-- The buffer with the call of the writer and of the reader that is on it, and the callers.
pub record Shared : Type 0 where
  pub system : System
  pub writers : Side ℕ Unit
  pub readers : Side Unit ℕ

abbrev pub start : Ring → Shared
start rb = record {
  system = Threads.start rb;
  writers = record { lock = none; place = λ i. outside };
  readers = record { lock = none; place = λ i. outside };
}

-- An action of a caller inside of its call of `zx_ringbuffer_swrite` or `zx_ringbuffer_sread`.
pub data Acts (s : Shared) : Shared → Type 0 where
  writer_turns :
      {side : Side ℕ Unit}
      → Turn s.system.writer tt s.writers side
      → Acts s (record s { writers = side })
  reader_turns :
      {side : Side Unit ℕ}
      → Turn s.system.reader s.system.value s.readers side
      → Acts s (record s { readers = side })
  begins_write :
      (i value : ℕ)
      → s.writers.place i ≡ locked value
      → Acts s (record s { system = call_write value s.system; writers = put i inside s.writers })
  begins_read :
      (i : ℕ)
      → s.readers.place i ≡ locked tt
      → Acts s (record s { system = call_read s.system; readers = put i inside s.readers })
  writer_acts :
      (i : ℕ) {t : System}
      → s.writers.place i ≡ inside
      → writer_action s.system ≡ some t
      → Acts s (record s { system = t })
  reader_acts :
      (i : ℕ) {t : System}
      → s.readers.place i ≡ inside
      → reader_action s.system ≡ some t
      → Acts s (record s { system = t })

-- The other steps are new calls, and sleeps that end without a broadcast.
pub data Step (s : Shared) : Shared → Type 0 where
  acts : {t : Shared} → Acts s t → Step s t
  calls_swrite :
      (i value : ℕ)
      → s.writers.place i ≡ outside
      → Step s (record s { writers = put i (spinning value) s.writers })
  calls_sread :
      (i : ℕ)
      → s.readers.place i ≡ outside
      → Step s (record s { readers = put i (spinning tt) s.readers })
  writer_wakes :
      (i : ℕ)
      → s.writers.place i ≡ inside
      → s.system.writer ≡ sleeping
      → Step s (record s { system = record s.system { writer = woken } })
  reader_wakes :
      (i : ℕ)
      → s.readers.place i ≡ inside
      → s.system.reader ≡ sleeping
      → Step s (record s { system = record s.system { reader = woken } })

-- The states that the callers bring a buffer to.
pub data Reach (rb : Ring) : Shared → Type 0 where
  begin : Reach rb (start rb)
  later : {s t : Shared} → Reach rb s → Step s t → Reach rb t
