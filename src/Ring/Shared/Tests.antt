-- ===== src/Ring/Shared/Tests.antt =====
-- Runs of several callers on a buffer with room for one value.
use clibrary.Base.{
  ℕ, ◌≡◌, ◌≢◌, ◌⊎◌, refl, true, false, ◌&&◌, some, [], ◌∷◌, arith, sym, inl, inr, Bool-cases, ◌==◌,
}
use clibrary.Ring.{Ring, blocking, is_empty, is_full}
use clibrary.Ring.Bounds.{IsValid}
use clibrary.Ring.Threads
use clibrary.Ring.Threads.{idle, sleeping, System, writer_action, reader_action}
use clibrary.Ring.Shared.{
  Place, outside, spinning, locked, inside, Side, put, Turn, takes, returns, gives, Shared, start,
  Acts, writer_turns, reader_turns, begins_write, begins_read, writer_acts, reader_acts, acts,
  calls_sread, Reach, begin, later,
}
use clibrary.Ring.Shared.Owner.{holds}
use clibrary.Ring.Shared.Refine.{shared-Reach}
use clibrary.Ring.Shared.Quiet.{AllOut, Alone, shared_quiet}

abbrev one_slot : Ring
one_slot = record { start = 0; size = 2; mode = blocking; elements = 0 ∷ 0 ∷ []; end = 0 }

one_slot-IsValid : IsValid one_slot
one_slot-IsValid = record {
  slots = omega arith;
  fits = omega arith;
  storage = refl;
  start_in = omega arith;
  end_in = omega arith;
}

one_slot-empty : is_empty one_slot ≡ true
unfolding is_empty
one_slot-empty = refl

-- Caller 0 is behind `LOCK` on the side of the readers.
abbrev taken : Side Unit ℕ
taken = record (put 0 (locked tt) (put 0 (spinning tt) (start one_slot).readers)) { lock = some 0 }

-- Caller 0 reads the empty buffer and sleeps; caller 1 spins for the lock of the readers.
abbrev asleep : Shared
asleep = record {
  system = record (Threads.start one_slot) { reader = sleeping };
  writers = (start one_slot).writers;
  readers = put 1 (spinning tt) (put 0 inside taken);
}

taken-Reach : Reach one_slot (record (start one_slot) { readers = taken })
taken-Reach = later (later begin (calls_sread 0 refl)) (acts (reader_turns (takes 0 tt refl refl)))

asleep-Reach : Reach one_slot asleep
unfolding reader_action is_empty
asleep-Reach =
    later
      (later
        (later
          (later (later taken-Reach (acts (begins_read 0 refl))) (acts (reader_acts 0 refl refl)))
          (acts (reader_acts 0 refl refl)))
        (acts (reader_acts 0 refl refl)))
      (calls_sread 1 refl)

shared-Reach_example :
    Threads.Reach one_slot asleep.system
    × ((i j : ℕ) → i ≢ j → holds (asleep.writers.place i) && holds (asleep.writers.place j) ≡ false)
    × ((i j : ℕ) → i ≢ j → holds (asleep.readers.place i) && holds (asleep.readers.place j) ≡ false)
shared-Reach_example = shared-Reach asleep-Reach

places :
    (i : ℕ) (p : Place Unit ℕ)
    → asleep.readers.place i ≡ p
    → (p ≡ outside) ⊎ (p ≡ spinning tt) ⊎ (p ≡ inside)
places i p e = elim (Bool-cases (i == 1)) [
  | inl a ↦ inr (inl (sym (rw a at e)))
  | inr a ↦ elim (Bool-cases (i == 0)) [
    | inl b ↦ inr (inr (sym (rw (a, b) at e)))
    | inr b ↦ inl (sym (rw (a, b) at e))
  ]
]

no-Turn : (side : Side Unit ℕ) → ¬ Turn sleeping 0 asleep.readers side
no-Turn side (takes i a e l) = absurd (ground arith)
no-Turn side (returns i e z) = absurd (ground arith)
no-Turn side (gives i b e) = absurd (ground (arith, places i _ e))

no_write-Turn : (side : Side ℕ Unit) → ¬ Turn idle tt asleep.writers side
no_write-Turn side (takes i a e l) = absurd (ground arith)
no_write-Turn side (returns i e z) = absurd (ground arith)
no_write-Turn side (gives i b e) = absurd (ground arith)

asleep-quiet : (t : Shared) → ¬ Acts asleep t
unfolding reader_action
asleep-quiet t (writer_turns u) = no_write-Turn _ u
asleep-quiet t (reader_turns u) = no-Turn _ u
asleep-quiet t (begins_write i v e) = ground arith
asleep-quiet t (begins_read i e) = ground (arith, places i _ e)
asleep-quiet t (writer_acts i e a) = ground arith
asleep-quiet t (reader_acts i e a) = ground arith

shared_quiet_example :
    AllOut asleep.writers × AllOut asleep.readers
    ⊎ Alone asleep.writers
      × AllOut asleep.readers
      × (asleep.system.writer ≡ sleeping)
      × (is_full asleep.system.ring ≡ true)
    ⊎ AllOut asleep.writers
      × Alone asleep.readers
      × (asleep.system.reader ≡ sleeping)
      × (is_empty asleep.system.ring ≡ true)
shared_quiet_example = shared_quiet one_slot-IsValid one_slot-empty asleep-Reach asleep-quiet
