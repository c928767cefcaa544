-- ===== src/Ring/Threads/Tests.antt =====
-- Runs of a writer and a reader on a buffer with room for one value.
use clibrary.Base.{
  ℕ, zero, suc, ◌+◌, ◌*◌, ◌≤◌, ◌≡◌, ◌≢◌, ◌⊎◌, inl, inr, refl, true, false, ◌&&◌, none, some,
  Option-cases, [], ◌∷◌, ◌++◌, arith,
}
use clibrary.Ring.{Ring, blocking, is_empty, is_full}
use clibrary.Ring.Bounds.{IsValid}
use clibrary.Ring.Fifo.{contents}
use clibrary.Ring.Threads.{
  idle, sleeping, woken, System, start, writer_action, reader_action, call_write, call_read,
  calls_write, calls_read, writer_acts, reader_acts, Reach, begin, later,
}
use clibrary.Ring.Threads.Sync.{announces, commits, holds_own, holds_other}
use clibrary.Ring.Threads.Order.{pending, taken}
use clibrary.Ring.Threads.Progress.{
  Acts, done, writer_then, reader_then, writer_wakes_then, Acts-bounded,
}
use clibrary.Ring.Threads.Quiet.{handed_on, exclusion, no_lost_wakeup, quiet_lem}

abbrev one_slot : Ring
one_slot = record { start = 0; size = 2; mode = blocking; elements = 0 ∷ 0 ∷ []; end = 0 }

one_slot-IsValid : IsValid one_slot
one_slot-IsValid = record {
  slots = omega arith;
  fits = omega arith;
  storage = refl;
  start_in = omega arith;
  end_in = omega arith;
}

one_slot-empty : is_empty one_slot ≡ true
unfolding is_empty
one_slot-empty = refl

-- Actions of one thread, as many as given or until it cannot act.
writer_runs : ℕ → System → System
writer_runs zero s = s
writer_runs (suc n) s = elim (writer_action s) [ none ↦ s | some t ↦ writer_runs n t ]

reader_runs : ℕ → System → System
reader_runs zero s = s
reader_runs (suc n) s = elim (reader_action s) [ none ↦ s | some t ↦ reader_runs n t ]

writer_runs-Reach : {rb : Ring} (n : ℕ) {s : System} → Reach rb s → Reach rb (writer_runs n s)
unfolding writer_runs
writer_runs-Reach zero r = r
writer_runs-Reach (suc n) {s} r = elim (Option-cases (writer_action s)) [
  | inl e ↦ rw (e, writer_runs) r
  | inr (t, e) ↦ rw (e, writer_runs) (writer_runs-Reach n (later r (writer_acts e)))
]

reader_runs-Reach : {rb : Ring} (n : ℕ) {s : System} → Reach rb s → Reach rb (reader_runs n s)
unfolding reader_runs
reader_runs-Reach zero r = r
reader_runs-Reach (suc n) {s} r = elim (Option-cases (reader_action s)) [
  | inl e ↦ rw (e, reader_runs) r
  | inr (t, e) ↦ rw (e, reader_runs) (reader_runs-Reach n (later r (reader_acts e)))
]

-- A write of 5 that returns, and a write of 6 that goes to sleep on the full buffer.
abbrev asleep : System
asleep = writer_runs 3 (call_write 6 (writer_runs 8 (call_write 5 (start one_slot))))

-- A read up to its broadcast.
abbrev taking : System
taking = reader_runs 6 (call_read asleep)

asleep-Reach : Reach one_slot asleep
unfolding writer_runs writer_action is_full
asleep-Reach =
    writer_runs-Reach 3
      (later (writer_runs-Reach 8 (later begin (calls_write 5 refl))) (calls_write 6 refl))

taking-Reach : Reach one_slot taking
unfolding writer_runs writer_action is_full
taking-Reach = reader_runs-Reach 6 (later asleep-Reach (calls_read refl))

asleep_run : asleep.writer ≡ sleeping
unfolding writer_runs writer_action is_full
asleep_run = refl

-- One more action of the reader wakes the writer, and then both calls come to their ends.
woken_run : (reader_runs 1 taking).writer ≡ woken
unfolding writer_runs reader_runs writer_action reader_action is_full is_empty
woken_run = refl

both_run :
    let s = writer_runs 10 (reader_runs 10 taking) in
    (s.writer ≡ idle) × (s.reader ≡ idle) × (s.got ≡ 5 ∷ [])
unfolding writer_runs reader_runs writer_action reader_action is_full is_empty
both_run = (refl, refl, refl)

handed_on_example :
    IsValid taking.ring
    × (taking.got
          ++ (taken taking.reader taking.value ++ contents taking.ring)
          ++ pending taking.writer taking.offered
        ≡ taking.written)
handed_on_example = handed_on one_slot-IsValid one_slot-empty taking-Reach

exclusion_example :
    (holds_own taking.writer && holds_other taking.reader ≡ false)
    × (holds_own taking.reader && holds_other taking.writer ≡ false)
    × (commits taking.writer && is_full taking.ring ≡ false)
    × (commits taking.reader && is_empty taking.ring ≡ false)
exclusion_example = exclusion one_slot-IsValid one_slot-empty taking-Reach

no_lost_wakeup_example :
    ((asleep.writer ≢ sleeping) ⊎ (is_full asleep.ring ≡ true) ⊎ (announces asleep.reader ≡ true))
    × ((asleep.reader ≢ sleeping)
        ⊎ (is_empty asleep.ring ≡ true)
        ⊎ (announces asleep.writer ≡ true))
no_lost_wakeup_example = no_lost_wakeup one_slot-IsValid one_slot-empty asleep-Reach

quiet_lem_example :
    (asleep.writer ≡ idle) × (asleep.reader ≡ idle)
    ⊎ (asleep.writer ≡ sleeping) × (asleep.reader ≡ idle) × (is_full asleep.ring ≡ true)
    ⊎ (asleep.writer ≡ idle) × (asleep.reader ≡ sleeping) × (is_empty asleep.ring ≡ true)
unfolding writer_runs writer_action reader_action is_full is_empty
quiet_lem_example = quiet_lem one_slot-IsValid one_slot-empty asleep-Reach refl refl

-- The writer wakes by itself; then the broadcast, the unlock and the writer's first action.
three_acts : Acts 3 1 taking (writer_runs 1 (reader_runs 2 (record taking { writer = woken })))
unfolding writer_runs reader_runs writer_action reader_action is_full is_empty
three_acts = writer_wakes_then refl (reader_then refl (reader_then refl (writer_then refl done)))

Acts-bounded_example : 3 ≤ 26 + 3 * 1
unfolding writer_runs reader_runs writer_action reader_action is_full is_empty
Acts-bounded_example = Acts-bounded one_slot-IsValid one_slot-empty taking-Reach refl three_acts
