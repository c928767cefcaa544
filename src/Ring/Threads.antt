-- ===== src/Ring/Threads.antt =====
-- ring_buffer.c: one thread that calls `zx_ringbuffer_write` and one that calls
-- `zx_ringbuffer_read` on the same buffer. An action is one load or store of a shared field, or one
-- pthread call; the actions of the two threads interleave in any order, each seen by the other at
-- once. The test of a loop is one action: it loads the index that the other thread stores, once.
-- `pthread_cond_wait` gives the lock up and sleeps in one action, may wake without a broadcast, and
-- takes the lock again before it returns; `pthread_cond_broadcast` wakes the thread that sleeps.
pub mod Sync
pub mod Stores
pub mod Order
pub mod Actions
pub mod Invariant
pub mod Progress
pub mod Quiet
mod Tests
use clibrary.Base.{
  ℕ, Bool, true, false, Option, none, some, List, [], ◌∷◌, ◌++◌, ◌≡◌, get_or, set, if◌then◌else◌,
}
use clibrary.Ring.{Ring, Mode, blocking, polling, next, is_empty, is_full}

-- Where a thread stands, named for the action that comes next: in `wait_for_empty` or
-- `wait_for_full` up to `polls`, in the body of the call up to `advancing`, then in `notify_full` or
-- `notify_empty`. `idle` is outside of a call.
pub data Pc : Type 0 where
  idle locking testing failing sleeping woken leaving polls : Pc
  copying advancing : Pc
  notifying broadcasting releasing : Pc

-- What one thread sees of the locks: its own place and that of the other, whether the lock of its
-- own condition is held and whether that of the other's is.
pub record View : Type 0 where
  pub pc : Pc
  pub peer : Pc
  pub own : Bool
  pub other : Bool

-- The first action of a call.
abbrev pub enter : Mode → Pc
enter blocking = locking
enter polling = polls

-- The notification does nothing where threads poll.
abbrev pub announce : Mode → Pc
announce blocking = notifying
announce polling = idle

-- A broadcast on the condition that a thread sleeps on.
abbrev pub wake : Pc → Pc
wake sleeping = woken
wake idle = idle
wake locking = locking
wake testing = testing
wake failing = failing
wake woken = woken
wake leaving = leaving
wake polls = polls
wake copying = copying
wake advancing = advancing
wake notifying = notifying
wake broadcasting = broadcasting
wake releasing = releasing

-- The next action of a thread that stands there, none where it sleeps, has no call to go on with or
-- waits for a lock. `stop` is the test of its loop: full for the writer, empty for the reader.
abbrev pub advance : Mode → Bool → Pc → View → Option View
advance mode stop idle v = none
advance mode stop locking v = if v.own then none else some (record v { pc = testing; own = true })
advance mode stop testing v = some (record v { pc = if stop then failing else leaving })
advance mode stop failing v = some (record v { pc = sleeping; own = false })
advance mode stop sleeping v = none
advance mode stop woken v = if v.own then none else some (record v { pc = testing; own = true })
advance mode stop leaving v = some (record v { pc = copying; own = false })
advance mode stop polls v = some (record v { pc = if stop then polls else copying })
advance mode stop copying v = some (record v { pc = advancing })
advance mode stop advancing v = some (record v { pc = announce mode })
advance mode stop notifying v =
    if v.other then none else some (record v { pc = broadcasting; other = true })
advance mode stop broadcasting v = some (record v { pc = releasing; peer = wake v.peer })
advance mode stop releasing v = some (record v { pc = idle; other = false })

-- The buffer, its two locks, the two threads, the argument of the writer's call and the local
-- variable `value` of the reader's. For the statements: the arguments of all calls of
-- `zx_ringbuffer_write` so far and the results of all calls of `zx_ringbuffer_read` that have
-- returned, oldest first.
pub record System : Type 0 where
  pub ring : Ring
  pub empty_lock : Bool
  pub full_lock : Bool
  pub writer : Pc
  pub reader : Pc
  pub offered : ℕ
  pub value : ℕ
  pub written : List ℕ
  pub got : List ℕ

abbrev pub start : Ring → System
start rb = record {
  ring = rb;
  empty_lock = false;
  full_lock = false;
  writer = idle;
  reader = idle;
  offered = 0;
  value = 0;
  written = [];
  got = [];
}

abbrev pub writer_view : System → View
writer_view s = record { pc = s.writer; peer = s.reader; own = s.empty_lock; other = s.full_lock }

abbrev pub reader_view : System → View
reader_view s = record { pc = s.reader; peer = s.writer; own = s.full_lock; other = s.empty_lock }

-- `rb->elements[rb->end] = value` and `rb->end = (rb->end + 1) % rb->size`
abbrev pub writer_store : Pc → Ring → ℕ → Ring
writer_store copying rb value = record rb { elements = set rb.elements rb.end value }
writer_store advancing rb value = record rb { end = next rb.size rb.end }
writer_store pc rb value = rb

-- `rb->start = (rb->start + 1) % rb->size`
abbrev pub reader_store : Pc → Ring → Ring
reader_store advancing rb = record rb { start = next rb.size rb.start }
reader_store pc rb = rb

-- `value = rb->elements[rb->start]`
abbrev pub reader_load : Pc → Ring → ℕ → ℕ
reader_load copying rb value = get_or rb.elements rb.start 0
reader_load pc rb value = value

-- A call that comes to its end returns `value`.
abbrev pub results : Pc → List ℕ → ℕ → List ℕ
results idle got value = got ++ value ∷ []
results pc got value = got

-- What an action leaves, with the places and locks that `advance` gives.
abbrev pub writer_after : System → View → System
writer_after s v = record s {
  writer = v.pc;
  reader = v.peer;
  empty_lock = v.own;
  full_lock = v.other;
  ring = writer_store s.writer s.ring s.offered;
}

abbrev pub reader_after : System → View → System
reader_after s v = record s {
  reader = v.pc;
  writer = v.peer;
  full_lock = v.own;
  empty_lock = v.other;
  ring = reader_store s.reader s.ring;
  value = reader_load s.reader s.ring s.value;
  got = results v.pc s.got s.value;
}

-- The next action of either thread, in its call of `zx_ringbuffer_write` or `zx_ringbuffer_read`.
unfoldable pub writer_action : System → Option System
writer_action s = elim (advance s.ring.mode (is_full s.ring) s.writer (writer_view s)) [
  | none ↦ none
  | some v ↦ some (writer_after s v)
]

unfoldable pub reader_action : System → Option System
reader_action s = elim (advance s.ring.mode (is_empty s.ring) s.reader (reader_view s)) [
  | none ↦ none
  | some v ↦ some (reader_after s v)
]

abbrev pub call_write : ℕ → System → System
call_write value s = record s {
  writer = enter s.ring.mode;
  offered = value;
  written = s.written ++ value ∷ [];
}

abbrev pub call_read : System → System
call_read s = record s { reader = enter s.ring.mode }

pub data Step (s : System) : System → Type 0 where
  calls_write : (value : ℕ) → s.writer ≡ idle → Step s (call_write value s)
  calls_read : s.reader ≡ idle → Step s (call_read s)
  writer_acts : {t : System} → writer_action s ≡ some t → Step s t
  reader_acts : {t : System} → reader_action s ≡ some t → Step s t
  writer_wakes : s.writer ≡ sleeping → Step s (record s { writer = woken })
  reader_wakes : s.reader ≡ sleeping → Step s (record s { reader = woken })

-- The states that the two threads bring a buffer to.
pub data Reach (rb : Ring) : System → Type 0 where
  begin : Reach rb (start rb)
  later : {s t : System} → Reach rb s → Step s t → Reach rb t
