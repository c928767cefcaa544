-- ===== src/Ring/Shared/Refine.antt =====
-- ring_buffer.c: many callers of `zx_ringbuffer_swrite` and `zx_ringbuffer_sread` against one writer
-- and one reader.
use clibrary.Base.{ℕ, ◌≡◌, ◌≢◌, ◌⊎◌, refl, ap, sym, ◌∙◌, inl, inr, false, ◌&&◌, some, some_lem}
use mathlib.Core.Bool.{false≢true}
use clibrary.Ring.{Ring, is_full, is_empty}
use clibrary.Ring.Threads
use clibrary.Ring.Threads.{
  Pc, idle, sleeping, wake, advance, writer_view, reader_view, System, writer_action, reader_action,
  writer_after, reader_after, calls_write, calls_read,
}
use clibrary.Ring.Threads.Actions.{advance-peer}
use clibrary.Ring.Shared.{
  spinning, Side, Shared, start, Acts, writer_turns, reader_turns, begins_write, begins_read,
  writer_acts, reader_acts, Step, acts, calls_swrite, calls_sread, writer_wakes, reader_wakes,
  Reach, begin, later,
}
use clibrary.Ring.Shared.Owner.{
  holds, is_inside, Owned, Owned-alone, Owned-idle, Turn-Owned, begins-Owned, same-Owned, goes_on,
}

wake-idle : (q r : Pc) → (q ≡ r) ⊎ (wake q ≡ r) → q ≡ idle → r ≡ idle
wake-idle q r (inl e) h = sym e ∙ h
wake-idle q r (inr e) h = sym e ∙ ap wake h

-- An action leaves the other side's call idle if it was.
writer_action-reader :
    (s : System) {t : System} → writer_action s ≡ some t → s.reader ≡ idle → t.reader ≡ idle
unfolding writer_action
writer_action-reader s {t} h =
    let f = is_full s.ring in
    let (v, e, k) = some_lem (writer_after s) (advance s.ring.mode f s.writer (writer_view s)) h in
    let peer = advance-peer s.ring.mode f s.writer s.reader s.empty_lock s.full_lock e in
    λ z. sym (ap (λ x. x.reader) k) ∙ wake-idle s.reader v.peer peer z

reader_action-writer :
    (s : System) {t : System} → reader_action s ≡ some t → s.writer ≡ idle → t.writer ≡ idle
unfolding reader_action
reader_action-writer s {t} h =
    let f = is_empty s.ring in
    let (v, e, k) = some_lem (reader_after s) (advance s.ring.mode f s.reader (reader_view s)) h in
    let peer = advance-peer s.ring.mode f s.reader s.writer s.full_lock s.empty_lock e in
    λ z. sym (ap (λ x. x.writer) k) ∙ wake-idle s.writer v.peer peer z

-- The call on the buffer is one that one writer and one reader make, and each lock has one holder.
pub record Inv (rb : Ring) (s : Shared) : Type 0 where
  pub reached : Threads.Reach rb s.system
  pub writers : Owned s.system.writer s.writers
  pub readers : Owned s.system.reader s.readers

idles :
    {A B : Type 0} (pc pc' : Pc) (side : Side A B)
    → Owned pc side
    → (pc ≡ idle → pc' ≡ idle)
    → Owned pc' side
idles pc pc' side o f = record { owner = o.owner; rest = λ h. f (o.rest h) }

Acts-Inv : {rb : Ring} {s t : Shared} → Inv rb s → Acts s t → Inv rb t
Acts-Inv {rb} {s} i (writer_turns u) = record {
  reached = i.reached;
  writers = Turn-Owned i.writers u;
  readers = i.readers;
}
Acts-Inv {rb} {s} i (reader_turns u) = record {
  reached = i.reached;
  writers = i.writers;
  readers = Turn-Owned i.readers u;
}
Acts-Inv {rb} {s} i (begins_write j v e) = record {
  reached =
      Threads.later i.reached
        (calls_write v (Owned-idle _ j i.writers (ap holds e) (ap is_inside e)));
  writers = begins-Owned _ _ j i.writers (ap holds e);
  readers = i.readers;
}
Acts-Inv {rb} {s} i (begins_read j e) = record {
  reached =
      Threads.later i.reached (calls_read (Owned-idle _ j i.readers (ap holds e) (ap is_inside e)));
  writers = i.writers;
  readers = begins-Owned _ _ j i.readers (ap holds e);
}
Acts-Inv {rb} {s} i (writer_acts j {t} e a) = record {
  reached = Threads.later i.reached (Threads.writer_acts a);
  writers = goes_on _ _ j i.writers (ap is_inside e);
  readers = idles _ _ s.readers i.readers (writer_action-reader s.system a);
}
Acts-Inv {rb} {s} i (reader_acts j {t} e a) = record {
  reached = Threads.later i.reached (Threads.reader_acts a);
  writers = idles _ _ s.writers i.writers (reader_action-writer s.system a);
  readers = goes_on _ _ j i.readers (ap is_inside e);
}

pub Step-Inv : {rb : Ring} {s t : Shared} → Inv rb s → Step s t → Inv rb t
Step-Inv {rb} {s} i (acts a) = Acts-Inv i a
Step-Inv {rb} {s} i (calls_swrite j v e) = record {
  reached = i.reached;
  writers =
      same-Owned _ j (spinning v) i.writers (sym (ap holds e))
        (λ h. absurd (false≢true (rw e at h)));
  readers = i.readers;
}
Step-Inv {rb} {s} i (calls_sread j e) = record {
  reached = i.reached;
  writers = i.writers;
  readers =
      same-Owned _ j (spinning tt) i.readers (sym (ap holds e))
        (λ h. absurd (false≢true (rw e at h)));
}
Step-Inv {rb} {s} i (writer_wakes j e z) = record {
  reached = Threads.later i.reached (Threads.writer_wakes z);
  writers = goes_on _ _ j i.writers (ap is_inside e);
  readers = i.readers;
}
Step-Inv {rb} {s} i (reader_wakes j e z) = record {
  reached = Threads.later i.reached (Threads.reader_wakes z);
  writers = i.writers;
  readers = goes_on _ _ j i.readers (ap is_inside e);
}

start-Inv : (rb : Ring) → Inv rb (start rb)
start-Inv rb = record {
  reached = Threads.begin;
  writers = record { owner = λ i. refl; rest = λ h. refl };
  readers = record { owner = λ i. refl; rest = λ h. refl };
}

pub Reach-Inv : {rb : Ring} {s : Shared} → Reach rb s → Inv rb s
Reach-Inv {rb} begin = start-Inv rb
Reach-Inv (later r st) = Step-Inv (Reach-Inv r) st

-- However many threads call `zx_ringbuffer_swrite` and `zx_ringbuffer_sread` on a buffer, in any
-- order of their actions, the buffer, its locks and the calls on it are in a state that one thread
-- which calls `zx_ringbuffer_write` and one which calls `zx_ringbuffer_read` bring the same buffer to,
-- and no two callers of a side are both between `LOCK` and `UNLOCK`.
pub shared-Reach :
    {rb : Ring} {s : Shared}
    → Reach rb s
    → Threads.Reach rb s.system
      × ((i j : ℕ) → i ≢ j → holds (s.writers.place i) && holds (s.writers.place j) ≡ false)
      × ((i j : ℕ) → i ≢ j → holds (s.readers.place i) && holds (s.readers.place j) ≡ false)
shared-Reach r =
    let k = Reach-Inv r in
    (k.reached, λ i j. Owned-alone _ i j k.writers, λ i j. Owned-alone _ i j k.readers)
