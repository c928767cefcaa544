-- ===== src/Ring/Threads/Invariant.antt =====
-- ring_buffer.c: what holds in every state that the writer and the reader bring a buffer to.
use clibrary.Base.{some_lem, ℕ, ◌≡◌, refl, ap, sym, ◌∙◌, true, [], ◌∷◌, ◌++◌, append-nil, arith}
use mathlib.Core.Path.{subst}
use clibrary.Ring.{Ring, Mode, blocking, polling, is_empty, is_full}
use clibrary.Ring.Bounds.{IsValid}
use clibrary.Ring.Threads.{
  Pc, idle, sleeping, woken, enter, advance, System, start, writer_view, reader_view, writer_action,
  reader_action, writer_after, reader_after, call_write, call_read, Step, calls_write, calls_read,
  writer_acts, reader_acts, writer_wakes, reader_wakes, Reach, begin, later,
}
use clibrary.Ring.Threads.Sync.{woken-Sync, enter-Sync, Sync-flip}
use clibrary.Ring.Threads.Stores.{contents-empty}
use clibrary.Ring.Threads.Order.{pending, taken, Stored, Loaded}
use clibrary.Ring.Threads.Actions.{Inv, writer_after-Inv, reader_after-Inv}

-- The start of a call: the writer's value is under way, the reader has taken nothing.
enter_lem :
    (mode : Mode) (rb : Ring) (value : ℕ)
    → (pending (enter mode) value ≡ value ∷ [])
      × (taken (enter mode) value ≡ [])
      × Stored (enter mode) rb value
      × Loaded (enter mode) rb value
enter_lem blocking rb value = (refl, refl, tt, tt)
enter_lem polling rb value = (refl, refl, tt, tt)

call_write-Inv :
    (s : System) (value : ℕ) → Inv (record s { writer = idle }) → Inv (call_write value s)
call_write-Inv s value i =
    let (now, _, stored, _) = enter_lem s.ring.mode s.ring value in
    record {
      valid = i.valid;
      sync =
          enter-Sync s.ring.mode (is_full s.ring) (is_empty s.ring) s.reader s.empty_lock
            s.full_lock i.sync;
      stored = stored;
      loaded = i.loaded;
      order = rw now (ap (λ xs. xs ++ value ∷ []) (sym (append-nil _) ∙ i.order));
    }

call_read-Inv : (s : System) → Inv (record s { reader = idle }) → Inv (call_read s)
call_read-Inv s i =
    let mode = s.ring.mode in
    let (_, now, _, loaded) = enter_lem mode s.ring s.value in
    record {
      valid = i.valid;
      sync = Sync-flip mode (is_empty s.ring) (is_full s.ring) _ (
          enter-Sync mode (is_empty s.ring) (is_full s.ring) s.writer s.full_lock s.empty_lock
            (Sync-flip _ _ _ _ i.sync));
      stored = i.stored;
      loaded = loaded;
      order = rw now i.order;
    }

writer_wakes-Inv :
    (s : System) → Inv (record s { writer = sleeping }) → Inv (record s { writer = woken })
writer_wakes-Inv s i = record {
  valid = i.valid;
  sync = woken-Sync _ (is_full s.ring) (is_empty s.ring) s.reader s.empty_lock s.full_lock i.sync;
  stored = tt;
  loaded = i.loaded;
  order = i.order;
}

reader_wakes-Inv :
    (s : System) → Inv (record s { reader = sleeping }) → Inv (record s { reader = woken })
reader_wakes-Inv s i = record {
  valid = i.valid;
  sync = Sync-flip _ (is_empty s.ring) (is_full s.ring) _ (
      woken-Sync _ (is_empty s.ring) (is_full s.ring) s.writer s.full_lock s.empty_lock
        (Sync-flip _ _ _ _ i.sync));
  stored = i.stored;
  loaded = tt;
  order = i.order;
}

-- A thread whose place is known stands there.
pub writer_at : {s : System} (p : Pc) → s.writer ≡ p → Inv s → Inv (record s { writer = p })
writer_at {s} p e i = subst (λ q. Inv (record s { writer = q })) e i

pub reader_at : {s : System} (p : Pc) → s.reader ≡ p → Inv s → Inv (record s { reader = p })
reader_at {s} p e i = subst (λ q. Inv (record s { reader = q })) e i

pub Step-Inv : {s t : System} → Inv s → Step s t → Inv t
unfolding writer_action reader_action
Step-Inv {s} i (calls_write value e) = call_write-Inv s value (writer_at idle e i)
Step-Inv {s} i (calls_read e) = call_read-Inv s (reader_at idle e i)
Step-Inv {s} i (writer_acts h) =
    let (v, moved, e) =
      some_lem (writer_after s) (advance s.ring.mode (is_full s.ring) s.writer (writer_view s)) h in
    subst Inv e (writer_after-Inv s i moved)
Step-Inv {s} i (reader_acts h) =
    let (v, moved, e) =
      some_lem (reader_after s) (advance s.ring.mode (is_empty s.ring) s.reader (reader_view s))
        h in
    subst Inv e (reader_after-Inv s i moved)
Step-Inv {s} i (writer_wakes e) = writer_wakes-Inv s (writer_at sleeping e i)
Step-Inv {s} i (reader_wakes e) = reader_wakes-Inv s (reader_at sleeping e i)

start-Inv : (rb : Ring) → IsValid rb → is_empty rb ≡ true → Inv (start rb)
start-Inv rb v e = ground (arith, contents-empty v e)

pub Reach-Inv : {rb : Ring} {s : System} → IsValid rb → is_empty rb ≡ true → Reach rb s → Inv s
Reach-Inv {rb} v e begin = start-Inv rb v e
Reach-Inv v e (later r step) = Step-Inv (Reach-Inv v e r) step
