-- ===== src/Ring/Threads/Progress.antt =====
-- ring_buffer.c: no thread sleeps for good while the other can go on, and calls come to an end.
use clibrary.Base.{
  some_lem, ℕ, suc, ◌+◌, ◌*◌, ◌<◌, ◌≤◌, ◌≡◌, refl, ◌∙◌, Bool, true, Option, some, arith,
}
use mathlib.Core.Path.{subst}
use clibrary.Ring.{Ring, Mode, blocking, is_empty, is_full}
use clibrary.Ring.Bounds.{IsValid}
use clibrary.Ring.Threads.{
  Pc, idle, locking, testing, failing, sleeping, woken, leaving, polls, copying, advancing,
  notifying, broadcasting, releasing, View, wake, advance, System, writer_view, reader_view,
  writer_store, reader_store, writer_action, reader_action, writer_after, reader_after, writer_acts,
  reader_acts, writer_wakes, reader_wakes, Reach,
}
use clibrary.Ring.Threads.Sync.{stays}
use clibrary.Ring.Threads.Actions.{Inv}
use clibrary.Ring.Threads.Invariant.{Step-Inv, Reach-Inv}

-- So many actions of the two threads in the calls they are in, with no new call, and so many sleeps
-- that end without a broadcast in between.
pub data Acts : ℕ → ℕ → System → System → Type 0 where
  done : {s : System} → Acts 0 0 s s
  writer_then :
      {n k : ℕ} {s t u : System} → writer_action s ≡ some t → Acts n k t u → Acts (suc n) k s u
  reader_then :
      {n k : ℕ} {s t u : System} → reader_action s ≡ some t → Acts n k t u → Acts (suc n) k s u
  writer_wakes_then :
      {n k : ℕ} {s u : System}
      → s.writer ≡ sleeping
      → Acts n k (record s { writer = woken }) u
      → Acts n (suc k) s u
  reader_wakes_then :
      {n k : ℕ} {s u : System}
      → s.reader ≡ sleeping
      → Acts n k (record s { reader = woken }) u
      → Acts n (suc k) s u

-- More than the actions that a thread still has to do, its peer's return from a sleep included.
rank : Pc → ℕ
rank idle = 0
rank releasing = 1
rank broadcasting = 5
rank notifying = 6
rank advancing = 7
rank copying = 8
rank leaving = 9
rank sleeping = 10
rank failing = 11
rank testing = 12
rank woken = 13
rank locking = 13
rank polls = 13

wake-rank : (q : Pc) → rank (wake q) < rank q + 4
unfolding rank
wake-rank sleeping = omega arith
wake-rank q = omega arith

advance-rank :
    (f : Bool) (p q : Pc) (l m : Bool) {t : View}
    → stays blocking p ≡ true
    → advance blocking f p (record { pc = p; peer = q; own = l; other = m }) ≡ some t
    → rank t.pc + rank t.peer < rank p + rank q
unfolding rank
advance-rank f broadcasting q l m h e = ground (arith, wake-rank q)
advance-rank f p q l m h e = ground arith

writer_store-mode : (p : Pc) (rb : Ring) (value : ℕ) → (writer_store p rb value).mode ≡ rb.mode
writer_store-mode copying rb value = refl
writer_store-mode p rb value = refl

reader_store-mode : (p : Pc) (rb : Ring) → (reader_store p rb).mode ≡ rb.mode
reader_store-mode advancing rb = refl
reader_store-mode p rb = refl

-- An action of either thread brings the end of the two calls nearer.
abbrev left : System → ℕ
left s = rank s.writer + rank s.reader

in_blocking :
    (mode : Mode) (f : Bool) (p : Pc) (v : View) (o : Option View)
    → mode ≡ blocking
    → advance mode f p v ≡ o
    → advance blocking f p v ≡ o
in_blocking mode f p v o b e = subst (λ mode. advance mode f p v ≡ o) b e

writer_acts-left :
    {s t : System}
    → Inv s
    → s.ring.mode ≡ blocking
    → writer_action s ≡ some t
    → (left t < left s) × (t.ring.mode ≡ blocking)
unfolding writer_action
writer_acts-left {s} i b h =
    let (v, moved, e) =
      some_lem (writer_after s) (advance s.ring.mode (is_full s.ring) s.writer (writer_view s)) h in
    let place = subst (λ mode. stays mode s.writer ≡ true) b i.sync.here.places in
    let less =
      advance-rank (is_full s.ring) s.writer s.reader s.empty_lock s.full_lock place
        (in_blocking s.ring.mode (is_full s.ring) s.writer (writer_view s) (some v) b moved) in
    subst (λ u. (left u < left s) × (u.ring.mode ≡ blocking)) e
      (less, writer_store-mode s.writer s.ring s.offered ∙ b)

reader_acts-left :
    {s t : System}
    → Inv s
    → s.ring.mode ≡ blocking
    → reader_action s ≡ some t
    → (left t < left s) × (t.ring.mode ≡ blocking)
unfolding reader_action
reader_acts-left {s} i b h =
    let (v, moved, e) =
      some_lem (reader_after s) (advance s.ring.mode (is_empty s.ring) s.reader (reader_view s))
        h in
    let place = subst (λ mode. stays mode s.reader ≡ true) b i.sync.there.places in
    let less =
      advance-rank (is_empty s.ring) s.reader s.writer s.full_lock s.empty_lock place
        (in_blocking s.ring.mode (is_empty s.ring) s.reader (reader_view s) (some v) b moved) in
    subst (λ u. (left u < left s) × (u.ring.mode ≡ blocking)) e
      (omega (arith, less), reader_store-mode s.reader s.ring ∙ b)

-- A sleep that ends without a broadcast costs three actions.
rank-sleeping : (p : Pc) → p ≡ sleeping → rank woken ≡ rank p + 3
unfolding rank
rank-sleeping p e = rw e refl

Acts-left :
    {n k : ℕ} {s t : System}
    → Inv s
    → s.ring.mode ≡ blocking
    → Acts n k s t
    → n + left t ≤ left s + 3 * k
Acts-left i b done = omega arith
Acts-left i b (writer_then h acts) =
    let (less, b') = writer_acts-left i b h in
    omega (arith, less, Acts-left (Step-Inv i (writer_acts h)) b' acts)
Acts-left i b (reader_then h acts) =
    let (less, b') = reader_acts-left i b h in
    omega (arith, less, Acts-left (Step-Inv i (reader_acts h)) b' acts)
Acts-left {s = s} i b (writer_wakes_then h acts) =
    omega (arith, rank-sleeping s.writer h, Acts-left (Step-Inv i (writer_wakes h)) b acts)
Acts-left {s = s} i b (reader_wakes_then h acts) =
    omega (arith, rank-sleeping s.reader h, Acts-left (Step-Inv i (reader_wakes h)) b acts)

rank-le : (p : Pc) → rank p ≤ 13
unfolding rank
rank-le idle = omega arith
rank-le p = omega arith

-- In every state that a writer and a reader bring an empty buffer of the blocking mode to: however
-- the two interleave, they do at most 26 actions in the calls that they are in, and three more for
-- each sleep that ends without a broadcast.
pub Acts-bounded :
    {rb : Ring} {n k : ℕ} {s t : System}
    → IsValid rb
    → is_empty rb ≡ true
    → Reach rb s
    → s.ring.mode ≡ blocking
    → Acts n k s t
    → n ≤ 26 + 3 * k
Acts-bounded {s} v e r b acts =
    omega (arith, Acts-left (Reach-Inv v e r) b acts, rank-le s.writer, rank-le s.reader)
