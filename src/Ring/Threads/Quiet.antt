-- ===== src/Ring/Threads/Quiet.antt =====
-- ring_buffer.c: the states in which neither thread can act, and who is woken when.
use clibrary.Base.{
  none_lem, ◌≡◌, ◌≢◌, ◌⊎◌, inl, inr, refl, Bool, true, false, not, ◌&&◌, ◌||◌, none, ◌++◌, arith,
}
use clibrary.Ring.{Ring, Mode, is_empty, is_full}
use clibrary.Ring.Bounds.{IsValid, nb_full_lem}
use clibrary.Ring.Fifo.{contents}
use clibrary.Ring.Threads.{
  Pc, idle, sleeping, View, advance, System, writer_view, reader_view, writer_action, reader_action,
  writer_after, reader_after, Reach,
}
use clibrary.Ring.Threads.Sync.{announces, commits, holds_own, holds_other, Half, Sync, Sync-flip}
use clibrary.Ring.Threads.Order.{pending, taken}
use clibrary.Ring.Threads.Invariant.{Reach-Inv}

-- A thread that holds a lock can act.
holder_acts :
    (mode : Mode) (e : Bool) (q : Pc) (v : View)
    → advance mode e q v ≡ none
    → (holds_own q ≡ false) × (holds_other q ≡ false)
holder_acts mode e idle v h = (refl, refl)
holder_acts mode e q v h = ground arith

-- A thread that cannot act is outside of a call, or sleeps, if its peer cannot act either.
stuck_lem :
    (mode : Mode) (f e : Bool) (p q : Pc) (l m : Bool)
    → Sync mode f e (record { pc = p; peer = q; own = l; other = m })
    → advance mode f p (record { pc = p; peer = q; own = l; other = m }) ≡ none
    → advance mode e q (record { pc = q; peer = p; own = m; other = l }) ≡ none
    → (p ≡ idle) ⊎ (p ≡ sleeping)
stuck_lem mode f e idle q l m s h k = inl refl
stuck_lem mode f e sleeping q l m s h k = inr refl
stuck_lem mode f e p q l m s h k =
    ground (arith, holder_acts mode e q (record { pc = q; peer = p; own = m; other = l }) k)

settled_lem :
    (mode : Mode) (f e : Bool) (p q : Pc) (l m : Bool)
    → Sync mode f e (record { pc = p; peer = q; own = l; other = m })
    → f && e ≡ false
    → (p ≡ idle) ⊎ (p ≡ sleeping)
    → (q ≡ idle) ⊎ (q ≡ sleeping)
    → (p ≡ idle) × (q ≡ idle)
      ⊎ (p ≡ sleeping) × (q ≡ idle) × (f ≡ true)
      ⊎ (p ≡ idle) × (q ≡ sleeping) × (e ≡ true)
settled_lem mode f e p q l m s never h k = ground arith

waiting_lem :
    (mode : Mode) (stop : Bool) (p q : Pc) (l : Bool)
    → Half mode stop p q l
    → (p ≢ sleeping) ⊎ (stop ≡ true) ⊎ (announces q ≡ true)
waiting_lem mode stop sleeping q l h = ground arith
waiting_lem mode stop p q l h = inl (ground arith)

passed : (c f : Bool) → not c || not f ≡ true → c && f ≡ false
passed c f h = ground arith

not_both : {rb : Ring} → IsValid rb → is_full rb && is_empty rb ≡ false
not_both {rb} v = ground (arith, nb_full_lem v)

module _ {rb : Ring} {s : System} (v : IsValid rb) (e : is_empty rb ≡ true) (r : Reach rb s) where
  -- In every state that a writer and a reader bring an empty buffer to: the buffer is valid, and
  -- what the calls of `zx_ringbuffer_read` have returned, the value that such a call has taken, what
  -- the buffer holds and the value that a call of `zx_ringbuffer_write` has not handed over yet are
  -- together, in this order, the arguments of all calls of `zx_ringbuffer_write`.
  pub handed_on :
      IsValid s.ring
      × (s.got ++ (taken s.reader s.value ++ contents s.ring) ++ pending s.writer s.offered
          ≡ s.written)
  handed_on = let i = Reach-Inv v e r in (i.valid, i.order)

  -- In every such state the two threads never hold the same lock, a writer between its test and its
  -- store of `end` finds the buffer not full, and a reader between its test and its store of
  -- `start` finds it not empty.
  pub exclusion :
      (holds_own s.writer && holds_other s.reader ≡ false)
      × (holds_own s.reader && holds_other s.writer ≡ false)
      × (commits s.writer && is_full s.ring ≡ false)
      × (commits s.reader && is_empty s.ring ≡ false)
  exclusion =
      let i = Reach-Inv v e r in
      (
        i.sync.here.alone,
        i.sync.there.alone,
        passed (commits s.writer) (is_full s.ring) i.sync.here.passed,
        passed (commits s.reader) (is_empty s.ring) i.sync.there.passed,
      )

  -- No wakeup is lost: in every such state a writer that sleeps finds the buffer full, or the reader
  -- has yet to broadcast, and a reader that sleeps finds it empty, or the writer has yet to.
  pub no_lost_wakeup :
      ((s.writer ≢ sleeping) ⊎ (is_full s.ring ≡ true) ⊎ (announces s.reader ≡ true))
      × ((s.reader ≢ sleeping) ⊎ (is_empty s.ring ≡ true) ⊎ (announces s.writer ≡ true))
  no_lost_wakeup =
      let i = Reach-Inv v e r in
      (
        waiting_lem _ (is_full s.ring) s.writer s.reader s.empty_lock i.sync.here,
        waiting_lem _ (is_empty s.ring) s.reader s.writer s.full_lock i.sync.there,
      )

  -- No deadlock: where neither thread can act in such a state, both are outside of a call, or one is
  -- and the other sleeps, the writer on a full buffer or the reader on an empty one.
  pub quiet_lem :
      writer_action s ≡ none
      → reader_action s ≡ none
      → (s.writer ≡ idle) × (s.reader ≡ idle)
        ⊎ (s.writer ≡ sleeping) × (s.reader ≡ idle) × (is_full s.ring ≡ true)
        ⊎ (s.writer ≡ idle) × (s.reader ≡ sleeping) × (is_empty s.ring ≡ true)
  unfolding writer_action reader_action
  quiet_lem w d =
      let i = Reach-Inv v e r in
      let mode = s.ring.mode in
      let f = is_full s.ring in
      let g = is_empty s.ring in
      let stopped = none_lem (writer_after s) (advance mode f s.writer (writer_view s)) w in
      let stopped' = none_lem (reader_after s) (advance mode g s.reader (reader_view s)) d in
      settled_lem mode f g s.writer s.reader s.empty_lock s.full_lock i.sync (not_both i.valid)
        (stuck_lem mode f g s.writer s.reader s.empty_lock s.full_lock i.sync stopped stopped')
        (stuck_lem mode g f s.reader s.writer s.full_lock s.empty_lock
          (Sync-flip mode f g (writer_view s) i.sync) stopped' stopped)
