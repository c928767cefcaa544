-- ===== src/Ring/Threads/Actions.antt =====
-- ring_buffer.c: what each action of the writer and of the reader keeps of the buffer, the locks and
-- the values.
use clibrary.Base.{
  ℕ, ◌≡◌, ◌⊎◌, inl, inr, refl, ap, sym, ◌∙◌, Bool, true, false, not, ◌||◌, some, List, ◌++◌,
  append_assoc, arith,
}
use mathlib.Core.Path.{subst}
use clibrary.Ring.{Ring, Mode, is_empty, is_full, read_slot}
use clibrary.Ring.Bounds.{IsValid}
use clibrary.Ring.Fifo.{contents}
use clibrary.Ring.Threads.{
  Pc, idle, advancing, broadcasting, View, wake, advance, System, writer_view, reader_view,
  writer_store, reader_store, writer_after, reader_after,
}
use clibrary.Ring.Threads.Sync.{commits, Sync, advance-Sync, advancing-Sync, Sync-flip}
use clibrary.Ring.Threads.Stores.{ended, is_empty-ended, is_full-read_slot}
use clibrary.Ring.Threads.Order.{
  pending, taken, Stored, Loaded, Writes, advance-Writes, advance-Reads,
}

-- The two locks and conditions are in order, and a value is either returned, or held by the
-- reader's call, or in the buffer, or held by the writer's call.
pub record Inv (s : System) : Type 0 where
  pub valid : IsValid s.ring
  pub sync : Sync s.ring.mode (is_full s.ring) (is_empty s.ring) (writer_view s)
  pub stored : Stored s.writer s.ring s.offered
  pub loaded : Loaded s.reader s.ring s.value
  pub order :
      s.got ++ (taken s.reader s.value ++ contents s.ring) ++ pending s.writer s.offered ≡ s.written

-- What a broadcast leaves of a thread: its place in the call.
record Same (q q' : Pc) : Type 0 where
  taken : (v : ℕ) → taken q' v ≡ taken q v
  pending : (v : ℕ) → pending q' v ≡ pending q v
  loaded : (rb : Ring) (v : ℕ) → Loaded q rb v → Loaded q' rb v
  stored : (rb : Ring) (v : ℕ) → Stored q rb v → Stored q' rb v

same : (q : Pc) → Same q q
same q = record {
  taken = λ v. refl;
  pending = λ v. refl;
  loaded = λ rb v h. h;
  stored = λ rb v h. h;
}

wake-Same : (q : Pc) → Same q (wake q)
wake-Same idle = record {
  taken = λ v. refl;
  pending = λ v. refl;
  loaded = λ rb v h. h;
  stored = λ rb v h. h;
}
wake-Same q = record {
  taken = λ v. refl;
  pending = λ v. refl;
  loaded = λ rb v h. h;
  stored = λ rb v h. h;
}

pub advance-peer :
    (mode : Mode) (f : Bool) (p q : Pc) (l m : Bool) {t : View}
    → advance mode f p (record { pc = p; peer = q; own = l; other = m }) ≡ some t
    → (q ≡ t.peer) ⊎ (wake q ≡ t.peer)
advance-peer mode f broadcasting q l m h = inr (ground arith)
advance-peer mode f p q l m h = inl (ground arith)

advance-Same :
    (mode : Mode) (f : Bool) (p q : Pc) (l m : Bool) {t : View}
    → advance mode f p (record { pc = p; peer = q; own = l; other = m }) ≡ some t
    → Same q t.peer
advance-Same mode f p q l m {t} h = elim (advance-peer mode f p q l m h) [
  | inl e ↦ subst (Same q) e (same q)
  | inr e ↦ subst (Same q) e (wake-Same q)
]

writer_store-Sync :
    (p q : Pc) (l m : Bool) (rb : Ring) (value : ℕ) {t : View}
    → IsValid rb
    → Sync rb.mode (is_full rb) (is_empty rb) (record { pc = p; peer = q; own = l; other = m })
    → advance rb.mode (is_full rb) p (record { pc = p; peer = q; own = l; other = m }) ≡ some t
    → let rb' = writer_store p rb value in Sync rb'.mode (is_full rb') (is_empty rb') t
unfolding is_full is_empty
writer_store-Sync advancing q l m rb value {t} v s h =
    let room : is_full rb ≡ false = ground arith in
    subst (λ e. Sync rb.mode (is_full (ended rb)) e t) (sym (is_empty-ended v room))
      (advancing-Sync rb.mode (is_full rb) (is_empty rb) (is_full (ended rb)) q l m s h)
writer_store-Sync p q l m rb value {t} v s h =
    advance-Sync rb.mode (is_full rb) (is_empty rb) p q l m s h

reader_store-Sync :
    (p q : Pc) (l m : Bool) (rb : Ring) {t : View}
    → IsValid rb
    → Sync rb.mode (is_empty rb) (is_full rb) (record { pc = p; peer = q; own = l; other = m })
    → advance rb.mode (is_empty rb) p (record { pc = p; peer = q; own = l; other = m }) ≡ some t
    → let rb' = reader_store p rb in Sync rb'.mode (is_empty rb') (is_full rb') t
unfolding read_slot
reader_store-Sync advancing q l m rb {t} v s h =
    let some_left : is_empty rb ≡ false = ground arith in
    subst (λ e. Sync rb.mode (is_empty (read_slot rb).1) e t) (sym (is_full-read_slot v some_left))
      (advancing-Sync rb.mode (is_empty rb) (is_full rb) (is_empty (read_slot rb).1) q l m s h)
reader_store-Sync p q l m rb {t} v s h = advance-Sync rb.mode (is_empty rb) (is_full rb) p q l m s h

writer_store-Loaded :
    (p pc q : Pc) (rb : Ring) (offered value : ℕ)
    → not (commits q) || not (is_empty rb) ≡ true
    → Writes p pc rb offered
    → Loaded q rb value
    → Loaded q (writer_store p rb offered) value
writer_store-Loaded p pc advancing rb offered value c w h =
    let some_left : is_empty rb ≡ false = ground arith in w.oldest some_left ∙ h
writer_store-Loaded p pc q rb offered value c w h = tt

reader_store-Stored :
    (p q : Pc) (rb : Ring) (value : ℕ) → Stored p rb value → Stored p (reader_store q rb) value
reader_store-Stored advancing advancing rb value h = h
reader_store-Stored p advancing rb value h = tt
reader_store-Stored p q rb value h = h

-- The values ahead of the buffer do not matter to what the writer does behind it.
under : (g t c p c' p' : List ℕ) → c' ++ p' ≡ c ++ p → g ++ (t ++ c') ++ p' ≡ g ++ (t ++ c) ++ p
under g t c p c' p' h =
    append_assoc g (t ++ c') p'
    ∙ ap (λ xs. g ++ xs) (append_assoc t c' p' ∙ ap (λ xs. t ++ xs) h ∙ sym (append_assoc t c p))
    ∙ sym (append_assoc g (t ++ c) p)

pub writer_after-Inv :
    (s : System) {v : View}
    → Inv s
    → advance s.ring.mode (is_full s.ring) s.writer (writer_view s) ≡ some v
    → Inv (writer_after s v)
writer_after-Inv s {v} i h =
    let w =
      advance-Writes s.writer s.reader s.empty_lock s.full_lock s.ring s.offered i.valid
        i.sync.here.passed i.stored h in
    let k =
      advance-Same s.ring.mode (is_full s.ring) s.writer s.reader s.empty_lock s.full_lock h in
    record {
      valid = w.valid;
      sync =
          writer_store-Sync s.writer s.reader s.empty_lock s.full_lock s.ring s.offered i.valid
            i.sync h;
      stored = w.stored;
      loaded = k.loaded (writer_store s.writer s.ring s.offered) s.value (
          writer_store-Loaded s.writer v.pc s.reader s.ring s.offered s.value i.sync.there.passed w
            i.loaded);
      order = rw (k.taken s.value) (under s.got (taken s.reader s.value) _ _ _ _ w.order ∙ i.order);
    }

pub reader_after-Inv :
    (s : System) {v : View}
    → Inv s
    → advance s.ring.mode (is_empty s.ring) s.reader (reader_view s) ≡ some v
    → Inv (reader_after s v)
reader_after-Inv s {v} i h =
    let r =
      advance-Reads s.reader s.writer s.full_lock s.empty_lock s.ring s.value s.got i.valid
        i.sync.there.passed i.loaded h in
    let k =
      advance-Same s.ring.mode (is_empty s.ring) s.reader s.writer s.full_lock s.empty_lock h in
    let flipped = Sync-flip s.ring.mode (is_full s.ring) (is_empty s.ring) (writer_view s) i.sync in
    let rb = reader_store s.reader s.ring in
    record {
      valid = r.valid;
      sync =
          Sync-flip rb.mode (is_empty rb) (is_full rb) v
            (reader_store-Sync s.reader s.writer s.full_lock s.empty_lock s.ring i.valid flipped h);
      stored =
          k.stored rb s.offered (reader_store-Stored s.writer s.reader s.ring s.offered i.stored);
      loaded = r.loaded;
      order =
          rw (k.pending s.offered) (ap (λ xs. xs ++ pending s.writer s.offered) r.order ∙ i.order);
    }
