-- ===== src/Ring/Wait.antt =====
-- ring_buffer.c: `zx_ringbuffer_write` and `zx_ringbuffer_read`, which wait for the other side. When
-- they return, and what they and the other side have done to the values by then.
use clibrary.Base.{
  ℕ, zero, suc, ◌+◌, ◌<◌, ◌≤◌, min, ◌≡◌, ◌⊎◌, inl, inr, refl, ◌∙◌, sym, true, false, Bool-cases,
  List, [], ◌∷◌, ◌++◌, append-nil, append_assoc, length, arith,
}
use clibrary.Ring.{
  Ring, is_empty, is_full, nb_full, nb_empty, write_slot, read_slot, consume, produce, returned,
  Waited, wait_for_empty, wait_for_full, write, read,
}
use clibrary.Ring.Bounds.{
  IsValid, nb_full_lem, write_slot-IsValid, read_slot-IsValid, nb_full-write_slot,
  nb_full-read_slot,
}
use clibrary.Ring.Fifo.{
  contents, contents-write_slot, contents-read_slot, consume-Consumed, produce-Produced,
}

-- In how many of its turns a waiting producer sees a read, and a waiting consumer a write.
abbrev pub reads : List ℕ → ℕ
reads [] = 0
reads (k ∷ ks) = min k 1 + reads ks

abbrev pub writes : List (List ℕ) → ℕ
writes [] = 0
writes (vs ∷ vss) = min (length vs) 1 + writes vss

-- What `wait_for_empty` returns: room, and a buffer that lacks exactly what was read meanwhile.
pub record HasRoom (ks : List ℕ) (rb : Ring) (w : Waited ℕ) : Type 0 where
  pub valid : IsValid w.ring
  pub room : is_full w.ring ≡ false
  pub size : w.ring.size ≡ rb.size
  pub progress : nb_empty rb + reads ks ≤ nb_empty w.ring + reads w.turns
  pub order : w.passed ++ contents w.ring ≡ contents rb

-- On a full buffer a read makes room.
room-consume :
    (k n : ℕ) {rb : Ring}
    → IsValid rb
    → is_full rb ≡ true
    → (is_full rb ≡ false) ⊎ (0 < min k 1 + n)
    → (is_full (consume k rb).1 ≡ false) ⊎ (0 < n)
room-consume zero n v e h = inr (ground arith)
room-consume (suc k) n {rb} v e h = inl (
    ground (
      arith,
      consume-Consumed (suc k) v,
      nb_full_lem v,
      nb_full_lem (consume-Consumed (suc k) v).valid,
    ))

pub wait_for_empty_lem :
    (ks : List ℕ) {rb : Ring}
    → IsValid rb
    → (is_full rb ≡ false) ⊎ (0 < reads ks)
    → (w : Waited ℕ) × (wait_for_empty ks rb ≡ returned w) × HasRoom ks rb w
unfolding wait_for_empty
wait_for_empty_lem [] {rb} v h =
    (record { ring = rb; passed = []; turns = [] }, ground arith, ground arith)
wait_for_empty_lem (k ∷ ks) {rb} v h = elim (Bool-cases (is_full rb)) [
  | inr e ↦ (record { ring = rb; passed = []; turns = k ∷ ks }, rw e refl, ground arith)
  | inl e ↦
      let c = consume-Consumed k v in
      let out = consume k rb in
      let more : (is_full out.1 ≡ false) ⊎ (0 < reads ks) = room-consume k (reads ks) v e h in
      let (w, same, ok) = wait_for_empty_lem ks c.valid more in
      (
        record w { passed = out.0 ++ w.passed },
        rw (e, same) refl,
        ground (
          arith,
          nb_full_lem v,
          nb_full_lem c.valid,
          append_assoc out.0 w.passed (contents w.ring),
        ),
      )
]

-- What `wait_for_full` returns: a value, and a buffer that has gained exactly what was written.
pub record HasValue (vss : List (List ℕ)) (rb : Ring) (w : Waited (List ℕ)) : Type 0 where
  pub valid : IsValid w.ring
  pub value : is_empty w.ring ≡ false
  pub size : w.ring.size ≡ rb.size
  pub progress : nb_full rb + writes vss ≤ nb_full w.ring + writes w.turns
  pub order : contents w.ring ≡ contents rb ++ w.passed

-- On an empty buffer a write gives a value.
value-produce :
    (vs : List ℕ) (n : ℕ) {rb : Ring}
    → IsValid rb
    → is_empty rb ≡ true
    → (is_empty rb ≡ false) ⊎ (0 < min (length vs) 1 + n)
    → (is_empty (produce vs rb).1 ≡ false) ⊎ (0 < n)
value-produce [] n v e h = inr (ground arith)
value-produce (x ∷ xs) n {rb} v e h = inl (
    ground (
      arith,
      produce-Produced (x ∷ xs) v,
      nb_full_lem v,
      nb_full_lem (produce-Produced (x ∷ xs) v).valid,
    ))

pub wait_for_full_lem :
    (vss : List (List ℕ)) {rb : Ring}
    → IsValid rb
    → (is_empty rb ≡ false) ⊎ (0 < writes vss)
    → (w : Waited (List ℕ)) × (wait_for_full vss rb ≡ returned w) × HasValue vss rb w
unfolding wait_for_full
wait_for_full_lem [] {rb} v h = (
  record { ring = rb; passed = []; turns = [] },
  ground arith,
  ground (arith, append-nil (contents rb)),
)
wait_for_full_lem (vs ∷ vss) {rb} v h = elim (Bool-cases (is_empty rb)) [
  | inr e ↦ (
    record { ring = rb; passed = []; turns = vs ∷ vss },
    rw e refl,
    ground (arith, append-nil (contents rb)),
  )
  | inl e ↦
      let p = produce-Produced vs v in
      let out = produce vs rb in
      let more : (is_empty out.1 ≡ false) ⊎ (0 < writes vss) =
        value-produce vs (writes vss) v e h in
      let (w, same, ok) = wait_for_full_lem vss p.valid more in
      (
        record w { passed = out.0 ++ w.passed },
        rw (e, same) refl,
        ground
            (arith, nb_full_lem v, nb_full_lem p.valid, append_assoc (contents rb) out.0 w.passed),
      )
]

-- `zx_ringbuffer_write` on a valid buffer returns as soon as there is room: at once, or after a
-- read on the other side. It keeps the invariant and the size, and clobbers nothing: what the
-- other side read meanwhile, followed by what the buffer holds at the end, is what it held before
-- followed by the new value.
pub write_lem :
    (ks : List ℕ) {rb : Ring} (value : ℕ)
    → IsValid rb
    → (is_full rb ≡ false) ⊎ (0 < reads ks)
    → (w : Waited ℕ) × (write ks rb value ≡ returned w)
      × IsValid w.ring
      × (w.ring.size ≡ rb.size)
      × (w.passed ++ contents w.ring ≡ contents rb ++ value ∷ [])
unfolding write
write_lem ks {rb} value v h =
    let (w, same, ok) = wait_for_empty_lem ks v h in
    (
      record w { ring = write_slot w.ring value },
      rw (same, write) refl,
      write_slot-IsValid ok.valid value,
      (nb_full-write_slot ok.valid value ok.room).1 ∙ ok.size,
      ground (
        arith,
        contents-write_slot ok.valid value ok.room,
        append_assoc w.passed (contents w.ring) (value ∷ []),
      ),
    )

-- `zx_ringbuffer_read` on a valid buffer returns as soon as there is a value: at once, or after a
-- write on the other side. It keeps the invariant and the size, and returns the oldest value: that
-- value, followed by what the buffer holds at the end, is what it held before followed by what the
-- other side wrote meanwhile.
pub read_lem :
    (vss : List (List ℕ)) {rb : Ring}
    → IsValid rb
    → (is_empty rb ≡ false) ⊎ (0 < writes vss)
    → (value : ℕ) × (w : Waited (List ℕ)) × (read vss rb ≡ returned (value, w))
      × IsValid w.ring
      × (w.ring.size ≡ rb.size)
      × (value ∷ contents w.ring ≡ contents rb ++ w.passed)
unfolding read
read_lem vss {rb} v h =
    let (w, same, ok) = wait_for_full_lem vss v h in
    (
      (read_slot w.ring).0,
      record w { ring = (read_slot w.ring).1 },
      rw (same, read) refl,
      read_slot-IsValid ok.valid,
      (nb_full-read_slot ok.valid ok.value).1 ∙ ok.size,
      sym (contents-read_slot ok.valid ok.value) ∙ ok.order,
    )
