-- ===== src/Ring/Try/Refine.antt =====
-- ring_buffer.c: the calls that do not wait, against the bounded queue.
use clibrary.Base.{
  ℕ, ◌-◌, ◌≡◌, inl, inr, refl, true, false, Bool-cases, List, [], ◌∷◌, length, arith, ◌==◌,
}
use clibrary.Ring.{
  Ring, is_empty, is_full, nb_full, write_slot, read_slot, Outcome, waiting, aborted, returned,
  Waited, wait_for_empty, wait_for_full, write, read,
}
use clibrary.Ring.Bounds.{
  IsValid, nb_full_lem, write_slot-IsValid, read_slot-IsValid, nb_full-write_slot,
  nb_full-read_slot,
}
use clibrary.Ring.Fifo.{contents, length-contents, contents-write_slot, contents-read_slot}
use clibrary.Ring.Try.{try_write, try_read}
use clibrary.Ring.Try.Queue.{Request, put, get, Reply, stored, fetched, offer, poll, serve}

write_now :
    (ks : List ℕ) (rb : Ring) (value : ℕ)
    → is_full rb ≡ false
    → write ks rb value ≡ returned (record { ring = write_slot rb value; passed = []; turns = ks })
unfolding write wait_for_empty
write_now [] rb value h = rw (h, write)
write_now (k ∷ ks) rb value h = rw (h, write)

read_now :
    (vss : List (List ℕ)) (rb : Ring)
    → is_empty rb ≡ false
    → read vss rb
      ≡ returned ((read_slot rb).0, record { ring = (read_slot rb).1; passed = []; turns = vss })
unfolding read wait_for_full
read_now [] rb h = rw (h, read)
read_now (vs ∷ vss) rb h = rw (h, read)

-- What a call leaves: a valid buffer of the same size, nothing passed on the other side, and all
-- turns, since it did not wait.
pub record Kept {T : Type 0} (rb : Ring) (turns : List T) (w : Waited T) : Type 0 where
  pub valid : IsValid w.ring
  pub size : w.ring.size ≡ rb.size
  pub alone : w.passed ≡ []
  pub unused : w.turns ≡ turns

-- `zx_ringbuffer_try_write` never waits. It stores its value and returns 1, or returns 0, as a
-- queue of one value fewer than the array has slots does.
pub try_write_lem :
    (ks : List ℕ) {rb : Ring} (value : ℕ)
    → IsValid rb
    → let (done, q) = offer (rb.size - 1) (contents rb) value in
      (w : Waited ℕ) × (try_write ks rb value ≡ returned (done, w))
      × Kept rb ks w
      × (contents w.ring ≡ q)
unfolding try_write offer
try_write_lem ks {rb} value v = elim (Bool-cases (is_full rb)) [
  | inl e ↦
      let full : (length (contents rb) == rb.size - 1) ≡ true =
        ground (arith, nb_full_lem v, length-contents rb) in
      rw (e, full) (record { ring = rb; passed = []; turns = ks }, refl, ground arith, refl)
  | inr e ↦
      let room : (length (contents rb) == rb.size - 1) ≡ false =
        ground (arith, nb_full_lem v, length-contents rb) in
      rw (e, room)
        (
          record { ring = write_slot rb value; passed = []; turns = ks },
          rw (write_now ks rb value e) refl,
          record {
            valid = write_slot-IsValid v value;
            size = (nb_full-write_slot v value e).1;
            alone = refl;
            unused = refl;
          },
          contents-write_slot v value e,
        )
]

-- `zx_ringbuffer_try_read` never waits. It takes the oldest value and returns 1, or leaves its
-- argument alone and returns 0, as a queue does.
pub try_read_lem :
    (vss : List (List ℕ)) {rb : Ring}
    → IsValid rb
    → let (value, q) = poll (contents rb) in
      (w : Waited (List ℕ)) × (try_read vss rb ≡ returned (value, w))
      × Kept rb vss w
      × (contents w.ring ≡ q)
unfolding try_read poll contents
try_read_lem vss {rb} v = elim (Bool-cases (is_empty rb)) [
  | inl e ↦
      let none_left : nb_full rb ≡ 0 = ground (arith, nb_full_lem v) in
      rw (e, none_left)
        (record { ring = rb; passed = []; turns = vss }, refl, ground arith, rw none_left)
  | inr e ↦
      rw (e, contents-read_slot v e)
        (
          record { ring = (read_slot rb).1; passed = []; turns = vss },
          rw (read_now vss rb e) refl,
          record {
            valid = read_slot-IsValid v;
            size = (nb_full-read_slot v e).1;
            alone = refl;
            unused = refl;
          },
          refl,
        )
]

abbrev then_reply : Reply → Outcome (List Reply) → Outcome (List Reply)
then_reply r (returned rs) = returned (r ∷ rs)
then_reply r o = o

-- A client's requests, one after the other, with nobody on the other side.
pub run : Ring → List Request → Outcome (List Reply)
run rb [] = returned []
run rb (put v ∷ rs) = elim (try_write [] rb v) [
  | waiting ↦ waiting
  | aborted ↦ aborted
  | returned (done, w) ↦ then_reply (stored done) (run w.ring rs)
]
run rb (get ∷ rs) = elim (try_read [] rb) [
  | waiting ↦ waiting
  | aborted ↦ aborted
  | returned (value, w) ↦ then_reply (fetched value) (run w.ring rs)
]

-- No sequence of requests tells a valid buffer from the queue of the values that it holds, with one
-- slot fewer than the array has as its limit.
pub run_refines :
    (rs : List Request) {rb : Ring}
    → IsValid rb
    → run rb rs ≡ returned (serve (rb.size - 1) (contents rb) rs)
unfolding run serve
run_refines [] v = refl
run_refines (put x ∷ rs) {rb} v =
    let (w, same, kept, q) = try_write_lem [] x v in
    rw (same, run) (rw (run_refines rs kept.valid, kept.size, q) refl)
run_refines (get ∷ rs) {rb} v =
    let (w, same, kept, q) = try_read_lem [] v in
    rw (same, run) (rw (run_refines rs kept.valid, kept.size, q) refl)
