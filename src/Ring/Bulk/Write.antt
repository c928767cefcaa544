-- ===== src/Ring/Bulk/Write.antt =====
-- ring_buffer.c: what `zx_ringbuffer_write_bulk` has written when it returns, and that it returns.
use clibrary.Base.{
  ℕ, zero, suc, ◌+◌, ◌-◌, ◌%◌, ◌^◌, ◌≤◌, ◌<◌, min, ◌≡◌, ◌⊎◌, inl, inr, refl, ap, sym, ◌∙◌, true,
  false, Bool-cases, some, List, [], ◌++◌, append-nil, append_assoc, length, take, arith, ltb, ◌==◌,
  ◌&&◌,
}
use clibrary.Ring.{Ring, is_full, nb_empty, returned, Waited}
use clibrary.Ring.Bounds.{IsValid, nb_full_lem}
use clibrary.Ring.Fifo.{contents}
use clibrary.Ring.Wait.{reads, wait_for_empty_lem}
use clibrary.Ring.Bulk.{too_few, write_round, write_rounds, write_bulk}
use clibrary.Ring.Bulk.Slices.{slice, slice-append, slice-eq-take, stored, store-Stored}

-- What the loop has done between index `i` and index `j`.
record Moved (values : List ℕ) (nb i j : ℕ) (rb : Ring) (w : Waited ℕ) : Type 0 where
  valid : IsValid w.ring
  size : w.ring.size ≡ rb.size
  from : i ≤ j
  to : j ≤ nb
  stop : (j ≡ nb) ⊎ (is_full w.ring ≡ true)
  order : w.passed ++ contents w.ring ≡ contents rb ++ slice values i (j - i)

module _ (values : List ℕ) (nb : ℕ) (small : nb < 2 ^ 64) where
  -- A round also gains on its budget: room and reads to come.
  record Round (ks : List ℕ) (i j : ℕ) (rb : Ring) (w : Waited ℕ) : Type 0 where
    moved : Moved values nb i j rb w
    gain : (i ≡ nb) ⊎ (i < j)
    budget : i + nb_empty rb + reads ks ≤ j + nb_empty w.ring + reads w.turns

  write_round_lem :
      (ks : List ℕ) {rb : Ring} (i : ℕ)
      → IsValid rb
      → i ≤ nb
      → (is_full rb ≡ false) ⊎ (0 < reads ks)
      → (j : ℕ) × (w : Waited ℕ) × (write_round ks rb values nb i ≡ returned (j, w))
        × Round ks i j rb w
  unfolding write_round
  write_round_lem ks {rb} i v h more =
      let (w, same, ok) = wait_for_empty_lem ks v more in
      let n = min (nb_empty w.ring) ((nb + 2 ^ 64 - i) % 2 ^ 64) in
      let st = store-Stored n values i ok.valid (omega arith) in
      let here : i + n - i ≡ n = omega arith in
      (
        i + n,
        record w { ring = stored n values i w.ring },
        rw (same, write_round) refl,
        record {
          moved = record {
            valid = st.valid;
            size = st.size ∙ ok.size;
            from = omega arith;
            to = omega arith;
            stop = ground (arith, nb_full_lem ok.valid, nb_full_lem st.valid);
            order =
                rw (here, st.order)
                  (sym (append_assoc w.passed (contents w.ring) (slice values i n))
                    ∙ ap (λ q. q ++ slice values i n) ok.order);
          };
          gain = ground (arith, nb_full_lem ok.valid, ok.room);
          budget = omega (arith, nb_full_lem ok.valid, nb_full_lem st.valid, nb_full_lem v);
        },
      )

  Moved-trans :
      {i j k : ℕ} {rb : Ring} {w w' : Waited ℕ}
      → Moved values nb i j rb w
      → Moved values nb j k w.ring w'
      → Moved values nb i k rb (record w' { passed = w.passed ++ w'.passed })
  Moved-trans {i} {j} {k} {rb} {w} {w'} m m' = record {
    valid = m'.valid;
    size = m'.size ∙ m.size;
    from = omega (arith, m.from, m'.from);
    to = m'.to;
    stop = m'.stop;
    order =
        append_assoc w.passed w'.passed (contents w'.ring)
        ∙ ap (λ q. w.passed ++ q) m'.order
        ∙ sym (append_assoc w.passed (contents w.ring) (slice values j (k - j)))
        ∙ ap (λ q. q ++ slice values j (k - j)) m.order
        ∙ append_assoc (contents rb) (slice values i (j - i)) (slice values j (k - j))
        ∙ ap (λ q. contents rb ++ q) joined;
  }
    where
      joined : slice values i (j - i) ++ slice values j (k - j) ≡ slice values i (k - i)
      joined =
          ap (λ t. slice values i (j - i) ++ slice values t (k - j)) (omega (arith, m.from))
          ∙ slice-append values i (j - i) (k - j)
          ∙ ap (slice values i) (omega (arith, m.from, m'.from))

  write_rounds_lem :
      (fuel : ℕ) (ks : List ℕ) {rb : Ring} (least i : ℕ)
      → IsValid rb
      → i ≤ least
      → least ≤ nb
      → least < fuel + i
      → (is_full rb ≡ false) ⊎ (0 < reads ks)
      → least ≤ i + nb_empty rb + reads ks
      → (j : ℕ) × (w : Waited ℕ) × (write_rounds fuel ks rb values nb least i
          ≡ some (returned (j, w)))
        × Moved values nb i j rb w
        × (least ≤ j)
  unfolding write_rounds
  write_rounds_lem zero ks least i v hi hl hf more budget = absurd (omega arith)
  write_rounds_lem (suc fuel) ks {rb} least i v hi hl hf more budget =
      let (j, w, same, r) = write_round_lem ks i v (omega arith) more in
      elim (Bool-cases (ltb j least)) [
        | inr done ↦ (j, w, rw (same, write_rounds, done) refl, r.moved, ground arith)
        | inl again ↦
            let below : j < least = ground arith in
            let full : is_full w.ring ≡ true = ground (arith, r.moved.stop) in
            let none_empty : nb_empty w.ring ≡ 0 = (nb_full_lem r.moved.valid).2.0 full in
            let (k, w', same', m, enough) =
              write_rounds_lem fuel w.turns least j r.moved.valid (omega arith) hl
                (omega (arith, r.gain)) (inr (omega (arith, r.budget))) (omega (arith, r.budget)) in
            (
              k,
              record w' { passed = w.passed ++ w'.passed },
              rw (same, write_rounds, again, same') refl,
              Moved-trans r.moved m,
              enough,
            )
      ]

-- `zx_ringbuffer_write_bulk` on a valid buffer, with an array of `nb` values or more and `nb` a
-- `size_t`, asked for `least` of `nb` values at least, returns when room and the reads on the
-- other side allow for `least`. It has written `i` values with `least ≤ i ≤ nb`, and stopped at a
-- full buffer if not at `nb`. What the other side read meanwhile, followed by what the buffer
-- holds, is what it held before followed by the first `i` values of the array. With `least` above
-- `nb` it writes nothing and returns `~0U`.
pub write_bulk_lem :
    (ks : List ℕ) {rb : Ring} (values : List ℕ) (nb least : ℕ)
    → IsValid rb
    → nb < 2 ^ 64
    → nb ≤ length values
    → least ≤ nb_empty rb + reads ks
    → (nb < least)
        × (write_bulk ks rb values nb least
            ≡ some (returned (too_few, record { ring = rb; passed = []; turns = ks })))
      ⊎ (i : ℕ) × (w : Waited ℕ) × (write_bulk ks rb values nb least ≡ some (returned (i, w)))
        × (least ≤ i)
        × (i ≤ nb)
        × ((i ≡ nb) ⊎ (is_full w.ring ≡ true))
        × IsValid w.ring
        × (w.ring.size ≡ rb.size)
        × (w.passed ++ contents w.ring ≡ contents rb ++ take i values)
unfolding write_bulk
write_bulk_lem ks {rb} values nb least v small given budget = elim (Bool-cases (ltb nb least)) [
  | inl bad ↦ inl (ground arith, rw bad refl)
  | inr fine ↦ inr (elim (Bool-cases ((least == 0) && is_full rb)) [
    | inl early ↦ (
      0,
      record { ring = rb; passed = []; turns = ks },
      rw (fine, early) refl,
      ground arith,
      omega arith,
      inr (ground arith),
      v,
      refl,
      sym (append-nil (contents rb)),
    )
    | inr late ↦
        let more : (is_full rb ≡ false) ⊎ (0 < reads ks) = ground (arith, nb_full_lem v) in
        let (j, w, same, m, enough) =
          write_rounds_lem values nb small (least + 1) ks least 0 v (omega arith) (ground arith)
            (omega arith) more (omega arith) in
        (
          j,
          w,
          rw (fine, late, same) refl,
          enough,
          m.to,
          m.stop,
          m.valid,
          m.size,
          m.order
              ∙ ap (λ q. contents rb ++ q)
                  (ap (slice values 0) (omega arith)
                    ∙ slice-eq-take values j (omega (arith, m.to))),
        )
  ])
]
