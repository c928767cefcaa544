-- ===== src/Ring/Bulk/Read.antt =====
-- ring_buffer.c: what `zx_ringbuffer_read_bulk` has read when it returns, and that it returns.
use clibrary.Base.{
  ℕ, zero, suc, ◌+◌, ◌-◌, ◌%◌, ◌^◌, ◌≤◌, ◌<◌, min, ◌≡◌, ◌⊎◌, inl, inr, refl, ap, sym, ◌∙◌, true,
  false, Bool-cases, some, List, [], ◌++◌, append-nil, append_assoc, length, length-append, arith,
  ltb, ◌==◌, ◌&&◌,
}
use mathlib.Core.Path.{subst}
use clibrary.Ring.{Ring, is_empty, nb_full, returned, Waited}
use clibrary.Ring.Bounds.{IsValid, nb_full_lem}
use clibrary.Ring.Fifo.{contents}
use clibrary.Ring.Wait.{writes, wait_for_full_lem}
use clibrary.Ring.Bulk.{too_few, read_round, read_rounds, read_bulk}
use clibrary.Ring.Bulk.Slices.{FilledBy, loaded, load-Loaded}

-- What the loop has fetched behind the values `got`, from index `i` to index `j` of the array.
pub record Fetched (got old : List ℕ) (nb i j : ℕ) (rb : Ring) (values : List ℕ)
    (w : Waited (List ℕ)) : Type 0 where
  pub valid : IsValid w.ring
  pub size : w.ring.size ≡ rb.size
  pub from : i ≤ j
  pub to : j ≤ nb
  pub stop : (j ≡ nb) ⊎ (is_empty w.ring ≡ true)
  pub fetched : List ℕ
  pub count : length fetched ≡ j - i
  pub order : contents rb ++ w.passed ≡ fetched ++ contents w.ring
  pub filled : FilledBy (got ++ fetched) old values

module _ (old : List ℕ) (nb : ℕ) (small : nb < 2 ^ 64) (given : nb ≤ length old) where
  record Round (got : List ℕ) (vss : List (List ℕ)) (i j : ℕ) (rb : Ring) (values : List ℕ)
      (w : Waited (List ℕ)) : Type 0 where
    moved : Fetched got old nb i j rb values w
    gain : (i ≡ nb) ⊎ (i < j)
    budget : i + nb_full rb + writes vss ≤ j + nb_full w.ring + writes w.turns

  read_round_lem :
      (got : List ℕ) (vss : List (List ℕ)) {rb : Ring} (values : List ℕ) (i : ℕ)
      → IsValid rb
      → i ≤ nb
      → (is_empty rb ≡ false) ⊎ (0 < writes vss)
      → i ≡ length got
      → FilledBy got old values
      → (j : ℕ) × (values' : List ℕ) × (w : Waited (List ℕ)) × (read_round vss rb values nb i
          ≡ returned ((j, values'), w))
        × Round got vss i j rb values' w
  unfolding read_round
  read_round_lem got vss {rb} values i v h more at f =
      let (w, same, ok) = wait_for_full_lem vss v more in
      let n = min (nb_full w.ring) ((nb + 2 ^ 64 - i) % 2 ^ 64) in
      let l = load-Loaded n i got old ok.valid (omega arith) at (omega arith) f in
      (
        i + n,
        (loaded n values i w.ring).0,
        record w { ring = (loaded n values i w.ring).1 },
        rw (same, read_round) refl,
        record {
          moved = record {
            valid = l.valid;
            size = l.size ∙ ok.size;
            from = omega arith;
            to = omega arith;
            stop = ground (arith, nb_full_lem ok.valid, nb_full_lem l.valid, l.count);
            fetched = l.fetched;
            count = omega (arith, l.length);
            order = sym ok.order ∙ l.order;
            filled = l.filled;
          };
          gain = ground (arith, nb_full_lem ok.valid, ok.value);
          budget = omega (arith, l.count, ok.progress);
        },
      )

  Fetched-trans :
      {got : List ℕ} {i j k : ℕ} {rb : Ring} {vs vs' : List ℕ} {w w' : Waited (List ℕ)}
      → (m : Fetched got old nb i j rb vs w) → Fetched (got ++ m.fetched) old nb j k w.ring vs' w'
      → Fetched got old nb i k rb vs' (record w' { passed = w.passed ++ w'.passed })
  Fetched-trans {got} {rb} {vs'} {w} {w'} m m' = record {
    valid = m'.valid;
    size = m'.size ∙ m.size;
    from = omega (arith, m.from, m'.from);
    to = m'.to;
    stop = m'.stop;
    fetched = m.fetched ++ m'.fetched;
    count = omega (arith, length-append m.fetched m'.fetched, m.count, m'.count, m.from, m'.from);
    order =
        sym (append_assoc (contents rb) w.passed w'.passed)
        ∙ ap (λ q. q ++ w'.passed) m.order
        ∙ append_assoc m.fetched (contents w.ring) w'.passed
        ∙ ap (λ q. m.fetched ++ q) m'.order
        ∙ sym (append_assoc m.fetched m'.fetched (contents w'.ring));
    filled = subst (λ g. FilledBy g old vs') (append_assoc got m.fetched m'.fetched) m'.filled;
  }

  read_rounds_lem :
      (fuel : ℕ) (got : List ℕ) (vss : List (List ℕ)) {rb : Ring} (values : List ℕ) (least i : ℕ)
      → IsValid rb
      → i ≤ least
      → least ≤ nb
      → least < fuel + i
      → (is_empty rb ≡ false) ⊎ (0 < writes vss)
      → least ≤ i + nb_full rb + writes vss
      → i ≡ length got
      → FilledBy got old values
      → (j : ℕ) × (values' : List ℕ) × (w : Waited (List ℕ)) × (read_rounds fuel vss rb values nb
            least i
          ≡ some (returned ((j, values'), w)))
        × Fetched got old nb i j rb values' w
        × (least ≤ j)
  unfolding read_rounds
  read_rounds_lem zero got vss values least i v hi hl hf more budget at f = absurd (omega arith)
  read_rounds_lem (suc fuel) got vss {rb} values least i v hi hl hf more budget at f =
      let (j, vs, w, same, r) = read_round_lem got vss values i v (omega arith) more at f in
      elim (Bool-cases (ltb j least)) [
        | inr done ↦ (j, vs, w, rw (same, read_rounds, done) refl, r.moved, ground arith)
        | inl again ↦
            let m = r.moved in
            let below : j < least = ground arith in
            let dry : is_empty w.ring ≡ true = ground (arith, m.stop) in
            let none_full : nb_full w.ring ≡ 0 = (nb_full_lem m.valid).1.0 dry in
            let (k, vs', w', same', m', enough) =
              read_rounds_lem fuel (got ++ m.fetched) w.turns vs least j m.valid (omega arith) hl
                (omega (arith, r.gain)) (inr (omega (arith, r.budget))) (omega (arith, r.budget))
                (omega (arith, length-append got m.fetched, m.count, m.from)) m.filled in
            (
              k,
              vs',
              record w' { passed = w.passed ++ w'.passed },
              rw (same, read_rounds, again, same') refl,
              Fetched-trans m m',
              enough,
            )
      ]

-- `zx_ringbuffer_read_bulk` on a valid buffer, with an array of `nb` places or more and `nb` a
-- `size_t`, asked for `least` of `nb` values at least, returns when the values and the writes on
-- the other side allow for `least`. It has read `i` values with `least ≤ i ≤ nb`, and stopped at
-- an empty buffer if not at `nb`. The values read, followed by what the buffer holds, are what it
-- held before followed by what the other side wrote meanwhile; they stand at the front of the
-- caller's array, whose other places are untouched. With `least` above `nb` it reads nothing and
-- returns `~0U`.
pub read_bulk_lem :
    (vss : List (List ℕ)) {rb : Ring} (values : List ℕ) (nb least : ℕ)
    → IsValid rb
    → nb < 2 ^ 64
    → nb ≤ length values
    → least ≤ nb_full rb + writes vss
    → (nb < least)
        × (read_bulk vss rb values nb least
            ≡ some (returned ((too_few, values), record { ring = rb; passed = []; turns = vss })))
      ⊎ (i : ℕ) × (values' : List ℕ) × (w : Waited (List ℕ)) × (read_bulk vss rb values nb least
          ≡ some (returned ((i, values'), w)))
        × (least ≤ i)
        × Fetched [] values nb 0 i rb values' w
unfolding read_bulk
read_bulk_lem vss {rb} values nb least v small given budget = elim (Bool-cases (ltb nb least)) [
  | inl bad ↦ inl (ground arith, rw bad refl)
  | inr fine ↦ inr (elim (Bool-cases ((least == 0) && is_empty rb)) [
    | inl early ↦ (
      0,
      values,
      record { ring = rb; passed = []; turns = vss },
      rw (fine, early) refl,
      ground arith,
      record {
        valid = v;
        size = refl;
        from = omega arith;
        to = omega arith;
        stop = inr (ground arith);
        fetched = [];
        count = omega arith;
        order = append-nil (contents rb);
        filled = refl;
      },
    )
    | inr late ↦
        let more : (is_empty rb ≡ false) ⊎ (0 < writes vss) = ground (arith, nb_full_lem v) in
        let (j, vs, w, same, m, enough) =
          read_rounds_lem values nb small given (least + 1) [] vss values least 0 v (omega arith)
            (ground arith) (omega arith) more (omega arith) refl refl in
        (j, vs, w, rw (fine, late, same) refl, enough, m)
  ])
]
