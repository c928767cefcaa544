-- ===== src/Ring/Bulk.antt =====
-- ring_buffer.c: the calls that move many values. The caller's array is a list; `nb_buffers` and
-- `min_nb_buffers` are `nb` and `least`.
pub mod Slices
pub mod Write
pub mod Read
use clibrary.Base.{
  ℕ, zero, suc, ◌+◌, ◌-◌, ◌^◌, min, Bool, true, false, not, ◌&&◌, Option, none, some, List, [],
  ◌++◌, get_or, set, ltb, ◌==◌, if◌then◌else◌, add64, sub64,
}
use clibrary.Ring.{
  Ring, next, is_empty, is_full, nb_full, nb_empty, Outcome, waiting, aborted, returned, Waited,
  wait_for_empty, wait_for_full,
}

-- `~0U`, as a size_t
abbrev pub too_few : ℕ
too_few = 2 ^ 32 - 1

-- The `for` of a bulk write: `rounds` values from `values[i]` on go in from slot `end` on.
pub store : ℕ → List ℕ → ℕ → ℕ → ℕ → List ℕ → List ℕ × ℕ
store zero values i size end elements = (elements, end)
store (suc rounds) values i size end elements =
    store rounds values (i + 1) size (next size end) (set elements end (get_or values i 0))

-- The body of the `do`: the index that it reaches, with the buffer.
pub write_round : List ℕ → Ring → List ℕ → ℕ → ℕ → Outcome (ℕ × Waited ℕ)
write_round ks rb values nb i = elim (wait_for_empty ks rb) [
  | waiting ↦ waiting
  | aborted ↦ aborted
  | returned w ↦
      let rb' = w.ring in
      let nb_ready = min (nb_empty rb') (sub64 nb i) in
      let (elements, end) = store nb_ready values i rb'.size rb'.end rb'.elements in
      returned (i + nb_ready, record w { ring = record rb' { elements = elements; end = end } })
]

abbrev pub before :
    {A : Type 0} {T : Type 0} → List ℕ → Outcome (A × Waited T) → Outcome (A × Waited T)
before values (returned (a, w)) = returned (a, record w { passed = values ++ w.passed })
before values o = o

-- The `do` loop, on fuel: `none` says that the fuel ran out.
pub write_rounds : ℕ → List ℕ → Ring → List ℕ → ℕ → ℕ → ℕ → Option (Outcome (ℕ × Waited ℕ))
write_rounds zero ks rb values nb least i = none
write_rounds (suc fuel) ks rb values nb least i = elim (write_round ks rb values nb i) [
  | waiting ↦ some waiting
  | aborted ↦ some aborted
  | returned (i', w) ↦ elim (ltb i' least) [
    | false ↦ some (returned (i', w))
    | true ↦ elim (write_rounds fuel w.turns w.ring values nb least i') [
      | none ↦ none
      | some o ↦ some (before w.passed o)
    ]
  ]
]

-- A round with a value left to write writes one at least: `least + 1` rounds are enough.
pub write_bulk : List ℕ → Ring → List ℕ → ℕ → ℕ → Option (Outcome (ℕ × Waited ℕ))
write_bulk ks rb values nb least =
    if ltb nb least
    then some (returned (too_few, record { ring = rb; passed = []; turns = ks }))
    else if (least == 0) && is_full rb
    then some (returned (0, record { ring = rb; passed = []; turns = ks }))
    else write_rounds (least + 1) ks rb values nb least 0

-- The `for` of a bulk read: `rounds` values from slot `start` on go to `values[i]` and on.
pub load : ℕ → List ℕ → ℕ → ℕ → ℕ → List ℕ → List ℕ × ℕ
load zero values i size start elements = (values, start)
load (suc rounds) values i size start elements =
    load rounds (set values i (get_or elements start 0)) (i + 1) size (next size start) elements

-- The index that it reaches and the caller's array, with the buffer.
pub read_round : List (List ℕ) → Ring → List ℕ → ℕ → ℕ → Outcome ((ℕ × List ℕ) × Waited (List ℕ))
read_round vss rb values nb i = elim (wait_for_full vss rb) [
  | waiting ↦ waiting
  | aborted ↦ aborted
  | returned w ↦
      let rb' = w.ring in
      let nb_ready = min (nb_full rb') (sub64 nb i) in
      let (values', start) = load nb_ready values i rb'.size rb'.start rb'.elements in
      returned ((i + nb_ready, values'), record w { ring = record rb' { start = start } })
]

pub read_rounds :
    ℕ
    → List (List ℕ)
    → Ring
    → List ℕ
    → ℕ
    → ℕ
    → ℕ
    → Option (Outcome ((ℕ × List ℕ) × Waited (List ℕ)))
read_rounds zero vss rb values nb least i = none
read_rounds (suc fuel) vss rb values nb least i = elim (read_round vss rb values nb i) [
  | waiting ↦ some waiting
  | aborted ↦ some aborted
  | returned ((i', values'), w) ↦ elim (ltb i' least) [
    | false ↦ some (returned ((i', values'), w))
    | true ↦ elim (read_rounds fuel w.turns w.ring values' nb least i') [
      | none ↦ none
      | some o ↦ some (before w.passed o)
    ]
  ]
]

pub read_bulk :
    List (List ℕ) → Ring → List ℕ → ℕ → ℕ → Option (Outcome ((ℕ × List ℕ) × Waited (List ℕ)))
read_bulk vss rb values nb least =
    if ltb nb least
    then some (returned ((too_few, values), record { ring = rb; passed = []; turns = vss }))
    else if (least == 0) && is_empty rb
    then some (returned ((0, values), record { ring = rb; passed = []; turns = vss }))
    else read_rounds (least + 1) vss rb values nb least 0
