-- ===== src/Ring.antt =====
-- ring_buffer.h and ring_buffer.c: the buffer's state, its single-slot operations and the two
-- waiting loops. A value that the buffer carries (`void *`) is its address, 0 for NULL.
pub mod Bounds
pub mod Fifo
pub mod Wait
pub mod Try
pub mod Bulk
pub mod Locked
pub mod Threads
pub mod Shared
mod Tests
use clibrary.Base.{
  ℕ, zero, suc, ◌-◌, ◌%◌, Bool, true, false, not, ◌&&◌, Option, none, some, List, [], ◌∷◌, ◌++◌,
  length, get_or, set, replicate, ltb, leb, ◌==◌, if◌then◌else◌, add64, sub64,
}

-- `zx_RINGBUFFER_BLOCKING` and `zx_RINGBUFFER_POLLING`
pub data Mode : Type 0 where
  blocking polling : Mode

-- `zx_ringbuffer_t` without its pthread objects. The null array is the empty list: an
-- initialised buffer has two slots at least.
pub record Ring : Type 0 where
  pub start : ℕ
  pub size : ℕ
  pub mode : Mode
  pub elements : List ℕ
  pub end : ℕ

-- What `zx_ringbuffer_init` returns; the buffer itself goes through its argument.
pub data Init : Type 0 where
  bad_size : Init  -- -1
  no_memory : Init  -- -2
  ready : Ring → Init  -- 0

-- `callocs` says whether `calloc` gives that many pointers; what it gives is zeroed.
pub init : (ℕ → Bool) → ℕ → Mode → Init
init callocs n mode =
    let size = add64 n 1 in
    if not (ltb 1 size)
    then bad_size
    else if callocs size
    then ready
        (record { start = 0; size = size; mode = mode; elements = replicate size 0; end = 0 })
    else no_memory

pub destroy : Ring → Ring
destroy rb = record rb { size = 0; start = 0; end = 0; elements = [] }

zero_ringbuffer : Ring → Ring
zero_ringbuffer rb = record rb { start = 0; end = 0; size = 0; elements = [] }

-- `(i + 1) % rb->size`
abbrev pub next : ℕ → ℕ → ℕ
next size i = add64 i 1 % size

pub is_empty : Ring → Bool
is_empty rb = rb.start == rb.end

pub is_full : Ring → Bool
is_full rb = rb.start == next rb.size rb.end

pub nb_full : Ring → ℕ
nb_full rb =
    if ltb rb.end rb.start then sub64 (add64 rb.end rb.size) rb.start else sub64 rb.end rb.start

pub nb_empty : Ring → ℕ
nb_empty rb =
    if leb rb.start rb.end
    then sub64 (sub64 (add64 rb.start rb.size) rb.end) 1
    else sub64 (sub64 rb.start rb.end) 1

-- `zx_ringbuffer_write` past its wait.
pub write_slot : Ring → ℕ → Ring
write_slot rb value = record rb {
  elements = set rb.elements rb.end value;
  end = next rb.size rb.end;
}

-- `zx_ringbuffer_read` past its wait.
pub read_slot : Ring → ℕ × Ring
read_slot rb = (get_or rb.elements rb.start 0, record rb { start = next rb.size rb.start })

-- Reads by the consumer while a producer waits: `k` of them, or fewer if the buffer runs empty and
-- the consumer itself has to wait. The values are those that it got, in order.
pub consume : ℕ → Ring → List ℕ × Ring
consume zero rb = ([], rb)
consume (suc k) rb =
    let (value, rb') = read_slot rb in
    let (values, last) = consume k rb' in if is_empty rb then ([], rb) else (value ∷ values, last)

-- Writes by the producer while a consumer waits, up to a full buffer. The first list holds the
-- values that went in, in order.
pub produce : List ℕ → Ring → List ℕ × Ring
produce [] rb = ([], rb)
produce (v ∷ vs) rb =
    let (values, last) = produce vs (write_slot rb v) in
    if is_full rb then ([], rb) else (v ∷ values, last)

-- A call that tests a condition in a loop: what the other side does between two tests is a list,
-- and the call is `waiting` if its loop still turns where the list ends. It is `aborted` if an
-- `ASSERT_RET` on a pthread call fails.
pub data Outcome (A : Type 0) : Type 0 where
  waiting : Outcome A
  aborted : Outcome A
  returned : A → Outcome A

-- The buffer that a call leaves, what passed on the other side meanwhile, and the turns left.
pub record Waited (T : Type 0) : Type 0 where
  pub ring : Ring
  pub passed : List ℕ
  pub turns : List T

-- The turns of a loop, one turn earlier.
abbrev pub after : {T : Type 0} → List ℕ → Outcome (Waited T) → Outcome (Waited T)
after values waiting = waiting
after values aborted = aborted
after values (returned w) = returned (record w { passed = values ++ w.passed })

-- `wait_for_empty`, in both modes: each turn is the number of reads before the next test.
pub wait_for_empty : List ℕ → Ring → Outcome (Waited ℕ)
wait_for_empty [] rb =
    if is_full rb then waiting else returned (record { ring = rb; passed = []; turns = [] })
wait_for_empty (k ∷ ks) rb =
    let (values, rb') = consume k rb in
    let rest = after values (wait_for_empty ks rb') in
    if is_full rb then rest else returned (record { ring = rb; passed = []; turns = k ∷ ks })

-- `wait_for_full`: each turn is what the producer offers before the next test.
pub wait_for_full : List (List ℕ) → Ring → Outcome (Waited (List ℕ))
wait_for_full [] rb =
    if is_empty rb then waiting else returned (record { ring = rb; passed = []; turns = [] })
wait_for_full (vs ∷ vss) rb =
    let (values, rb') = produce vs rb in
    let rest = after values (wait_for_full vss rb') in
    if is_empty rb then rest else returned (record { ring = rb; passed = []; turns = vs ∷ vss })

pub write : List ℕ → Ring → ℕ → Outcome (Waited ℕ)
write ks rb value = elim (wait_for_empty ks rb) [
  | waiting ↦ waiting
  | aborted ↦ aborted
  | returned w ↦ returned (record w { ring = write_slot w.ring value })
]

pub read : List (List ℕ) → Ring → Outcome (ℕ × Waited (List ℕ))
read vss rb = elim (wait_for_full vss rb) [
  | waiting ↦ waiting
  | aborted ↦ aborted
  | returned w ↦ let (value, rb') = read_slot w.ring in returned (value, record w { ring = rb' })
]
