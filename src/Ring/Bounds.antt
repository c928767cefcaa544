-- ===== src/Ring/Bounds.antt =====
-- ring_buffer.c: the representation invariant, and the arithmetic of its indices.
use clibrary.Base.{
  ℕ, ◌+◌, ◌-◌, ◌%◌, ◌^◌, ◌<◌, ◌≤◌, ◌≡◌, ◌⊎◌, ◌↔◌, inl, inr, Bool, Bool-cases, add64, sub64,
  wrap_cases, true, false, length, length-set, length-replicate, arith, ltb, if◌then◌else◌,
}
use clibrary.Ring.{
  Ring, Mode, Init, ready, bad_size, no_memory, init, next, is_empty, is_full, nb_full, nb_empty,
  write_slot, read_slot,
}

pub record IsValid (rb : Ring) : Type 0 where
  pub slots : 1 < rb.size
  pub fits : rb.size < 2 ^ 64
  pub storage : length rb.elements ≡ rb.size
  pub start_in : rb.start < rb.size
  pub end_in : rb.end < rb.size

-- Slots from index `i` up to index `j`, going round at `size`.
abbrev pub dist : ℕ → ℕ → ℕ → ℕ
dist size i j = if ltb j i then j + size - i else j - i

pub next_cases :
    (size i : ℕ)
    → size < 2 ^ 64
    → i < size
    → ((next size i ≡ i + 1) × (i + 1 < size)) ⊎ ((next size i ≡ 0) × (i + 1 ≡ size))
next_cases size i h k = wrap_cases size i h k

pub next-lt : (size i : ℕ) → i < size → next size i < size
next-lt size i h = omega arith

module _ {rb : Ring} (v : IsValid rb) where
  pub nb_full-dist : nb_full rb ≡ dist rb.size rb.start rb.end
  unfolding nb_full
  nb_full-dist = ground arith

  -- `zx_ringbuffer_nb_full` and `zx_ringbuffer_nb_empty` add up to one slot less than the array
  -- has, and the tests for an empty and a full buffer are tests of those two numbers for 0.
  pub nb_full_lem :
      (nb_full rb + nb_empty rb + 1 ≡ rb.size)
      × ((is_empty rb ≡ true) ↔ (nb_full rb ≡ 0))
      × ((is_full rb ≡ true) ↔ (nb_empty rb ≡ 0))
  unfolding nb_full nb_empty is_empty is_full
  nb_full_lem = (ground arith, ground arith, ground (arith, next_cases rb.size rb.end))

  -- On a valid buffer of at most 2 ^ 63 slots the branches of `zx_ringbuffer_nb_full` and of
  -- `zx_ringbuffer_nb_empty` give what the one expression in the comment below each of them gives,
  -- with the wrap-around of a `size_t`.
  nb_full-mod :
      rb.size ≤ 2 ^ 63
      → (nb_full rb ≡ sub64 (add64 rb.end rb.size) rb.start % rb.size)
        × (nb_empty rb ≡ sub64 (sub64 (add64 rb.start rb.size) rb.end) 1 % rb.size)
  unfolding nb_full nb_empty
  nb_full-mod h = (grind arith, grind arith)

  -- A write past its wait keeps the invariant; so does a read.
  pub write_slot-IsValid : (value : ℕ) → IsValid (write_slot rb value)
  unfolding write_slot
  write_slot-IsValid value =
      ground (arith, length-set rb.elements rb.end value, next-lt rb.size rb.end)

  pub read_slot-IsValid : IsValid (read_slot rb).1
  unfolding read_slot
  read_slot-IsValid = ground (arith, next-lt rb.size rb.start)

  -- One slot fills, or empties; the array keeps its size.
  pub nb_full-write_slot :
      (value : ℕ)
      → is_full rb ≡ false
      → (nb_full (write_slot rb value) ≡ nb_full rb + 1) × ((write_slot rb value).size ≡ rb.size)
  unfolding nb_full write_slot is_full
  nb_full-write_slot value h = ground (arith, next_cases rb.size rb.end)

  pub nb_full-read_slot :
      is_empty rb ≡ false
      → (nb_full (read_slot rb).1 + 1 ≡ nb_full rb) × ((read_slot rb).1.size ≡ rb.size)
  unfolding nb_full read_slot is_empty
  nb_full-read_slot h = ground (arith, next_cases rb.size rb.start)

-- A valid, empty buffer in the mode asked for, with room for `n` values.
abbrev pub IsReady : ℕ → Mode → Init → Type 0
IsReady n mode (ready rb) = IsValid rb × (is_empty rb ≡ true) × (nb_empty rb ≡ n) × (rb.mode ≡ mode)
IsReady n mode _ = ⊥

large-fits :
    (n : ℕ)
    → n < 2 ^ 64
    → ltb 1 (add64 n 1) ≡ true
    → (0 < n) × (n + 1 < 2 ^ 64) × (add64 n 1 ≡ n + 1)
large-fits n h large = ground arith

-- The three returns of `zx_ringbuffer_init`: the size 0 and the largest `size_t` are refused, a
-- failed allocation is reported, and otherwise the buffer is valid, empty, in the mode asked for
-- and has room for as many values as were asked for.
init_lem :
    (callocs : ℕ → Bool) (n : ℕ) (mode : Mode)
    → n < 2 ^ 64
    → ((n ≡ 0) ⊎ (n + 1 ≡ 2 ^ 64)) × (init callocs n mode ≡ bad_size)
      ⊎ (0 < n) × (callocs (n + 1) ≡ false) × (init callocs n mode ≡ no_memory)
      ⊎ (callocs (n + 1) ≡ true) × IsReady n mode (init callocs n mode)
unfolding init is_empty nb_empty
init_lem callocs n mode h = elim (Bool-cases (ltb 1 (add64 n 1))) [
  | inl large ↦ elim (Bool-cases (callocs (n + 1))) [
    | inl given ↦
        inr (inr (given, ground (arith, large-fits n h large, length-replicate {A = ℕ} (n + 1) 0)))
    | inr refused ↦
        inr (
          inl (ground (arith, large-fits n h large), refused, ground (arith, large-fits n h large)))
  ]
  | inr small ↦ inl (ground arith, ground arith)
]
