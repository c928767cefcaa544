-- ===== src/Ring/Fifo.antt =====
-- ring_buffer.c: the values in a buffer, oldest first, and what the waiting calls do to them while
-- the other side works between two tests of the loop.
use clibrary.Base.{
  ℕ, zero, suc, ◌+◌, ◌^◌, ◌<◌, min, ◌≡◌, ◌≢◌, inl, inr, refl, ap, ap₂, sym, false, Bool-cases, List,
  [], ◌∷◌, ◌++◌, length, get_or, set, get_or-set_self, get_or-set_ne, append-nil, append_assoc,
  arith,
}
use clibrary.Ring.{
  Ring, next, is_empty, is_full, nb_full, nb_empty, write_slot, read_slot, consume, produce,
}
use clibrary.Ring.Bounds.{
  IsValid, dist, next_cases, next-lt, nb_full-dist, write_slot-IsValid, read_slot-IsValid,
  nb_full_lem, nb_full-write_slot, nb_full-read_slot,
}

-- `n` values from slot `i` on, going round at `size`.
abbrev pub cells : List ℕ → ℕ → ℕ → ℕ → List ℕ
cells elements size i zero = []
cells elements size i (suc n) = get_or elements i 0 ∷ cells elements size (next size i) n

-- The values that a buffer holds.
unfoldable pub contents : Ring → List ℕ
contents rb = cells rb.elements rb.size rb.start (nb_full rb)

length-cells : (elements : List ℕ) (size i n : ℕ) → length (cells elements size i n) ≡ n
length-cells elements size i zero = refl
length-cells elements size i (suc n) = ap suc (length-cells elements size (next size i) n)

pub length-contents : (rb : Ring) → length (contents rb) ≡ nb_full rb
unfolding contents
length-contents rb = length-cells rb.elements rb.size rb.start (nb_full rb)

pub dist-next :
    (size i j n : ℕ)
    → size < 2 ^ 64
    → i < size
    → j < size
    → dist size i j ≡ suc n
    → (dist size (next size i) j ≡ n) × (next size i < size) × (j ≢ i)
dist-next size i j n h hi hj e = ground (arith, next_cases size i, next-lt size i)

-- A value stored in the slot behind `n` others stands behind them.
cells-set :
    (elements : List ℕ) (size v i j n : ℕ)
    → size < 2 ^ 64
    → length elements ≡ size
    → i < size
    → j < size
    → dist size i j ≡ n
    → cells (set elements j v) size i (suc n) ≡ cells elements size i n ++ v ∷ []
cells-set elements size v i j zero h l hi hj e =
    let same : i ≡ j = ground arith in rw (same, get_or-set_self elements j v 0 (omega arith))
cells-set elements size v i j (suc n) h l hi hj e =
    let (e', hi', ne) = dist-next size i j n h hi hj e in
    ap₂ ◌∷◌ (get_or-set_ne elements j i v 0 ne)
      (cells-set elements size v (next size i) j n h l hi' hj e')

module _ {rb : Ring} (v : IsValid rb) where
  -- A write past its wait adds the value behind all others.
  pub contents-write_slot :
      (value : ℕ) → is_full rb ≡ false → contents (write_slot rb value) ≡ contents rb ++ value ∷ []
  unfolding contents write_slot
  contents-write_slot value h =
      let more : nb_full (write_slot rb value) ≡ suc (nb_full rb) =
        omega (arith, (nb_full-write_slot v value h).0) in
      rw more (
        cells-set rb.elements rb.size value rb.start rb.end (nb_full rb) v.fits v.storage v.start_in
          v.end_in (sym (nb_full-dist v)))

  -- A read past its wait takes the oldest value.
  pub contents-read_slot :
      is_empty rb ≡ false → contents rb ≡ (read_slot rb).0 ∷ contents (read_slot rb).1
  unfolding contents read_slot
  contents-read_slot h =
      let less : nb_full rb ≡ suc (nb_full (read_slot rb).1) =
        omega (arith, (nb_full-read_slot v h).0) in
      rw less

-- What `consume k` does: it takes the oldest values, `k` of them if there are as many.
pub record Consumed (k : ℕ) (rb : Ring) (out : List ℕ × Ring) : Type 0 where
  pub valid : IsValid out.1
  pub size : out.1.size ≡ rb.size
  pub count : length out.0 ≡ min k (nb_full rb)
  pub left : nb_full out.1 + length out.0 ≡ nb_full rb
  pub order : out.0 ++ contents out.1 ≡ contents rb

pub consume-Consumed : (k : ℕ) {rb : Ring} → IsValid rb → Consumed k rb (consume k rb)
unfolding consume
consume-Consumed zero v = ground arith
consume-Consumed (suc k) {rb} v = elim (Bool-cases (is_empty rb)) [
  | inl e ↦ rw e (ground (arith, nb_full_lem v))
  | inr e ↦ rw e (
      ground (
        arith,
        consume-Consumed k (read_slot-IsValid v),
        nb_full-read_slot v e,
        contents-read_slot v e,
      ))
]

-- What `produce` does: it adds the front of the list, as much as fits.
pub record Produced (values : List ℕ) (rb : Ring) (out : List ℕ × Ring) : Type 0 where
  pub valid : IsValid out.1
  pub size : out.1.size ≡ rb.size
  pub count : length out.0 ≡ min (length values) (nb_empty rb)
  pub left : nb_full out.1 ≡ nb_full rb + length out.0
  pub order : contents out.1 ≡ contents rb ++ out.0

pub produce-Produced :
    (values : List ℕ) {rb : Ring} → IsValid rb → Produced values rb (produce values rb)
unfolding produce
produce-Produced [] {rb} v = ground (arith, append-nil (contents rb))
produce-Produced (x ∷ xs) {rb} v = elim (Bool-cases (is_full rb)) [
  | inl e ↦ rw e (ground (arith, nb_full_lem v, append-nil (contents rb)))
  | inr e ↦ rw e (
      ground (
        arith,
        produce-Produced xs (write_slot-IsValid v x),
        nb_full-write_slot v x e,
        contents-write_slot v x e,
        nb_full_lem v,
        nb_full_lem (write_slot-IsValid v x),
        append_assoc (contents rb) (x ∷ []) (produce xs (write_slot rb x)).0,
      ))
]
