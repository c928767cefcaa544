-- ===== src/Ring/Threads/Stores.antt =====
-- ring_buffer.c: the two stores of `zx_ringbuffer_write` and the load and the store of
-- `zx_ringbuffer_read`, each by itself.
use clibrary.Base.{
  ℕ, zero, suc, ◌^◌, ◌<◌, ◌≡◌, refl, ap, ap₂, sym, ◌∙◌, true, false, List, [], ◌∷◌, ◌++◌, get_or,
  set, get_or-set_self, get_or-set_ne, set-get_or, length-set, arith,
}
use clibrary.Ring.{Ring, next, is_empty, is_full, nb_full, write_slot, read_slot}
use clibrary.Ring.Bounds.{
  IsValid, dist, next-lt, nb_full-dist, nb_full_lem, read_slot-IsValid, nb_full-read_slot,
}
use clibrary.Ring.Fifo.{cells, contents, dist-next, contents-write_slot}

-- A store in the slot behind `n` others changes none of them.
cells-set_behind :
    (elements : List ℕ) (size v i j n : ℕ)
    → size < 2 ^ 64
    → i < size
    → j < size
    → dist size i j ≡ n
    → cells (set elements j v) size i n ≡ cells elements size i n
cells-set_behind elements size v i j zero h hi hj e = refl
cells-set_behind elements size v i j (suc n) h hi hj e =
    let (e', hi', ne) = dist-next size i j n h hi hj e in
    ap₂ ◌∷◌ (get_or-set_ne elements j i v 0 ne)
      (cells-set_behind elements size v (next size i) j n h hi' hj e')

abbrev pub filled : Ring → ℕ → Ring
filled rb value = record rb { elements = set rb.elements rb.end value }

abbrev pub ended : Ring → Ring
ended rb = record rb { end = next rb.size rb.end }

module _ {rb : Ring} (v : IsValid rb) where
  pub filled-IsValid : (value : ℕ) → IsValid (filled rb value)
  filled-IsValid value = ground (arith, length-set rb.elements rb.end value)

  pub contents-filled : (value : ℕ) → contents (filled rb value) ≡ contents rb
  unfolding contents nb_full
  contents-filled value =
      cells-set_behind rb.elements rb.size value rb.start rb.end (nb_full rb) v.fits v.start_in
        v.end_in (sym (nb_full-dist v))

  pub get_or-filled : (value : ℕ) → get_or (filled rb value).elements rb.end 0 ≡ value
  get_or-filled value =
      get_or-set_self rb.elements rb.end value 0 (omega (arith, v.storage, v.end_in))

  -- The oldest value stays.
  pub oldest-filled :
      (value : ℕ)
      → is_empty rb ≡ false
      → get_or (filled rb value).elements rb.start 0 ≡ get_or rb.elements rb.start 0
  unfolding is_empty
  oldest-filled value h = get_or-set_ne rb.elements rb.end rb.start value 0 (λ e. ground arith)

  ended-write_slot : write_slot rb (get_or rb.elements rb.end 0) ≡ ended rb
  unfolding write_slot
  ended-write_slot = rw (set-get_or rb.elements rb.end 0) refl

  pub ended-IsValid : IsValid (ended rb)
  ended-IsValid = ground (arith, next-lt rb.size rb.end)

  pub contents-ended :
      is_full rb ≡ false → contents (ended rb) ≡ contents rb ++ get_or rb.elements rb.end 0 ∷ []
  contents-ended h =
      ap contents (sym ended-write_slot) ∙ contents-write_slot v (get_or rb.elements rb.end 0) h

  pub is_empty-ended : is_full rb ≡ false → is_empty (ended rb) ≡ false
  unfolding is_full is_empty
  is_empty-ended h = ground arith

  pub is_full-read_slot : is_empty rb ≡ false → is_full (read_slot rb).1 ≡ false
  is_full-read_slot h =
      ground (arith, nb_full_lem v, nb_full_lem (read_slot-IsValid v), nb_full-read_slot v h)

-- An empty buffer holds nothing.
pub contents-empty : {rb : Ring} → IsValid rb → is_empty rb ≡ true → contents rb ≡ []
unfolding contents
contents-empty {rb} v h =
    let none_full : nb_full rb ≡ 0 = ground (arith, nb_full_lem v) in
    ap (cells rb.elements rb.size rb.start) none_full
