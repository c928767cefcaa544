-- ===== src/Ring/Bulk/Slices.antt =====
-- ring_buffer.c: the inner loops of the bulk calls, as writes and reads of one slot each.
use clibrary.Base.{
  ℕ, zero, suc, ◌+◌, ◌≤◌, ◌<◌, ◌≡◌, refl, ap, ap₂, sym, ◌∙◌, false, List, [], ◌∷◌, ◌++◌, append-nil,
  append_assoc, length, length-append, get_or, set, take, drop, arith,
}
use mathlib.Core.Path.{subst}
use clibrary.Ring.{Ring, is_empty, is_full, nb_full, nb_empty, write_slot, read_slot}
use clibrary.Ring.Bounds.{
  IsValid, nb_full_lem, write_slot-IsValid, read_slot-IsValid, nb_full-write_slot,
  nb_full-read_slot,
}
use clibrary.Ring.Fifo.{contents, contents-write_slot, contents-read_slot}
use clibrary.Ring.Bulk.{store, load}

-- The `n` values of an array from index `i` on.
abbrev pub slice : List ℕ → ℕ → ℕ → List ℕ
slice values i zero = []
slice values i (suc n) = get_or values i 0 ∷ slice values (i + 1) n

pub slice-append :
    (values : List ℕ) (i n m : ℕ)
    → slice values i n ++ slice values (i + n) m ≡ slice values i (n + m)
slice-append values i zero m = ap₂ (slice values) (omega arith) (omega arith)
slice-append values i (suc n) m =
    let count : suc n + m ≡ suc (n + m) = omega arith in
    let index : i + suc n ≡ i + 1 + n = omega arith in
    rw (count, index) (ap (λ r. get_or values i 0 ∷ r) (slice-append values (i + 1) n m))

slice-cons : (x : ℕ) (xs : List ℕ) (i n : ℕ) → slice (x ∷ xs) (suc i) n ≡ slice xs i n
slice-cons x xs i zero = refl
slice-cons x xs i (suc n) =
    let index : suc i + 1 ≡ suc (i + 1) = omega arith in
    rw index (ap (λ r. get_or xs i 0 ∷ r) (slice-cons x xs (i + 1) n))

pub slice-eq-take : (values : List ℕ) (n : ℕ) → n ≤ length values → slice values 0 n ≡ take n values
slice-eq-take values zero h = refl
slice-eq-take [] (suc n) h = absurd (omega arith)
slice-eq-take (x ∷ xs) (suc n) h =
    ap (λ r. x ∷ r) (slice-cons x xs 0 n ∙ slice-eq-take xs n (omega arith))

-- The buffer behind the inner loop of a bulk write.
abbrev pub stored : ℕ → List ℕ → ℕ → Ring → Ring
stored n values i rb =
    let (elements, end) = store n values i rb.size rb.end rb.elements in
    record rb { elements = elements; end = end }

-- The inner loop of a bulk write adds a slice of the array, where it fits.
pub record Stored (n : ℕ) (values : List ℕ) (i : ℕ) (rb rb' : Ring) : Type 0 where
  pub valid : IsValid rb'
  pub size : rb'.size ≡ rb.size
  pub count : nb_full rb' ≡ nb_full rb + n
  pub order : contents rb' ≡ contents rb ++ slice values i n

pub store-Stored :
    (n : ℕ) (values : List ℕ) (i : ℕ) {rb : Ring}
    → IsValid rb
    → n ≤ nb_empty rb
    → Stored n values i rb (stored n values i rb)
unfolding store write_slot
store-Stored zero values i {rb} v h = ground (arith, append-nil (contents rb))
store-Stored (suc n) values i {rb} v h =
    let x = get_or values i 0 in
    let room : is_full rb ≡ false = ground (arith, nb_full_lem v) in
    let v' = write_slot-IsValid v x in
    let more = nb_full-write_slot v x room in
    let rest =
      store-Stored n values (i + 1) v' (omega (arith, nb_full_lem v, nb_full_lem v', more)) in
    record {
      valid = rest.valid;
      size = rest.size ∙ more.1;
      count = omega (arith, rest.count, more.0);
      order =
          rest.order
          ∙ ap (λ q. q ++ slice values (i + 1) n) (contents-write_slot v x room)
          ∙ append_assoc (contents rb) (x ∷ []) (slice values (i + 1) n);
    }

-- The buffer and the caller's array behind the inner loop of a bulk read.
abbrev pub loaded : ℕ → List ℕ → ℕ → Ring → List ℕ × Ring
loaded n values i rb =
    let (values', start) = load n values i rb.size rb.start rb.elements in
    (values', record rb { start = start })

-- The first `i` values of an array are `got`, and the others are those of `old`.
abbrev pub FilledBy : List ℕ → List ℕ → List ℕ → Type 0
FilledBy got old values = values ≡ got ++ drop (length got) old

-- The inner loop of a bulk read takes the `n` oldest values, in order, to the places of the array
-- from `i` on.
pub record Loaded (n : ℕ) (got old : List ℕ) (rb : Ring) (out : List ℕ × Ring) : Type 0 where
  pub valid : IsValid out.1
  pub size : out.1.size ≡ rb.size
  pub count : nb_full out.1 + n ≡ nb_full rb
  pub fetched : List ℕ
  pub length : length fetched ≡ n
  pub order : contents rb ≡ fetched ++ contents out.1
  pub filled : FilledBy (got ++ fetched) old out.0

set-append :
    (got old : List ℕ) (x : ℕ)
    → length got < length old
    → FilledBy (got ++ x ∷ []) old (set (got ++ drop (length got) old) (length got) x)
set-append [] [] x h = absurd (omega arith)
set-append [] (y ∷ ys) x h = refl
set-append (g ∷ gs) [] x h = absurd (omega arith)
set-append (g ∷ gs) (y ∷ ys) x h = ap (λ r. g ∷ r) (set-append gs ys x (omega arith))

pub load-Loaded :
    (n i : ℕ) (got old : List ℕ) {values : List ℕ} {rb : Ring}
    → IsValid rb
    → n ≤ nb_full rb
    → i ≡ length got
    → i + n ≤ length old
    → FilledBy got old values
    → Loaded n got old rb (loaded n values i rb)
unfolding load read_slot
load-Loaded zero i got old {values} {rb} v h at room f = record {
  valid = ground arith;
  size = refl;
  count = omega arith;
  fetched = [];
  length = refl;
  order = refl;
  filled = subst (λ g. FilledBy g old values) (sym (append-nil got)) f;
}
load-Loaded (suc n) i got old {values} {rb} v h at room f =
    let x = get_or rb.elements rb.start 0 in
    let ne : is_empty rb ≡ false = ground (arith, nb_full_lem v) in
    let v' = read_slot-IsValid v in
    let less = nb_full-read_slot v ne in
    let filled' : FilledBy (got ++ x ∷ []) old (set values i x) =
      rw (f, at) (set-append got old x (omega arith)) in
    let rest =
      load-Loaded n (i + 1) (got ++ x ∷ []) old v' (omega (arith, less))
        (omega (arith, length-append got (x ∷ []))) (omega arith) filled' in
    record {
      valid = rest.valid;
      size = rest.size ∙ less.1;
      count = omega (arith, rest.count, less.0);
      fetched = x ∷ rest.fetched;
      length = ap suc rest.length;
      order = contents-read_slot v ne ∙ ap (λ q. x ∷ q) rest.order;
      filled =
          subst (λ g. FilledBy g old (loaded n (set values i x) (i + 1) (read_slot rb).1).0)
            (append_assoc got (x ∷ []) rest.fetched) rest.filled;
    }
