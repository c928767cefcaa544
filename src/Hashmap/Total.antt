-- ===== src/Hashmap/Total.antt =====
-- hashmap.c: `hashmap_put` comes to an end, since `calloc` fails at some size.
use clibrary.Base.{
  ℕ, zero, suc, ◌*◌, ◌^◌, ◌≤◌, ◌<◌, ◌≡◌, refl, sym, ◌∙◌, inl, inr, Bool, true, false, Bool-cases,
  Option, none, some, Option-cases, List, [], ◌∷◌, ltb, arith,
}
use mathlib.Core.Bool.{false≢true}
use clibrary.Hashmap.{Element, HashMap, hash, store}
use clibrary.Hashmap.Rehash.{Status, map_ok, map_omem, Put, and_then, rehash_slots, rehash, put}
use clibrary.Hashmap.Update.{IsTable}
use clibrary.Hashmap.Grow.{Leaves, ended, IsPut, put-IsPut}

-- A call that ends, with at least so many slots.
data Grown (n : ℕ) : Option (HashMap × Status) → Type 0 where
  grown : (m : HashMap) (s : Status) → n ≤ m.table_size → Grown n (some (m, s))

and_then-Grown :
    (n : ℕ) (r : Option (HashMap × Status)) (next : HashMap → Option (HashMap × Status))
    → Grown n r
    → ((m : HashMap) → n ≤ m.table_size → Grown n (next m))
    → Grown n (and_then r next)
and_then-Grown n none next g k = elim g [ ]
and_then-Grown n (some (m, map_ok)) next (grown _ _ h) k = k m h
and_then-Grown n (some (m, map_omem)) next (grown _ _ h) k = grown m map_omem h

Grown-le : (n k : ℕ) (r : Option (HashMap × Status)) → k ≤ n → Grown n r → Grown k r
Grown-le n k none le g = elim g [ ]
Grown-le n k (some (m, s)) le (grown _ _ h) = grown m s (omega (arith, le, h))

slots-Grown :
    (put' : Put) (n : ℕ)
    → ((m : HashMap) (key : List ℕ) (v : ℕ) → n ≤ m.table_size → Grown n (put' m key v))
    → (es : List Element) (m : HashMap) → n ≤ m.table_size
    → Grown n (rehash_slots put' es m)
slots-Grown put' n keeps [] m h = grown m map_ok h
slots-Grown put' n keeps (e ∷ es) m h = elim (Bool-cases e.in_use) [
  | inr u ↦ rw (u, rehash_slots) (slots-Grown put' n keeps es m h)
  | inl u ↦
      rw (u, rehash_slots)
        (and_then-Grown n (put' m e.key e.value) (λ m'. rehash_slots put' es m')
          (keeps m e.key e.value h) (λ m' k. slots-Grown put' n keeps es m' k))
]

pub more_slots : (limit n k power : ℕ) → n ≤ k → limit < n * power → limit < k * power
more_slots limit n k power le lt = grind arith

doubled : (limit n fuel : ℕ) → limit < n * 2 ^ suc fuel → limit < 2 * n * 2 ^ fuel
doubled limit n fuel lt = grind arith

some_fuel : (limit n fuel : ℕ) → n ≤ limit → limit < n * 2 ^ fuel → 0 < fuel
some_fuel limit n zero le lt = grind arith
some_fuel limit n (suc fuel) le lt = omega arith

returned :
    (key : List ℕ) (v n : ℕ) (r : Option (HashMap × Status))
    → Grown n r
    → Leaves (IsPut key v) r
    → (m : HashMap) × (s : Status) × (r ≡ some (m, s)) × IsPut key v m s × (n ≤ m.table_size)
returned key v n none g k = elim g [ ]
returned key v n (some (m, s)) (grown _ _ h) (ended k) = (m, s, refl, k, h)

module _ (calloc : ℕ → Bool) (limit : ℕ) (fails : (n : ℕ) → limit < n → calloc n ≡ false) where
  within : (n : ℕ) → calloc n ≡ true → n ≤ limit
  within n given = elim (Bool-cases (ltb limit n)) [
    | inl over ↦ absurd (false≢true (sym (fails n (ground arith)) ∙ given))
    | inr in_limit ↦ ground arith
  ]

  put-Grown :
      (fuel n : ℕ) (m : HashMap) (key : List ℕ) (v : ℕ)
      → 0 < fuel
      → n ≤ m.table_size
      → limit < n * 2 ^ fuel
      → Grown n (put calloc fuel m key v)
  unfolding put store
  put-Grown zero n m key v some_left h lt = absurd (omega arith)
  put-Grown (suc fuel) n m key v some_left h lt = elim (Option-cases (hash m key)) [
    | inr (i, e) ↦ rw (e, put) (grown (store m i key v) map_ok h)
    | inl e ↦
        rw (e, put)
          (elim (Bool-cases (calloc (2 * m.table_size))) [
            | inr refused ↦ rw (refused, rehash) (grown m map_omem h)
            | inl given ↦
                let k = 2 * m.table_size in
                let lt' =
                  doubled limit m.table_size fuel
                    (more_slots limit n m.table_size (2 ^ suc fuel) h lt) in
                let left = some_fuel limit k fuel (within k given) lt' in
                let again = λ (m' : HashMap) (key' : List ℕ) (v' : ℕ) (h' : k ≤ m'.table_size).
                  put-Grown fuel k m' key' v' left h' lt' in
                rw (given, rehash)
                  (Grown-le k n _ (omega (arith, h)) (
                    and_then-Grown k _ _
                      (slots-Grown (put calloc fuel) k again m.table _ (omega arith))
                      (λ m' h'. again m' key v h')))
          ])
  ]

  -- On a table of at least one slot, where every allocation of more than `limit` slots fails and the
  -- fuel is enough to double the table's size beyond it: `hashmap_put` ends, and leaves a table that
  -- has at least the slots from before. If it returns MAP_OK, `hashmap_get` then gives the value for
  -- the key.
  pub put-returns :
      (fuel : ℕ) (m : HashMap) (key : List ℕ) (v : ℕ)
      → IsTable m
      → 0 < fuel
      → limit < m.table_size * 2 ^ fuel
      → (m' : HashMap) × (s : Status) × (put calloc fuel m key v ≡ some (m', s))
        × IsPut key v m' s
        × (m.table_size ≤ m'.table_size)
  put-returns fuel m key v t some_left lt =
      returned key v m.table_size (put calloc fuel m key v)
        (put-Grown fuel m.table_size m key v some_left (omega arith) lt)
        (put-IsPut calloc fuel m key v t)
