-- ===== src/Hashmap/Rehash.antt =====
-- hashmap.c: `hashmap_rehash`, `hashmap_put` and `hashmap_iterate`. `calloc n` says whether the
-- allocation of n slots succeeds. The two functions call each other, on fuel.
use clibrary.Base.{
  ℕ, zero, suc, ◌*◌, ◌≡◌, refl, Bool, true, false, Option, none, some, List, [], ◌∷◌, replicate,
  ◌==◌, if◌then◌else◌, Bool-cases, inl, inr, ap,
}
use clibrary.Hashmap.{Element, HashMap, blank, hash, store}

-- MAP_OK and MAP_OMEM
pub data Status : Type 0 where
  map_ok map_omem : Status

abbrev pub Put : Type 0
Put = HashMap → List ℕ → ℕ → Option (HashMap × Status)

-- What the loop does with a result of `hashmap_put`: only MAP_OK goes on.
abbrev pub and_then :
    Option (HashMap × Status) → (HashMap → Option (HashMap × Status)) → Option (HashMap × Status)
and_then none next = none
and_then (some (m, map_omem)) next = some (m, map_omem)
and_then (some (m, map_ok)) next = next m

abbrev pub rehash_slots : Put → List Element → HashMap → Option (HashMap × Status)
rehash_slots put [] m = some (m, map_ok)
rehash_slots put (e ∷ es) m = elim e.in_use [
  | false ↦ rehash_slots put es m
  | true ↦ and_then (put m e.key e.value) (λ m'. rehash_slots put es m')
]

module _ (calloc : ℕ → Bool) where
  unfoldable pub rehash : Put → HashMap → Option (HashMap × Status)
  rehash put m =
      if calloc (2 * m.table_size)
      then rehash_slots put m.table (record {
        table_size = 2 * m.table_size;
        size = 0;
        table = replicate (2 * m.table_size) blank;
      })
      else some (m, map_omem)

  -- `hashmap_put`, whose `while` loop is the last call.
  unfoldable pub put : ℕ → Put
  unfolding rehash
  put zero m key v = none
  put (suc fuel) m key v = elim (hash m key) [
    | some i ↦ some (store m i key v, map_ok)
    | none ↦ and_then (rehash (put fuel) m) (λ m'. put fuel m' key v)
  ]

-- `hashmap_iterate` over the slots, for a callback that returns 0 (MAP_OK) or another status and
-- may change what `item` points to.
module _ {S : Type 0} (f : S → ℕ → S × ℕ) where
  abbrev visit : List Element → S → S × ℕ
  visit [] item = (item, 0)
  visit (e ∷ es) item = elim e.in_use [
    | false ↦ visit es item
    | true ↦ let r = f item e.value in let rest = visit es r.0 in if r.1 == 0 then rest else r
  ]

  -- none is MAP_MISSING.
  unfoldable iterate : HashMap → S → Option (S × ℕ)
  iterate m item = if m.size == 0 then none else some (visit m.table item)

-- The pointers of the slots that are in use, in the order of the table.
abbrev pub live : List Element → List ℕ
live [] = []
live (e ∷ es) = elim e.in_use [ false ↦ live es | true ↦ e.value ∷ live es ]

abbrev each {ℓ} : {S : Type ℓ} → (S → ℕ → S) → S → List ℕ → S
each g s [] = s
each g s (v ∷ vs) = each g (g s v) vs

visit-live :
    {S : Type 0} (g : S → ℕ → S) (es : List Element) (s : S)
    → visit (λ s v. (g s v, 0)) es s ≡ (each g s (live es), 0)
visit-live g [] s = refl
visit-live g (e ∷ es) s = elim (Bool-cases e.in_use) [
  | inl h ↦ rw (h) (visit-live g es (g s e.value))
  | inr h ↦ rw (h) (visit-live g es s)
]

-- A walk over a map that is not empty, with a callback that always returns MAP_OK, returns MAP_OK
-- and has called it once on the value of each slot in use, in the order of the table.
iterate_lem :
    {S : Type 0} (g : S → ℕ → S) (m : HashMap) (s : S)
    → m.size == 0 ≡ false
    → iterate (λ s v. (g s v, 0)) m s ≡ some (each g s (live m.table), 0)
unfolding iterate
iterate_lem g m s h = rw (h) (ap some (visit-live g m.table s))
