-- ===== src/Hashmap/Grow.antt =====
-- hashmap.c: `hashmap_put` with its rehashes.
use clibrary.Base.{
  ℕ, zero, suc, ◌*◌, ◌≡◌, ◌∙◌, inl, inr, Bool, Bool-cases, Option, none, some, Option-cases, List,
  [], ◌∷◌, length-set, length-replicate, arith,
}
use clibrary.Hashmap.{Element, HashMap, blank, hash, store, get}
use clibrary.Hashmap.Rehash.{Status, map_ok, map_omem, Put, and_then, rehash_slots, rehash, put}
use clibrary.Hashmap.Update.{IsTable, put-get}

-- What holds of the map that a call leaves, if it ends.
pub data Leaves (P : HashMap → Status → Type 0) : Option (HashMap × Status) → Type 0 where
  unended : Leaves P none
  ended : {m : HashMap} {s : Status} → P m s → Leaves P (some (m, s))

abbrev Tables : HashMap → Status → Type 0
Tables m s = IsTable m

-- A result that goes on only with MAP_OK, with what is known of the map then.
pub and_then-Leaves :
    (P Q : HashMap → Status → Type 0) (r : Option (HashMap × Status))
    (next : HashMap → Option (HashMap × Status))
    → Leaves P r
    → ((m : HashMap) → P m map_omem → Q m map_omem)
    → ((m : HashMap) → P m map_ok → Leaves Q (next m))
    → Leaves Q (and_then r next)
and_then-Leaves P Q none next h f k = unended
and_then-Leaves P Q (some (m, map_omem)) next (ended h) f k = ended (f m h)
and_then-Leaves P Q (some (m, map_ok)) next (ended h) f k = k m h

pub store-IsTable :
    (m : HashMap) (i : ℕ) (key : List ℕ) (v : ℕ) → IsTable m → IsTable (store m i key v)
unfolding store
store-IsTable m i key v h = (length-set m.table i _ ∙ h.0, h.1)

slots-Leaves :
    (put' : Put)
    → ((m : HashMap) (key : List ℕ) (v : ℕ) → IsTable m → Leaves Tables (put' m key v))
    → (es : List Element) (m : HashMap) → IsTable m
    → Leaves Tables (rehash_slots put' es m)
slots-Leaves put' keeps [] m h = ended h
slots-Leaves put' keeps (e ∷ es) m h = elim (Bool-cases e.in_use) [
  | inr u ↦ rw (u, rehash_slots) (slots-Leaves put' keeps es m h)
  | inl u ↦
      rw (u, rehash_slots)
        (and_then-Leaves Tables Tables (put' m e.key e.value) (λ m'. rehash_slots put' es m')
          (keeps m e.key e.value h) (λ m' k. k) (λ m' k. slots-Leaves put' keeps es m' k))
]

-- What a put leaves: a table again, in which the key has the value if the call returned MAP_OK.
abbrev pub IsPut : List ℕ → ℕ → HashMap → Status → Type 0
IsPut key v m map_ok = IsTable m × (get m key ≡ some v)
IsPut key v m map_omem = IsTable m

IsPut-IsTable :
    (key : List ℕ) (v : ℕ) (r : Option (HashMap × Status))
    → Leaves (IsPut key v) r
    → Leaves Tables r
IsPut-IsTable key v none unended = unended
IsPut-IsTable key v (some (m, map_ok)) (ended h) = ended h.0
IsPut-IsTable key v (some (m, map_omem)) (ended h) = ended h

module _ (calloc : ℕ → Bool) where
  rehash-Leaves :
      (put' : Put)
      → ((m : HashMap) (key : List ℕ) (v : ℕ) → IsTable m → Leaves Tables (put' m key v))
      → (m : HashMap) → IsTable m
      → Leaves Tables (rehash calloc put' m)
  unfolding rehash
  rehash-Leaves put' keeps m h = elim (Bool-cases (calloc (2 * m.table_size))) [
    | inr refused ↦ rw (refused, rehash) (ended h)
    | inl given ↦
        rw (given, rehash)
          (slots-Leaves put' keeps m.table _
            (length-replicate (2 * m.table_size) blank, omega (arith, h.1)))
  ]

  -- On a table of at least one slot, however many rehashes `hashmap_put` makes and whichever
  -- allocations fail: if it ends, it leaves a table of at least one slot again, and if it returns
  -- MAP_OK, `hashmap_get` then gives the value for the key.
  pub put-IsPut :
      (fuel : ℕ) (m : HashMap) (key : List ℕ) (v : ℕ)
      → IsTable m
      → Leaves (IsPut key v) (put calloc fuel m key v)
  unfolding put
  put-IsPut zero m key v h = unended
  put-IsPut (suc fuel) m key v h = elim (Option-cases (hash m key)) [
    | inr (i, e) ↦
        rw (e, put) (ended (store-IsTable m i key v h, (put-get m key v i h e calloc fuel).1))
    | inl e ↦
        rw (e, put)
          (and_then-Leaves Tables (IsPut key v) (rehash calloc (put calloc fuel) m)
            (λ m'. put calloc fuel m' key v)
            (rehash-Leaves (put calloc fuel)
              (λ n k w t. IsPut-IsTable k w (put calloc fuel n k w) (put-IsPut fuel n k w t)) m h)
            (λ n t. t) (λ n t. put-IsPut fuel n key v t))
  ]
