-- ===== src/Hashmap/Refine.antt =====
-- hashmap.c: `hashmap_put`, with its rehashes, against the map from keys to values that it stands
-- for.
use clibrary.Base.{
  ℕ, zero, suc, ◌*◌, ◌<◌, ◌≡◌, sym, ap, ◌∙◌, inl, inr, Bool, true, false, Bool-cases, Option, none,
  some, Option-cases, List, [], ◌∷◌, length-replicate, replicate, get_or, if◌then◌else◌, arith,
}
use mathlib.Core.Path.{subst, fun_ext}
use mathlib.Core.Bool.{true≢false}
use clibrary.Hashmap.{Element, HashMap, blank, same, hash, store, get}
use clibrary.Hashmap.Lookup.{same-eq, same_refl, none-some}
use clibrary.Hashmap.Rehash.{Status, map_ok, map_omem, Put, rehash_slots, rehash, put}
use clibrary.Hashmap.Update.{IsTable, put-get, put-get_other}
use clibrary.Hashmap.Grow.{Leaves, unended, ended, and_then-Leaves, store-IsTable}
use clibrary.Hashmap.Placed.{
  IsPlaced, blank-IsPlaced, store-IsPlaced, get-entry, entry-get, blank-get,
}

-- A map from keys to values, seen from outside.
abbrev pub View : Type 0
View = List ℕ → Option ℕ

abbrev pub nothing : View
nothing key = none

abbrev pub update : List ℕ → ℕ → View → View
update key v f other = if same key other then some v else f other

-- The values of the one are values of the other.
abbrev pub Sub : View → View → Type 0
Sub g f = (key : List ℕ) (w : ℕ) → g key ≡ some w → f key ≡ some w

-- A table as `hashmap_put` alone makes it.
abbrev IsFilled : HashMap → Type 0
IsFilled m = IsTable m × IsPlaced m

-- A table that stands for a map.
abbrev pub Refines : HashMap → View → Type 0
Refines m f = IsFilled m × ((key : List ℕ) → get m key ≡ f key)

-- What a call leaves: with MAP_OK the one map, with MAP_OMEM a part of the other.
abbrev pub Results : View → View → HashMap → Status → Type 0
Results f g m map_ok = Refines m f
Results f g m map_omem = IsFilled m × Sub (get m) g

store-Refines :
    (m : HashMap) (f : View) (key : List ℕ) (v i : ℕ)
    → Refines m f
    → hash m key ≡ some i
    → Refines (store m i key v) (update key v f)
store-Refines m f key v i (filled, reads) e = (
  (store-IsTable m i key v filled.0, store-IsPlaced m key v i filled.0 filled.1 e),
  λ other. elim (Bool-cases (same key other)) [
    | inl k ↦ rw (k) (
        ap (get (store m i key v)) (sym (same-eq key other k))
        ∙ (put-get m key v i filled.0 e (λ n. true) 0).1)
    | inr k ↦ rw (k) (
        put-get_other m key v i filled.0 e other
          (λ h. true≢false (sym (same_refl key) ∙ ap (same key) (sym h) ∙ k))
        ∙ reads other)
  ],
)

-- The map after the puts of the slots in use, in their order.
abbrev writes : List Element → View → View
writes [] f = f
writes (e ∷ es) f = elim e.in_use [
  | false ↦ writes es f
  | true ↦ writes es (update e.key e.value f)
]

-- Each entry has the value that the map gives for its key.
abbrev Agrees : List Element → View → Type 0
Agrees es f =
    (j : ℕ)
    → (get_or es j blank).in_use ≡ true
    → f (get_or es j blank).key ≡ some (get_or es j blank).value

module _ (f : View) where
  update-Sub : (g : View) (key : List ℕ) (v : ℕ) → Sub g f → f key ≡ some v → Sub (update key v g) f
  update-Sub g key v sub e other w h = elim (Bool-cases (same key other)) [
    | inl k ↦ ap f (sym (same-eq key other k)) ∙ e ∙ rw k at h
    | inr k ↦ sub other w (rw k at h)
  ]

  update-at :
      (g : View) (key other : List ℕ) (v : ℕ)
      → f key ≡ some v
      → g other ≡ f other
      → update key v g other ≡ f other
  update-at g key other v e h = elim (Bool-cases (same key other)) [
    | inl k ↦ rw (k) (sym e ∙ ap f (same-eq key other k))
    | inr k ↦ rw (k) h
  ]

  writes-same :
      (es : List Element) (g : View) (key : List ℕ)
      → Agrees es f
      → g key ≡ f key
      → writes es g key ≡ f key
  writes-same [] g key agrees h = h
  writes-same (e ∷ es) g key agrees h = elim (Bool-cases e.in_use) [
    | inr u ↦ rw (u) (writes-same es g key (λ j. agrees (suc j)) h)
    | inl u ↦
        rw (u) (
          writes-same es _ key (λ j. agrees (suc j)) (update-at g e.key key e.value (agrees 0 u) h))
  ]

  writes-entry :
      (es : List Element) (g : View) (key : List ℕ) (j : ℕ)
      → Agrees es f
      → (get_or es j blank).in_use ≡ true
      → (get_or es j blank).key ≡ key
      → writes es g key ≡ f key
  writes-entry [] g key j agrees u k = absurd (true≢false (sym u))
  writes-entry (e ∷ es) g key zero agrees u k = rw (u) (
      writes-same es _ key (λ j. agrees (suc j))
        (rw (ap (same e.key) (sym k) ∙ same_refl e.key) (sym (agrees 0 u) ∙ ap f k)))
  writes-entry (e ∷ es) g key (suc j) agrees u k = elim (Bool-cases e.in_use) [
    | inr w ↦ rw (w) (writes-entry es g key j (λ j. agrees (suc j)) u k)
    | inl w ↦ rw (w) (writes-entry es _ key j (λ j. agrees (suc j)) u k)
  ]

-- The puts of all the entries of a table, into an empty one, make the map of the table.
writes-get : (m : HashMap) → IsPlaced m → (key : List ℕ) → writes m.table nothing key ≡ get m key
writes-get m placed key = elim (Option-cases (get m key)) [
  | inl e ↦ writes-same (get m) m.table nothing key (get-entry m placed) (sym e)
  | inr (w, e) ↦
      let (j, u, k) = entry-get m key w e in
      writes-entry (get m) m.table nothing key j (get-entry m placed) u k
]

pub blank-Refines :
    (n : ℕ)
    → 0 < n
    → Refines (record { table_size = n; size = 0; table = replicate n blank }) nothing
blank-Refines n h = (((length-replicate n blank, h), blank-IsPlaced n 0 n), blank-get n 0 n)

slots-Results :
    (put' : Put) (f : View)
    → ((m : HashMap) (g : View) (key : List ℕ) (v : ℕ)
        → Refines m g
        → Leaves (Results (update key v g) g) (put' m key v))
    → (es : List Element) (m : HashMap) (g : View) → Refines m g
    → Agrees es f
    → Sub g f
    → Leaves (Results (writes es g) f) (rehash_slots put' es m)
slots-Results put' f keeps [] m g h agrees sub = ended h
slots-Results put' f keeps (e ∷ es) m g h agrees sub = elim (Bool-cases e.in_use) [
  | inr u ↦ rw (u, rehash_slots) (slots-Results put' f keeps es m g h (λ j. agrees (suc j)) sub)
  | inl u ↦
      let g' = update e.key e.value g in
      rw (u, rehash_slots)
        (and_then-Leaves (Results g' g) (Results (writes es g') f) (put' m e.key e.value)
          (λ m'. rehash_slots put' es m') (keeps m g e.key e.value h)
          (λ m' k. (k.0, λ key w r. sub key w (k.1 key w r)))
          (λ m' k.
            slots-Results put' f keeps es m' g' k (λ j. agrees (suc j))
              (update-Sub f g e.key e.value sub (agrees 0 u))))
]

module _ (calloc : ℕ → Bool) where
  rehash-Results :
      (put' : Put)
      → ((m : HashMap) (g : View) (key : List ℕ) (v : ℕ)
          → Refines m g
          → Leaves (Results (update key v g) g) (put' m key v))
      → (m : HashMap) → IsFilled m
      → Leaves (Results (get m) (get m)) (rehash calloc put' m)
  unfolding rehash
  rehash-Results put' keeps m (table, placed) = elim (Bool-cases (calloc (2 * m.table_size))) [
    | inr refused ↦ rw (refused, rehash) (ended ((table, placed), λ key w r. r))
    | inl given ↦
        let n = 2 * m.table_size in
        let fresh : HashMap = record { table_size = n; size = 0; table = replicate n blank } in
        rw (given, rehash)
          (subst (λ f. Leaves (Results f (get m)) (rehash_slots put' m.table fresh))
            (fun_ext (writes-get m placed))
            (slots-Results put' (get m) keeps m.table fresh nothing
              (blank-Refines n (omega (arith, table.1))) (get-entry m placed)
              (λ key w e. absurd (none-some e))))
  ]

  -- On a table that stands for a map f, filled by puts alone, however many rehashes `hashmap_put`
  -- makes and whichever allocations fail: if it ends with MAP_OK, it leaves a table that stands for f
  -- with the value written at the key; if it ends with MAP_OMEM, every value that the table then gives
  -- for a key is that of f.
  pub put-Results :
      (fuel : ℕ) (m : HashMap) (f : View) (key : List ℕ) (v : ℕ)
      → Refines m f
      → Leaves (Results (update key v f) f) (put calloc fuel m key v)
  unfolding put
  put-Results zero m f key v h = unended
  put-Results (suc fuel) m f key v h = elim (Option-cases (hash m key)) [
    | inr (i, e) ↦ rw (e, put) (ended (store-Refines m f key v i h e))
    | inl e ↦
        rw (e, put)
          (and_then-Leaves (Results (get m) (get m)) (Results (update key v f) f)
            (rehash calloc (put calloc fuel) m) (λ m'. put calloc fuel m' key v)
            (rehash-Results (put calloc fuel) (λ n g k w t. put-Results fuel n g k w t) m h.0)
            (λ n t. (t.0, λ k w r. sym (h.1 k) ∙ t.1 k w r))
            (λ n t. put-Results fuel n f key v (t.0, λ k. t.1 k ∙ h.1 k)))
  ]
