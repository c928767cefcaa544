-- ===== src/Hashmap.antt =====
-- hashmap.c and hashmap.h: the map from strings to pointers with linear probing. A key is the bytes
-- of its string, `any_t` a number with 0 for NULL, and each `int` of the table is below 2 ^ 31.
pub mod Hash
pub mod Crc
pub mod Rehash
pub mod Lookup
pub mod Update
pub mod Placed
pub mod Stale
pub mod Grow
pub mod Refine
pub mod Session
pub mod Total
mod Tests
use clibrary.Base.{
  ℕ, zero, suc, ◌+◌, ◌-◌, ◌*◌, ◌%◌, Bool, true, false, not, ◌&&◌, Option, none, some, List, [], ◌∷◌,
  replicate, get_or, set, leb, ltb, ◌==◌, if◌then◌else◌,
}
use clibrary.Base.{◌/◌}
use clibrary.Hashmap.Hash.{hash_int}

-- `struct _hashmap_element`
pub record Element : Type 0 where
  pub key : List ℕ
  pub in_use : Bool
  pub value : ℕ

-- `struct _hashmap_map`
pub record HashMap : Type 0 where
  pub table_size : ℕ
  pub size : ℕ
  pub table : List Element

abbrev pub initial_size : ℕ
initial_size = 25600

abbrev pub max_chain_length : ℕ
max_chain_length = 8

-- A slot as `calloc` makes it, and as `hashmap_remove` leaves it.
abbrev pub blank : Element
blank = record { key = []; in_use = false; value = 0 }

-- `hashmap_new`, which returns NULL when `malloc` or `calloc` fails.
unfoldable pub new_map : Bool → Bool → Option HashMap
new_map malloc_ok calloc_ok =
    if malloc_ok
    then if calloc_ok
      then some
          (record { table_size = initial_size; size = 0; table = replicate initial_size blank })
      else none
    else none

-- `strcmp(a, b) == 0`
unfoldable pub same : List ℕ → List ℕ → Bool
same [] [] = true
same [] (b ∷ ys) = false
same (a ∷ xs) [] = false
same (a ∷ xs) (b ∷ ys) = (a == b) && same xs ys

-- `data[curr]`
abbrev pub slot : HashMap → ℕ → Element
slot m curr = get_or m.table curr blank

-- `in_use == 1 && strcmp(data[curr].key, key) == 0`
abbrev pub holds : HashMap → List ℕ → ℕ → Bool
holds m key curr = (slot m curr).in_use && same (slot m curr).key key

-- `(curr + 1) % table_size`
abbrev pub following : HashMap → ℕ → ℕ
following m curr = (curr + 1) % m.table_size

-- The loop of `hashmap_hash`, with the tries that are left: a slot, or MAP_FULL.
unfoldable pub probe : ℕ → HashMap → List ℕ → ℕ → Option ℕ
probe zero m key curr = none
probe (suc tries) m key curr = elim (slot m curr).in_use [
  | false ↦ some curr
  | true ↦ elim (same (slot m curr).key key) [
    | true ↦ some curr
    | false ↦ probe tries m key (following m curr)
  ]
]

-- `hashmap_hash`
unfoldable pub hash : HashMap → List ℕ → Option ℕ
hash m key =
    if leb (m.table_size / 2) m.size
    then none
    else probe max_chain_length m key (hash_int m.table_size key)

-- The loop of `hashmap_get` and `hashmap_remove`: the first slot that holds the key.
unfoldable pub find : ℕ → HashMap → List ℕ → ℕ → Option ℕ
find zero m key curr = none
find (suc tries) m key curr = elim (holds m key curr) [
  | true ↦ some curr
  | false ↦ find tries m key (following m curr)
]

-- `hashmap_get`: the pointer, or MAP_MISSING.
unfoldable pub get : HashMap → List ℕ → Option ℕ
get m key = elim (find max_chain_length m key (hash_int m.table_size key)) [
  | none ↦ none
  | some i ↦ some (slot m i).value
]

-- `hashmap_remove`: the map without the entry, or MAP_MISSING. The `size --` of the
-- code is on an int, which goes below 0 where `size - 1` stops at it.
unfoldable pub remove : HashMap → List ℕ → Option HashMap
remove m key = elim (find max_chain_length m key (hash_int m.table_size key)) [
  | none ↦ none
  | some i ↦ some (record m { table = set m.table i blank; size = m.size - 1 })
]

-- The end of `hashmap_put`, at the slot that was found.
unfoldable pub store : HashMap → ℕ → List ℕ → ℕ → HashMap
store m i key v = record m {
  table = set m.table i (record { key = key; in_use = true; value = v });
  size = m.size + 1;
}

-- `hashmap_length`, NULL being none.
-- `hashmap_free`: what it gives to `free`, in order; the arguments are the addresses of the array
-- and of the map.
abbrev free_map : ℕ → ℕ → List ℕ
free_map data_address map_address = data_address ∷ map_address ∷ []

unfoldable length_of : Option HashMap → ℕ
length_of none = 0
length_of (some m) = m.size
