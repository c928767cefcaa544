-- ===== src/Hashmap/Tests.antt =====
-- Runs of the map at concrete inputs.
use clibrary.Base.{
  ℕ, ◌+◌, ◌≡◌, ◌≢◌, ◌⊎◌, refl, Bool, true, false, none, some, List, [], ◌∷◌, take, arith,
}
use clibrary.Hashmap.{HashMap, blank, slot, holds, hash, probe, same, store, get, remove}
use clibrary.Hashmap.Hash.{crc32, hash_int, hash_key}
use clibrary.Hashmap.Rehash.{map_ok, put}
use clibrary.Hashmap.Grow.{IsPut}
use clibrary.Hashmap.Update.{IsTable, remove_lem}
use clibrary.Hashmap.Total.{put-returns}
use clibrary.Hashmap.Rehash.{Status}
use clibrary.Hashmap.{new_map}
use clibrary.Hashmap.Refine.{nothing}
use clibrary.Hashmap.Session.{Call, putting, getting, Reply, replies, Answers, replies-Answers}
use clibrary.Base.{◌≤◌, ◌<◌, leb}
use clibrary.Hashmap.Crc.{crc_of, crc32-crc_of}
use clibrary.Hashmap.Stale.{Collide, without, first_slot, removed, stored, next_slot, stale}

-- A table of five slots, as small as one can be made for a run.
abbrev five : HashMap
five = record { table_size = 5; size = 0; table = blank ∷ blank ∷ blank ∷ blank ∷ blank ∷ [] }

-- "123456789", whose CRC of this kind, from 0 and without a final inversion, is 0x2dfd2d88.
crc32_run : crc32 (0x31 ∷ 0x32 ∷ 0x33 ∷ 0x34 ∷ 0x35 ∷ 0x36 ∷ 0x37 ∷ 0x38 ∷ 0x39 ∷ []) 9 ≡ 0x2dfd2d88
unfolding crc32
crc32_run = refl

abbrev key_a : List ℕ
key_a = 0x61 ∷ []

abbrev key_b : List ℕ
key_b = 0x62 ∷ []

hash_run : hash five key_a ≡ some (hash_int 5 key_a)
unfolding hash probe hash_key crc32 same
hash_run = refl

five-IsTable : IsTable five
five-IsTable = (refl, omega arith)

always : ℕ → Bool
always n = true

abbrev with_a : HashMap
with_a = store five (hash_int 5 key_a) key_a 42

remove_lem_example :
    ((get with_a key_a ≡ none) × (remove with_a key_a ≡ none))
    ⊎ ((i : ℕ) × (m' : HashMap) × (remove with_a key_a ≡ some m')
        × (holds with_a key_a i ≡ true)
        × (get with_a key_a ≡ some (slot with_a i).value)
        × (slot m' i ≡ blank)
        × ((j : ℕ) → i ≢ j → slot m' j ≡ slot with_a j)
        × (m'.table_size ≡ with_a.table_size)
        × (m'.size + 1 ≡ with_a.size)
        × ((other : List ℕ) → other ≢ key_a → get m' other ≡ get with_a other))
unfolding store
remove_lem_example = remove_lem with_a key_a (omega arith)

abbrev sum : ℕ → ℕ → ℕ
sum a b = a + b

-- Storing a second value for the same key raises the size a second time.
twice_run : (store with_a (hash_int 5 key_a) key_a 43).size ≡ 2
unfolding store
twice_run = refl

-- With the size 2 of 5 slots the table counts as full, so the put makes a rehash to 10 slots.
abbrev counted_full : HashMap
counted_full = record five { size = 2 }

abbrev digits : List ℕ
digits = 0x31 ∷ 0x32 ∷ 0x33 ∷ 0x34 ∷ 0x35 ∷ 0x36 ∷ 0x37 ∷ 0x38 ∷ 0x39 ∷ []

crc32-crc_of_example : crc32 digits 9 ≡ crc_of 0 (take 9 digits)
crc32-crc_of_example = crc32-crc_of digits 9

abbrev key_d : List ℕ
key_d = 0x64 ∷ []

-- Both keys start at slot 3.
abbrev both : HashMap
both = store (store five 3 key_b 1) 4 key_d 2

both-Collide : Collide both key_b key_d
unfolding crc32 hash_key same store
both-Collide = record {
  table = (refl, omega arith);
  slots = omega arith;
  start = refl;
  at_start = refl;
  behind = refl;
  room = refl;
}

stale_example :
    (remove both key_b ≡ some (removed both key_b key_d both-Collide 7))
    × (put always 1 (removed both key_b key_d both-Collide 7) key_d 7
        ≡ some (stored both key_b key_d both-Collide 7, map_ok))
    × (remove (stored both key_b key_d both-Collide 7) key_d
        ≡ some (
            without
              (stored both key_b key_d both-Collide 7)
              (first_slot both key_b key_d both-Collide 7)))
    × (get
          (without
            (stored both key_b key_d both-Collide 7)
            (first_slot both key_b key_d both-Collide 7))
          key_d
        ≡ some (slot both (next_slot both key_b key_d both-Collide 7)).value)
stale_example = stale both key_b key_d both-Collide 7 always

-- An allocator with room for at most 20 slots.
abbrev small : ℕ → Bool
small n = leb n 20

small-fails : (n : ℕ) → 20 < n → small n ≡ false
small-fails n h = ground arith

-- A table of five slots that counts as full: a put has to rehash it.
abbrev crowded : HashMap
crowded = record five { size = 3 }

crowded_run : hash crowded key_a ≡ none
unfolding hash probe
crowded_run = refl

put-returns_example :
    (m' : HashMap) × (s : Status) × (put small 3 crowded key_a 42 ≡ some (m', s))
    × IsPut key_a 42 m' s
    × (5 ≤ m'.table_size)
put-returns_example =
    put-returns small 20 small-fails 3 crowded key_a 42 (refl, omega arith) (omega arith)
      (omega arith)

-- An allocator with room for at most 100000 slots: two doublings of a new table.
abbrev ample : ℕ → Bool
ample n = leb n 100000

ample-fails : (n : ℕ) → 100000 < n → ample n ≡ false
ample-fails n h = ground arith

abbrev two_puts : List Call
two_puts =
    putting key_a 42 ∷ putting key_b 43 ∷ getting key_a ∷ putting key_a 44 ∷ getting key_a ∷ []

replies-Answers_example :
    (m : HashMap) × (rs : List Reply) × (new_map true true ≡ some m)
    × (replies ample 2 two_puts m ≡ some rs)
    × Answers nothing two_puts rs
replies-Answers_example =
    replies-Answers ample 2 100000 ample-fails (omega arith) two_puts (omega arith)
