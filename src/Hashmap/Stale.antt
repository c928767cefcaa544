-- ===== src/Hashmap/Stale.antt =====
-- hashmap.c: two keys with the same first slot, `hashmap_remove` of the one and `hashmap_put` of the
-- other.
use clibrary.Base.{
  ℕ, ◌+◌, ◌-◌, ◌%◌, ◌/◌, ◌<◌, ◌≡◌, ◌≢◌, refl, ap, ◌∙◌, Bool, true, false, some, List, length, set,
  leb, get_or-set_self, get_or-set_ne, length-set, arith,
}
use clibrary.Hashmap.{
  HashMap, blank, slot, holds, following, hash, find, get, remove, store, max_chain_length,
}
use clibrary.Hashmap.Hash.{hash_int}
use clibrary.Hashmap.Rehash.{map_ok, put}
use clibrary.Hashmap.Lookup.{
  probe_free, find_match, find_pass, get-some, holds_at, slot-store_ne, mod_lt,
}
use clibrary.Hashmap.Update.{IsTable, put_at, remove-some}

-- The map after `hashmap_remove` at a slot.
abbrev pub without : HashMap → ℕ → HashMap
without m i = record m { table = set m.table i blank; size = m.size - 1 }

following-ne : (n i : ℕ) → 1 < n → i < n → i ≢ (i + 1) % n
following-ne n i h k e = grind arith

-- The second key stands behind the first, whose slot both start at.
pub record Collide (m : HashMap) (first second : List ℕ) : Type 0 where
  pub table : IsTable m
  pub slots : 1 < m.table_size
  pub start : hash_int m.table_size second ≡ hash_int m.table_size first
  pub at_start : holds m first (hash_int m.table_size first) ≡ true
  pub behind : holds m second (following m (hash_int m.table_size first)) ≡ true
  pub room : leb (m.table_size / 2) (m.size - 1) ≡ false

module _ (m : HashMap) (a b : List ℕ) (c : Collide m a b) (v : ℕ) where
  abbrev pub first_slot : ℕ
  first_slot = hash_int m.table_size a

  abbrev pub removed : HashMap
  removed = without m first_slot

  abbrev pub stored : HashMap
  stored = store removed first_slot b v

  first_slot-lt : first_slot < length m.table
  first_slot-lt = let k = mod_lt _ m.table_size c.table.1 in rw (c.table.0) k

  abbrev pub next_slot : ℕ
  next_slot = following m first_slot

  ne : first_slot ≢ next_slot
  ne = following-ne m.table_size first_slot c.slots (mod_lt _ m.table_size c.table.1)

  hash-removed : hash removed b ≡ some first_slot
  unfolding hash
  hash-removed =
      let gone : slot removed first_slot ≡ blank =
        get_or-set_self m.table first_slot blank blank first_slot-lt in
      rw (c.room, c.start) (probe_free 7 removed b first_slot (ap (λ s. s.in_use) gone))

  find-stored : find max_chain_length stored b (hash_int m.table_size b) ≡ some first_slot
  unfolding store
  find-stored =
      let inside : first_slot < length removed.table =
        rw (length-set m.table first_slot blank) first_slot-lt in
      rw (c.start)
        (find_match 7 stored b first_slot (holds_at removed first_slot b v first_slot inside refl))

  -- The slot behind is as it was.
  slot-behind : slot (without stored first_slot) next_slot ≡ slot m next_slot
  unfolding store
  slot-behind =
      get_or-set_ne stored.table first_slot next_slot blank blank ne
      ∙ slot-store_ne removed first_slot next_slot b v ne
      ∙ get_or-set_ne m.table first_slot next_slot blank blank ne

  find-behind :
      find max_chain_length (without stored first_slot) b (hash_int m.table_size b) ≡ some next_slot
  unfolding store
  find-behind =
      let last = without stored first_slot in
      let inside : first_slot < length stored.table =
        rw (length-set removed.table first_slot _, length-set m.table first_slot blank)
          first_slot-lt in
      let gone : slot last first_slot ≡ blank =
        get_or-set_self stored.table first_slot blank blank inside in
      rw (c.start) (
        find_pass 7 last b first_slot (rw gone refl)
        ∙ find_match 6 last b next_slot (rw slot-behind c.behind))

  -- Where two keys start at the same slot and the second stands in the slot behind, the removal of
  -- the first, a put of the second and the removal of the second all succeed, and `hashmap_get` then
  -- still finds the second, with the value that it had before the put.
  pub stale :
      (calloc : ℕ → Bool)
      → (remove m a ≡ some removed)
        × (put calloc 1 removed b v ≡ some (stored, map_ok))
        × (remove stored b ≡ some (without stored first_slot))
        × (get (without stored first_slot) b ≡ some (slot m next_slot).value)
  unfolding store
  stale calloc = (
    remove-some m a first_slot (find_match 7 m a first_slot c.at_start),
    put_at removed b v first_slot calloc 0 hash-removed,
    remove-some stored b first_slot find-stored,
    get-some (without stored first_slot) b next_slot find-behind
        ∙ ap (λ s. some s.value) slot-behind,
  )
