-- ===== src/Hashmap/Update.antt =====
-- hashmap.c: `hashmap_get` after the write of `hashmap_put` and after `hashmap_remove`.
use clibrary.Base.{
  ℕ, zero, suc, ◌+◌, ◌-◌, ◌%◌, ◌/◌, ◌<◌, ◌≡◌, ◌≢◌, refl, sym, ap, ◌∙◌, ◌⊎◌, inl, inr, Bool, true,
  false, ◌&&◌, none, some, List, length, set, leb, ◌==◌, Bool-cases, Option-cases, get_or-set_self,
  get_or-set_ne, arith,
}
use mathlib.Core.Bool.{true≢false}
use clibrary.Hashmap.{
  Element, HashMap, blank, same, slot, holds, following, probe, hash, find, get, remove, store,
  max_chain_length,
}
use clibrary.Hashmap.Hash.{hash_int}
use clibrary.Hashmap.Rehash.{map_ok, put}
use clibrary.Hashmap.Lookup.{
  ==-eq, same-eq, none-some, mod_lt, probe-lt, holds-store_self, find-store, find-holds, probe-slot,
  same-ne, and_true, in_use-lt, and_false, find_match, find_pass, get-none, get-some,
}

-- Two tables in which a key is held by the same slots, with the same contents.
module _ (m m' : HashMap) (key : List ℕ) (size : m'.table_size ≡ m.table_size)
    (agree : (c : ℕ) → holds m' key c ≡ holds m key c) where
  find-agree : (tries curr : ℕ) → find tries m' key curr ≡ find tries m key curr
  unfolding find
  find-agree zero curr = refl
  find-agree (suc tries) curr = elim (Bool-cases (holds m key curr)) [
    | inl k ↦ find_match tries m' key curr (agree curr ∙ k) ∙ sym (find_match tries m key curr k)
    | inr k ↦
        find_pass tries m' key curr (agree curr ∙ k)
        ∙ ap (λ n. find tries m' key ((curr + 1) % n)) size
        ∙ find-agree tries (following m curr)
        ∙ sym (find_pass tries m key curr k)
  ]

  get-agree : ((c : ℕ) → holds m key c ≡ true → slot m' c ≡ slot m c) → get m' key ≡ get m key
  unfolding get
  get-agree slots =
      let start = hash_int m.table_size key in
      let e : find max_chain_length m' key (hash_int m'.table_size key)
          ≡ find max_chain_length m key start =
        ap (λ n. find max_chain_length m' key (hash_int n key)) size
        ∙ find-agree max_chain_length start in
      elim (Option-cases (find max_chain_length m key start)) [
        | inl n ↦ get-none m' key (e ∙ n) ∙ sym (get-none m key n)
        | inr (i, f) ↦
            get-some m' key i (e ∙ f)
            ∙ ap (λ s. some s.value) (slots i (find-holds max_chain_length m key start i f))
            ∙ sym (get-some m key i f)
      ]

-- Slots of another table, where the table differs in one slot only, which the key does not hold.
module _ (m : HashMap) (e : Element) (n i : ℕ) (key : List ℕ) (inside : i < length m.table)
    (before : holds m key i ≡ false) (after : e.in_use && same e.key key ≡ false) where
  get-set : get (record m { table = set m.table i e; size = n }) key ≡ get m key
  get-set =
      let m' = record m { table = set m.table i e; size = n } in
      let here : (c : ℕ) → c ≡ i → holds m' key c ≡ false =
        λ c h. rw (h, get_or-set_self m.table i e blank inside) after in
      let there : (c : ℕ) → i ≢ c → slot m' c ≡ slot m c =
        λ c h. get_or-set_ne m.table i c e blank h in
      get-agree m m' key refl
        (λ c. elim (Bool-cases (c == i)) [
          | inl k ↦ let h = ==-eq c i k in here c h ∙ sym (ap (holds m key) h ∙ before)
          | inr k ↦ ap (λ s. s.in_use && same s.key key) (there c (λ h. ground arith))
        ])
        (λ c h. there c (λ k. true≢false (sym h ∙ ap (holds m key) (sym k) ∙ before)))

-- A table of at least one slot, as `hashmap_new` and `hashmap_rehash` allocate it.
abbrev pub IsTable : HashMap → Type 0
IsTable m = (length m.table ≡ m.table_size) × (0 < m.table_size)

pub hash-probe :
    (m : HashMap) (key : List ℕ) (i : ℕ)
    → hash m key ≡ some i
    → probe max_chain_length m key (hash_int m.table_size key) ≡ some i
unfolding hash
hash-probe m key i h = elim (Bool-cases (leb (m.table_size / 2) m.size)) [
  | inl k ↦ absurd (none-some (rw k at h))
  | inr k ↦ rw k at h
]

holds-other :
    (m : HashMap) (key other : List ℕ) (i : ℕ)
    → same (slot m i).key key ≡ true
    → other ≢ key
    → holds m other i ≡ false
holds-other m key other i s ne =
    ap (λ k. (slot m i).in_use && same k other) (same-eq (slot m i).key key s)
    ∙ ap (λ b. (slot m i).in_use && b) (same-ne key other (λ e. ne (sym e)))
    ∙ and_false (slot m i).in_use

pub put_at :
    (m : HashMap) (key : List ℕ) (v i : ℕ) (calloc : ℕ → Bool) (fuel : ℕ)
    → hash m key ≡ some i
    → put calloc (suc fuel) m key v ≡ some (store m i key v, map_ok)
unfolding put
put_at m key v i calloc fuel h = rw (h, put) refl

module _ (m : HashMap) (key : List ℕ) (v i : ℕ) (table : IsTable m)
    (found : hash m key ≡ some i) where
  pub hash-lt : i < length m.table
  hash-lt =
      let s = table.1 in
      let l = table.0 in
      let k =
        probe-lt max_chain_length m key _ i s (mod_lt _ m.table_size s)
          (hash-probe m key i found) in
      rw (l) k

  -- In a table of at least one slot in which `hashmap_hash` finds a slot for the key, `hashmap_put`
  -- returns MAP_OK without a rehash, and `hashmap_get` then gives the value for the key.
  pub put-get :
      (calloc : ℕ → Bool) (fuel : ℕ)
      → (put calloc (suc fuel) m key v ≡ some (store m i key v, map_ok))
        × (get (store m i key v) key ≡ some v)
  unfolding store
  put-get calloc fuel =
      let f = find-store max_chain_length m key v _ i hash-lt (hash-probe m key i found) in
      (
        put_at m key v i calloc fuel found,
        get-some (store m i key v) key i f
            ∙ ap (λ s. some s.value) (holds-store_self m i key v hash-lt),
      )

  -- In a table of at least one slot in which `hashmap_hash` finds a slot for the key, the write at
  -- the end of `hashmap_put` does not change what `hashmap_get` gives for any other key.
  pub put-get_other : (other : List ℕ) → other ≢ key → get (store m i key v) other ≡ get m other
  unfolding store
  put-get_other other ne =
      get-set m _ (m.size + 1) i other hash-lt
        (elim (probe-slot max_chain_length m key _ i (hash-probe m key i found)) [
          | inl u ↦ rw (u) refl
          | inr s ↦ holds-other m key other i s ne
        ])
        (same-ne key other (λ e. ne (sym e)))

module _ (m : HashMap) (key : List ℕ) where
  remove-none : find max_chain_length m key (hash_int m.table_size key) ≡ none → remove m key ≡ none
  unfolding remove
  remove-none e = rw (e, remove) refl

  pub remove-some :
      (i : ℕ)
      → find max_chain_length m key (hash_int m.table_size key) ≡ some i
      → remove m key ≡ some (record m { table = set m.table i blank; size = m.size - 1 })
  unfolding remove
  remove-some i e = rw (e, remove) refl

  -- `hashmap_remove` in a table whose size is not 0 returns MAP_MISSING exactly for a key that
  -- `hashmap_get` does not find. For any other key it blanks one
  -- slot, which held the key and the value that `hashmap_get` gave, leaves every other slot as it
  -- is, and lowers the size by one; for every other key `hashmap_get` gives what it gave before.
  pub remove_lem :
      0 < m.size
      → ((get m key ≡ none) × (remove m key ≡ none))
        ⊎ ((i : ℕ) × (m' : HashMap) × (remove m key ≡ some m')
            × (holds m key i ≡ true)
            × (get m key ≡ some (slot m i).value)
            × (slot m' i ≡ blank)
            × ((j : ℕ) → i ≢ j → slot m' j ≡ slot m j)
            × (m'.table_size ≡ m.table_size)
            × (m'.size + 1 ≡ m.size)
            × ((other : List ℕ) → other ≢ key → get m' other ≡ get m other))
  remove_lem counted =
      let start = hash_int m.table_size key in
      elim (Option-cases (find max_chain_length m key start)) [
        | inl n ↦ inl (get-none m key n, remove-none n)
        | inr (i, f) ↦
            let held = find-holds max_chain_length m key start i f in
            let h = and_true (slot m i).in_use _ held in
            let inside = in_use-lt m.table i h.0 in
            inr (
              i,
              _,
              remove-some i f,
              held,
              get-some m key i f,
              get_or-set_self m.table i blank blank inside,
              (λ j ne. get_or-set_ne m.table i j blank blank ne),
              refl,
              omega arith,
              (λ other ne.
                  get-set m blank (m.size - 1) i other inside (holds-other m key other i h.1 ne)
                    refl),
            )
      ]
