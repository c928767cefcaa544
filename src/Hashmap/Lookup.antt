-- ===== src/Hashmap/Lookup.antt =====
-- hashmap.c: the slots that the probing of `hashmap_hash` and of `hashmap_get` finds.
use clibrary.Base.{
  ℕ, zero, suc, ◌+◌, ◌%◌, ◌<◌, ◌≡◌, ◌≢◌, refl, sym, ap, ◌∙◌, ◌⊎◌, inl, inr, Bool, true, false, ◌&&◌,
  none, some, List, [], ◌∷◌, length, get_or, ◌==◌, Bool-cases, ap₂, get_or-set_self, get_or-set_ne,
  arith,
}
use mathlib.Core.Bool.{true≢false}
use clibrary.Hashmap.{
  Element, HashMap, blank, same, slot, holds, following, probe, find, get, store, max_chain_length,
}
use clibrary.Hashmap.Hash.{hash_int}

pub ==-eq : (a b : ℕ) → a == b ≡ true → a ≡ b
==-eq a b h = ground arith

pub same_refl : (xs : List ℕ) → same xs xs ≡ true
unfolding same
same_refl [] = refl
same_refl (x ∷ xs) = let e : x == x ≡ true = ground arith in rw (e) (same_refl xs)

pub same-eq : (xs ys : List ℕ) → same xs ys ≡ true → xs ≡ ys
unfolding same
same-eq [] [] h = refl
same-eq [] (b ∷ ys) h = absurd (true≢false (sym h))
same-eq (a ∷ xs) [] h = absurd (true≢false (sym h))
same-eq (a ∷ xs) (b ∷ ys) h = elim (Bool-cases (a == b)) [
  | inl e ↦ ap₂ (λ x l. x ∷ l) (==-eq a b e) (same-eq xs ys (rw e at h))
  | inr e ↦ absurd (true≢false (sym (rw e at h)))
]

pub some_inj : {a b : ℕ} → some a ≡ some b → a ≡ b
some_inj e = cc

pub none-some : {a : ℕ} → none ≢ some a
none-some e = ground arith

pub mod_lt : (a n : ℕ) → 0 < n → a % n < n
mod_lt a n h = grind arith

module _ (tries : ℕ) (m : HashMap) (key : List ℕ) (curr : ℕ) where
  pub probe_free : (slot m curr).in_use ≡ false → probe (suc tries) m key curr ≡ some curr
  unfolding probe
  probe_free u = rw (u, probe) refl

  pub probe_match :
      (slot m curr).in_use ≡ true
      → same (slot m curr).key key ≡ true
      → probe (suc tries) m key curr ≡ some curr
  unfolding probe
  probe_match u e = rw (u, e, probe) refl

  pub probe_pass :
      (slot m curr).in_use ≡ true
      → same (slot m curr).key key ≡ false
      → probe (suc tries) m key curr ≡ probe tries m key (following m curr)
  unfolding probe
  probe_pass u e = rw (u, e, probe) refl

  pub find_match : holds m key curr ≡ true → find (suc tries) m key curr ≡ some curr
  unfolding find
  find_match e = rw (e, find) refl

  pub find_pass :
      holds m key curr ≡ false → find (suc tries) m key curr ≡ find tries m key (following m curr)
  unfolding find
  find_pass e = rw (e, find) refl

-- A slot that `hashmap_hash` finds lies in the table.
pub probe-lt :
    (tries : ℕ) (m : HashMap) (key : List ℕ) (curr i : ℕ)
    → 0 < m.table_size
    → curr < m.table_size
    → probe tries m key curr ≡ some i
    → i < m.table_size
unfolding probe
probe-lt zero m key curr i hs hc h = absurd (none-some h)
probe-lt (suc tries) m key curr i hs hc h = elim (Bool-cases (slot m curr).in_use) [
  | inr u ↦ let e = some_inj (sym (probe_free tries m key curr u) ∙ h) in omega arith
  | inl u ↦ elim (Bool-cases (same (slot m curr).key key)) [
    | inl k ↦ let e = some_inj (sym (probe_match tries m key curr u k) ∙ h) in omega arith
    | inr k ↦
        probe-lt tries m key (following m curr) i hs (mod_lt (curr + 1) m.table_size hs)
          (sym (probe_pass tries m key curr u k) ∙ h)
  ]
]

pub holds-store_self :
    (m : HashMap) (i : ℕ) (key : List ℕ) (v : ℕ)
    → i < length m.table
    → slot (store m i key v) i ≡ record { key = key; in_use = true; value = v }
unfolding store
holds-store_self m i key v h = get_or-set_self m.table i _ blank h

pub slot-store_ne :
    (m : HashMap) (i j : ℕ) (key : List ℕ) (v : ℕ) → i ≢ j → slot (store m i key v) j ≡ slot m j
unfolding store
slot-store_ne m i j key v h = get_or-set_ne m.table i j _ blank h

pub holds_at :
    (m : HashMap) (i : ℕ) (key : List ℕ) (v curr : ℕ)
    → i < length m.table
    → curr ≡ i
    → holds (store m i key v) key curr ≡ true
holds_at m i key v curr hi e = rw (e, holds-store_self m i key v hi, same_refl key) refl

-- The probing of `hashmap_get` after the write stops at the slot that was written.
pub find-store :
    (tries : ℕ) (m : HashMap) (key : List ℕ) (v curr i : ℕ)
    → i < length m.table
    → probe tries m key curr ≡ some i
    → find tries (store m i key v) key curr ≡ some i
unfolding store probe
find-store zero m key v curr i hi h = absurd (none-some h)
find-store (suc tries) m key v curr i hi h =
    let m' = store m i key v in
    elim (Bool-cases (curr == i)) [
      | inl c ↦
          let e : curr ≡ i = ==-eq curr i c in
          find_match tries m' key curr (holds_at m i key v curr hi e) ∙ ap some e
      | inr c ↦
          let ne : i ≢ curr = λ e. ground arith in
          let s = slot-store_ne m i curr key v ne in
          elim (Bool-cases (slot m curr).in_use) [
            | inr u ↦ absurd (ne (sym (some_inj (sym (probe_free tries m key curr u) ∙ h))))
            | inl u ↦ elim (Bool-cases (same (slot m curr).key key)) [
              | inl k ↦ absurd (ne (sym (some_inj (sym (probe_match tries m key curr u k) ∙ h))))
              | inr k ↦
                  find_pass tries m' key curr (rw (s, u, k) refl)
                  ∙ find-store tries m key v (following m curr) i hi
                      (sym (probe_pass tries m key curr u k) ∙ h)
            ]
          ]
    ]

-- The first slot of a successful walk holds the key.
pub find-holds :
    (tries : ℕ) (m : HashMap) (key : List ℕ) (curr i : ℕ)
    → find tries m key curr ≡ some i
    → holds m key i ≡ true
unfolding find
find-holds zero m key curr i h = absurd (none-some h)
find-holds (suc tries) m key curr i h = elim (Bool-cases (holds m key curr)) [
  | inl k ↦
      let e = some_inj (sym (find_match tries m key curr k) ∙ h) in ap (holds m key) (sym e) ∙ k
  | inr k ↦ find-holds tries m key (following m curr) i (sym (find_pass tries m key curr k) ∙ h)
]

-- A slot that `hashmap_hash` finds is free or holds the key.
pub probe-slot :
    (tries : ℕ) (m : HashMap) (key : List ℕ) (curr i : ℕ)
    → probe tries m key curr ≡ some i
    → ((slot m i).in_use ≡ false) ⊎ (same (slot m i).key key ≡ true)
unfolding probe
probe-slot zero m key curr i h = absurd (none-some h)
probe-slot (suc tries) m key curr i h = elim (Bool-cases (slot m curr).in_use) [
  | inr u ↦
      let e = some_inj (sym (probe_free tries m key curr u) ∙ h) in
      inl (ap (λ c. (slot m c).in_use) (sym e) ∙ u)
  | inl u ↦ elim (Bool-cases (same (slot m curr).key key)) [
    | inl k ↦
        let e = some_inj (sym (probe_match tries m key curr u k) ∙ h) in
        inr (ap (λ c. same (slot m c).key key) (sym e) ∙ k)
    | inr k ↦
        probe-slot tries m key (following m curr) i (sym (probe_pass tries m key curr u k) ∙ h)
  ]
]

pub and_false : (b : Bool) → b && false ≡ false
and_false true = refl
and_false false = refl

pub and_true : (a b : Bool) → a && b ≡ true → (a ≡ true) × (b ≡ true)
and_true true b h = (refl, h)
and_true false b h = absurd (true≢false (sym h))

pub in_use-lt : (xs : List Element) (i : ℕ) → (get_or xs i blank).in_use ≡ true → i < length xs
in_use-lt [] i h = absurd (true≢false (sym h))
in_use-lt (x ∷ xs) zero h = omega arith
in_use-lt (x ∷ xs) (suc i) h = let k = in_use-lt xs i h in omega arith

pub same-ne : (xs ys : List ℕ) → xs ≢ ys → same xs ys ≡ false
same-ne xs ys h = elim (Bool-cases (same xs ys)) [
  | inl e ↦ absurd (h (same-eq xs ys e))
  | inr e ↦ e
]

module _ (m : HashMap) (key : List ℕ) where
  pub get-none : find max_chain_length m key (hash_int m.table_size key) ≡ none → get m key ≡ none
  unfolding get
  get-none e = rw (e, get) refl

  pub get-some :
      (i : ℕ)
      → find max_chain_length m key (hash_int m.table_size key) ≡ some i
      → get m key ≡ some (slot m i).value
  unfolding get
  get-some i e = rw (e, get) refl
