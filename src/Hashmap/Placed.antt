-- ===== src/Hashmap/Placed.antt =====
-- hashmap.c: where the entries of a table stand when it is filled by `hashmap_put` alone.
use clibrary.Base.{
  ℕ, zero, suc, ◌<◌, ◌≡◌, ◌≢◌, refl, sym, ap, ◌∙◌, inl, inr, true, none, some, List, length,
  replicate, ◌==◌, Bool-cases, Option-cases, get_or-replicate, arith,
}
use mathlib.Core.Bool.{true≢false, false≢true}
use clibrary.Hashmap.{
  HashMap, blank, same, slot, following, probe, hash, find, get, store, max_chain_length,
}
use clibrary.Hashmap.Hash.{hash_int}
use clibrary.Hashmap.Lookup.{
  ==-eq, same_refl, same-eq, same-ne, some_inj, none-some, probe_free, probe_match, probe_pass,
  find_match, find_pass, find-holds, holds-store_self, slot-store_ne, get-none, get-some, and_true,
}
use clibrary.Hashmap.Update.{IsTable, hash-probe, hash-lt}

-- For each slot in use, the probing of its key ends there.
abbrev pub IsPlaced : HashMap → Type 0
IsPlaced m =
    (j : ℕ)
    → (slot m j).in_use ≡ true
    → probe max_chain_length m (slot m j).key (hash_int m.table_size (slot m j).key) ≡ some j

pub blank-IsPlaced :
    (n size k : ℕ) → IsPlaced (record { table_size = n; size = size; table = replicate k blank })
blank-IsPlaced n size k j u =
    absurd (true≢false (sym u ∙ ap (λ e. e.in_use) (get_or-replicate k j blank)))

-- The probing of the key that was written ends at the slot that it found.
probe-store :
    (tries : ℕ) (m : HashMap) (key : List ℕ) (v curr i : ℕ)
    → i < length m.table
    → probe tries m key curr ≡ some i
    → probe tries (store m i key v) key curr ≡ some i
unfolding store probe
probe-store zero m key v curr i hi h = absurd (none-some h)
probe-store (suc tries) m key v curr i hi h =
    let m' = store m i key v in
    elim (Bool-cases (curr == i)) [
      | inl c ↦
          let e : curr ≡ i = ==-eq curr i c in
          let s = ap (slot m') e ∙ holds-store_self m i key v hi in
          probe_match tries m' key curr (ap (λ x. x.in_use) s)
            (ap (λ x. same x.key key) s ∙ same_refl key)
          ∙ ap some e
      | inr c ↦
          let ne : i ≢ curr = λ e. ground arith in
          let s = slot-store_ne m i curr key v ne in
          elim (Bool-cases (slot m curr).in_use) [
            | inr u ↦ absurd (ne (sym (some_inj (sym (probe_free tries m key curr u) ∙ h))))
            | inl u ↦ elim (Bool-cases (same (slot m curr).key key)) [
              | inl k ↦ absurd (ne (sym (some_inj (sym (probe_match tries m key curr u k) ∙ h))))
              | inr k ↦
                  probe_pass tries m' key curr (ap (λ x. x.in_use) s ∙ u)
                    (ap (λ x. same x.key key) s ∙ k)
                  ∙ probe-store tries m key v (following m curr) i hi
                      (sym (probe_pass tries m key curr u k) ∙ h)
            ]
          ]
    ]

-- The probing of another key still ends where it did, unless at the slot that was written.
probe-store_ne :
    (tries : ℕ) (m : HashMap) (key other : List ℕ) (v curr i j : ℕ)
    → i < length m.table
    → other ≢ key
    → i ≢ j
    → probe tries m other curr ≡ some j
    → probe tries (store m i key v) other curr ≡ some j
unfolding store probe
probe-store_ne zero m key other v curr i j hi ne apart h = absurd (none-some h)
probe-store_ne (suc tries) m key other v curr i j hi ne apart h =
    let m' = store m i key v in
    let rest = probe-store_ne tries m key other v (following m curr) i j hi ne apart in
    elim (Bool-cases (slot m curr).in_use) [
      | inr u ↦
          let e = some_inj (sym (probe_free tries m other curr u) ∙ h) in
          let s = slot-store_ne m i curr key v (λ k. apart (k ∙ e)) in
          probe_free tries m' other curr (ap (λ x. x.in_use) s ∙ u) ∙ ap some e
      | inl u ↦ elim (Bool-cases (same (slot m curr).key other)) [
        | inl k ↦
            let e = some_inj (sym (probe_match tries m other curr u k) ∙ h) in
            let s = slot-store_ne m i curr key v (λ k. apart (k ∙ e)) in
            probe_match tries m' other curr (ap (λ x. x.in_use) s ∙ u)
              (ap (λ x. same x.key other) s ∙ k)
            ∙ ap some e
        | inr k ↦
            let h' = rest (sym (probe_pass tries m other curr u k) ∙ h) in
            elim (Bool-cases (curr == i)) [
              | inl c ↦
                  let s = ap (slot m') (==-eq curr i c) ∙ holds-store_self m i key v hi in
                  probe_pass tries m' other curr (ap (λ x. x.in_use) s)
                    (ap (λ x. same x.key other) s ∙ same-ne key other (λ e. ne (sym e)))
                  ∙ h'
              | inr c ↦
                  let s = slot-store_ne m i curr key v (λ e. ground arith) in
                  probe_pass tries m' other curr (ap (λ x. x.in_use) s ∙ u)
                    (ap (λ x. same x.key other) s ∙ k)
                  ∙ h'
            ]
      ]
    ]

-- The write at the end of `hashmap_put` keeps each entry where the probing of its key ends.
pub store-IsPlaced :
    (m : HashMap) (key : List ℕ) (v i : ℕ)
    → IsTable m
    → IsPlaced m
    → hash m key ≡ some i
    → IsPlaced (store m i key v)
unfolding store
store-IsPlaced m key v i table placed found j u =
    let m' = store m i key v in
    let n = m.table_size in
    let hi = hash-lt m key v i table found in
    let p = hash-probe m key i found in
    elim (Bool-cases (i == j)) [
      | inl c ↦
          let s = ap (slot m') (sym (==-eq i j c)) ∙ holds-store_self m i key v hi in
          ap (λ x. probe max_chain_length m' x.key (hash_int n x.key)) s
          ∙ probe-store max_chain_length m key v (hash_int n key) i hi p
          ∙ ap some (==-eq i j c)
      | inr c ↦
          let apart : i ≢ j = λ e. ground arith in
          let s = slot-store_ne m i j key v apart in
          let k = (slot m j).key in
          let at = placed j (sym (ap (λ x. x.in_use) s) ∙ u) in
          ap (λ x. probe max_chain_length m' x.key (hash_int n x.key)) s
          ∙ probe-store_ne max_chain_length m key k v (hash_int n k) i j hi
              (λ e. apart (
                some_inj
                  (sym p ∙ sym (ap (λ x. probe max_chain_length m x (hash_int n x)) e) ∙ at)))
              apart at
    ]

-- Where the probing of `hashmap_hash` ends at a slot in use, that of `hashmap_get` does too.
probe-find :
    (tries : ℕ) (m : HashMap) (key : List ℕ) (curr j : ℕ)
    → probe tries m key curr ≡ some j
    → (slot m j).in_use ≡ true
    → find tries m key curr ≡ some j
unfolding probe
probe-find zero m key curr j h u = absurd (none-some h)
probe-find (suc tries) m key curr j h u = elim (Bool-cases (slot m curr).in_use) [
  | inr w ↦
      let e = some_inj (sym (probe_free tries m key curr w) ∙ h) in
      absurd (false≢true (sym w ∙ ap (λ c. (slot m c).in_use) e ∙ u))
  | inl w ↦ elim (Bool-cases (same (slot m curr).key key)) [
    | inl k ↦
        find_match tries m key curr (rw (w, k) refl) ∙ sym (probe_match tries m key curr w k) ∙ h
    | inr k ↦
        find_pass tries m key curr (rw (w, k) refl)
        ∙ probe-find tries m key (following m curr) j (sym (probe_pass tries m key curr w k) ∙ h) u
  ]
]

module _ (m : HashMap) (placed : IsPlaced m) where
  -- `hashmap_get` gives the value of each entry.
  pub get-entry : (j : ℕ) → (slot m j).in_use ≡ true → get m (slot m j).key ≡ some (slot m j).value
  get-entry j u =
      let k = (slot m j).key in
      get-some m k j (probe-find max_chain_length m k (hash_int m.table_size k) j (placed j u) u)

-- What `hashmap_get` gives is the value of an entry.
pub entry-get :
    (m : HashMap) (key : List ℕ) (w : ℕ)
    → get m key ≡ some w
    → (j : ℕ) × ((slot m j).in_use ≡ true) × ((slot m j).key ≡ key)
entry-get m key w h =
    let start = hash_int m.table_size key in
    elim (Option-cases (find max_chain_length m key start)) [
      | inl n ↦ absurd (none-some (sym (get-none m key n) ∙ h))
      | inr (j, f) ↦
          let k = and_true (slot m j).in_use _ (find-holds max_chain_length m key start j f) in
          (j, k.0, same-eq (slot m j).key key k.1)
    ]

pub blank-get :
    (n size k : ℕ) (key : List ℕ)
    → get (record { table_size = n; size = size; table = replicate k blank }) key ≡ none
blank-get n size k key =
    let m : HashMap = record { table_size = n; size = size; table = replicate k blank } in
    elim (Option-cases (get m key)) [
      | inl e ↦ e
      | inr (w, e) ↦
          let (j, u, _) = entry-get m key w e in
          absurd (true≢false (sym u ∙ ap (λ e. e.in_use) (get_or-replicate k j blank)))
    ]
