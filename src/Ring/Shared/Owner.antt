-- ===== src/Ring/Shared/Owner.antt =====
-- ring_buffer.c: the spin lock of a side, for any number of callers.
use clibrary.Base.{
  ℕ, ◌≡◌, ◌≢◌, refl, ap, sym, ◌∙◌, inl, inr, Bool, true, false, ◌&&◌, Option, none, some,
  Bool-cases, ◌==◌, arith,
}
use mathlib.Core.Bool.{false≢true, true≢false}
use clibrary.Ring.Threads.{Pc, idle}
use clibrary.Ring.Shared.{
  Place, outside, spinning, locked, inside, unlocking, Side, put, Turn, takes, returns, gives,
}

-- Between `LOCK` and `UNLOCK`.
abbrev pub holds : {A B : Type 0} → Place A B → Bool
holds outside = false
holds (spinning a) = false
holds (locked a) = true
holds inside = true
holds (unlocking b) = true

abbrev pub is_inside : {A B : Type 0} → Place A B → Bool
is_inside inside = true
is_inside p = false

abbrev pub is_owner : Option ℕ → ℕ → Bool
is_owner none i = false
is_owner (some k) i = i == k

-- The caller that the lock names is the one behind `LOCK`, and while no caller is in a call on the
-- buffer, that call is idle.
pub record Owned {A B : Type 0} (pc : Pc) (side : Side A B) : Type 0 where
  pub owner : (i : ℕ) → holds (side.place i) ≡ is_owner side.lock i
  pub rest : ((i : ℕ) → is_inside (side.place i) ≡ false) → pc ≡ idle

owner-eq : (l : Option ℕ) (i j : ℕ) → is_owner l i ≡ true → is_owner l j ≡ true → i ≡ j
owner-eq none i j h k = absurd (false≢true h)
owner-eq (some l) i j h k = ground arith

not_owner : (l : Option ℕ) (i j : ℕ) → is_owner l i ≡ true → j ≢ i → false ≡ is_owner l j
not_owner none i j h ne = refl
not_owner (some l) i j h ne = ground arith

inside-holds : {A B : Type 0} (p : Place A B) → is_inside p ≡ true → holds p ≡ true
inside-holds inside h = refl
inside-holds p h = absurd (false≢true h)

module _ {A B : Type 0} (side : Side A B) (i : ℕ) (p : Place A B) where
  put_self : (put i p side).place i ≡ p
  put_self = let e : i == i ≡ true = ground arith in rw (e) refl

  put-ne : (j : ℕ) → j ≢ i → (put i p side).place j ≡ side.place j
  put-ne j h = let e : j == i ≡ false = ground arith in rw (e) refl

  put-owner :
      (l : Option ℕ)
      → ((j : ℕ) → holds (side.place j) ≡ is_owner side.lock j)
      → holds p ≡ is_owner l i
      → ((j : ℕ) → j ≢ i → is_owner l j ≡ is_owner side.lock j)
      → (j : ℕ) → holds ((put i p side).place j) ≡ is_owner l j
  put-owner l o h others j = elim (Bool-cases (j == i)) [
    | inl e ↦
        let k : j ≡ i = ground arith in
        ap (λ x. holds ((put i p side).place x)) k ∙ ap holds put_self ∙ h ∙ ap (is_owner l) (sym k)
    | inr e ↦ let k : j ≢ i = λ x. ground arith in ap holds (put-ne j k) ∙ o j ∙ sym (others j k)
  ]

module _ {A B : Type 0} {side : Side A B} where
  -- Two callers are not both behind `LOCK`.
  pub Owned-alone :
      (pc : Pc) (i j : ℕ)
      → Owned pc side
      → i ≢ j
      → holds (side.place i) && holds (side.place j) ≡ false
  Owned-alone pc i j o ne = elim (Bool-cases (holds (side.place i))) [
    | inr h ↦ rw (h) refl
    | inl h ↦ elim (Bool-cases (holds (side.place j))) [
      | inr k ↦ rw (h, k) refl
      | inl k ↦ absurd (ne (owner-eq side.lock i j (sym (o.owner i) ∙ h) (sym (o.owner j) ∙ k)))
    ]
  ]

  -- A caller behind `LOCK` and not in its call: the call is idle.
  pub Owned-idle :
      (pc : Pc) (i : ℕ)
      → Owned pc side
      → holds (side.place i) ≡ true
      → is_inside (side.place i) ≡ false
      → pc ≡ idle
  Owned-idle pc i o h n = o.rest (λ j. elim (Bool-cases (is_inside (side.place j))) [
    | inr k ↦ k
    | inl k ↦
        let e =
          owner-eq side.lock j i (sym (o.owner j) ∙ inside-holds (side.place j) k)
            (sym (o.owner i) ∙ h) in
        ap (λ l. is_inside (side.place l)) e ∙ n
  ])

  -- A caller's new place, with the lock that goes with it.
  put-Owned :
      (pc : Pc) (i : ℕ) (p : Place A B) (l : Option ℕ)
      → Owned pc side
      → holds p ≡ is_owner l i
      → ((j : ℕ) → j ≢ i → is_owner l j ≡ is_owner side.lock j)
      → (is_inside (side.place i) ≡ true → pc ≡ idle)
      → Owned pc (record (put i p side) { lock = l })
  put-Owned pc i p l o h others leaves = record {
    owner = put-owner side i p l o.owner h others;
    rest = λ k. elim (Bool-cases (is_inside (side.place i))) [
      | inl e ↦ leaves e
      | inr n ↦ o.rest (λ j. elim (Bool-cases (j == i)) [
        | inl e ↦ let x : j ≡ i = ground arith in ap (λ y. is_inside (side.place y)) x ∙ n
        | inr e ↦
            let x : j ≢ i = λ y. ground arith in ap is_inside (sym (put-ne side i p j x)) ∙ k j
      ])
    ];
  }

  -- A place that holds the lock as the old one did.
  pub same-Owned :
      (pc : Pc) (i : ℕ) (p : Place A B)
      → Owned pc side
      → holds p ≡ holds (side.place i)
      → (is_inside (side.place i) ≡ true → pc ≡ idle)
      → Owned pc (put i p side)
  same-Owned pc i p o h = put-Owned pc i p side.lock o (h ∙ o.owner i) (λ j k. refl)

  -- `LOCK`, the return of the call on the buffer and `UNLOCK`.
  pub Turn-Owned :
      {pc : Pc} {result : B} {side' : Side A B}
      → Owned pc side
      → Turn pc result side side'
      → Owned pc side'
  Turn-Owned {pc} {result} o (takes i a e free) =
      put-Owned pc i (locked a) (some i) o (ground arith) (λ j h. rw (free) (ground arith))
        (λ h. absurd (false≢true (rw e at h)))
  Turn-Owned {pc} {result} o (returns i e r) =
      same-Owned pc i (unlocking result) o (sym (ap holds e)) (λ h. r)
  Turn-Owned {pc} {result} o (gives i b e) =
      put-Owned pc i outside none o refl
        (λ j h. not_owner side.lock i j (sym (o.owner i) ∙ ap holds e) h)
        (λ h. absurd (false≢true (rw e at h)))

  -- The start of the call on the buffer, and what goes on in it.
  pub begins-Owned :
      (pc pc' : Pc) (i : ℕ)
      → Owned pc side
      → holds (side.place i) ≡ true
      → Owned pc' (put i inside side)
  begins-Owned pc pc' i o h = record {
    owner = put-owner side i inside side.lock o.owner (sym h ∙ o.owner i) (λ j k. refl);
    rest = λ k. absurd (true≢false (sym (ap is_inside (put_self side i inside)) ∙ k i));
  }

  pub goes_on :
      (pc pc' : Pc) (i : ℕ) → Owned pc side → is_inside (side.place i) ≡ true → Owned pc' side
  goes_on pc pc' i o h = record { owner = o.owner; rest = λ k. absurd (true≢false (sym h ∙ k i)) }
