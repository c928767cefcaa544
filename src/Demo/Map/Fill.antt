-- ===== src/Demo/Map/Fill.antt =====
-- main.c: the first loop of `func_test_map`: each key of the map is that of a session, and points to
-- it.
use clibrary.Base.{
  ℕ, zero, suc, ◌+◌, ◌*◌, ◌^◌, ◌≤◌, ◌<◌, ◌≡◌, ◌≢◌, refl, sym, ap, ◌∙◌, inl, inr, Bool, false,
  Bool-cases, Option, some, List, [], ◌∷◌, All, drop, arith, ◌==◌,
}
use mathlib.Core.Path.{subst}
use mathlib.Core.Bool.{true≢false}
use clibrary.Hashmap.{HashMap, get, same}
use clibrary.Hashmap.Lookup.{same-eq, same_refl, some_inj, ==-eq}
use clibrary.Hashmap.Rehash.{Status, map_ok, map_omem, put}
use clibrary.Hashmap.Grow.{Leaves}
use clibrary.Hashmap.Total.{put-returns, more_slots}
use clibrary.Hashmap.Refine.{View, update, Refines, Results, put-Results}
use clibrary.Hashmap.Session.{Leaves-some}
use clibrary.Demo.Map.{ListLibrary, Heap, allocated, session, key_of, fill}

module _ (lib : ListLibrary) (decimal : ℕ → List ℕ) (malloc : ℕ → ℕ) where
  -- Every key that is there belongs to one of the first i sessions, and points to it.
  abbrev pub Own : ℕ → View → Type 0
  Own i f =
      (k : List ℕ) (w : ℕ)
      → f k ≡ some w
      → (j : ℕ) × (j < i) × (k ≡ key_of lib decimal malloc j) × (w ≡ malloc j)

  -- All of the first i are there.
  abbrev pub Full : ℕ → View → Type 0
  Full i f = (j : ℕ) → j < i → f (key_of lib decimal malloc j) ≡ some (malloc j)

  -- The sessions in memory.
  abbrev pub Live : ℕ → ℕ → Heap lib → Type 0
  Live from to h = (j : ℕ) → from ≤ j → j < to → h (malloc j) ≡ some (session lib j)

  -- What the loop leaves, from i sessions in a map for f up to n sessions.
  pub record Filled (i n : ℕ) (f : View) (out : Option (HashMap × Heap lib × List Status))
      : Type 0 where
    pub table : HashMap
    pub heap : Heap lib
    pub statuses : List Status
    pub view : View
    pub done : out ≡ some (table, heap, statuses)
    pub refines : Refines table view
    pub own : Own n view
    pub live : Live 0 n heap
    pub full : Full i f → All (λ s. s ≡ map_ok) statuses → Full n view

pub not_zero : (a : ℕ) → a ≢ 0 → a == 0 ≡ false
not_zero a h = ground arith

not_self : (a b : ℕ) → a == b ≡ false → a ≢ b
not_self a b h e = ground arith

module _ (lib : ListLibrary) (decimal : ℕ → List ℕ) (malloc : ℕ → ℕ)
    (digits : (a b : ℕ) → decimal a ≡ decimal b → a ≡ b)
    (inj : (a b : ℕ) → malloc a ≡ malloc b → a ≡ b) where
  pub key_of-eq : (a b : ℕ) → key_of lib decimal malloc a ≡ key_of lib decimal malloc b → a ≡ b
  key_of-eq a b h = digits a b (ap (drop 8) h)

  allocated-Live :
      (i : ℕ) (h : Heap lib)
      → Live lib decimal malloc 0 i h
      → Live lib decimal malloc 0 (i + 1) (allocated lib h (malloc i) (session lib i))
  allocated-Live i h live j ge lt = elim (Bool-cases (malloc j == malloc i)) [
    | inl e ↦ rw (e) (ap (λ n. some (session lib n)) (inj i j (sym (==-eq _ _ e))))
    | inr e ↦
        let apart : j ≢ i = λ k. absurd (not_self (malloc j) (malloc i) e (ap malloc k)) in
        rw (e) (live j ge (omega (arith, apart)))
  ]

  update-Own :
      (i : ℕ) (f : View)
      → Own lib decimal malloc i f
      → Own lib decimal malloc (i + 1) (update (key_of lib decimal malloc i) (malloc i) f)
  update-Own i f own k w h = elim (Bool-cases (same (key_of lib decimal malloc i) k)) [
    | inl e ↦ (i, omega arith, sym (same-eq _ _ e), sym (some_inj (rw e at h)))
    | inr e ↦ let (j, lt, a, b) = own k w (rw e at h) in (j, omega arith, a, b)
  ]

  update-Full :
      (i : ℕ) (f : View)
      → Full lib decimal malloc i f
      → Full lib decimal malloc (i + 1) (update (key_of lib decimal malloc i) (malloc i) f)
  update-Full i f full j lt =
      let ki = key_of lib decimal malloc i in
      let kj = key_of lib decimal malloc j in
      elim (Bool-cases (same ki kj)) [
        | inl e ↦ rw (e) (ap (λ n. some (malloc n)) (key_of-eq i j (same-eq ki kj e)))
        | inr e ↦
            let apart : j ≢ i = λ k.
              true≢false (
                sym (same_refl ki) ∙ ap (λ n. same ki (key_of lib decimal malloc n)) (sym k) ∙ e) in
            rw (e) (full j (omega (arith, apart)))
      ]

  -- What a put leaves of the sessions before it.
  put_view :
      (i : ℕ) (m' : HashMap) (f : View) (s : Status)
      → Own lib decimal malloc i f
      → Results (update (key_of lib decimal malloc i) (malloc i) f) f m' s
      → (f' : View) × Refines m' f'
        × Own lib decimal malloc (i + 1) f'
        × (Full lib decimal malloc i f → s ≡ map_ok → Full lib decimal malloc (i + 1) f')
  put_view i m' f map_ok own r = (_, r, update-Own i f own, λ full ok. update-Full i f full)
  put_view i m' f map_omem own r = (
    get m',
    (r.0, λ k. refl),
    λ k w e. let (j, lt, a, b) = own k w (r.1 k w e) in (j, omega arith, a, b),
    λ full ok. absurd (ground arith),
  )

  module _ (calloc : ℕ → Bool) (fuel limit : ℕ) (fails : (n : ℕ) → limit < n → calloc n ≡ false)
      (some_left : 0 < fuel) (given : (i : ℕ) → malloc i ≢ 0) where
    -- One turn of the loop.
    turn :
        (k i n : ℕ) (m m' : HashMap) (h : Heap lib) (f f' : View) (s : Status)
        → put calloc fuel m (key_of lib decimal malloc i) (malloc i) ≡ some (m', s)
        → (Full lib decimal malloc i f → s ≡ map_ok → Full lib decimal malloc (i + 1) f')
        → Filled lib decimal malloc (i + 1) n f' (
            fill lib decimal malloc calloc fuel k
              (i + 1)
              m'
              (allocated lib h (malloc i) (session lib i)))
        → Filled lib decimal malloc i n f (fill lib decimal malloc calloc fuel (suc k) i m h)
    unfolding fill
    turn k i n m m' h f f' s e tie rest =
        let there : (malloc i == 0) ≡ false = not_zero (malloc i) (given i) in
        record {
          table = rest.table;
          heap = rest.heap;
          statuses = s ∷ rest.statuses;
          view = rest.view;
          done = rw (there, e, fill, rest.done) refl;
          refines = rest.refines;
          own = rest.own;
          live = rest.live;
          full = λ all ok. rest.full (tie all ok.0) ok.1;
        }

    pub fill-Filled :
        (k i n : ℕ) (m : HashMap) (h : Heap lib) (f : View)
        → i + k ≡ n
        → Refines m f
        → Own lib decimal malloc i f
        → Live lib decimal malloc 0 i h
        → limit < m.table_size * 2 ^ fuel
        → Filled lib decimal malloc i n f (fill lib decimal malloc calloc fuel k i m h)
    unfolding fill
    fill-Filled zero i n m h f sum r own live lt =
        let same : i ≡ n = omega arith in
        record {
          table = m;
          heap = h;
          statuses = [];
          view = f;
          done = refl;
          refines = r;
          own = subst (λ x. Own lib decimal malloc x f) same own;
          live = λ j ge less. live j ge (omega arith);
          full = λ all ok j less. all j (omega arith);
        }
    fill-Filled (suc k) i n m h f sum r own live lt =
        let key = key_of lib decimal malloc i in
        let (m', s, e, _, grown) =
          put-returns calloc limit fails fuel m key (malloc i) r.0.0 some_left lt in
        let result : Results (update key (malloc i) f) f m' s = Leaves-some _ m' s (
          subst (Leaves (Results (update key (malloc i) f) f)) e
            (put-Results calloc fuel m f key (malloc i) r)) in
        let (f', r', own', tie) = put_view i m' f s own result in
        turn k i n m m' h f f' s e tie (
          fill-Filled k (i + 1) n m' _ f' (omega arith) r' own' (allocated-Live i h live)
            (more_slots limit m.table_size m'.table_size (2 ^ fuel) grown lt))
