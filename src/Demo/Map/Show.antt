-- ===== src/Demo/Map/Show.antt =====
-- main.c: the second loop of `func_test_map`, and the whole program.
use clibrary.Base.{
  ℕ, zero, suc, ◌+◌, ◌*◌, ◌^◌, ◌<◌, ◌≡◌, ◌≢◌, refl, sym, ap, ◌∙◌, inl, inr, Bool, true, false,
  Bool-cases, Option, none, some, Option-cases, List, [], ◌∷◌, ◌++◌, All, map, arith, ◌==◌,
}
use clibrary.Hashmap.{HashMap, get, new_map, initial_size}
use clibrary.Hashmap.Lookup.{none-some, ==-eq}
use clibrary.Hashmap.Rehash.{Status, map_ok}
use clibrary.Hashmap.Refine.{View, nothing, blank-Refines}
use clibrary.Demo.{Line, got_value, list_value}
use clibrary.Demo.Map.{ListLibrary, Session, Heap, freed, session, key_of, show, func_test_map}
use clibrary.Demo.Map.Fill.{Own, Full, Live, key_of-eq, not_zero, fill-Filled}

-- What the program prints for a session that it finds.
abbrev lines_of : ℕ → List Line
lines_of i =
    got_value i ∷ list_value (0x61 ∷ []) ∷ list_value (0x62 ∷ []) ∷ list_value (0x63 ∷ []) ∷ []

abbrev pub all_lines : ℕ → ℕ → List Line
all_lines i zero = []
all_lines i (suc k) = lines_of i ++ all_lines (i + 1) k

-- The lines of so many sessions from a number on, some of which may be missing.
pub data Shows : ℕ → ℕ → List Line → Type 0 where
  nothing_left : (i : ℕ) → Shows i zero []
  present : (i k : ℕ) (ls : List Line) → Shows (i + 1) k ls → Shows i (suc k) (lines_of i ++ ls)
  missing : (i k : ℕ) (ls : List Line) → Shows (i + 1) k ls → Shows i (suc k) ls

values-session :
    (lib : ListLibrary) (i : ℕ)
    → lib.values (session lib i).list ≡ (0x61 ∷ []) ∷ (0x62 ∷ []) ∷ (0x63 ∷ []) ∷ []
values-session lib i =
    lib.rpush_lem _ _
    ∙ ap (λ l. l ++ (0x63 ∷ []) ∷ [])
        (lib.rpush_lem _ _
          ∙ ap (λ l. l ++ (0x62 ∷ []) ∷ [])
              (lib.rpush_lem _ _ ∙ ap (λ l. l ++ (0x61 ∷ []) ∷ []) lib.new_lem))

module _ (lib : ListLibrary) (decimal : ℕ → List ℕ) (malloc : ℕ → ℕ)
    (digits : (a b : ℕ) → decimal a ≡ decimal b → a ≡ b)
    (inj : (a b : ℕ) → malloc a ≡ malloc b → a ≡ b) (given : (i : ℕ) → malloc i ≢ 0) where
  -- What the loop prints.
  record Shown (i k n : ℕ) (f : View) (out : Option (List Line)) : Type 0 where
    lines : List Line
    done : out ≡ some lines
    shows : Shows i k lines
    full : Full lib decimal malloc n f → lines ≡ all_lines i k

  freed-Live :
      (i n : ℕ) (h : Heap lib)
      → Live lib decimal malloc i n h
      → Live lib decimal malloc (i + 1) n (freed lib h (malloc i))
  freed-Live i n h live j ge lt = elim (Bool-cases (malloc j == malloc i)) [
    | inl e ↦ let same = inj j i (==-eq _ _ e) in absurd (omega arith)
    | inr e ↦ rw (e) (live j (omega arith) lt)
  ]

  -- The value of a session's key is its address.
  Own-address :
      (n i p : ℕ) (f : View)
      → Own lib decimal malloc n f
      → f (key_of lib decimal malloc i) ≡ some p
      → p ≡ malloc i
  Own-address n i p f own e =
      let (j, lt, k, w) = own _ p e in
      w ∙ ap malloc (sym (key_of-eq lib decimal malloc digits inj i j k))

  show_found :
      (k i : ℕ) (m : HashMap) (h : Heap lib) (p : ℕ) (s : Session lib) (lines : List Line)
      → get m (key_of lib decimal malloc i) ≡ some p
      → p == 0 ≡ false
      → h p ≡ some s
      → show lib decimal malloc k (i + 1) m (freed lib h p) ≡ some lines
      → show lib decimal malloc (suc k) i m h
        ≡ some ((got_value s.len ∷ map list_value (lib.values s.list)) ++ lines)
  unfolding show
  show_found k i m h p s lines e there here rest = rw (e, show, there, here, rest) refl

  show-Shown :
      (k i n : ℕ) (m : HashMap) (h : Heap lib) (f : View)
      → i + k ≡ n
      → ((key : List ℕ) → get m key ≡ f key)
      → Own lib decimal malloc n f
      → Live lib decimal malloc i n h
      → Shown i k n f (show lib decimal malloc k i m h)
  unfolding show
  show-Shown zero i n m h f sum reads own live = record {
    lines = [];
    done = refl;
    shows = nothing_left i;
    full = λ all. refl;
  }
  show-Shown (suc k) i n m h f sum reads own live =
      let key = key_of lib decimal malloc i in
      elim (Option-cases (get m key)) [
        | inl e ↦
            let rest =
              show-Shown k (i + 1) n m h f (omega arith) reads own
                (λ j ge lt. live j (omega arith) lt) in
            record {
              lines = rest.lines;
              done = rw (e, show) rest.done;
              shows = missing i k rest.lines rest.shows;
              full = λ all. absurd (none-some (sym e ∙ reads key ∙ all i (omega arith)));
            }
        | inr (p, e) ↦
            let rest =
              show-Shown k (i + 1) n m (freed lib h (malloc i)) f (omega arith) reads own
                (freed-Live i n h live) in
            let at = Own-address n i p f own (sym (reads key) ∙ e) in
            let there = not_zero (malloc i) (given i) in
            let here = live i (omega arith) (omega arith) in
            record {
              lines = lines_of i ++ rest.lines;
              done =
                  show_found k i m h (malloc i) (session lib i) rest.lines (e ∙ ap some at) there
                    here rest.done
                  ∙ ap (λ vs. some ((got_value i ∷ map list_value vs) ++ rest.lines))
                      (values-session lib i);
              shows = present i k rest.lines rest.shows;
              full = λ all. ap (λ ls. lines_of i ++ ls) (rest.full all);
            }
      ]

  -- `func_test_map` with any number of sessions, where sprintf writes different numbers in different
  -- digits, malloc gives each session memory of its own, every allocation of more than `limit` slots
  -- fails and the fuel is enough to double the first 25600 slots beyond it: the program comes to its
  -- end without a read of memory that is no session. For each number in turn it prints the session of
  -- that number, with its list a, b, c, or nothing, and nothing only if some `hashmap_put` has not
  -- returned MAP_OK.
  pub func_test_map_lem :
      (calloc : ℕ → Bool) (fuel limit count : ℕ)
      → ((n : ℕ) → limit < n → calloc n ≡ false)
      → 0 < fuel
      → limit < initial_size * 2 ^ fuel
      → (statuses : List Status) × (lines : List Line) × (func_test_map lib decimal malloc calloc
            fuel count
            (new_map true true)
          ≡ some (statuses, lines))
        × Shows 0 count lines
        × (All (λ s. s ≡ map_ok) statuses → lines ≡ all_lines 0 count)
  unfolding func_test_map new_map
  func_test_map_lem calloc fuel limit count fails some_left lt =
      let filled =
        fill-Filled lib decimal malloc digits inj calloc fuel limit fails some_left given count 0
          count _ (λ p. none) nothing (omega arith) (blank-Refines initial_size (omega arith))
          (λ k w e. absurd (none-some e)) (λ j ge less. absurd (omega arith)) lt in
      let shown =
        show-Shown count 0 count filled.table filled.heap filled.view (omega arith) filled.refines.1
          filled.own filled.live in
      (
        filled.statuses,
        shown.lines,
        rw (filled.done, func_test_map, shown.done) refl,
        shown.shows,
        λ ok. shown.full (filled.full (λ j less. absurd (omega arith)) ok),
      )
