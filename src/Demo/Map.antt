-- ===== src/Demo/Map.antt =====
-- main.c: `func_test_map`, the program that `main` runs: it puts sessions into a hash map and prints
-- what it finds there. malloc, the digits that sprintf makes and the list library are parameters.
pub mod Fill
pub mod Show
use clibrary.Base.{
  ℕ, zero, suc, ◌+◌, ◌≡◌, Bool, Option, none, some, List, [], ◌∷◌, ◌++◌, map, ◌==◌, if◌then◌else◌,
}
use clibrary.Hashmap.{HashMap, get, new_map}
use clibrary.Hashmap.Rehash.{Status, put}
use clibrary.Demo.{Line, got_value, list_value}

-- list.h, as the program uses it: a list of texts, and its values from the head on.
pub record ListLibrary : Type 1 where
  pub Chain : Type 0
  pub list_new : Chain
  pub list_rpush : Chain → List ℕ → Chain
  pub values : Chain → List (List ℕ)
  pub new_lem : values list_new ≡ []
  pub rpush_lem : (l : Chain) (text : List ℕ) → values (list_rpush l text) ≡ values l ++ text ∷ []

-- `map_init`, and the same two lines of `func_test_map`: whether malloc and calloc succeed, twice.
abbrev map_init : Bool → Bool → Bool → Bool → Option HashMap × Option HashMap
map_init a b c d = (new_map a b, new_map c d)

module _ (lib : ListLibrary) where
  -- `SESSMAP`
  pub record Session : Type 0 where
    pub list : lib.Chain
    pub len : ℕ

  -- The sessions in memory, by their address.
  abbrev pub Heap : Type 0
  Heap = ℕ → Option Session

  abbrev pub allocated : Heap → ℕ → Session → Heap
  allocated h p s q = if q == p then some s else h q

  abbrev pub freed : Heap → ℕ → Heap
  freed h p q = if q == p then none else h q

  -- The session of a number, with the list a, b, c.
  abbrev pub session : ℕ → Session
  session i = record {
    list =
        lib.list_rpush (lib.list_rpush (lib.list_rpush lib.list_new (0x61 ∷ [])) (0x62 ∷ []))
          (0x63 ∷ []);
    len = i;
  }

  module _ (decimal : ℕ → List ℕ) (malloc : ℕ → ℕ) where
    -- "session_%d"
    abbrev pub key_of : ℕ → List ℕ
    key_of i = (0x73 ∷ 0x65 ∷ 0x73 ∷ 0x73 ∷ 0x69 ∷ 0x6f ∷ 0x6e ∷ 0x5f ∷ []) ++ decimal i

    -- The first loop: so many sessions from a number on. `none` is an access through NULL, or a put
    -- without an end; the statuses are what `hashmap_put` returns, which the program does not read.
    unfoldable pub fill :
        (ℕ → Bool) → ℕ → ℕ → ℕ → HashMap → Heap → Option (HashMap × Heap × List Status)
    fill calloc fuel zero i m h = some (m, h, [])
    fill calloc fuel (suc k) i m h =
        if malloc i == 0 then none else elim (put calloc fuel m (key_of i) (malloc i)) [
          | none ↦ none
          | some r ↦ elim (fill calloc fuel k (i + 1) r.0 (allocated h (malloc i) (session i))) [
            | none ↦ none
            | some out ↦ some (out.0, out.1, r.1 ∷ out.2)
          ]
        ]

    -- The second loop: it prints each session that it finds, and frees it. `none` is a read of memory
    -- that is no session.
    unfoldable pub show : ℕ → ℕ → HashMap → Heap → Option (List Line)
    show zero i m h = some []
    show (suc k) i m h = elim (get m (key_of i)) [
      | none ↦ show k (i + 1) m h
      | some p ↦ if p == 0 then show k (i + 1) m h else elim (h p) [
        | none ↦ none
        | some s ↦ elim (show k (i + 1) m (freed h p)) [
          | none ↦ none
          | some lines ↦ some ((got_value s.len ∷ map list_value (lib.values s.list)) ++ lines)
        ]
      ]
    ]

    -- `func_test_map`, with its number of sessions (100000) as an argument; the map is none where
    -- `hashmap_new` fails.
    unfoldable pub func_test_map :
        (ℕ → Bool) → ℕ → ℕ → Option HashMap → Option (List Status × List Line)
    func_test_map calloc fuel count none = none
    func_test_map calloc fuel count (some m) = elim (fill calloc fuel count 0 m (λ p. none)) [
      | none ↦ none
      | some out ↦ elim (show count 0 out.0 out.1) [
        | none ↦ none
        | some lines ↦ some (out.2, lines)
      ]
    ]

    -- `main`, which waits for the thread that runs `test`, which runs `func_test_map`.
    abbrev main :
        (ℕ → Bool) → ℕ → Option HashMap × Option HashMap → Option (List Status × List Line)
    main calloc fuel maps = func_test_map calloc fuel 100000 maps.0
