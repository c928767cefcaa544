-- ===== src/Demo/Tests.antt =====
-- Runs of the demonstration programs.
use clibrary.Base.{
  ℕ, zero, suc, ◌+◌, ◌*◌, ◌%◌, ◌^◌, ◌≡◌, ◌≢◌, ◌<◌, ◌++◌, refl, Bool, true, false, some, List, [],
  ◌∷◌, All, ap, drop, leb, add64, ulong_max, arith,
}
use clibrary.Hashmap.{new_map}
use clibrary.Hashmap.Rehash.{Status, map_ok}
use clibrary.Timer.{Timer, create}
use clibrary.Timer.Agenda.{Shown, Plays}
use clibrary.Demo.{Line, timed_out, call_back}
use clibrary.Demo.Map.{ListLibrary, func_test_map}
use clibrary.Demo.Map.Show.{Shows, all_lines, func_test_map_lem}
use clibrary.Demo.Queue.{unit_test_for_queue, failures, unit_test_for_queue_lem}
use clibrary.Demo.Wheel.{wheel_test}
use clibrary.Demo.Wheel.Runs.{test_calls, report, wheel_test-Plays}

-- A list library on lists of texts.
abbrev lists : ListLibrary
lists = record {
  Chain = List (List ℕ);
  list_new = [];
  list_rpush = λ l text. l ++ text ∷ [];
  values = λ l. l;
  new_lem = refl;
  rpush_lem = λ l text. refl;
}

-- A number in unary digits.
unary : ℕ → List ℕ
unary zero = []
unary (suc n) = 0x31 ∷ unary n

unary-eq : (a b : ℕ) → unary a ≡ unary b → a ≡ b
unfolding unary
unary-eq zero zero h = refl
unary-eq zero (suc b) h = absurd (ground arith)
unary-eq (suc a) zero h = absurd (ground arith)
unary-eq (suc a) (suc b) h = ap suc (unary-eq a b (ap (drop 1) h))

abbrev addresses : ℕ → ℕ
addresses i = 4096 + i

addresses-eq : (a b : ℕ) → addresses a ≡ addresses b → a ≡ b
addresses-eq a b h = omega arith

addresses-ne : (i : ℕ) → addresses i ≢ 0
addresses-ne i h = omega arith

-- An allocator with room for at most 100000 slots: two doublings of a new table.
abbrev ample : ℕ → Bool
ample n = leb n 100000

ample-fails : (n : ℕ) → 100000 < n → ample n ≡ false
ample-fails n h = ground arith

func_test_map_lem_example :
    (statuses : List Status) × (lines : List Line) × (func_test_map lists unary addresses ample 2 3
        (new_map true true)
      ≡ some (statuses, lines))
    × Shows 0 3 lines
    × (All (λ s. s ≡ map_ok) statuses → lines ≡ all_lines 0 3)
func_test_map_lem_example =
    func_test_map_lem lists unary addresses unary-eq addresses-eq addresses-ne ample 2 100000 3
      ample-fails (omega arith) (omega arith)

-- A clock that goes on by a microsecond with each reading.
abbrev clock : ℕ → ℕ
clock n = (1000 + n) % 2 ^ 62

clock-ne_second : (n : ℕ) → add64 (clock n) 1000000 ≢ ulong_max
clock-ne_second n h = omega arith

unit_test_for_queue_lem_example :
    unit_test_for_queue clock addresses 100 7 3 ≡ some (failures 0 5000)
unit_test_for_queue_lem_example = unit_test_for_queue_lem clock addresses 100 7 clock-ne_second 3

-- The numbers that `rand` gives.
abbrev rand : ℕ → ℕ
rand j = 7 + 3 * j

wheel_test-Plays_example :
    (t : Timer) × (shown : List Shown) × (create 6 1 ≡ some t)
    × (wheel_test clock rand addresses 100 7 ≡ some (report clock rand addresses 100 7 0 0 shown))
    × Plays 0 [] (test_calls clock rand addresses 100 7 20 0) (some shown)
wheel_test-Plays_example = wheel_test-Plays clock rand addresses 100 7

-- The second event of an array at 100 fires.
call_back_run :
    call_back clock 100 0 (
      record { address = 1; expire = 0; rotation_cnt = 0; cursor = 0; callback = 7; event = 104 }
      ∷ [])
    ≡ timed_out 1 1 ∷ []
unfolding call_back
call_back_run = refl
