-- ===== src/Ring/Tests.antt =====
-- Runs of the ring buffer at concrete inputs.
use clibrary.Base.{
  ℕ, ◌+◌, ◌-◌, ◌≤◌, ◌<◌, ◌≡◌, ◌⊎◌, ◌↔◌, inl, inr, refl, Bool, true, false, Option, none, some, List,
  [], ◌∷◌, ◌++◌, take, arith,
}
use mathlib.Core.Path.{subst}
use clibrary.Ring.{
  Ring, blocking, polling, is_empty, is_full, nb_full, nb_empty, Waited, returned, waiting,
  wait_for_empty, write, read, nb_empty,
}
use clibrary.Ring.Bounds.{IsValid, nb_full_lem}
use clibrary.Ring.Fifo.{contents}
use clibrary.Ring.Wait.{write_lem, read_lem}
use clibrary.Ring.Bulk.{write_bulk, read_bulk, too_few}
use clibrary.Ring.Bulk.Write.{write_bulk_lem}
use clibrary.Ring.Bulk.Read.{Fetched, read_bulk_lem}
use clibrary.Ring.Try.Queue.{put, get, stored, fetched, offer, poll, serve}
use clibrary.Ring.Try.Refine.{run, run_refines}

-- A full buffer of two values that goes round the end of its array, and one with one value.
abbrev full_ring : Ring
full_ring = record { start = 2; size = 3; mode = blocking; elements = 8 ∷ 9 ∷ 7 ∷ []; end = 1 }

abbrev one_ring : Ring
one_ring = record { start = 1; size = 3; mode = polling; elements = 8 ∷ 9 ∷ 7 ∷ []; end = 2 }

full_ring-IsValid : IsValid full_ring
full_ring-IsValid = record {
  slots = omega arith;
  fits = omega arith;
  storage = refl;
  start_in = omega arith;
  end_in = omega arith;
}

one_ring-IsValid : IsValid one_ring
one_ring-IsValid = record {
  slots = omega arith;
  fits = omega arith;
  storage = refl;
  start_in = omega arith;
  end_in = omega arith;
}

contents_run : contents full_ring ≡ 7 ∷ 8 ∷ []
unfolding contents nb_full
contents_run = refl

waiting_run : write [] full_ring 5 ≡ waiting
unfolding write wait_for_empty is_full
waiting_run = refl

write_lem_example :
    (w : Waited ℕ) × (write (1 ∷ []) full_ring 5 ≡ returned w)
    × IsValid w.ring
    × (w.ring.size ≡ full_ring.size)
    × (w.passed ++ contents w.ring ≡ contents full_ring ++ 5 ∷ [])
write_lem_example = write_lem (1 ∷ []) 5 full_ring-IsValid (inr (omega arith))

read_lem_example :
    (value : ℕ) × (w : Waited (List ℕ)) × (read [] full_ring ≡ returned (value, w))
    × IsValid w.ring
    × (w.ring.size ≡ full_ring.size)
    × (value ∷ contents w.ring ≡ contents full_ring ++ w.passed)
unfolding is_empty
read_lem_example = read_lem [] full_ring-IsValid (inl refl)

write_bulk_lem_example :
    (2 < 1)
      × (write_bulk (1 ∷ []) one_ring (3 ∷ 4 ∷ []) 2 1
          ≡ some (returned (too_few, record { ring = one_ring; passed = []; turns = 1 ∷ [] })))
    ⊎ (i : ℕ) × (w : Waited ℕ) × (write_bulk (1 ∷ []) one_ring (3 ∷ 4 ∷ []) 2 1
        ≡ some (returned (i, w)))
      × (1 ≤ i)
      × (i ≤ 2)
      × ((i ≡ 2) ⊎ (is_full w.ring ≡ true))
      × IsValid w.ring
      × (w.ring.size ≡ one_ring.size)
      × (w.passed ++ contents w.ring ≡ contents one_ring ++ take i (3 ∷ 4 ∷ []))
write_bulk_lem_example =
    write_bulk_lem (1 ∷ []) (3 ∷ 4 ∷ []) 2 1 one_ring-IsValid (omega arith) (omega arith)
      (omega arith)

read_bulk_lem_example :
    (2 < 1)
      × (read_bulk ((6 ∷ []) ∷ []) one_ring (0 ∷ 0 ∷ []) 2 1
          ≡ some (
              returned (
                (too_few, 0 ∷ 0 ∷ []),
                record { ring = one_ring; passed = []; turns = (6 ∷ []) ∷ [] },
              )))
    ⊎ (i : ℕ) × (values' : List ℕ) × (w : Waited (List ℕ)) × (read_bulk
          ((6 ∷ []) ∷ [])
          one_ring
          (0 ∷ 0 ∷ [])
          2
          1
        ≡ some (returned ((i, values'), w)))
      × (1 ≤ i)
      × Fetched [] (0 ∷ 0 ∷ []) 2 0 i one_ring values' w
read_bulk_lem_example =
    read_bulk_lem ((6 ∷ []) ∷ []) (0 ∷ 0 ∷ []) 2 1 one_ring-IsValid (omega arith) (omega arith)
      (omega arith)

run_refines_example :
    run one_ring (put 5 ∷ put 6 ∷ get ∷ get ∷ get ∷ [])
    ≡ returned
        (serve (one_ring.size - 1) (contents one_ring) (put 5 ∷ put 6 ∷ get ∷ get ∷ get ∷ []))
run_refines_example = run_refines (put 5 ∷ put 6 ∷ get ∷ get ∷ get ∷ []) one_ring-IsValid

serve_run :
    serve 2 (9 ∷ []) (put 5 ∷ put 6 ∷ get ∷ get ∷ get ∷ [])
    ≡ stored true ∷ stored false ∷ fetched (some 9) ∷ fetched (some 5) ∷ fetched none ∷ []
unfolding serve offer poll
serve_run = refl

-- The lock call finds the buffer with one value.
abbrev lock : Ring → Option Ring
lock rb = some one_ring

some_inj : {a b : Ring} → some a ≡ some b → a ≡ b
some_inj e = cc

lock-IsValid : (rb' : Ring) → lock one_ring ≡ some rb' → IsValid rb'
lock-IsValid rb' e = subst IsValid (some_inj e) one_ring-IsValid

nb_full_lem_example :
    (nb_full full_ring + nb_empty full_ring + 1 ≡ full_ring.size)
    × ((is_empty full_ring ≡ true) ↔ (nb_full full_ring ≡ 0))
    × ((is_full full_ring ≡ true) ↔ (nb_empty full_ring ≡ 0))
nb_full_lem_example = nb_full_lem full_ring-IsValid

abbrev four : ℕ
four = 4

abbrev always : ℕ → Bool
always n = true
