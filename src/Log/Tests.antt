-- ===== src/Log/Tests.antt =====
-- Runs of the log at concrete inputs.
use clibrary.Base.{ℕ, ◌≡◌, refl, ◌⊎◌, Bool, true, false, Option, none, some, List, [], ◌∷◌, ◌==◌}
use clibrary.Log.{Log, Time, Event, opened, wrote, start, log_file, log_print, line_of}
use clibrary.Log.Session.{Request, session}
use clibrary.Log.Redirect.{first, first_write}

abbrev evening : Time
evening = record { year = 2019; month = 7; day = 3; hour = 23; minute = 59; second = 58 }

abbrev morning : Time
morning = record { year = 2019; month = 7; day = 4; hour = 0; minute = 0; second = 1 }

abbrev always : List ℕ → Bool
always f = true

abbrev never : List ℕ → Bool
never f = false

abbrev by_day : Time → List ℕ
by_day t = t.month ∷ t.day ∷ []

abbrev noted : Request
noted = record { level = 2; time = evening; text = 104 ∷ [] }

abbrev dropped : Request
dropped = record { level = 5; time = evening; text = 105 ∷ [] }

abbrev next_day : Request
next_day = record { level = 4; time = morning; text = 106 ∷ [] }

abbrev requests : List Request
requests = noted ∷ dropped ∷ next_day ∷ []

abbrev events_of : Option (Log × List Event) → Option (List Event)
events_of none = none
events_of (some (g, es)) = some es

-- The file changes with the day, and the message of a higher level is dropped.
two_days :
    events_of (session always by_day start requests)
    ≡ some (
        opened (7 ∷ 3 ∷ [])
        ∷ wrote (7 ∷ 3 ∷ []) (line_of 2 evening (104 ∷ []))
        ∷ opened (7 ∷ 4 ∷ [])
        ∷ wrote (7 ∷ 4 ∷ []) (line_of 4 morning (106 ∷ []))
        ∷ [])
unfolding session log_print log_file
two_days = refl

-- A message with a file that cannot be opened.
no_stream : log_print never by_day start 2 evening (104 ∷ []) ≡ none
unfolding log_print log_file
no_stream = refl

-- `log_file` has been called with the name 9, and only that file can be opened.
abbrev only_nine : List ℕ → Bool
only_nine f = elim f [ [] ↦ false | n ∷ _ ↦ n == 9 ]

first_write_example :
    let line = line_of 2 evening (104 ∷ []) in
    let print = first only_nine by_day 4 (9 ∷ []) noted in
    (only_nine (by_day evening) ≡ true)
      × ((last : Log) × (last.out_fp ≡ some (by_day evening))
          × (print ≡ some (last, opened (by_day evening) ∷ wrote (by_day evening) line ∷ [])))
    ⊎ (only_nine (by_day evening) ≡ false)
      × (only_nine (9 ∷ []) ≡ true)
      × ((last : Log) × (last.out_fp ≡ some (9 ∷ []))
          × (print ≡ some (last, wrote (9 ∷ []) line ∷ [])))
    ⊎ (only_nine (by_day evening) ≡ false) × (only_nine (9 ∷ []) ≡ false) × (print ≡ none)
first_write_example = first_write only_nine by_day 4 (9 ∷ []) noted refl
