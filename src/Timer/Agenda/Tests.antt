-- ===== src/Timer/Agenda/Tests.antt =====
-- A session on a wheel of four spokes.
use clibrary.Base.{◌≡◌, some, List, [], ◌∷◌, arith}
use clibrary.Timer.{Timer, create}
use clibrary.Timer.Agenda.{Call, checking, adding, deleting, moving, play, Plays, IsAllowed}
use clibrary.Timer.Agenda.Refine.{play-agenda}

-- Events 1 and 2 are added at time 10 for 15 and 12, event 3 at 13 for 14; event 1 is moved to 16 and
-- event 3 is taken out.
abbrev calls : List Call
calls =
    checking 10
    ∷ adding 5 7 1 100
    ∷ adding 2 7 2 200
    ∷ checking 13
    ∷ adding 1 7 3 300
    ∷ moving 100 3
    ∷ deleting 300
    ∷ checking 16
    ∷ checking 17
    ∷ []

calls-IsAllowed : IsAllowed 10 4 0 0 calls
calls-IsAllowed = omega arith

play-agenda_example : (t : Timer) × (create 4 1 ≡ some t) × Plays 0 [] calls (play 10 calls 0 t)
play-agenda_example =
    play-agenda 10 4 0 calls (omega arith) (omega arith) (omega arith) (omega arith) calls-IsAllowed
