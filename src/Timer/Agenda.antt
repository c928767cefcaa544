-- ===== src/Timer/Agenda.antt =====
-- timer.h: what a wheel timer is for its caller, an agenda of events with their times, without the
-- wheel. The calls of a session, and what they do on the agenda.
pub mod Bag
pub mod Parts
pub mod Checks
pub mod Stands
pub mod Refine
mod Tests
use mathlib.Core.List.{Mem, Perm, filter}
use native.Mathlib.Decide.{dec_lt, dec_le}
use clibrary.Base.{
  ℕ, suc, ◌+◌, ◌/◌, ◌^◌, ◌≤◌, ◌<◌, ◌≡◌, ◌≢◌, Option, none, some, List, [], ◌∷◌, ◌++◌, map,
  ulong_max,
}
use clibrary.Timer.{Elem, Timer, add}
use clibrary.Timer.Check.{check}
use clibrary.Timer.Edit.{del, reset}

-- An event of the agenda.
pub record Due : Type 0 where
  pub address : ℕ
  pub expire : ℕ
  pub callback : ℕ
  pub event : ℕ

-- What the agenda knows of an element.
abbrev pub due_of : Elem → Due
due_of e = record { address = e.address; expire = e.expire; callback = e.callback; event = e.event }

-- The agenda of a wheel, spoke after spoke.
abbrev pub agenda : List (List Elem) → List Due
agenda [] = []
agenda (es ∷ ess) = map due_of es ++ agenda ess

-- What has its time before now, and what has not.
abbrev pub expired : ℕ → List Due → List Due
expired now = filter (λ d. dec_lt d.expire now)

abbrev pub pending : ℕ → List Due → List Due
pending now = filter (λ d. dec_le now d.expire)

-- A call on a timer: a check at a time, or another call at the time of the check before it. An
-- `adding` has the address that `malloc` gives the element.
pub data Call : Type 0 where
  checking : ℕ → Call
  adding : (timeout callback event address : ℕ) → Call
  deleting : ℕ → Call
  moving : (index timeout : ℕ) → Call

-- What a session shows: the elements that a check fires, and the time that `zx_timer_del` returns.
pub data Shown : Type 0 where
  fires : List Elem → Shown
  removed : ℕ → Shown

abbrev pub before : Shown → Option (List Shown) → Option (List Shown)
before x none = none
before x (some xs) = some (x ∷ xs)

-- The session on a timer, none at a handle that is no element's.
unfoldable pub play : ℕ → List Call → ℕ → Timer → Option (List Shown)
play most [] now t = some []
play most (checking current ∷ cs) now t =
    let out = check t current most in before (fires out.fired) (play most cs current out.timer)
play most (adding timeout callback event address ∷ cs) now t =
    play most cs now (add t now timeout callback event address).0
play most (deleting index ∷ cs) now t = elim (del t index 0 0) [
  | none ↦ none
  | some r ↦ before (removed r.1) (play most cs now r.0)
]
play most (moving index timeout ∷ cs) now t = elim (reset t index now timeout) [
  | none ↦ none
  | some r ↦ play most cs now r.0
]

-- The session on an agenda: a check fires what has expired, in some order, and leaves the rest.
pub data Plays : ℕ → List Due → List Call → Option (List Shown) → Type 0 where
  ends : (now : ℕ) (ds : List Due) → Plays now ds [] (some [])
  checks :
      (now current : ℕ) (ds : List Due) {cs : List Call} {r : Option (List Shown)}
      (fired : List Elem)
      → Perm (map due_of fired) (expired current ds)
      → Plays current (pending current ds) cs r
      → Plays now ds (checking current ∷ cs) (before (fires fired) r)
  adds :
      (now timeout callback event address : ℕ) (ds : List Due) {cs : List Call}
      {r : Option (List Shown)}
      → Plays now
          (record { address = address; expire = now + timeout; callback = callback; event = event }
            ∷ ds)
          cs
          r
      → Plays now ds (adding timeout callback event address ∷ cs) r
  deletes :
      (now : ℕ) (d : Due) (ds ds' : List Due) {cs : List Call} {r : Option (List Shown)}
      → Perm ds (d ∷ ds')
      → Plays now ds' cs r
      → Plays now ds (deleting d.address ∷ cs) (before (removed d.expire) r)
  moves :
      (now : ℕ) (d : Due) (ds ds' : List Due) (timeout : ℕ) {cs : List Call}
      {r : Option (List Shown)}
      → Perm ds (d ∷ ds')
      → Plays now (record d { expire = now + timeout } ∷ ds') cs r
      → Plays now ds (moving d.address timeout ∷ cs) r
  strays :
      (now : ℕ) (ds : List Due) (index : ℕ) {cs : List Call}
      → ((d : Due) → Mem d ds → d.address ≢ index)
      → Plays now ds (deleting index ∷ cs) none
  strays_moving :
      (now : ℕ) (ds : List Due) (index timeout : ℕ) {cs : List Call}
      → ((d : Due) → Mem d ds → d.address ≢ index)
      → Plays now ds (moving index timeout ∷ cs) none

-- Sessions whose times do not go back, do not leave 2 ^ 31 ticks to one check (which counts them in
-- an int) and fit their words, on a wheel of that many spokes that
-- holds at most n elements, with room for all in the limit of callbacks.
abbrev pub IsAllowed : ℕ → ℕ → ℕ → ℕ → List Call → Type 0
IsAllowed most size now n [] = Unit {0}
IsAllowed most size now n (checking current ∷ cs) =
    (now ≤ current)
    × (current < now + 2 ^ 31)
    × (current < ulong_max)
    × IsAllowed most size current n cs
IsAllowed most size now n (adding timeout callback event address ∷ cs) =
    (now + timeout < 2 ^ 64)
    × (timeout / size < 2 ^ 31)
    × (n < most)
    × IsAllowed most size now (suc n) cs
IsAllowed most size now n (deleting index ∷ cs) = IsAllowed most size now n cs
IsAllowed most size now n (moving index timeout ∷ cs) =
    (now + timeout < 2 ^ 64) × (timeout / size < 2 ^ 31) × IsAllowed most size now n cs
