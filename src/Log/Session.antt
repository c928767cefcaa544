-- ===== src/Log/Session.antt =====
-- log.c: what a sequence of calls of `log_print` writes, where every `fopen` succeeds and neither
-- `log_file` nor `log_init` is called.
use clibrary.Base.{
  ℕ, ◌≡◌, ap, ◌⊎◌, Bool, false, Option, none, some, List, [], ◌∷◌, ◌++◌, map, All, ltb,
  if◌then◌else◌,
}
use mathlib.Core.List.{Mem}
use mathlib.Core.Logic.Or
use clibrary.Log.{Log, Time, Line, Event, opened, wrote, called, line_of, log_write, log_print}

pub record Request : Type 0 where
  pub level : ℕ
  pub time : Time
  pub text : List ℕ

-- The lines among the events.
abbrev pub lines : List Event → List Line
lines [] = []
lines (wrote f l ∷ es) = l ∷ lines es
lines (opened f ∷ es) = lines es
lines (called f n t ∷ es) = lines es

-- The lines that the level lets through.
abbrev pub admitted : ℕ → List Request → List Line
admitted log_level [] = []
admitted log_level (r ∷ rs) =
    let rest = admitted log_level rs in
    if ltb log_level r.level then rest else line_of r.level r.time r.text ∷ rest

-- The times of calls, and of those before them.
abbrev pub IsCall : List Time → List Request → Time → Type 0
IsCall past rs t = Mem t past ⊎ Mem t (map (λ r. r.time) rs)

module _ (fopen : List ℕ → Bool) (dated : Time → List ℕ) where
  unfoldable pub session : Log → List Request → Option (Log × List Event)
  session g [] = some (g, [])
  session g (r ∷ rs) = elim (log_print fopen dated g r.level r.time r.text) [
    | none ↦ none
    | some (g', es) ↦ elim (session g' rs) [ none ↦ none | some (last, fs) ↦ some (last, es ++ fs) ]
  ]

  -- A file is opened, and a line stands, under the date of one of some times; that of the line is on
  -- the same day of a month.
  abbrev pub IsInDay : (Time → Type 0) → Event → Type 0
  IsInDay P (wrote f l) = (t : Time) × P t × (f ≡ dated t) × (t.day ≡ l.time.day)
  IsInDay P (opened f) = (t : Time) × P t × (f ≡ dated t)
  IsInDay P (called f n t) = Unit {0}

  -- The file in use, if any, is that of one of these times, on the day in `day_value`.
  abbrev pub IsDated : (Time → Type 0) → Log → Type 0
  IsDated P g =
      (g.need_check ≡ false) ⊎ ((t : Time) × P t × (g.out_fp ≡ some (dated t)) × (t.day ≡ g.day))

  record Chosen (P : Time → Type 0) (g : Log) (tm : Time) (r : Log × List Event) : Type 0 where
    time : Time
    called_at : P time
    file : r.0.out_fp ≡ some (dated time)
    today : time.day ≡ tm.day
    current : r.0.day ≡ tm.day
    level : r.0.log_level ≡ g.log_level
    print : r.0.print ≡ g.print
    silent : lines r.1 ≡ []
    quiet : All (IsInDay P) r.1

  pub to_log_write :
      (g : Log) (r : Request)
      → g.print ≡ none
      → log_print fopen dated g r.level r.time r.text
        ≡ log_write fopen dated g r.level r.time r.text
  unfolding log_print
  to_log_write g r p =
      ap
        (λ o. elim o as (λ x. Option (Log × List Event)) [
          | none ↦ log_write fopen dated g r.level r.time r.text
          | some f ↦ some (g, called f r.level r.text ∷ [])
        ])
        p
