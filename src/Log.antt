-- ===== src/Log.antt =====
-- log.c and log.h: the level filter, the choice of the file and its change with the day. A level is
-- its number in `log_level_e`. What the C library does comes from outside: whether `fopen` gives a
-- stream, the file name that `snprintf` makes of a date, and the text that `vsnprintf` makes of a
-- message. Calls of the library are a trace of events.
pub mod Session
pub mod Redirect
mod Tests
use Prim.Native.String.{String}
use clibrary.Base.{
  ℕ, suc, ◌+◌, Bool, true, false, not, ◌||◌, Option, none, some, List, [], ◌∷◌, ◌++◌, take, ltb,
  ◌==◌, if◌then◌else◌,
}

-- The fields of `struct tm` that are used, with the year and the month as they are printed.
pub record Time : Type 0 where
  pub year : ℕ
  pub month : ℕ
  pub day : ℕ
  pub hour : ℕ
  pub minute : ℕ
  pub second : ℕ

-- A line of the log: its time, the name of its level, its text.
pub record Line : Type 0 where
  pub time : Time
  pub level_text : String
  pub content : List ℕ

-- What reaches the outside: `fopen` with the mode "w", a line in a file, and a call of the function
-- that was given to `log_init`.
pub data Event : Type 0 where
  opened : List ℕ → Event
  wrote : List ℕ → Line → Event
  called : ℕ → ℕ → List ℕ → Event

-- The static variables. `out_fp` is the file behind `g_out_fp`, none being NULL; `print` is none
-- while `g_print` is `log_write`.
pub record Log : Type 0 where
  pub log_level : ℕ
  pub out_fp : Option (List ℕ)
  pub month : ℕ
  pub day : ℕ
  pub need_check : Bool
  pub print : Option ℕ

abbrev log_level_info : ℕ
log_level_info = 4

-- The variables when the program starts.
abbrev pub start : Log
start = record {
  log_level = log_level_info;
  out_fp = none;
  month = 0;
  day = 0;
  need_check = false;
  print = none;
}

abbrev level_text : ℕ → String
level_text level =
    if level == 1
    then "LOG"
    else if level == 2
    then "ERROR"
    else if level == 3
    then "WARNING"
    else if level == 4
    then "INFO"
    else if level == 5
    then "DEBUG"
    else "NONE"

-- `log_init`; a NULL function changes nothing.
unfoldable log_init : Log → Option ℕ → Log
log_init g none = g
log_init g (some f) = record g { print = some f }

unfoldable log_setlevel : Log → ℕ → Log
log_setlevel g level = record g { log_level = level }

-- `log_file`. A stream that was open is not closed.
unfoldable pub log_file : (List ℕ → Bool) → Log → List ℕ → Log × List Event
log_file fopen g file =
    if fopen file then (record g { out_fp = some file }, opened file ∷ []) else (g, [])

-- `vsnprintf` has room for 1022 bytes and the 0 at the end.
abbrev pub line_of : ℕ → Time → List ℕ → Line
line_of level tm text = record {
  time = tm;
  level_text = level_text level;
  content = take 1022 text;
}

module _ (fopen : List ℕ → Bool) (dated : Time → List ℕ) where
  -- The start of a day's file in `log_write`.
  abbrev pub day_file : Log → Time → Log × List Event
  day_file g tm =
      let r = log_file fopen g (dated tm) in
      (record r.0 { month = tm.month; day = tm.day; need_check = true }, r.1)

  -- `if(!need_check || NULL == g_out_fp)` and its `else`.
  unfoldable pub choose_file : Log → Time → Log × List Event
  choose_file g tm =
      if not g.need_check || (elim g.out_fp [ none ↦ true | some f ↦ false ])
      then day_file g tm
      else if not (tm.day == g.day)
      then day_file g tm
      else (g, [])

  -- `log_write` for a text; none is the `fprintf` to a NULL stream.
  unfoldable pub log_write : Log → ℕ → Time → List ℕ → Option (Log × List Event)
  unfolding choose_file
  log_write g level tm text =
      if ltb g.log_level level
      then some (g, [])
      else let r = choose_file g tm in
        elim r.0.out_fp [
          | none ↦ none
          | some f ↦ some (r.0, r.1 ++ wrote f (line_of level tm text) ∷ [])
        ]

  unfoldable pub log_print : Log → ℕ → Time → List ℕ → Option (Log × List Event)
  unfolding log_write
  log_print g level tm text = elim g.print [
    | none ↦ log_write g level tm text
    | some f ↦ some (g, called f level text ∷ [])
  ]
