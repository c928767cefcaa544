-- ===== src/Log/Redirect.antt =====
-- log.c: the first call of `log_print`, after `log_file` or without it.
use clibrary.Base.{
  ℕ, ◌≡◌, refl, sym, ◌∙◌, ap, ◌⊎◌, inl, inr, Bool, true, false, Bool-cases, Option, none, some,
  Option-cases, List, [], ◌∷◌, ◌++◌, ltb, arith,
}
use mathlib.Core.Option.{none-ne-some, some-injective}
use clibrary.Log.{
  Log, Time, Event, opened, wrote, log_file, day_file, choose_file, line_of, log_write, log_print,
  start, log_setlevel,
}
use clibrary.Log.Session.{Request, to_log_write}

module _ (fopen : List ℕ → Bool) (dated : Time → List ℕ) (g : Log) (r : Request) where
  -- The state after the first call, in which `log_file` has been called or not.
  abbrev pub checked : Log
  checked = (day_file fopen dated g r.time).0

  choose_first :
      g.need_check ≡ false → choose_file fopen dated g r.time ≡ day_file fopen dated g r.time
  unfolding choose_file
  choose_first e = simp (e)

  -- What `log_write` does with the file that it has chosen.
  written : Log × List Event → Option (Log × List Event)
  written c = elim c.0.out_fp [
    | none ↦ none
    | some f ↦ some (c.0, c.1 ++ wrote f (line_of r.level r.time r.text) ∷ [])
  ]

  log_print-written :
      g.need_check ≡ false
      → g.print ≡ none
      → ltb g.log_level r.level ≡ false
      → log_print fopen dated g r.level r.time r.text ≡ written (day_file fopen dated g r.time)
  unfolding log_write written
  log_print-written fresh p pass =
      to_log_write fopen dated g r p ∙ rw (pass, log_write) refl ∙ ap written (choose_first fresh)

  written-silent :
      (l : Log) (es : List Event) (o : Option (List ℕ))
      → es ≡ []
      → l.out_fp ≡ o
      → written (l, es)
        ≡ elim o [ none ↦ none | some f ↦ some (l, wrote f (line_of r.level r.time r.text) ∷ []) ]
  unfolding written
  written-silent l es o silent e =
      ap (λ fs. written (l, fs)) silent
      ∙ ap
          (λ u. elim u as (λ x. Option (Log × List Event)) [
            | none ↦ none
            | some f ↦ some (l, wrote f (line_of r.level r.time r.text) ∷ [])
          ])
          e

  written-refused :
      (o : Option (List ℕ))
      → fopen (dated r.time) ≡ false
      → g.out_fp ≡ o
      → written (day_file fopen dated g r.time) ≡ elim o [
        | none ↦ none
        | some f ↦ some (checked, wrote f (line_of r.level r.time r.text) ∷ [])
      ]
  unfolding log_file
  written-refused o refused e =
      written-silent checked (day_file fopen dated g r.time).1 o (rw (refused) refl)
        (rw (checked, refused) e)

  -- The three outcomes of the first call that the level lets through.
  first_print :
      g.need_check ≡ false
      → g.print ≡ none
      → ltb g.log_level r.level ≡ false
      → (fopen (dated r.time) ≡ true)
          × (log_print fopen dated g r.level r.time r.text
              ≡ some (
                checked,
                opened (dated r.time) ∷ wrote (dated r.time) (line_of r.level r.time r.text) ∷ [],
              ))
        ⊎ (fopen (dated r.time) ≡ false)
          × (g.out_fp ≡ none)
          × (log_print fopen dated g r.level r.time r.text ≡ none)
        ⊎ (f : List ℕ) × (fopen (dated r.time) ≡ false)
          × (g.out_fp ≡ some f)
          × (log_print fopen dated g r.level r.time r.text
              ≡ some (checked, wrote f (line_of r.level r.time r.text) ∷ []))
  unfolding written log_file
  first_print fresh p pass =
      let go = log_print-written fresh p pass in
      elim (Bool-cases (fopen (dated r.time))) [
        | inl given ↦ inl (given, go ∙ rw (given) refl)
        | inr refused ↦ elim (Option-cases g.out_fp) [
          | inl e ↦ inr (inl (refused, e, go ∙ written-refused none refused e))
          | inr (f, e) ↦ inr (inr (f, refused, e, go ∙ written-refused (some f) refused e))
        ]
      ]

module _ (fopen : List ℕ → Bool) (dated : Time → List ℕ) (log_level : ℕ) (file : List ℕ)
    (r : Request) where
  -- The program has set the level and called `log_file`.
  abbrev pub redirected : Log
  redirected = (log_file fopen (log_setlevel start log_level) file).0

  abbrev pub first : Option (Log × List Event)
  first = log_print fopen dated redirected r.level r.time r.text

  redirected_lem :
      (redirected.need_check ≡ false)
      × (redirected.print ≡ none)
      × (redirected.log_level ≡ log_level)
      × ((fopen file ≡ true) × (redirected.out_fp ≡ some file)
          ⊎ (fopen file ≡ false) × (redirected.out_fp ≡ none))
  unfolding log_file log_setlevel
  redirected_lem = ground arith

  opened_lem :
      (fopen (dated r.time) ≡ true)
      → (checked fopen dated redirected r).out_fp ≡ some (dated r.time)
  unfolding log_file
  opened_lem given = rw (checked, given) refl

  refused_lem :
      (fopen (dated r.time) ≡ false) → (checked fopen dated redirected r).out_fp ≡ redirected.out_fp
  unfolding log_file
  refused_lem refused = rw (checked, refused) refl

  -- From the start of the program on, after `log_setlevel` and a call of `log_file` with a name: the
  -- first call of `log_print` that the level lets through does not write to that file if the file of
  -- its day can be opened, but opens the latter and writes there. If that cannot be opened, it writes
  -- to the file of `log_file`; if neither could be, it prints to a NULL stream.
  pub first_write :
      ltb log_level r.level ≡ false
      → let line = line_of r.level r.time r.text in
        (fopen (dated r.time) ≡ true)
          × ((last : Log) × (last.out_fp ≡ some (dated r.time))
              × (first ≡ some (last, opened (dated r.time) ∷ wrote (dated r.time) line ∷ [])))
        ⊎ (fopen (dated r.time) ≡ false)
          × (fopen file ≡ true)
          × ((last : Log) × (last.out_fp ≡ some file) × (first ≡ some (last, wrote file line ∷ [])))
        ⊎ (fopen (dated r.time) ≡ false) × (fopen file ≡ false) × (first ≡ none)
  first_write pass =
      let (fresh, unset, level, which) = redirected_lem in
      let last = checked fopen dated redirected r in
      elim (first_print fopen dated redirected r fresh unset
        (ap (λ n. ltb n r.level) level ∙ pass)) [
          | inl (given, e) ↦ inl (given, (last, opened_lem given, e))
          | inr (inl (refused, no_file, e)) ↦ elim which [
            | inl (_, f) ↦ absurd (none-ne-some file (sym no_file ∙ f))
            | inr (neither, _) ↦ inr (inr (refused, neither, e))
          ]
          | inr (inr (f, refused, at, e)) ↦ elim which [
            | inl (given, same) ↦
                let named : f ≡ file = some-injective f file (sym at ∙ same) in
                inr (
                  inl (
                    refused,
                    given,
                    (
                      last,
                      refused_lem refused ∙ same,
                      e ∙ ap (λ n. some (last, wrote n (line_of r.level r.time r.text) ∷ [])) named,
                    ),
                  ))
            | inr (_, no_file) ↦ absurd (none-ne-some f (sym no_file ∙ at))
          ]
        ]
