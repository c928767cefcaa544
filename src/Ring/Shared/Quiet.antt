-- ===== src/Ring/Shared/Quiet.antt =====
-- ring_buffer.c: the states in which no caller of `zx_ringbuffer_swrite` or `zx_ringbuffer_sread` can
-- act.
use clibrary.Base.{
  ℕ, ◌≡◌, ◌≢◌, ◌⊎◌, refl, ap, ◌∙◌, inl, inr, true, false, none, some, Option-cases, arith,
}
use mathlib.Core.Bool.{false≢true, true≢false}
use clibrary.Ring.{Ring, is_full, is_empty}
use clibrary.Ring.Bounds.{IsValid}
use clibrary.Ring.Threads.{Pc, idle, sleeping, writer_action, reader_action}
use clibrary.Ring.Threads.Quiet.{quiet_lem}
use clibrary.Ring.Shared.{
  Place, outside, spinning, locked, inside, unlocking, Side, Turn, takes, returns, gives, Shared,
  Acts, writer_turns, reader_turns, begins_write, begins_read, writer_acts, reader_acts, Reach,
}
use clibrary.Ring.Shared.Owner.{holds, is_inside, is_owner, Owned}
use clibrary.Ring.Shared.Refine.{Reach-Inv}

-- Nobody of a side is in a call, or one caller is in its call on the buffer and the others are
-- outside or in `LOCK`.
data Rests {A B : Type 0} (pc : Pc) (side : Side A B) : Type 0 where
  nobody : ((i : ℕ) → side.place i ≡ outside) → Rests pc side
  somebody :
      (i : ℕ)
      → side.place i ≡ inside
      → pc ≢ idle
      → ((j : ℕ) → j ≢ i → holds (side.place j) ≡ false)
      → Rests pc side

module _ {A B : Type 0} (pc : Pc) (result : B) (side : Side A B) (o : Owned pc side)
    (turns : (side' : Side A B) → ¬ Turn pc result side side')
    (begins : (i : ℕ) (a : A) → side.place i ≢ locked a) where
  -- The caller that has the lock.
  holder :
      (i : ℕ) (p : Place A B)
      → side.place i ≡ p
      → holds p ≡ true
      → (side.place i ≡ inside) × (pc ≢ idle)
  holder i outside e h = absurd (false≢true h)
  holder i (spinning a) e h = absurd (false≢true h)
  holder i (locked a) e h = absurd (begins i a e)
  holder i inside e h = (e, λ z. turns _ (returns i e z))
  holder i (unlocking b) e h = absurd (turns _ (gives i b e))

  free :
      side.lock ≡ none → (i : ℕ) (p : Place A B) → side.place i ≡ p → holds p ≡ false → p ≡ outside
  free l i outside e h = refl
  free l i (spinning a) e h = absurd (turns _ (takes i a e l))
  free l i p e h = absurd (true≢false h)

  stuck-Rests : Rests pc side
  stuck-Rests = elim (Option-cases side.lock) [
    | inl l ↦ nobody (λ i. free l i (side.place i) refl (o.owner i ∙ ap (λ x. is_owner x i) l))
    | inr (k, l) ↦
        let own : is_owner (some k) k ≡ true = ground arith in
        let h = holder k (side.place k) refl (o.owner k ∙ ap (λ x. is_owner x k) l ∙ own) in
        somebody k h.0 h.1 (λ j ne.
          let other : is_owner (some k) j ≡ false = ground arith in
          o.owner j ∙ ap (λ x. is_owner x j) l ∙ other)
  ]

-- With nobody in a call, the call on the buffer is idle.
idle-of :
    {A B : Type 0} (pc : Pc) (side : Side A B)
    → Owned pc side
    → ((i : ℕ) → side.place i ≡ outside)
    → pc ≡ idle
idle-of pc side o h = o.rest (λ i. ap is_inside (h i))

module _ (s : Shared) (quiet : (t : Shared) → ¬ Acts s t) where
  writer_quiet :
      Owned s.system.writer s.writers
      → Rests s.system.writer s.writers
      → writer_action s.system ≡ none
  unfolding writer_action
  writer_quiet o (nobody h) = rw (idle-of s.system.writer s.writers o h) refl
  writer_quiet o (somebody i e a others) = elim (Option-cases (writer_action s.system)) [
    | inl n ↦ n
    | inr (t, k) ↦ absurd (quiet _ (writer_acts i e k))
  ]

  reader_quiet :
      Owned s.system.reader s.readers
      → Rests s.system.reader s.readers
      → reader_action s.system ≡ none
  unfolding reader_action
  reader_quiet o (nobody h) = rw (idle-of s.system.reader s.readers o h) refl
  reader_quiet o (somebody i e a others) = elim (Option-cases (reader_action s.system)) [
    | inl n ↦ n
    | inr (t, k) ↦ absurd (quiet _ (reader_acts i e k))
  ]

-- All callers of a side are outside.
abbrev pub AllOut : {A B : Type 0} → Side A B → Type 0
AllOut side = (i : ℕ) → side.place i ≡ outside

-- One caller is in its call on the buffer, and no other is behind `LOCK`.
abbrev pub Alone : {A B : Type 0} → Side A B → Type 0
Alone side = (i : ℕ) × (side.place i ≡ inside) × ((j : ℕ) → j ≢ i → holds (side.place j) ≡ false)

out : {A B : Type 0} (pc : Pc) (side : Side A B) → Rests pc side → pc ≡ idle → AllOut side
out pc side (nobody h) e = h
out pc side (somebody i h n others) e = absurd (n e)

in_call :
    {A B : Type 0} (pc : Pc) (side : Side A B)
    → Owned pc side
    → Rests pc side
    → pc ≡ sleeping
    → Alone side
in_call pc side o (nobody h) e = let z = idle-of pc side o h in absurd (ground arith)
in_call pc side o (somebody i h n others) e = (i, h, others)

-- No deadlock among any number of callers: where none of those that are in a call of
-- `zx_ringbuffer_swrite` or `zx_ringbuffer_sread` can act, on a buffer that was empty at first, either
-- nobody is in a call, or all readers are outside and one writer sleeps on a full buffer, the other
-- writers outside or spinning, or all writers are outside and one reader sleeps on an empty buffer,
-- the other readers outside or spinning.
pub shared_quiet :
    {rb : Ring} {s : Shared}
    → IsValid rb
    → is_empty rb ≡ true
    → Reach rb s
    → ((t : Shared) → ¬ Acts s t)
    → AllOut s.writers × AllOut s.readers
      ⊎ Alone s.writers
        × AllOut s.readers
        × (s.system.writer ≡ sleeping)
        × (is_full s.system.ring ≡ true)
      ⊎ AllOut s.writers
        × Alone s.readers
        × (s.system.reader ≡ sleeping)
        × (is_empty s.system.ring ≡ true)
shared_quiet {rb} {s} v e r quiet =
    let i = Reach-Inv r in
    let w =
      stuck-Rests s.system.writer tt s.writers i.writers (λ side t. quiet _ (writer_turns t))
        (λ j a k. quiet _ (begins_write j a k)) in
    let d =
      stuck-Rests s.system.reader s.system.value s.readers i.readers
        (λ side t. quiet _ (reader_turns t)) (λ j a k. quiet _ (begins_read j k)) in
    elim (quiet_lem v e i.reached (writer_quiet s quiet i.writers w)
      (reader_quiet s quiet i.readers d)) [
        | inl (a, b) ↦ inl (out _ s.writers w a, out _ s.readers d b)
        | inr (inl (a, b, f)) ↦
            inr (inl (in_call _ s.writers i.writers w a, out _ s.readers d b, a, f))
        | inr (inr (a, b, f)) ↦
            inr (inr (out _ s.writers w a, in_call _ s.readers i.readers d b, b, f))
      ]
