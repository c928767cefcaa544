-- ===== src/Ring/Threads/Order.antt =====
-- ring_buffer.c: the values on their way from the writer's calls to the reader's.
use clibrary.Base.{
  ℕ, ◌≡◌, refl, ap, sym, ◌∙◌, Bool, true, false, not, ◌||◌, some, List, [], ◌∷◌, ◌++◌, get_or,
  append-nil, append_assoc, arith,
}
use mathlib.Core.Path.{subst}
use clibrary.Ring.{Ring, Mode, blocking, polling, is_empty, is_full, read_slot}
use clibrary.Ring.Bounds.{IsValid, read_slot-IsValid}
use clibrary.Ring.Fifo.{contents, contents-read_slot}
use clibrary.Ring.Threads.{
  Pc, idle, copying, advancing, notifying, broadcasting, releasing, View, announce, advance,
  writer_store, reader_store, reader_load, results,
}
use clibrary.Ring.Threads.Sync.{commits}
use clibrary.Ring.Threads.Stores.{
  ended, filled-IsValid, contents-filled, get_or-filled, oldest-filled, ended-IsValid,
  contents-ended,
}

-- The argument of a call of `zx_ringbuffer_write` that has not stored `end` yet.
abbrev pub pending : Pc → ℕ → List ℕ
pending idle value = []
pending notifying value = []
pending broadcasting value = []
pending releasing value = []
pending pc value = value ∷ []

-- The value that a call of `zx_ringbuffer_read` has taken and not returned yet.
abbrev pub taken : Pc → ℕ → List ℕ
taken notifying value = value ∷ []
taken broadcasting value = value ∷ []
taken releasing value = value ∷ []
taken pc value = []

-- Between the two stores of a write its value stands in the slot at `end`.
abbrev pub Stored : Pc → Ring → ℕ → Type 0
Stored advancing rb value = get_or rb.elements rb.end 0 ≡ value
Stored pc rb value = Unit {0}

-- Between the load and the store of a read, `value` is what the slot at `start` still holds.
abbrev pub Loaded : Pc → Ring → ℕ → Type 0
Loaded advancing rb value = get_or rb.elements rb.start 0 ≡ value
Loaded pc rb value = Unit {0}

-- What the writer's action does to the buffer; `pc'` is its next place.
pub record Writes (pc pc' : Pc) (rb : Ring) (value : ℕ) : Type 0 where
  pub valid : IsValid (writer_store pc rb value)
  pub stored : Stored pc' (writer_store pc rb value) value
  pub order :
      contents (writer_store pc rb value) ++ pending pc' value ≡ contents rb ++ pending pc value
  pub oldest :
      is_empty rb ≡ false
      → get_or (writer_store pc rb value).elements (writer_store pc rb value).start 0
        ≡ get_or rb.elements rb.start 0

-- Behind the store of an index nothing is under way.
announce_lem :
    (mode : Mode) (rb : Ring) (value : ℕ)
    → (pending (announce mode) value ≡ [])
      × Stored (announce mode) rb value
      × Loaded (announce mode) rb value
announce_lem blocking rb value = (refl, tt, tt)
announce_lem polling rb value = (refl, tt, tt)

pub advance-Writes :
    (p q : Pc) (l m : Bool) (rb : Ring) (value : ℕ) {t : View}
    → IsValid rb
    → not (commits p) || not (is_full rb) ≡ true
    → Stored p rb value
    → advance rb.mode (is_full rb) p (record { pc = p; peer = q; own = l; other = m }) ≡ some t
    → Writes p t.pc rb value
advance-Writes copying q l m rb value {t} v c s h = ground (
  arith,
  filled-IsValid v value,
  contents-filled v value,
  get_or-filled v value,
  oldest-filled v value,
)
advance-Writes advancing q l m rb value {t} v c s h =
    let room : is_full rb ≡ false = ground arith in
    ground (
      arith,
      ended-IsValid v,
      contents-ended v room,
      announce_lem rb.mode rb value,
      append-nil (contents (ended rb)),
    )
advance-Writes p q l m rb value {t} v c s h = ground arith

-- What the reader's action does; `value` is its local variable, `got` what its calls have returned.
pub record Reads (pc pc' : Pc) (rb : Ring) (value : ℕ) (got : List ℕ) : Type 0 where
  pub valid : IsValid (reader_store pc rb)
  pub loaded : Loaded pc' (reader_store pc rb) (reader_load pc rb value)
  pub order :
      results pc' got value
        ++ (taken pc' (reader_load pc rb value) ++ contents (reader_store pc rb))
      ≡ got ++ (taken pc value ++ contents rb)

results-announce :
    (mode : Mode) (got : List ℕ) (value : ℕ) (rest : List ℕ)
    → results (announce mode) got value ++ (taken (announce mode) value ++ rest)
      ≡ got ++ value ∷ rest
results-announce blocking got value rest = refl
results-announce polling got value rest = append_assoc got (value ∷ []) rest

pub advance-Reads :
    (p q : Pc) (l m : Bool) (rb : Ring) (value : ℕ) (got : List ℕ) {t : View}
    → IsValid rb
    → not (commits p) || not (is_empty rb) ≡ true
    → Loaded p rb value
    → advance rb.mode (is_empty rb) p (record { pc = p; peer = q; own = l; other = m }) ≡ some t
    → Reads p t.pc rb value got
unfolding read_slot
advance-Reads advancing q l m rb value got {t} v c s h =
    let place : announce rb.mode ≡ t.pc = ground arith in
    let some_left : is_empty rb ≡ false = ground arith in
    let rest : value ∷ contents (read_slot rb).1 ≡ (read_slot rb).0 ∷ contents (read_slot rb).1 =
      ap (λ x. x ∷ contents (read_slot rb).1) (sym s) in
    subst (λ pc. Reads advancing pc rb value got) place
      (record {
        valid = read_slot-IsValid v;
        loaded = (announce_lem rb.mode (read_slot rb).1 value).2;
        order =
            results-announce rb.mode got value (contents (read_slot rb).1)
            ∙ ap (λ xs. got ++ xs) (rest ∙ sym (contents-read_slot v some_left));
      })
advance-Reads releasing q l m rb value got {t} v c s h =
    ground (arith, append_assoc got (value ∷ []) (contents rb))
advance-Reads p q l m rb value got {t} v c s h = ground arith
