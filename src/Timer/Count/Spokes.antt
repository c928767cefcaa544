-- ===== src/Timer/Count/Spokes.antt =====
-- timer.c: elements that come into a spoke, leave it or stay there.
use clibrary.Base.{
  ℕ, zero, suc, ◌+◌, ◌%◌, ◌<◌, ◌≡◌, ◌≢◌, ◌⊎◌, ap, ap₂, inl, inr, refl, ◌∙◌, true, false, Bool-cases,
  Option, none, some, List, [], ◌∷◌, ◌++◌, length, length-append, length-set, get_or, set,
  replicate, All, All-append, arith, ◌==◌, add64,
}
use mathlib.Core.Path.{subst}
use mathlib.Core.Option.{none-ne-some}
use clibrary.Timer.{Elem, TimerWheel, insert_spoke, start_wheel, spoke_of}
use clibrary.Timer.Edit.{find, find_spoke, remove, unspoke}
use clibrary.Timer.Wheel.Check.{total, total-set}
use clibrary.Timer.Count.{Placed, IsFramed}

abbrev pub In : ℕ → Elem → Type 0
In i e = e.cursor ≡ i

Placed-set :
    (ess : List (List Elem)) (j i k : ℕ) (es : List Elem)
    → k ≡ i + j
    → Placed j ess
    → All (In k) es
    → Placed j (set ess i es)
Placed-set [] j i k es e h a = tt
Placed-set (x ∷ ess) j zero k es e h a =
    let here : k ≡ j = omega arith in (subst (λ n. All (In n) es) here a, h.1)
Placed-set (x ∷ ess) j (suc i) k es e h a = (h.0, Placed-set ess (suc j) i k es (omega arith) h.1 a)

Placed-get_or :
    (ess : List (List Elem)) (j i k : ℕ) → k ≡ i + j → Placed j ess → All (In k) (get_or ess i [])
Placed-get_or [] j i k e h = tt
Placed-get_or (x ∷ ess) j zero k e h =
    let here : j ≡ k = omega arith in subst (λ n. All (In n) x) here h.0
Placed-get_or (x ∷ ess) j (suc i) k e h = Placed-get_or ess (suc j) i k (omega arith) h.1

pub Placed-replicate : (n j : ℕ) → Placed j (replicate n [])
Placed-replicate zero j = tt
Placed-replicate (suc n) j = (tt, Placed-replicate n (suc j))

pub total-replicate : (n : ℕ) → total (replicate n []) ≡ 0
unfolding total
total-replicate zero = refl
total-replicate (suc n) = omega (arith, total-replicate n)

-- The wheel with another list in the spoke `i`.
pub set-IsFramed :
    {w : TimerWheel} (i : ℕ) (es : List Elem)
    → IsFramed w
    → All (In i) es
    → IsFramed (record w { spokes = set w.spokes i es })
set-IsFramed {w} i es f h = record {
  some_spokes = f.some_spokes;
  all_spokes = length-set w.spokes i es ∙ f.all_spokes;
  index_in = f.index_in;
  placed = Placed-set w.spokes 0 i i es (omega arith) f.placed h;
}

pub spoke_lem : {w : TimerWheel} (i : ℕ) → IsFramed w → All (In i) (get_or w.spokes i [])
spoke_lem {w} i f = Placed-get_or w.spokes 0 i i (omega arith) f.placed

-- `TAILQ_REMOVE` of an element that is there.
pub find_rest :
    (a : ℕ) (x : Elem) (es : List Elem) {o : Option Elem}
    → x.address == a ≡ false
    → find a (x ∷ es) ≡ o
    → find a es ≡ o
unfolding find
find_rest a x es e h = ground arith

pub remove-length :
    (a : ℕ) (es : List Elem) {e : Elem} → find a es ≡ some e → length (remove a es) + 1 ≡ length es
unfolding find remove
remove-length a [] h = absurd (none-ne-some _ h)
remove-length a (x ∷ es) h = elim (Bool-cases (x.address == a)) [
  | inl e ↦ rw e (omega arith)
  | inr e ↦ rw e (omega (arith, remove-length a es (find_rest a x es e h)))
]

pub find_hit :
    (a : ℕ) (x : Elem) (es : List Elem) {e : Elem}
    → x.address == a ≡ true
    → find a (x ∷ es) ≡ some e
    → x ≡ e
unfolding find
find_hit a x es e h = ground arith

-- The element is taken out of its place, and is the first with its address.
pub remove_split :
    (a : ℕ) (es : List Elem) {e : Elem}
    → find a es ≡ some e
    → (before after : List Elem) × (es ≡ before ++ e ∷ after)
      × All (λ x. x.address ≢ a) before
      × (remove a es ≡ before ++ after)
unfolding find remove
remove_split a [] h = absurd (none-ne-some _ h)
remove_split a (x ∷ es) h = elim (Bool-cases (x.address == a)) [
  | inl e ↦ ([], es, ap (λ y. y ∷ es) (find_hit a x es e h), tt, rw e refl)
  | inr e ↦
      let (before, after, whole, others, rest) = remove_split a es (find_rest a x es e h) in
      (
        x ∷ before,
        after,
        ap (λ l. x ∷ l) whole,
        ((λ k. ground arith), others),
        rw e (ap (λ l. x ∷ l) rest),
      )
]

pub remove-All : (P : Elem → Type 0) (a : ℕ) (es : List Elem) → All P es → All P (remove a es)
unfolding remove
remove-All P a [] h = tt
remove-All P a (x ∷ es) h = elim (Bool-cases (x.address == a)) [
  | inl e ↦ rw e (h.1)
  | inr e ↦ rw e (h.0, remove-All P a es h.1)
]

-- An element that is found stands in the spoke of its cursor, under the address looked for.
pub find-address : (a : ℕ) (es : List Elem) {e : Elem} → find a es ≡ some e → e.address ≡ a
unfolding find
find-address a [] h = absurd (none-ne-some _ h)
find-address a (x ∷ es) h = elim (Bool-cases (x.address == a)) [
  | inl e ↦ subst (λ y. y.address ≡ a) (find_hit a x es e h) (ground arith)
  | inr e ↦ find-address a es (find_rest a x es e h)
]

find-All :
    (P : Elem → Type 0) (a : ℕ) (es : List Elem) {e : Elem} → All P es → find a es ≡ some e → P e
unfolding find
find-All P a [] k h = absurd (none-ne-some _ h)
find-All P a (x ∷ es) k h = elim (Bool-cases (x.address == a)) [
  | inl e ↦ subst P (find_hit a x es e h) k.0
  | inr e ↦ find-All P a es k.1 (find_rest a x es e h)
]

either :
    (o r : Option Elem) {e : Elem}
    → elim o as (λ x. Option Elem) [ none ↦ r | some x ↦ some x ] ≡ some e
    → (o ≡ some e) ⊎ (r ≡ some e)
either none r h = inr h
either (some x) r h = inl h

pub find_spoke_lem :
    (a : ℕ) (ess : List (List Elem)) (j : ℕ) {e : Elem}
    → Placed j ess
    → find_spoke a ess ≡ some e
    → (i : ℕ) × (e.cursor ≡ i + j) × (i < length ess) × (find a (get_or ess i []) ≡ some e)
unfolding find_spoke
find_spoke_lem a [] j p h = absurd (none-ne-some _ h)
find_spoke_lem a (es ∷ ess) j {e} p h = elim (either (find a es) (find_spoke a ess) h) [
  | inl hit ↦
      let here : e.cursor ≡ j = find-All (In j) a es p.0 hit in (0, omega arith, omega arith, hit)
  | inr later ↦
      let (i, place, inside, hit) = find_spoke_lem a ess (suc j) p.1 later in
      (suc i, omega (arith, place), omega (arith, inside), hit)
]

-- What `zx_timer_del` on a wheel leaves of the spokes.
pub unspoke_split :
    (a : ℕ) {w : TimerWheel} {e : Elem}
    → IsFramed w
    → find_spoke a w.spokes ≡ some e
    → (before after : List Elem) × (get_or w.spokes e.cursor [] ≡ before ++ e ∷ after)
      × All (λ x. x.address ≢ a) before
      × (e.address ≡ a)
      × ((unspoke w e).spokes ≡ set w.spokes e.cursor (before ++ after))
unfolding unspoke
unspoke_split a {w} {e} f h =
    let (i, place, inside, hit) = find_spoke_lem a w.spokes 0 f.placed h in
    let at : e.cursor ≡ i = omega (arith, place) in
    let same : e.address ≡ a = find-address a (get_or w.spokes i []) hit in
    let (before, after, whole, others, rest) = remove_split a (get_or w.spokes i []) hit in
    (
      before,
      after,
      ap (λ n. get_or w.spokes n []) at ∙ whole,
      others,
      same,
      ap₂ (λ n x. set w.spokes e.cursor (remove x (get_or w.spokes n []))) at same
          ∙ ap (set w.spokes e.cursor) rest,
    )

-- `zx_timer_del` on a wheel takes one element away.
pub unspoke_lem :
    (a : ℕ) {w : TimerWheel} {e : Elem}
    → IsFramed w
    → find_spoke a w.spokes ≡ some e
    → IsFramed (unspoke w e) × (total (unspoke w e).spokes + 1 ≡ total w.spokes)
unfolding unspoke
unspoke_lem a {w} {e} f h =
    let (i, place, inside, hit) = find_spoke_lem a w.spokes 0 f.placed h in
    let at : e.cursor ≡ i = omega (arith, place) in
    let same : e.address ≡ a = find-address a (get_or w.spokes i []) hit in
    rw (at, same)
      (
        set-IsFramed i (remove a (get_or w.spokes i [])) f
            (remove-All (In i) a (get_or w.spokes i []) (spoke_lem i f)),
        omega (
          arith,
          remove-length a (get_or w.spokes i []) hit,
          total-set w.spokes i (remove a (get_or w.spokes i [])) inside,
        ),
      )

pub start_wheel-IsFramed :
    {w : TimerWheel} (current : ℕ)
    → IsFramed w
    → IsFramed (start_wheel w current)
      × ((start_wheel w current).spokes ≡ w.spokes)
      × ((start_wheel w current).wheel_size ≡ w.wheel_size)
unfolding start_wheel
start_wheel-IsFramed {w} current f = ground arith

pub next_in : (i size : ℕ) → 0 < size → add64 i 1 % size < size
next_in i size h = omega arith

-- An insertion at the spoke of its cursor brings one element in.
pub insert_spoke_lem :
    {w : TimerWheel} (current timeout : ℕ) (e : Elem)
    → IsFramed w
    → let i = spoke_of w current timeout in
      let w' = insert_spoke w i (record e { cursor = i }) in
      IsFramed w' × (total w'.spokes ≡ total w.spokes + 1)
insert_spoke_lem {w} current timeout e f =
    let i = spoke_of w current timeout in
    let es = get_or w.spokes i [] in
    let inside : i < length w.spokes = omega (arith, f.some_spokes, f.all_spokes) in
    (
      set-IsFramed i (es ++ record e { cursor = i } ∷ []) f
          (All-append (In i) es _ (spoke_lem i f) (refl, tt)),
      omega (
        arith,
        total-set w.spokes i (es ++ record e { cursor = i } ∷ []) inside,
        length-append es (record e { cursor = i } ∷ []),
      ),
    )
