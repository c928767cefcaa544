-- ===== src/Timer/Wheel/Edit.antt =====
-- timer.c: `zx_timer_del` and `zx_timer_reset` on a wheel that is on time.
use clibrary.Base.{
  ℕ, zero, suc, ◌+◌, ◌/◌, ◌^◌, ◌<◌, ◌≡◌, ◌≢◌, inl, refl, sym, ap, ◌∙◌, some, List, [], ◌∷◌, ◌++◌,
  length, length-set, get_or, set, All, All-map, arith, ulong_max,
}
use mathlib.Core.Path.{subst}
use clibrary.Timer.{Elem, TimerWheel, add_wheel}
use clibrary.Timer.Edit.{find_spoke, remove, unspoke, reset_wheel}
use clibrary.Timer.Wheel.{ahead, At, OnTime}
use clibrary.Timer.Wheel.Check.{total, IsSynced}
use clibrary.Timer.Wheel.Add.{timed, add_wheel_lem}
use clibrary.Timer.Count.{Placed, IsFramed}
use clibrary.Timer.Count.Spokes.{remove-All, unspoke_lem, unspoke_split}
use clibrary.Timer.Count.Reset.{reset_wheel_lem}

-- What holds of a list among others, after one of them is replaced.
All-set :
    (P : Elem → Type 0) (ess : List (List Elem)) (i s : ℕ) (es : List Elem)
    → All P (get_or ess s [])
    → (i ≡ s → All P es)
    → All P (get_or (set ess i es) s [])
All-set P [] i s es h k = h
All-set P (x ∷ ess) zero zero es h k = k refl
All-set P (x ∷ ess) zero (suc s) es h k = h
All-set P (x ∷ ess) (suc i) zero es h k = h
All-set P (x ∷ ess) (suc i) (suc s) es h k = All-set P ess i s es h (λ e. k (ap suc e))

-- Where each spoke holds elements of its own only, so does the wheel.
each-Placed :
    (ess : List (List Elem)) (j : ℕ)
    → ((s : ℕ) → s < length ess → All (λ e. e.cursor ≡ s + j) (get_or ess s []))
    → Placed j ess
each-Placed [] j h = tt
each-Placed (x ∷ ess) j h =
    let shift : (s : ℕ) → suc s + j ≡ s + suc j = λ s. omega arith in
    let first : 0 + j ≡ j = omega arith in
    (
      subst (λ n. All (λ e. e.cursor ≡ n) x) first (h 0 (omega arith)),
      each-Placed ess (suc j) (λ s k.
          subst (λ n. All (λ e. e.cursor ≡ n) (get_or ess s [])) (shift s)
            (h (suc s) (omega arith))),
    )

pub OnTime-IsFramed : {now : ℕ} {w : TimerWheel} → OnTime now w → IsFramed w
OnTime-IsFramed {now} {w} ot = record {
  some_spokes = ot.some_spokes;
  all_spokes = ot.all_spokes;
  index_in = ot.index_in;
  placed = each-Placed w.spokes 0 (λ s h.
      All-map (At w.wheel_size s _) (λ e. e.cursor ≡ s + 0) (λ e a. omega (arith, a.place))
        (get_or w.spokes s []) (ot.due s (omega (arith, h, ot.all_spokes))));
}

pub unspoke-IsSynced : (w : TimerWheel) (e : Elem) → IsSynced w → IsSynced (unspoke w e)
unfolding unspoke
unspoke-IsSynced w e sy =
    let ot = sy.on_time in
    let es = remove e.address (get_or w.spokes e.cursor []) in
    let now = w.create_time + w.last_check_relative_tick in
    let due_at : ℕ → Elem → Type 0 =
      λ s. At w.wheel_size s (now + ahead w.wheel_size w.spoke_index s) in
    record {
      last_in = sy.last_in;
      on_time = record {
        some_spokes = ot.some_spokes;
        few_spokes = ot.few_spokes;
        all_spokes = length-set w.spokes e.cursor es ∙ ot.all_spokes;
        index_in = ot.index_in;
        begun = ot.begun;
        phase = ot.phase;
        due = λ s h. All-set (due_at s) w.spokes e.cursor s es (ot.due s h) (λ same.
            remove-All (due_at s) e.address (get_or w.spokes e.cursor [])
              (subst (λ n. All (due_at s) (get_or w.spokes n [])) (sym same) (ot.due s h)));
      };
    }

-- `zx_timer_del` of an element of a wheel timer that is on time takes one element away, and the
-- wheel stays on time.
del_wheel_lem :
    (index : ℕ) (w : TimerWheel) (e : Elem)
    → IsSynced w
    → find_spoke index w.spokes ≡ some e
    → let w' = unspoke w e in (total w'.spokes + 1 ≡ total w.spokes) × IsSynced w'
del_wheel_lem index w e sy hit =
    ((unspoke_lem index (OnTime-IsFramed sy.on_time) hit).1, unspoke-IsSynced w e sy)

-- An element stands at the end of one spoke, with a new time, where the other elements are `rest`.
abbrev pub Behind : TimerWheel → List (List Elem) → Elem → ℕ → ℕ → TimerWheel → Type 0
Behind w rest e current timeout w' =
    (s : ℕ) × (s < w.wheel_size)
    × (w'.spokes ≡ set rest s (get_or rest s [] ++ timed w.wheel_size s current timeout e ∷ []))
    × (total w'.spokes ≡ total w.spokes)
    × IsSynced w'
    × (w'.create_time + w'.last_check_relative_tick ≡ current)

-- What `reset_wheel-IsSynced` states of the wheel behind the reset.
abbrev pub Moved : ℕ → TimerWheel → Elem → ℕ → ℕ → TimerWheel → Type 0
Moved index w e current timeout w' =
    (before after : List Elem) × (get_or w.spokes e.cursor [] ≡ before ++ e ∷ after)
    × All (λ x. x.address ≢ index) before
    × (e.address ≡ index)
    × Behind w (set w.spokes e.cursor (before ++ after)) e current timeout w'

pub reset_wheel-add_wheel :
    (w : TimerWheel) (e : Elem) (current timeout : ℕ)
    → reset_wheel w e current timeout ≡ add_wheel (unspoke w e) current timeout e
unfolding reset_wheel add_wheel
reset_wheel-add_wheel w e current timeout = refl

-- `zx_timer_reset` of an element of a wheel timer that is on time at the current time, which is
-- below the largest `unsigned long`, for a timeout whose rotations fit the field and whose end is no
-- wrapped time: the first element of the spoke with the handle as its address leaves the spoke, in
-- which the others stay as they are, and comes, with the time `current + timeout`, behind the elements
-- of one spoke. The number of elements stays, and the wheel stays on time.
pub reset_wheel-IsSynced :
    (index current timeout : ℕ) (w : TimerWheel) (e : Elem)
    → IsSynced w
    → w.create_time + w.last_check_relative_tick ≡ current
    → find_spoke index w.spokes ≡ some e
    → current < ulong_max
    → current + timeout < 2 ^ 64
    → timeout / w.wheel_size < 2 ^ 31
    → Moved index w e current timeout (reset_wheel w e current timeout)
unfolding unspoke
reset_wheel-IsSynced index current timeout w e sy now hit fits time rot =
    let framed = OnTime-IsFramed sy.on_time in
    let (s, inside, moved, _, sy', now') =
      add_wheel_lem current timeout e (inl (unspoke-IsSynced w e sy, now)) fits time rot in
    let (_, _, many) = reset_wheel_lem index current timeout framed hit in
    let same = reset_wheel-add_wheel w e current timeout in
    let (before, after, whole, others, at, rest) = unspoke_split index framed hit in
    let left : Behind w (unspoke w e).spokes e current timeout (reset_wheel w e current timeout) =
      subst (Behind w (unspoke w e).spokes e current timeout) (sym same)
        (s, inside, moved, subst (λ w'. total w'.spokes ≡ total w.spokes) same many, sy', now') in
    (
      before,
      after,
      whole,
      others,
      at,
      subst (λ l. Behind w l e current timeout (reset_wheel w e current timeout)) rest left,
    )
