-- ===== src/Timer/Agenda/Bag.antt =====
-- timer.c: what the visits of a wheel, and the changes of a spoke, do to its agenda.
use mathlib.Core.List.{Perm, perm_append_comm, perm_middle, perm_append_singleton, map-append}
use mathlib.Core.List.Perm
use mathlib.Core.Path.{subst}
use mathlib.Core.Option.{none-ne-some}
use clibrary.Base.{
  ℕ, zero, suc, ◌<◌, ◌≡◌, ◌≢◌, inl, inr, sym, Bool-cases, none, some, List, [], ◌∷◌, ◌++◌, length,
  get_or, set, map, All, append-nil, append_assoc, arith, leb, ◌==◌, add64,
}
use clibrary.Timer.{Elem, TimerWheel}
use clibrary.Timer.Check.{visit_spoke, tick, ticks}
use clibrary.Timer.Edit.{find, remove}
use clibrary.Timer.Count.{IsFramed}
use clibrary.Timer.Count.Ticks.{tick_lem}
use clibrary.Timer.Count.Spokes.{find_rest, find_hit}
use clibrary.Timer.Agenda.{Due, due_of, agenda}

-- The parts of a bag in another order.
swap_last : (a b c : List Due) → Perm (a ++ b ++ c) (a ++ c ++ b)
swap_last a b c =
    subst (λ l. Perm l (a ++ c ++ b)) (sym (append_assoc a b c))
      (subst (λ l. Perm (a ++ (b ++ c)) l) (sym (append_assoc a c b))
        (Perm.append_left a (perm_append_comm b c)))

-- A spoke that gains `y` and loses `x`.
pub set-Perm :
    (ess : List (List Elem)) (i : ℕ) (es : List Elem) (x y : List Due)
    → i < length ess
    → Perm (map due_of es ++ x) (map due_of (get_or ess i []) ++ y)
    → Perm (agenda (set ess i es) ++ x) (agenda ess ++ y)
set-Perm [] i es x y lt h = absurd (omega arith)
set-Perm (e ∷ ess) zero es x y lt h =
    Perm.trans (swap_last (map due_of es) (agenda ess) x)
      (Perm.trans (Perm.append_right (agenda ess) h) (swap_last (map due_of e) y (agenda ess)))
set-Perm (e ∷ ess) (suc i) es x y lt h =
    let rest = set-Perm ess i es x y (omega arith) h in
    subst (λ l. Perm l (map due_of e ++ agenda ess ++ y))
      (sym (append_assoc (map due_of e) (agenda (set ess i es)) x))
      (subst (λ l. Perm (map due_of e ++ (agenda (set ess i es) ++ x)) l)
        (sym (append_assoc (map due_of e) (agenda ess) y)) (Perm.append_left (map due_of e) rest))

-- A visit loses what it fires.
visit_spoke-Perm :
    (most count : ℕ) (es : List Elem)
    → let v = visit_spoke most count es in
      Perm (map due_of v.kept ++ map due_of v.fired) (map due_of es)
unfolding visit_spoke
visit_spoke-Perm most count [] = Perm.nil
visit_spoke-Perm most count (e ∷ es) = elim (Bool-cases (e.rotation_cnt == 0)) [
  | inr more ↦ rw more (Perm.cons (due_of e) (visit_spoke-Perm most count es))
  | inl last ↦ elim (Bool-cases (leb most count)) [
    | inl stop ↦
        rw (last, stop)
          (Perm.cons (due_of e) (rw (append-nil (map due_of es)) (Perm.refl (map due_of es))))
    | inr go ↦
        rw (last, go)
          (Perm.trans
            (perm_middle (map due_of (visit_spoke most (add64 count 1) es).kept)
              (map due_of (visit_spoke most (add64 count 1) es).fired))
            (Perm.cons (due_of e) (visit_spoke-Perm most (add64 count 1) es)))
  ]
]

tick-Perm :
    (most count : ℕ) {w : TimerWheel}
    → IsFramed w
    → let out = tick most count w in
      Perm (agenda out.wheel.spokes ++ map due_of out.fired) (agenda w.spokes)
unfolding tick
tick-Perm most count {w} f =
    let i = w.spoke_index in
    let es = get_or w.spokes i [] in
    let v = visit_spoke most count es in
    let step : Perm (agenda (set w.spokes i v.kept) ++ map due_of v.fired) (agenda w.spokes ++ []) =
      set-Perm w.spokes i v.kept (map due_of v.fired) [] (omega (arith, f.index_in, f.all_spokes))
        (rw (append-nil (map due_of es)) (visit_spoke-Perm most count es)) in
    let all =
      subst (Perm (agenda (set w.spokes i v.kept) ++ map due_of v.fired))
        (append-nil (agenda w.spokes)) step in
    elim (Bool-cases v.full) [ inl k ↦ rw k all | inr k ↦ rw k all ]

pub ticks-Perm :
    (n most count : ℕ) {w : TimerWheel}
    → IsFramed w
    → let out = ticks n most count w in
      Perm (agenda out.wheel.spokes ++ map due_of out.fired) (agenda w.spokes)
unfolding ticks
ticks-Perm zero most count {w} f = rw (append-nil (agenda w.spokes)) (Perm.refl (agenda w.spokes))
ticks-Perm (suc n) most count {w} f =
    let now = tick most count w in
    let later = ticks n most now.count now.wheel in
    let one = tick-Perm most count f in
    elim (Bool-cases now.full) [
      | inl stop ↦ rw stop one
      | inr go ↦
          let rest = ticks-Perm n most now.count (tick_lem most count f).0 in
          let kept = agenda later.wheel.spokes in
          rw (go, map-append due_of now.fired later.fired)
            (Perm.trans
              (Perm.append_left kept
                (perm_append_comm (map due_of now.fired) (map due_of later.fired)))
              (subst (λ l. Perm l (agenda w.spokes))
                (append_assoc kept (map due_of later.fired) (map due_of now.fired))
                (Perm.trans (Perm.append_right (map due_of now.fired) rest) one)))
    ]

-- `TAILQ_REMOVE` of an element that is found.
pub remove-Perm :
    (a : ℕ) (es : List Elem) {e : Elem}
    → find a es ≡ some e
    → Perm (map due_of (remove a es) ++ due_of e ∷ []) (map due_of es)
unfolding find remove
remove-Perm a [] h = absurd (none-ne-some _ h)
remove-Perm a (x ∷ es) {e} h = elim (Bool-cases (x.address == a)) [
  | inl k ↦ rw k (
      subst (λ y. Perm (map due_of es ++ due_of e ∷ []) (due_of y ∷ map due_of es))
        (sym (find_hit a x es k h)) (perm_append_singleton (due_of e) (map due_of es)))
  | inr k ↦ rw k (Perm.cons (due_of x) (remove-Perm a es (find_rest a x es k h)))
]

-- A handle that is not found is no event's.
pub find-none :
    (a : ℕ) (es : List Elem) → find a es ≡ none → All (λ d. d.address ≢ a) (map due_of es)
unfolding find
find-none a [] h = tt
find-none a (x ∷ es) h = elim (Bool-cases (x.address == a)) [
  | inl k ↦ absurd (none-ne-some _ (sym (rw k at h)))
  | inr k ↦ (λ p. ground arith, find-none a es (find_rest a x es k h))
]
