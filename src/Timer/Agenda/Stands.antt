-- ===== src/Timer/Agenda/Stands.antt =====
-- timer.c: a wheel that stands for an agenda, before and behind each call.
use mathlib.Core.List.{Perm, Mem, mem-cons, not-mem-nil}
use mathlib.Core.List.Perm
use mathlib.Core.Logic.Or
use mathlib.Core.HLevel.{⊥_prop}
use mathlib.Core.Path.{subst}
use mathlib.Core.Option.{none-ne-some}
use clibrary.Base.{
  ℕ, zero, suc, ◌+◌, ◌-◌, ◌/◌, ◌^◌, ◌≤◌, ◌<◌, ◌≡◌, ◌≢◌, inl, inr, refl, sym, ap, ◌∙◌, none, some,
  List, [], ◌∷◌, ◌++◌, map, All, length, replicate, arith, length-append, length-replicate, get_or,
  ulong_max,
}
use clibrary.Timer.{Elem, TimerWheel, add_wheel}
use clibrary.Timer.Check.{check_wheel}
use clibrary.Timer.Edit.{find, find_spoke, unspoke, reset_wheel}
use clibrary.Timer.Count.Spokes.{unspoke_lem}
use clibrary.Timer.Wheel.Add.{IsCurrent, timed, add_wheel_lem}
use clibrary.Timer.Wheel.Check.{total, total-set, IsSynced}
use clibrary.Timer.Wheel.Edit.{OnTime-IsFramed, reset_wheel-add_wheel, unspoke-IsSynced}
use clibrary.Timer.Agenda.{Due, due_of, agenda, expired, pending}
use clibrary.Timer.Agenda.Parts.{parts-Perm, unspoke-Perm, find_spoke-none, insert-Perm}
use clibrary.Timer.Agenda.Checks.{IsReady, check_wheel-Checks}

-- A wheel that stands for an agenda at a time, with at most n elements.
pub record Stands (size now n : ℕ) (ds : List Due) (w : TimerWheel) : Type 0 where
  pub ready : IsReady w now
  pub bag : Perm (agenda w.spokes) ds
  pub few : total w.spokes ≤ n
  pub same : w.wheel_size ≡ size

ready-IsCurrent : (w : TimerWheel) (now : ℕ) → IsReady w now → IsCurrent w now
ready-IsCurrent w now (inl h) = inl h
ready-IsCurrent w now (inr (idle, new)) = inr idle

ready-length : (w : TimerWheel) (now : ℕ) → IsReady w now → length w.spokes ≡ w.wheel_size
ready-length w now (inl (sy, at)) = sy.on_time.all_spokes
ready-length w now (inr (idle, new)) =
    ap length idle.no_elements ∙ length-replicate {A = List Elem} w.wheel_size []

find_spoke-replicate : (a n : ℕ) → find_spoke a (replicate n []) ≡ none
unfolding find_spoke find
find_spoke-replicate a zero = refl
find_spoke-replicate a (suc n) = find_spoke-replicate a n

-- A wheel with an element has been started.
found-IsSynced :
    (a now : ℕ) (w : TimerWheel) {e : Elem}
    → IsReady w now
    → find_spoke a w.spokes ≡ some e
    → IsSynced w × (w.create_time + w.last_check_relative_tick ≡ now)
found-IsSynced a now w (inl h) hit = h
found-IsSynced a now w (inr (idle, new)) hit = absurd (
    none-ne-some _
      (sym (ap (find_spoke a) idle.no_elements ∙ find_spoke-replicate a w.wheel_size) ∙ hit))

pub check-Stands :
    (size now n most current : ℕ) (ds : List Due) (w : TimerWheel)
    → Stands size now n ds w
    → now ≤ current
    → current < ulong_max
    → current < now + 2 ^ 31
    → n ≤ most
    → most < 2 ^ 64
    → let out = check_wheel w current most in
      Perm (map due_of out.fired) (expired current ds)
      × Stands size current n (pending current ds) out.wheel
check-Stands size now n most current ds w s from to soon enough small =
    let few = s.few in
    let c = check_wheel-Checks w now current most s.ready from to soon (omega arith) small in
    let (fired, kept) = parts-Perm current _ _ ds (Perm.trans c.bag s.bag) c.late c.early in
    (
      fired,
      record { ready = c.ready; bag = kept; few = omega (arith, c.few); same = c.size ∙ s.same },
    )

pub add-Stands :
    (size now n timeout : ℕ) (e : Elem) (ds : List Due) (w : TimerWheel)
    → Stands size now n ds w
    → now < ulong_max
    → now + timeout < 2 ^ 64
    → timeout / size < 2 ^ 31
    → Stands size now
        (suc n)
        (record {
          address = e.address;
          expire = now + timeout;
          callback = e.callback;
          event = e.event;
        }
          ∷ ds)
        (add_wheel w now timeout e)
add-Stands size now n timeout e ds w s fits time rot =
    let (i, inside, spokes, width, sy, at) =
      add_wheel_lem now timeout e (ready-IsCurrent w now s.ready) fits time (rw (s.same) rot) in
    let old = get_or w.spokes i [] in
    let d : Due = record {
      address = e.address;
      expire = now + timeout;
      callback = e.callback;
      event = e.event;
    } in
    let all = ready-length w now s.ready in
    let inside' : i < length w.spokes = omega arith in
    let few = s.few in
    let many = total-set w.spokes i (old ++ timed w.wheel_size i now timeout e ∷ []) inside' in
    let longer = length-append old (timed w.wheel_size i now timeout e ∷ []) in
    record {
      ready = inl (sy, at);
      bag =
          subst (λ ess. Perm (agenda ess) (d ∷ ds)) (sym spokes)
            (Perm.trans (insert-Perm w.spokes i (timed w.wheel_size i now timeout e) inside')
              (Perm.cons d s.bag));
      few = subst (λ ess. total ess ≤ suc n) (sym spokes) (omega (arith, few, many, longer));
      same = width ∙ s.same;
    }

pub del-Stands :
    (size now n index : ℕ) (ds : List Due) (w : TimerWheel) {e : Elem}
    → Stands size now n ds w
    → find_spoke index w.spokes ≡ some e
    → (e.address ≡ index)
      × Perm ds (due_of e ∷ agenda (unspoke w e).spokes)
      × (0 < n)
      × Stands size now (n - 1) (agenda (unspoke w e).spokes) (unspoke w e)
unfolding unspoke
del-Stands size now n index ds w {e} s hit =
    let (sy, at) = found-IsSynced index now w s.ready hit in
    let framed = OnTime-IsFramed sy.on_time in
    let (bag, same) = unspoke-Perm index w framed hit in
    let fewer = (unspoke_lem index framed hit).1 in
    let few = s.few in
    (
      same,
      Perm.trans (Perm.symm s.bag) bag,
      omega arith,
      record {
        ready = inl (unspoke-IsSynced w e sy, at);
        bag = Perm.refl (agenda (unspoke w e).spokes);
        few = omega arith;
        same = s.same;
      },
    )

pub Stands-le :
    (size now n k : ℕ) (ds : List Due) (w : TimerWheel)
    → k ≤ n
    → Stands size now k ds w
    → Stands size now n ds w
Stands-le size now n k ds w le s =
    let few = s.few in record { ready = s.ready; bag = s.bag; few = omega arith; same = s.same }

-- A reset is a delete and an add.
pub reset-Stands :
    (size now n timeout : ℕ) (e : Elem) (ds : List Due) (w : TimerWheel)
    → Stands size now (n - 1) ds (unspoke w e)
    → 0 < n
    → now < ulong_max
    → now + timeout < 2 ^ 64
    → timeout / size < 2 ^ 31
    → Stands size now n
        (record (due_of e) { expire = now + timeout } ∷ ds)
        (reset_wheel w e now timeout)
reset-Stands size now n timeout e ds w s pos fits time rot =
    subst (Stands size now n (record (due_of e) { expire = now + timeout } ∷ ds))
      (sym (reset_wheel-add_wheel w e now timeout))
      (Stands-le size now n (suc (n - 1)) _ _ (omega arith)
        (add-Stands size now (n - 1) timeout e ds (unspoke w e) s fits time rot))

All-Mem : (a : ℕ) (ds : List Due) {d : Due} → All (λ d. d.address ≢ a) ds → Mem d ds → d.address ≢ a
All-Mem a [] h m e = absurd (not-mem-nil m)
All-Mem a (x ∷ ds) h m e =
    Or.elim ⊥_prop (mem-cons.0 m) (λ k. h.0 (ap (λ d. d.address) (sym k) ∙ e))
      (λ k. All-Mem a ds h.1 k e)

pub none-Stands :
    (size now n index : ℕ) (ds : List Due) (w : TimerWheel)
    → Stands size now n ds w
    → find_spoke index w.spokes ≡ none
    → (d : Due) → Mem d ds
    → d.address ≢ index
none-Stands size now n index ds w s miss d m =
    All-Mem index (agenda w.spokes) (find_spoke-none index w.spokes miss)
      (Perm.subset (Perm.symm s.bag) d m)
