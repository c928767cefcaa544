-- ===== src/Timer/Agenda/Parts.antt =====
-- timer.c: the parts of an agenda that a check fires and keeps, and the changes of it by the other
-- calls.
use mathlib.Core.List.{Perm, perm_append_singleton, filter-append, map-append}
use mathlib.Core.List.Perm
use mathlib.Core.Path.{subst}
use mathlib.Core.Option.{none-ne-some}
use native.Mathlib.Decide.{dec_lt, dec_le}
use clibrary.Base.{
  ℕ, ◌≤◌, ◌<◌, ◌≡◌, ◌≢◌, refl, sym, ap₂, ◌∙◌, Option, none, some, List, [], ◌∷◌, ◌++◌, length,
  get_or, set, map, All, All-append, append-nil, arith,
}
use clibrary.Timer.{Elem, TimerWheel}
use clibrary.Timer.Edit.{find, find_spoke, remove, unspoke}
use clibrary.Timer.Count.{IsFramed}
use clibrary.Timer.Count.Spokes.{find_spoke_lem, find-address}
use clibrary.Timer.Agenda.{Due, due_of, agenda, expired, pending}
use clibrary.Timer.Agenda.Bag.{set-Perm, remove-Perm, find-none}

expired-Early :
    (now : ℕ) (ds : List Due)
    → All (λ d. d.expire < now) ds
    → (expired now ds ≡ ds) × (pending now ds ≡ [])
expired-Early now [] h = (refl, refl)
expired-Early now (d ∷ ds) h = let rest = expired-Early now ds h.1 in ground (arith, rest)

expired-Late :
    (now : ℕ) (ds : List Due)
    → All (λ d. now ≤ d.expire) ds
    → (expired now ds ≡ []) × (pending now ds ≡ ds)
expired-Late now [] h = (refl, refl)
expired-Late now (d ∷ ds) h = let rest = expired-Late now ds h.1 in ground (arith, rest)

-- A bag in two parts, the late and the early.
pub parts-Perm :
    (now : ℕ) (kept fired ds : List Due)
    → Perm (kept ++ fired) ds
    → All (λ d. now ≤ d.expire) kept
    → All (λ d. d.expire < now) fired
    → Perm fired (expired now ds) × Perm kept (pending now ds)
parts-Perm now kept fired ds p late early =
    let (ek, pk) = expired-Late now kept late in
    let (ef, pf) = expired-Early now fired early in
    let first : expired now (kept ++ fired) ≡ fired =
      filter-append (λ d. dec_lt d.expire now) kept fired ∙ ap₂ (λ a b. a ++ b) ek ef in
    let second : pending now (kept ++ fired) ≡ kept =
      filter-append (λ d. dec_le now d.expire) kept fired
      ∙ ap₂ (λ a b. a ++ b) pk pf
      ∙ append-nil kept in
    (
      subst (λ l. Perm l (expired now ds)) first (Perm.filter _ p),
      subst (λ l. Perm l (pending now ds)) second (Perm.filter _ p),
    )

-- `zx_timer_del` takes one event out.
pub unspoke-Perm :
    (a : ℕ) (w : TimerWheel) {e : Elem}
    → IsFramed w
    → find_spoke a w.spokes ≡ some e
    → Perm (agenda w.spokes) (due_of e ∷ agenda (unspoke w e).spokes) × (e.address ≡ a)
unfolding unspoke
unspoke-Perm a w {e} f h =
    let (i, place, inside, hit) = find_spoke_lem a w.spokes 0 f.placed h in
    let at : e.cursor ≡ i = omega (arith, place) in
    let same : e.address ≡ a = find-address a (get_or w.spokes i []) hit in
    let es = get_or w.spokes i [] in
    let p =
      set-Perm w.spokes i (remove a es) (due_of e ∷ []) [] inside
        (rw (append-nil (map due_of es)) (remove-Perm a es hit)) in
    let out : Perm (agenda (set w.spokes i (remove a es)) ++ due_of e ∷ []) (agenda w.spokes) =
      subst (Perm _) (append-nil (agenda w.spokes)) p in
    (
      subst
          (λ c.
            Perm (agenda w.spokes)
              (due_of e ∷ agenda (set w.spokes c (remove e.address (get_or w.spokes c [])))))
          (sym at)
          (subst (λ x. Perm (agenda w.spokes) (due_of e ∷ agenda (set w.spokes i (remove x es))))
            (sym same) (Perm.trans (Perm.symm out) (perm_append_singleton (due_of e) _))),
      same,
    )

neither :
    (o r : Option Elem)
    → elim o as (λ x. Option Elem) [ none ↦ r | some x ↦ some x ] ≡ none
    → (o ≡ none) × (r ≡ none)
neither none r h = (refl, h)
neither (some x) r h = absurd (none-ne-some _ (sym h))

pub find_spoke-none :
    (a : ℕ) (ess : List (List Elem))
    → find_spoke a ess ≡ none
    → All (λ d. d.address ≢ a) (agenda ess)
unfolding find_spoke
find_spoke-none a [] h = tt
find_spoke-none a (es ∷ ess) h =
    let (here, there) = neither (find a es) (find_spoke a ess) h in
    All-append (λ d. d.address ≢ a) (map due_of es) (agenda ess) (find-none a es here)
      (find_spoke-none a ess there)

-- `zx_timer_add` brings one in.
pub insert-Perm :
    (ess : List (List Elem)) (i : ℕ) (e : Elem)
    → i < length ess
    → Perm (agenda (set ess i (get_or ess i [] ++ e ∷ []))) (due_of e ∷ agenda ess)
insert-Perm ess i e lt =
    let es = get_or ess i [] in
    let p =
      set-Perm ess i (es ++ e ∷ []) [] (due_of e ∷ []) lt (
        rw (append-nil (map due_of (es ++ e ∷ [])), map-append due_of es (e ∷ [])) (Perm.refl _)) in
    subst (λ l. Perm l (due_of e ∷ agenda ess)) (append-nil _)
      (Perm.trans p (perm_append_singleton (due_of e) (agenda ess)))
