-- ===== src/Timer/Queue.antt =====
-- timer.c: what a queue timer fires, and what it accepts.
use clibrary.Base.{
  ℕ, ◌+◌, ◌≤◌, ◌<◌, ◌^◌, ◌≡◌, ◌≢◌, ◌⊎◌, inl, inr, refl, ap, true, false, Bool-cases, none, some,
  List, [], ◌∷◌, ◌++◌, length, All, All-append, All-map, arith, ltb, leb, ◌==◌, add64, ulong_max,
}
use mathlib.Core.Path.{subst}
use clibrary.Timer.{Elem, TimerQueue, timer_queue, Timer, add_queue, add}
use clibrary.Timer.Check.{Visit, visit_queue}
use clibrary.Timer.Edit.{remove, last_expire, unqueue, reset_queue}

-- In the order of their times.
abbrev pub IsSorted : List Elem → Type 0
IsSorted [] = Unit {0}
IsSorted (e ∷ es) = All (λ x. e.expire ≤ x.expire) es × IsSorted es

-- What a check of a queue fires: the front of it, all of it due, and no more than the limit. It
-- stops at the limit, or where nothing that is left is due.
pub record Front (most current count : ℕ) (es : List Elem) (v : Visit) : Type 0 where
  split : v.fired ++ v.kept ≡ es
  pub counted : v.count ≡ count + length v.fired
  pub limit : v.count ≤ most
  pub due : All (λ e. e.expire ≤ current) v.fired
  pub rest : (v.count ≡ most) ⊎ All (λ e. current < e.expire) v.kept

-- `zx_timer_check` on a queue in the order of its times calls back the front of it: elements that
-- are due, at most `most` of them with those called before, and all that are due unless that
-- limit is met. The calls made before are no more than `most`, an `unsigned long`. What it keeps
-- is the rest, in its order, and its result counts the calls.
pub visit_queue-Front :
    (most current count : ℕ) (es : List Elem)
    → IsSorted es
    → count ≤ most
    → most < 2 ^ 64
    → Front most current count es (visit_queue most current count es)
unfolding visit_queue
visit_queue-Front most current count [] so h small = ground arith
visit_queue-Front most current count (e ∷ es) so h small = elim (Bool-cases (leb most count)) [
  | inl stop ↦ rw stop (record {
    split = refl;
    counted = omega arith;
    limit = h;
    due = tt;
    rest = inl (ground arith);
  })
  | inr go ↦ elim (Bool-cases (ltb current e.expire)) [
    | inl early ↦
        rw (go, early)
          (record {
            split = refl;
            counted = omega arith;
            limit = h;
            due = tt;
            rest = inr (
              ground arith,
              All-map (λ x. e.expire ≤ x.expire) (λ x. current < x.expire) (λ x k. ground arith) es
                  so.0,
            );
          })
    | inr now ↦
        let more : count < most = ground arith in
        let one : add64 count 1 ≡ count + 1 = omega arith in
        let r = visit_queue-Front most current (add64 count 1) es so.1 (omega arith) small in
        rw (go, now)
          (record {
            split = ap (λ q. e ∷ q) r.split;
            counted = omega (arith, r.counted);
            limit = r.limit;
            due = (ground arith, r.due);
            rest = r.rest;
          })
  ]
]

-- The calls that change a queue timer's queue, from the one that `zx_timer_create` makes: the
-- element of a `del` or a `reset` is any element at all.
pub data Reach : TimerQueue → Type 0 where
  created : {q : TimerQueue} → q ≡ record { last_expire_time = ulong_max; queue = [] } → Reach q
  added :
      {q q' : TimerQueue} (current timeout : ℕ) (e : Elem)
      → Reach q
      → add_queue q current timeout e ≡ some q'
      → Reach q'
  deleted : {q q' : TimerQueue} (a : ℕ) → Reach q → q' ≡ unqueue q a → Reach q'
  reset :
      {q q' : TimerQueue} (e : Elem) (current timeout : ℕ)
      → Reach q
      → q' ≡ (reset_queue q e current timeout).0
      → Reach q'
  checked :
      {q q' : TimerQueue} (most current : ℕ)
      → Reach q
      → q' ≡ record q { queue = (visit_queue most current 0 q.queue).kept }
      → Reach q'

-- A queue timer that accepts no time but the largest.
record IsStuck (q : TimerQueue) : Type 0 where
  last : q.last_expire_time ≡ ulong_max
  all : All (λ e. e.expire ≡ ulong_max) q.queue

remove-All : (P : Elem → Type 0) (a : ℕ) (es : List Elem) → All P es → All P (remove a es)
unfolding remove
remove-All P a [] h = tt
remove-All P a (e ∷ es) h = elim (Bool-cases (e.address == a)) [
  | inl same ↦ rw same (h.1)
  | inr other ↦ rw other (h.0, remove-All P a es h.1)
]

last_expire-eq : (es : List Elem) → All (λ e. e.expire ≡ ulong_max) es → last_expire es ≡ ulong_max
unfolding last_expire
last_expire-eq [] h = refl
last_expire-eq (e ∷ []) h = h.0
last_expire-eq (e ∷ e' ∷ es) h = last_expire-eq (e' ∷ es) h.1

kept-All :
    (P : Elem → Type 0) (most current count : ℕ) (es : List Elem)
    → All P es
    → All P (visit_queue most current count es).kept
unfolding visit_queue
kept-All P most current count [] h = tt
kept-All P most current count (e ∷ es) h = elim (Bool-cases (leb most count)) [
  | inl stop ↦ rw stop h
  | inr go ↦ elim (Bool-cases (ltb current e.expire)) [
    | inl early ↦ rw (go, early) h
    | inr now ↦ rw (go, now) (kept-All P most current (add64 count 1) es h.1)
  ]
]

unqueue-IsStuck : (q : TimerQueue) (a : ℕ) → IsStuck q → IsStuck (unqueue q a)
unfolding unqueue
unqueue-IsStuck q a s =
    let all = remove-All (λ e. e.expire ≡ ulong_max) a q.queue s.all in
    record { last = last_expire-eq (remove a q.queue) all; all = all }

abbrev grown : TimerQueue → ℕ → Elem → TimerQueue
grown q expire e = record q {
  last_expire_time = expire;
  queue = q.queue ++ record e { expire = expire } ∷ [];
}

grown-IsStuck :
    (q : TimerQueue) (expire : ℕ) (e : Elem)
    → IsStuck q
    → expire < 2 ^ 64
    → ltb expire q.last_expire_time ≡ false
    → IsStuck (grown q expire e)
grown-IsStuck q expire e s small late =
    let top : expire ≡ ulong_max = ground (arith, s.last) in
    record {
      last = top;
      all =
          All-append (λ x. x.expire ≡ ulong_max) q.queue (record e { expire = expire } ∷ []) s.all
            (top, tt);
    }

Reach-IsStuck : {q : TimerQueue} → Reach q → IsStuck q
unfolding add_queue reset_queue
Reach-IsStuck (created e) = rw e (record { last = refl; all = tt })
Reach-IsStuck (added {q} {q'} current timeout e r same) =
    let expire = add64 current timeout in
    elim (Bool-cases (ltb expire q.last_expire_time)) [
      | inl early ↦ absurd (ground arith)
      | inr late ↦
          let new : grown q expire e ≡ q' = ground arith in
          subst IsStuck new (grown-IsStuck q expire e (Reach-IsStuck r) (omega arith) late)
    ]
Reach-IsStuck (deleted {q} a r same) = rw same (unqueue-IsStuck q a (Reach-IsStuck r))
Reach-IsStuck (reset {q} {q'} e current timeout r same) =
    let expire = add64 current timeout in
    let u = unqueue q e.address in
    let s = unqueue-IsStuck q e.address (Reach-IsStuck r) in
    elim (Bool-cases (ltb expire u.last_expire_time)) [
      | inl early ↦ let new : u ≡ q' = ground arith in subst IsStuck new s
      | inr late ↦
          let new : grown u expire e ≡ q' = ground arith in
          subst IsStuck new (grown-IsStuck u expire e s (omega arith) late)
    ]
Reach-IsStuck (checked {q} most current r same) =
    let s = Reach-IsStuck r in
    rw same (record {
      last = s.last;
      all = kept-All (λ e. e.expire ≡ ulong_max) most current 0 q.queue s.all;
    })

-- However it has been used, a queue timer refuses with -1, and without a change, every event whose
-- time is not the largest `unsigned long`: the mark -1 for an empty queue is that largest value.
pub add-refused :
    {q : TimerQueue} (t : Timer) (current timeout callback event address : ℕ)
    → Reach q
    → t.body ≡ timer_queue q
    → add64 current timeout ≢ ulong_max
    → add t current timeout callback event address ≡ (t, none)
unfolding add add_queue
add-refused {q} t current timeout callback event address r b ne =
    let s = Reach-IsStuck r in
    let early : ltb (add64 current timeout) q.last_expire_time ≡ true = ground (arith, s.last) in
    ground arith
