-- ===== src/Timer/Edit.antt =====
-- timer.c: `zx_timer_del` and `zx_timer_reset`. The handle is an element's address; `none` stands
-- for a handle that is no element of the timer, where the code reads freed or foreign memory.
use clibrary.Base.{
  ℕ, ◌/◌, ◌%◌, ◌^◌, Bool, true, false, Option, none, some, List, [], ◌∷◌, ◌++◌, get_or, set, ltb,
  ◌==◌, if◌then◌else◌, ulong_max, add64,
}
use clibrary.Timer.{
  Elem, TimerQueue, TimerWheel, timer_queue, timer_wheel, Timer, uncounted, start_wheel, spoke_of,
  insert_spoke,
}

-- The element behind a handle.
unfoldable pub find : ℕ → List Elem → Option Elem
find a [] = none
find a (e ∷ es) = if e.address == a then some e else find a es

unfoldable pub find_spoke : ℕ → List (List Elem) → Option Elem
find_spoke a [] = none
find_spoke a (es ∷ ess) = elim (find a es) [ some e ↦ some e | none ↦ find_spoke a ess ]

-- `TAILQ_REMOVE`
unfoldable pub remove : ℕ → List Elem → List Elem
remove a [] = []
remove a (e ∷ es) = if e.address == a then es else e ∷ remove a es

-- The last element's time, or -1 for none.
unfoldable pub last_expire : List Elem → ℕ
last_expire [] = ulong_max
last_expire (e ∷ []) = e.expire
last_expire (e ∷ e' ∷ es) = last_expire (e' ∷ es)

unfoldable pub unqueue : TimerQueue → ℕ → TimerQueue
unfolding remove last_expire
unqueue q a =
    let es = remove a q.queue in record q { queue = es; last_expire_time = last_expire es }

unfoldable pub unspoke : TimerWheel → Elem → TimerWheel
unfolding remove
unspoke w e = record w {
  spokes = set w.spokes e.cursor (remove e.address (get_or w.spokes e.cursor []));
}

-- The calls of a `callback` that is not NULL.
abbrev pub called : ℕ → ℕ → List (ℕ × ℕ)
called callback para = if callback == 0 then [] else (callback, para) ∷ []

-- The timer, the result (the element's time), and the call made.
unfoldable pub del : Timer → ℕ → ℕ → ℕ → Option (Timer × ℕ × List (ℕ × ℕ))
unfolding find find_spoke unqueue unspoke
del t index callback para = elim t.body [
  | timer_queue q ↦ elim (find index q.queue) [
    | none ↦ none
    | some e ↦ some (
      uncounted (record t { body = timer_queue (unqueue q index) }),
      e.expire,
      called callback para,
    )
  ]
  | timer_wheel w ↦ elim (find_spoke index w.spokes) [
    | none ↦ none
    | some e ↦
        some (
          uncounted (record t { body = timer_wheel (unspoke w e) }),
          e.expire,
          called callback para,
        )
  ]
]

unfoldable pub reset_queue : TimerQueue → Elem → ℕ → ℕ → TimerQueue × Bool
unfolding unqueue
reset_queue q e current timeout =
    let q' = unqueue q e.address in
    let expire = add64 current timeout in
    if ltb expire q'.last_expire_time then (q', false) else (
      record q' {
        last_expire_time = expire;
        queue = q'.queue ++ record e { expire = expire } ∷ [];
      },
      true,
    )

unfoldable pub reset_wheel : TimerWheel → Elem → ℕ → ℕ → TimerWheel
unfolding unspoke start_wheel
reset_wheel w e current timeout =
    let w' = start_wheel (unspoke w e) current in
    let cursor = spoke_of w' current timeout in
    insert_spoke w' cursor (record e {
      expire = add64 current timeout;
      rotation_cnt = timeout / w'.wheel_size % 2 ^ 32;
      cursor = cursor;
    })

-- The timer, and whether the result is 0 (or else -1).
unfoldable pub reset : Timer → ℕ → ℕ → ℕ → Option (Timer × Bool)
unfolding find find_spoke reset_queue reset_wheel
reset t index current timeout = elim t.body [
  | timer_queue q ↦ elim (find index q.queue) [
    | none ↦ none
    | some e ↦
        let (q', done) = reset_queue q e current timeout in
        some (record t { body = timer_queue q' }, done)
  ]
  | timer_wheel w ↦ elim (find_spoke index w.spokes) [
    | none ↦ none
    | some e ↦ some (record t { body = timer_wheel (reset_wheel w e current timeout) }, true)
  ]
]
