-- ===== src/Timer.antt =====
-- timer.h and timer.c: the two kinds of timer, and every call on them. A queue of elements
-- (queue.h) is the list of its elements from first to last. Pointers (an element's address, a
-- callback, an event) are numbers, 0 for NULL; `malloc` hands `zx_timer_add` the address that is
-- its argument here.
pub mod Check
pub mod Edit
pub mod Queue
pub mod Wheel
pub mod Count
pub mod Destroy
pub mod Agenda
mod Tests
use clibrary.Base.{
  ℕ, zero, suc, ◌+◌, ◌*◌, ◌/◌, ◌%◌, ◌^◌, Bool, true, false, not, ◌||◌, Option, none, some, List, [],
  ◌∷◌, ◌++◌, get_or, set, replicate, ltb, leb, ◌==◌, if◌then◌else◌, ulong_max, add64, sub64,
}

-- `timer_elem_t`. `rotation_cnt` is an int, held as its bit pattern.
pub record Elem : Type 0 where
  pub address : ℕ
  pub expire : ℕ
  pub rotation_cnt : ℕ
  pub cursor : ℕ
  pub callback : ℕ
  pub event : ℕ

-- `timer_queue_t`
pub record TimerQueue : Type 0 where
  pub last_expire_time : ℕ
  pub queue : List Elem

-- `timer_wheel_t`
pub record TimerWheel : Type 0 where
  pub wheel_size : ℕ
  pub create_time : ℕ
  pub spoke_index : ℕ
  pub last_check_relative_tick : ℕ
  pub spokes : List (List Elem)

-- The `type` field and the union that goes with it.
pub data Body : Type 0 where
  timer_queue : TimerQueue → Body
  timer_wheel : TimerWheel → Body

-- `zx_timer_inner_t`
pub record Timer : Type 0 where
  pub body : Body
  pub elem_cnt : ℕ
  pub mem_ocupy : ℕ

-- The sizes of `zx_timer_inner_t`, `timer_elem_t` and `struct TQ` under LP64.
abbrev pub sizeof_timer : ℕ
sizeof_timer = 64

abbrev pub sizeof_elem : ℕ
sizeof_elem = 48

abbrev pub sizeof_head : ℕ
sizeof_head = 16

abbrev pub max_wheel_size : ℕ
max_wheel_size = 10000

-- `zx_timer_create`; `none` is the NULL that it returns.
unfoldable pub create : ℕ → ℕ → Option Timer
create wheel_size tm_type =
    if tm_type == 0
    then some (record {
      body = timer_queue (record { last_expire_time = ulong_max; queue = [] });
      elem_cnt = 0;
      mem_ocupy = sizeof_timer;
    })
    else if tm_type == 1
    then if (wheel_size == 0) || ltb max_wheel_size wheel_size
      then none
      else some (record {
        body = timer_wheel (record {
          wheel_size = wheel_size;
          create_time = ulong_max;
          spoke_index = 0;
          last_check_relative_tick = ulong_max;
          spokes = replicate wheel_size [];
        });
        elem_cnt = 0;
        mem_ocupy = add64 sizeof_timer (sizeof_head * wheel_size);
      })
    else none

-- One element more, and one fewer, in the timer's statistics.
abbrev pub counted : Timer → Timer
counted t = record t { elem_cnt = add64 t.elem_cnt 1; mem_ocupy = add64 t.mem_ocupy sizeof_elem }

abbrev pub uncounted : Timer → Timer
uncounted t = record t { elem_cnt = sub64 t.elem_cnt 1; mem_ocupy = sub64 t.mem_ocupy sizeof_elem }

-- The first `add` or `reset` starts a wheel: its time is the relative time 0.
pub start_wheel : TimerWheel → ℕ → TimerWheel
start_wheel w current =
    if w.last_check_relative_tick == ulong_max
    then record w { create_time = current; spoke_index = 0; last_check_relative_tick = 0 }
    else w

-- The spoke for a timeout, and the element's place in the wheel.
abbrev pub spoke_of : TimerWheel → ℕ → ℕ → ℕ
spoke_of w current timeout =
    add64 (sub64 current w.create_time) (timeout % w.wheel_size) % w.wheel_size

abbrev pub insert_spoke : TimerWheel → ℕ → Elem → TimerWheel
insert_spoke w cursor e = record w {
  spokes = set w.spokes cursor (get_or w.spokes cursor [] ++ e ∷ []);
}

pub add_queue : TimerQueue → ℕ → ℕ → Elem → Option TimerQueue
add_queue q current timeout e =
    let expire = add64 current timeout in
    if ltb expire q.last_expire_time
    then none
    else some (record q {
      last_expire_time = expire;
      queue = q.queue ++ record e { expire = expire } ∷ [];
    })

pub add_wheel : TimerWheel → ℕ → ℕ → Elem → TimerWheel
unfolding start_wheel
add_wheel w current timeout e =
    let w' = start_wheel w current in
    let cursor = spoke_of w' current timeout in
    insert_spoke w' cursor (record e {
      expire = add64 current timeout;
      rotation_cnt = timeout / w'.wheel_size % 2 ^ 32;
      cursor = cursor;
    })

-- The element that `zx_timer_add` allocates, before its times are set.
abbrev pub fresh : ℕ → ℕ → ℕ → Elem
fresh callback event address = record {
  address = address;
  expire = 0;
  rotation_cnt = 0;
  cursor = 0;
  callback = callback;
  event = event;
}

-- `zx_timer_add`: the timer, and what goes through `index`; `none` (NULL) goes with the result -1,
-- an address with 0.
unfoldable pub add : Timer → ℕ → ℕ → ℕ → ℕ → ℕ → Timer × Option ℕ
add t current timeout callback event address = elim t.body [
  | timer_queue q ↦ elim (add_queue q current timeout (fresh callback event address)) [
    | none ↦ (t, none)
    | some q' ↦ (counted (record t { body = timer_queue q' }), some address)
  ]
  | timer_wheel w ↦
      let w' = add_wheel w current timeout (fresh callback event address) in
      (counted (record t { body = timer_wheel w' }), some address)
]

unfoldable pub timer_count : Timer → ℕ
timer_count t = t.elem_cnt

unfoldable pub timer_memsize : Timer → ℕ
timer_memsize t = t.mem_ocupy
