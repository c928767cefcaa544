-- ===== src/Timer/Wheel/Add.antt =====
-- timer.c: `zx_timer_add` on a wheel that is on time.
use clibrary.Base.{
  ℕ, ◌+◌, ◌-◌, ◌/◌, ◌%◌, ◌^◌, ◌≤◌, ◌<◌, ◌≡◌, ◌⊎◌, inl, inr, refl, ap, ap₂, sym, ◌∙◌, true, false,
  List, [], ◌∷◌, ◌++◌, length, length-set, length-replicate, get_or, set, replicate,
  get_or-set_self, get_or-set_ne, get_or-replicate, All-append, arith, ◌==◌, add64, ulong_max,
}
use mathlib.Core.Path.{subst}
use native.Mathlib.Decide.{ℕ_discrete, dec_lt}
use native.Mathlib.Nat.{mod-add-mod, div-add-mod', mod-eq_of_lt, mod-eq-sub-mod}
use clibrary.Timer.{
  Elem, TimerWheel, max_wheel_size, start_wheel, spoke_of, insert_spoke, add_wheel,
}
use clibrary.Timer.Wheel.{ahead, At, OnTime}
use clibrary.Timer.Wheel.Check.{IsSynced}

sum-mod_cases :
    (size i d : ℕ)
    → i < size
    → d < size
    → ((i + d) % size ≡ i + d) × (i + d < size) ⊎ ((i + d) % size + size ≡ i + d)
sum-mod_cases size i d hi hd = elim (dec_lt (i + d) size) [
  | yes p ↦ inl (mod-eq_of_lt p, p)
  | no p ↦ inr (
      omega (
        arith,
        mod-eq-sub-mod {n = i + d} {m = size} (omega arith),
        mod-eq_of_lt {n = i + d - size} {m = size} (omega arith),
      ))
]

-- The spoke that lies `timeout` ticks ahead.
spoke-ahead :
    (size index r td : ℕ)
    → 0 < size
    → td < size
    → index ≡ r % size
    → ahead size index ((r + td) % size) ≡ td
spoke-ahead size index r td h lt e =
    let from : (r + td) % size ≡ (index + td) % size = rw (e, mod-add-mod) in
    rw from (ground (arith, sum-mod_cases size index td))

-- An element added to its spoke keeps a wheel on time.
insert_spoke-OnTime :
    {now : ℕ} {w : TimerWheel} (cursor : ℕ) (e : Elem)
    → OnTime now w
    → cursor < w.wheel_size
    → At w.wheel_size cursor (now + ahead w.wheel_size w.spoke_index cursor) e
    → OnTime now (insert_spoke w cursor e)
insert_spoke-OnTime {now} {w} cursor e ot lt at = record {
  some_spokes = ot.some_spokes;
  few_spokes = ot.few_spokes;
  all_spokes = length-set w.spokes cursor (get_or w.spokes cursor [] ++ e ∷ []) ∙ ot.all_spokes;
  index_in = ot.index_in;
  begun = ot.begun;
  phase = ot.phase;
  due = λ s h. elim (ℕ_discrete s cursor) [
    | yes same ↦
        rw
          (
            same,
            get_or-set_self w.spokes cursor (get_or w.spokes cursor [] ++ e ∷ []) []
                (omega (arith, ot.all_spokes)),
          )
          (All-append (At w.wheel_size cursor (now + ahead w.wheel_size w.spoke_index cursor))
            (get_or w.spokes cursor []) (e ∷ []) (ot.due cursor lt) (at, tt))
    | no other ↦
        rw
          (get_or-set_ne w.spokes cursor s (get_or w.spokes cursor [] ++ e ∷ []) []
            (λ p. other (sym p)))
          (ot.due s h)
  ];
}

-- A wheel as `zx_timer_create` makes it.
pub record IsIdle (w : TimerWheel) : Type 0 where
  pub unstarted : w.last_check_relative_tick ≡ ulong_max
  pub some_spokes : 0 < w.wheel_size
  pub few_spokes : w.wheel_size ≤ max_wheel_size
  pub no_elements : w.spokes ≡ replicate w.wheel_size []

-- A wheel that is on time now: checked at this very time, or not yet started.
abbrev pub IsCurrent : TimerWheel → ℕ → Type 0
IsCurrent w current = IsSynced w × (w.create_time + w.last_check_relative_tick ≡ current) ⊎ IsIdle w

record Started (w w' : TimerWheel) (current : ℕ) : Type 0 where
  on_time : OnTime current w'
  last : w'.create_time + w'.last_check_relative_tick ≡ current
  size : w'.wheel_size ≡ w.wheel_size
  spokes : w'.spokes ≡ w.spokes

start_wheel-Started :
    (w : TimerWheel) (current : ℕ)
    → current < ulong_max
    → IsCurrent w current
    → Started w (start_wheel w current) current
unfolding start_wheel
start_wheel-Started w current h (inl (sy, at)) =
    let again : (w.last_check_relative_tick == ulong_max) ≡ false = ground (arith, sy.last_in) in
    rw again (record {
      on_time = subst (λ t. OnTime t w) at sy.on_time;
      last = at;
      size = refl;
      spokes = refl;
    })
start_wheel-Started w current h (inr idle) =
    let first : (w.last_check_relative_tick == ulong_max) ≡ true = ground (arith, idle.unstarted) in
    rw first (record {
      on_time = record {
        some_spokes = idle.some_spokes;
        few_spokes = idle.few_spokes;
        all_spokes =
            omega
              (arith, ap length idle.no_elements, length-replicate {A = List Elem} w.wheel_size []);
        index_in = idle.some_spokes;
        begun = omega arith;
        phase = omega (arith, idle.some_spokes);
        due = λ s k. rw (idle.no_elements, get_or-replicate {A = List Elem} w.wheel_size s []) tt;
      };
      last = omega arith;
      size = refl;
      spokes = refl;
    })

-- The element that `zx_timer_add` puts into a wheel.
abbrev pub timed : ℕ → ℕ → ℕ → ℕ → Elem → Elem
timed size cursor current timeout e = record e {
  expire = current + timeout;
  rotation_cnt = timeout / size;
  cursor = cursor;
}

record Placed (u : TimerWheel) (current timeout : ℕ) (e : Elem) : Type 0 where
  lt : spoke_of u current timeout < u.wheel_size
  same :
      record e {
        expire = add64 current timeout;
        rotation_cnt = timeout / u.wheel_size % 2 ^ 32;
        cursor = spoke_of u current timeout;
      }
      ≡ timed u.wheel_size (spoke_of u current timeout) current timeout e
  at :
      At u.wheel_size
        (spoke_of u current timeout)
        (current + ahead u.wheel_size u.spoke_index (spoke_of u current timeout))
        (timed u.wheel_size (spoke_of u current timeout) current timeout e)

spoke_of-Placed :
    (u : TimerWheel) (current timeout : ℕ) (e : Elem)
    → OnTime current u
    → current + timeout < 2 ^ 64
    → timeout / u.wheel_size < 2 ^ 31
    → Placed u current timeout e
spoke_of-Placed u current timeout e ot time rot =
    let size = u.wheel_size in
    let td = timeout % size in
    let some = ot.some_spokes in
    let td_lt : td < size = omega (arith, some) in
    let td_le : td ≤ timeout = omega (arith, some) in
    let r = current - u.create_time in
    let place : spoke_of u current timeout ≡ (r + td) % size =
      ap (λ x. x % size) (omega (arith, ot.begun)) in
    let gap : ahead size u.spoke_index (spoke_of u current timeout) ≡ td =
      rw place (spoke-ahead size u.spoke_index r td some td_lt ot.phase) in
    record {
      lt = omega (arith, some);
      same = ground arith;
      at = record {
        place = refl;
        small = omega arith;
        time = omega (arith, gap, div-add-mod' timeout size);
      };
    }

-- `zx_timer_add` on a wheel timer that is on time at the current time (checked at that very time,
-- or new), which is below the largest `unsigned long`, for a timeout whose rotations fit the
-- field and whose end is no wrapped time: one spoke gains, behind its elements, the new one with
-- the time `current + timeout`; the others stay, and the wheel is on time at the current time.
pub add_wheel_lem :
    (current timeout : ℕ) (e : Elem) {w : TimerWheel}
    → IsCurrent w current
    → current < ulong_max
    → current + timeout < 2 ^ 64
    → timeout / w.wheel_size < 2 ^ 31
    → let w' = add_wheel w current timeout e in
      (s : ℕ) × (s < w.wheel_size)
      × (w'.spokes
          ≡ set w.spokes s (get_or w.spokes s [] ++ timed w.wheel_size s current timeout e ∷ []))
      × (w'.wheel_size ≡ w.wheel_size)
      × IsSynced w'
      × (w'.create_time + w'.last_check_relative_tick ≡ current)
unfolding add_wheel
add_wheel_lem current timeout e {w} cur fits time rot =
    let u = start_wheel w current in
    let st = start_wheel-Started w current fits cur in
    let rot' = subst (λ n. timeout / n < 2 ^ 31) (sym st.size) rot in
    let p = spoke_of-Placed u current timeout e st.on_time time rot' in
    let c = spoke_of u current timeout in
    let e' = timed u.wheel_size c current timeout e in
    (
      c,
      omega (arith, p.lt, st.size),
      ap (λ x. set u.spokes c (get_or u.spokes c [] ++ x ∷ [])) p.same
          ∙ ap₂ (λ ss n. set ss c (get_or ss c [] ++ timed n c current timeout e ∷ [])) st.spokes
              st.size,
      st.size,
      record {
        last_in = omega (arith, st.last);
        on_time =
            subst (λ t. OnTime t (add_wheel w current timeout e)) (sym st.last)
              (subst (λ x. OnTime current (insert_spoke u c x)) (sym p.same)
                (insert_spoke-OnTime c e' st.on_time p.lt p.at));
      },
      st.last,
    )
