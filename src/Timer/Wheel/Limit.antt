-- ===== src/Timer/Wheel/Limit.antt =====
-- timer.c: `zx_timer_check` on a wheel, where the limit of callbacks stops it.
use clibrary.Base.{
  ℕ, zero, suc, ◌+◌, ◌-◌, ◌%◌, ◌^◌, ◌≤◌, ◌<◌, ◌≡◌, ◌⊎◌, inl, inr, refl, sym, ap, ap₂, ◌++◌, ◌∙◌,
  Bool, true, false, Bool-cases, ltb, arith, ulong_max, add64, sub64, ◌==◌, if◌then◌else◌,
}
use native.Mathlib.Nat.{mod-add-mod, mod-eq_of_lt, mod-eq-sub-mod, mod-lt, add-mod}
use mathlib.Core.Path.{subst}
use mathlib.Core.Bool.{false≢true}
use clibrary.Timer.{TimerWheel}
use clibrary.Timer.Check.{Turned, tick, ticks, check_wheel}
use clibrary.Timer.Wheel.{OnTime}
use clibrary.Timer.Wheel.Check.{IsSynced}
use clibrary.Timer.Wheel.Edit.{OnTime-IsFramed}
use clibrary.Timer.Count.{IsFramed}
use clibrary.Timer.Count.Ticks.{tick_lem}

-- The index behind a tick.
tick-index :
    (most count : ℕ) (w : TimerWheel)
    → let out = tick most count w in
      (out.wheel.create_time ≡ w.create_time)
      × ((out.full ≡ true) × (out.wheel.spoke_index ≡ w.spoke_index)
          ⊎ (out.full ≡ false) × (out.wheel.spoke_index ≡ add64 w.spoke_index 1 % w.wheel_size))
unfolding tick
tick-index most count w = ground arith

one_more :
    (i k size : ℕ) → i < size → size < 2 ^ 64 → (add64 i 1 % size + k) % size ≡ (i + suc k) % size
one_more i k size h small =
    let word : add64 i 1 ≡ i + 1 = omega arith in
    rw word (mod-add-mod (i + 1) size k ∙ ap (λ x. x % size) (omega arith))

-- One tick, and the others unless it was stopped.
ticks-suc :
    (n most count : ℕ) (w : TimerWheel) (b : Bool)
    → (tick most count w).full ≡ b
    → let now = tick most count w in
      let rest = ticks n most now.count now.wheel in
      ticks (suc n) most count w
      ≡ (if b then now else record rest { fired = now.fired ++ rest.fired })
unfolding ticks
ticks-suc n most count w b e =
    let now = tick most count w in
    let rest = ticks n most now.count now.wheel in
    ap (λ c. if c then now else record rest { fired = now.fired ++ rest.fired }) e

-- Where the limit stops the ticks: `k` of them are made, and the next is stopped.
abbrev Stopped : ℕ → ℕ → ℕ → TimerWheel → Turned → Type 0
Stopped n most count w out =
    (k : ℕ) × (k < n)
    × ((ticks k most count w).full ≡ false)
    × (out ≡ ticks (suc k) most count w)
    × (out.wheel.spoke_index ≡ (w.spoke_index + k) % w.wheel_size)
    × (out.wheel.create_time ≡ w.create_time)
    × (out.wheel.wheel_size ≡ w.wheel_size)

ticks-index :
    (n most count : ℕ) (w : TimerWheel)
    → IsFramed w
    → w.wheel_size < 2 ^ 64
    → (ticks n most count w).full ≡ true
    → Stopped n most count w (ticks n most count w)
unfolding ticks
ticks-index zero most count w f small h = absurd (false≢true h)
ticks-index (suc n) most count w f small h =
    let now = tick most count w in
    let rest = ticks n most now.count now.wheel in
    let (created, index) = tick-index most count w in
    let (f', size, _) = tick_lem most count f in
    elim index [
      | inl (stop, same) ↦
          let e = ticks-suc n most count w true stop in
          subst (Stopped (suc n) most count w) (sym e) (
            0,
            omega arith,
            refl,
            sym (ticks-suc zero most count w true stop),
            same ∙ sym (mod-eq_of_lt f.index_in) ∙ ap (λ i. i % w.wheel_size) (omega arith),
            created,
            size,
          )
      | inr (go, next) ↦
          let e = ticks-suc n most count w false go in
          let (k, lt, running, made, at, created', size') =
            ticks-index n most now.count now.wheel f' (omega (arith, size))
              (sym (ap (λ t. t.full) e) ∙ h) in
          subst (Stopped (suc n) most count w) (sym e) (
            suc k,
            omega (arith, lt),
            ap (λ t. t.full) (ticks-suc k most count w false go) ∙ running,
            ap {A = Turned} (λ t. record t { fired = now.fired ++ t.fired }) made
                ∙ sym (ticks-suc (suc k) most count w false go),
            at
                ∙ ap₂ (λ i m. (i + k) % m) next size
                ∙ one_more w.spoke_index k w.wheel_size f.index_in small,
            created' ∙ created,
            size' ∙ size,
          )
    ]

-- Numbers that leave the same remainder are a whole number of rounds apart.
below : (x y m : ℕ) → x < m → y < m → x ≡ (x + y) % m → y ≡ 0
below x y m hx hy e = elim (Bool-cases (ltb (x + y) m)) [
  | inl lt ↦ let plain : x + y < m = ground arith in omega (arith, e ∙ mod-eq_of_lt plain)
  | inr ge ↦
      let over : m ≤ x + y = ground arith in
      let one : x + y - m < m = omega arith in
      omega (arith, e ∙ mod-eq-sub-mod over ∙ mod-eq_of_lt one)
]

whole : (a r m : ℕ) → 0 < m → a % m ≡ (a + r) % m → r % m ≡ 0
whole a r m h e = below (a % m) (r % m) m (mod-lt a h) (mod-lt r h) (e ∙ add-mod a r m)

-- Between two times at which a wheel is on time, its index moves by the ticks between them, up to
-- rounds.
OnTime-round :
    (w u : TimerWheel) (last current k : ℕ)
    → OnTime last w
    → OnTime current u
    → u.create_time ≡ w.create_time
    → u.wheel_size ≡ w.wheel_size
    → u.spoke_index ≡ (w.spoke_index + k) % w.wheel_size
    → last + k ≤ current
    → (current - last - k) % w.wheel_size ≡ 0
OnTime-round w u last current k before behind created size index lt =
    let a = last - w.create_time in
    let r = current - last - k in
    let m = w.wheel_size in
    let there : (a + k) % m ≡ u.spoke_index =
      sym (mod-add-mod a m k) ∙ ap (λ i. (i + k) % m) (sym before.phase) ∙ sym index in
    let here : u.spoke_index ≡ (current - w.create_time) % m =
      behind.phase ∙ ap₂ (λ c n. (current - c) % n) created size in
    let sum : current - w.create_time ≡ a + k + r = omega (arith, before.begun, lt) in
    whole (a + k) r m before.some_spokes (there ∙ here ∙ ap (λ x. x % m) sum)

-- Whether the limit of callbacks stops a check.
abbrev pub stopped : TimerWheel → ℕ → ℕ → Bool
stopped w current most =
    (ticks (sub64 (sub64 current w.create_time) w.last_check_relative_tick) most 0 w).full

-- `zx_timer_check` on a wheel timer that is on time, at a time not before its last check, fewer than
-- 2 ^ 31 ticks after it and below the largest `unsigned long`, where the limit of callbacks stops it:
-- it makes `k` of the ticks since the last check, and is stopped in the next, so that the index goes on
-- by `k`. It fires what these fire, and still notes the current time as that of the last check. If
-- the ticks that are left are no whole number of rounds, the wheel is not on time any more.
pub limit_lem :
    (current most : ℕ) (w : TimerWheel)
    → IsSynced w
    → w.create_time + w.last_check_relative_tick ≤ current
    → current < ulong_max
    → current < w.create_time + w.last_check_relative_tick + 2 ^ 31
    → stopped w current most ≡ true
    → let out = (check_wheel w current most).wheel in
      let last = w.create_time + w.last_check_relative_tick in
      (k : ℕ) × (last + k < current)
      × ((ticks k most 0 w).full ≡ false)
      × ((ticks (suc k) most 0 w).full ≡ true)
      × ((check_wheel w current most).fired ≡ (ticks (suc k) most 0 w).fired)
      × (out.spokes ≡ (ticks (suc k) most 0 w).wheel.spokes)
      × (out.spoke_index ≡ (w.spoke_index + k) % w.wheel_size)
      × (out.create_time + out.last_check_relative_tick ≡ current)
      × (((current - last - k) % w.wheel_size ≡ 0) ⊎ ¬ IsSynced out)
unfolding check_wheel
limit_lem current most w sy from to soon h =
    let n = sub64 (sub64 current w.create_time) w.last_check_relative_tick in
    let (k, lt, running, made, at, created, size) =
      ticks-index n most 0 w (OnTime-IsFramed sy.on_time) (omega (arith, sy.on_time.few_spokes))
        h in
    let last = w.create_time + w.last_check_relative_tick in
    let started : (w.create_time == ulong_max) ≡ false = ground (arith, sy.last_in) in
    let rest : n ≡ current - last = omega (arith, sy.last_in) in
    let now : (ticks n most 0 w).wheel.create_time + sub64 current w.create_time ≡ current =
      omega (arith, created) in
    let behind : TimerWheel = record ((ticks n most 0 w).wheel) {
      last_check_relative_tick = sub64 current w.create_time;
    } in
    rw started (
      k,
      omega (arith, lt, rest),
      running,
      ap (λ t. t.full) (sym made) ∙ h,
      ap (λ t. t.fired) made,
      ap (λ t. t.wheel.spokes) made,
      at,
      now,
      elim (Bool-cases ((current - last - k) % w.wheel_size == 0)) [
        | inl e ↦ inl (ground arith)
        | inr e ↦ inr (λ sy'.
            let round =
              OnTime-round w behind last current k sy.on_time
                (subst (λ t. OnTime t behind) now sy'.on_time) created size at
                (omega (arith, lt, rest)) in
            ground arith)
      ],
    )
