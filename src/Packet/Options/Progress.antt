-- ===== src/Packet/Options/Progress.antt =====
-- tcp.c: how the loop of `decode_tcp_options` ends, on any bytes.
use clibrary.Base.{
  ℕ, zero, suc, ◌+◌, ◌≤◌, ◌<◌, ◌≡◌, ◌≢◌, ◌⊎◌, refl, sym, ap, ◌∙◌, ◌==◌, ◌&&◌, inl, inr, Bool-cases,
  some, List, length, get_elem?, get_elem?-lt, min, arith, ltb,
}
use mathlib.Core.Path.{subst}
use clibrary.Packet.{Packet, max_tcpoptlen}
use clibrary.Packet.Result.{Result, ok, fault, no_fuel, Result-cases}
use clibrary.Packet.Options.{
  add, skip, judge, stop, go, options_step, options_loop, decode_tcp_options,
}
use clibrary.Packet.Options.Overrun.{zero_length_option}

-- Where the options stand, counted from the first: a kind below 2 is a byte alone, and any other has
-- its length in the byte behind it.
pub data OptionAt (mem : List ℕ) (start : ℕ) : ℕ → Type 0 where
  first : OptionAt mem start 0
  alone :
      {d c : ℕ}
      → OptionAt mem start d
      → get_elem? mem (start + d) ≡ some c
      → c < 2
      → OptionAt mem start (d + 1)
  sized :
      {d c len : ℕ}
      → OptionAt mem start d
      → get_elem? mem (start + d) ≡ some c
      → 1 < c
      → get_elem? mem (start + d + 1) ≡ some len
      → OptionAt mem start (d + len)

-- An option of kind 5 in the options area has the length byte 0.
pub record Empty (mem : List ℕ) (start len : ℕ) : Type 0 where
  pub depth : ℕ
  pub option : OptionAt mem start depth
  pub inside : depth < len
  pub kind : get_elem? mem (start + depth) ≡ some 5
  pub length : get_elem? mem (start + depth + 1) ≡ some 0

module _ (mem : List ℕ) (at len depth c : ℕ) where
  judge-add :
      {jmp opt_len : ℕ}
      → (c ≡ 5 → get_elem? mem (at + 1) ≢ some 0)
      → judge mem at len depth c ≡ ok (add jmp opt_len)
      → 0 < jmp
  unfolding judge
  judge-add ne h = ground (arith, ne)

  judge-skip : {jmp : ℕ} → judge mem at len depth c ≡ ok (skip jmp) → len < jmp
  unfolding judge
  judge-skip h = ground arith

  judge-ne-no_fuel : judge mem at len depth c ≢ no_fuel
  unfolding judge
  judge-ne-no_fuel h = ground arith

-- A round that does not end the loop moves it on by a byte at least: past the area where it adds no
-- option, and by one option where it adds one.
module _ (mem : List ℕ) (start len depth : ℕ) (p : Packet) where
  step-go :
      {jmp : ℕ} {p' : Packet}
      → (get_elem? mem (start + depth) ≡ some 5 → get_elem? mem (start + depth + 1) ≢ some 0)
      → options_step mem start len depth p ≡ ok (go jmp p')
      → (p'.tcpopt_count ≡ p.tcpopt_count) × (len < jmp)
        ⊎ (0 < jmp) × (p'.tcpopt_count ≡ p.tcpopt_count + 1) × (p'.tcpopt_count ≤ max_tcpoptlen)
  unfolding options_step
  step-go {jmp} {p'} ne h = ground (arith, ne)

  step-adds :
      {jmp : ℕ} {p' : Packet}
      → options_step mem start len depth p ≡ ok (go jmp p')
      → (p'.tcpopt_count ≡ p.tcpopt_count) × (len < jmp)
        ⊎ (p'.tcpopt_count ≡ p.tcpopt_count + 1) × (p'.tcpopt_count ≤ max_tcpoptlen)
  unfolding options_step
  step-adds {jmp} {p'} h = ground arith

  -- The round goes on behind the option, as its own bytes say.
  step-jump :
      {c b jmp : ℕ} {p' : Packet}
      → get_elem? mem (start + depth) ≡ some c
      → get_elem? mem (start + depth + 1) ≡ some b
      → options_step mem start len depth p ≡ ok (go jmp p')
      → (c < 2) × (jmp ≡ 1) ⊎ (1 < c) × (jmp ≡ b)
  unfolding options_step
  step-jump here next h = ground (arith, here, next)

  step-stop : {p' : Packet} → options_step mem start len depth p ≡ ok (stop p') → p' ≡ p
  unfolding options_step
  step-stop h = ground arith

  step-ne-no_fuel : options_step mem start len depth p ≢ no_fuel
  unfolding options_step
  step-ne-no_fuel h = ground arith

  step-inside :
      {jmp : ℕ} {p' : Packet} → options_step mem start len depth p ≡ ok (go jmp p') → depth < len
  unfolding options_step
  step-inside h = ground arith

  step-ne-fault :
      start + len < length mem
      → p.tcpopt_count ≤ depth
      → len ≤ max_tcpoptlen
      → options_step mem start len depth p ≢ fault
  unfolding options_step
  step-ne-fault room few short h = elim (Bool-cases (ltb depth len)) [
    | inr out ↦ ground arith
    | inl inside ↦
        let (c, here) = get_elem?-lt mem (start + depth) (ground arith) in
        let (jmp, next) = get_elem?-lt mem (start + depth + 1) (ground arith) in ground arith
  ]

-- The loop ends on any bytes: a round that goes on adds an option, or leaves the area.
options_loop-returns :
    (fuel : ℕ) (mem : List ℕ) (start len depth : ℕ) (p : Packet)
    → (max_tcpoptlen + 2 ≤ fuel + min p.tcpopt_count max_tcpoptlen) ⊎ (len ≤ depth) × (0 < fuel)
    → options_loop fuel mem start len depth p ≢ no_fuel
unfolding options_loop
options_loop-returns zero mem start len depth p enough e = absurd (omega (arith, enough))
options_loop-returns (suc fuel) mem start len depth p enough e =
    elim (Result-cases (options_step mem start len depth p)) [
      | inr (inl s) ↦ ground (arith, rw (s, options_loop) at e)
      | inr (inr s) ↦ step-ne-no_fuel mem start len depth p s
      | inl (stop p', s) ↦ ground (arith, rw (s, options_loop) at e)
      | inl (go jmp p', s) ↦
          let inside = step-inside mem start len depth p s in
          let adds = step-adds mem start len depth p s in
          options_loop-returns fuel mem start len (depth + jmp) p'
            (elim adds [
              | inl (_, past) ↦ inr (omega arith, omega (arith, enough, inside))
              | inr (more, fits) ↦ inl (omega (arith, enough, inside))
            ])
            (rw (s, options_loop) at e)
    ]

pub decode_tcp_options-ne-no_fuel :
    (mem : List ℕ) (p : Packet) (start len : ℕ) → decode_tcp_options mem p start len ≢ no_fuel
unfolding decode_tcp_options
decode_tcp_options-ne-no_fuel mem p start len e = elim (Bool-cases (ltb max_tcpoptlen len)) [
  | inl long ↦ ground arith
  | inr short ↦
      options_loop-returns (max_tcpoptlen + 2) mem start len 0 p (inl (omega arith)) (rw short at e)
]

-- The loop's results: it returns with no more options than there is room for, or it has written behind
-- the array at an empty option.
abbrev Returned : List ℕ → ℕ → ℕ → Result Packet → Type 0
Returned mem start len r =
    ((p' : Packet) × (r ≡ ok p') × (p'.tcpopt_count ≤ max_tcpoptlen))
    ⊎ Empty mem start len × (r ≡ fault)

-- Behind an option stands the next.
behind :
    {mem : List ℕ} {start depth c b jmp : ℕ}
    → OptionAt mem start depth
    → get_elem? mem (start + depth) ≡ some c
    → get_elem? mem (start + depth + 1) ≡ some b
    → (c < 2) × (jmp ≡ 1) ⊎ (1 < c) × (jmp ≡ b)
    → OptionAt mem start (depth + jmp)
behind {mem} {start} {depth} at here next (inl (low, e)) =
    subst (λ n. OptionAt mem start (depth + n)) (sym e) (alone at here low)
behind {mem} {start} {depth} at here next (inr (high, e)) =
    subst (λ n. OptionAt mem start (depth + n)) (sym e) (sized at here high next)

options_loop-ends :
    (fuel : ℕ) (mem : List ℕ) (start len depth : ℕ) (p : Packet)
    → OptionAt mem start depth
    → start + len < length mem
    → len ≤ max_tcpoptlen
    → p.tcpopt_count ≤ depth
    → len < fuel + min depth len
    → (max_tcpoptlen < fuel + p.tcpopt_count) ⊎ (len ≤ depth)
    → p.tcpopt_count ≤ max_tcpoptlen
    → Returned mem start len (options_loop fuel mem start len depth p)
unfolding options_loop
options_loop-ends zero mem start len depth p at room short few h more fits = absurd (omega arith)
options_loop-ends (suc fuel) mem start len depth p at room short few h more fits =
    elim (Result-cases (options_step mem start len depth p)) [
      | inr (inl e) ↦ absurd (step-ne-fault mem start len depth p room few short e)
      | inr (inr e) ↦ absurd (step-ne-no_fuel mem start len depth p e)
      | inl (stop p', e) ↦
          let same = step-stop mem start len depth p e in
          inl (p', rw (e, options_loop) refl, rw same fits)
      | inl (go jmp p', e) ↦
          let inside = step-inside mem start len depth p e in
          let (c, here) = get_elem?-lt mem (start + depth) (omega arith) in
          let (b, next) = get_elem?-lt mem (start + depth + 1) (omega arith) in
          elim (Bool-cases ((c == 5) && (b == 0))) [
            | inl none_long ↦
                let five : c ≡ 5 = ground arith in
                let empty : b ≡ 0 = ground arith in
                let here' = here ∙ ap some five in
                let next' = next ∙ ap some empty in
                inr (
                  record {
                    depth = depth;
                    option = at;
                    inside = inside;
                    kind = here';
                    length = next';
                  },
                  zero_length_option (suc fuel) mem start len depth p here' next' inside
                      (omega arith) (omega (arith, more)) fits,
                )
            | inr some_long ↦
                let moved =
                  step-go mem start len depth p (λ k l. ground (arith, k, l, here, next)) e in
                rw (e, options_loop)
                  (options_loop-ends fuel mem start len (depth + jmp) p'
                    (behind at here next (step-jump mem start len depth p here next e)) room short
                    (omega (arith, moved)) (omega (arith, moved))
                    (elim moved [
                      | inl (_, past) ↦ inr (omega arith)
                      | inr (_, one, _) ↦ elim more [
                        | inl m ↦ inl (omega (arith, one))
                        | inr o ↦ absurd (omega (arith, inside))
                      ]
                    ])
                    (omega (arith, moved)))
          ]
    ]

-- `decode_tcp_options` on a packet with no options yet, over an area of `len` bytes with one byte
-- of the packet behind it, reads no byte outside the packet and ends. Either it returns and has stored
-- no more options than the array `tcp_option` has places, or one of the options in the area is of
-- kind 5 with the length byte 0, and it has written behind the array.
pub decode_tcp_options-returns :
    (mem : List ℕ) (start len : ℕ) (p : Packet)
    → p.tcpopt_count ≡ 0
    → start + len < length mem
    → Returned mem start len (decode_tcp_options mem p start len)
unfolding decode_tcp_options
decode_tcp_options-returns mem start len p none_yet room =
    elim (Bool-cases (ltb max_tcpoptlen len)) [
      | inl long ↦ rw long (inl (p, refl, omega arith))
      | inr short ↦ rw short (
          options_loop-ends (max_tcpoptlen + 2) mem start len 0 p first room (ground arith)
            (omega arith) (ground arith) (inl (omega arith)) (omega arith))
    ]
