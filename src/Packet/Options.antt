-- ===== src/Packet/Options.antt =====
-- tcp.c: `decode_tcp_options`.
pub mod Progress
pub mod Overrun
use clibrary.Base.{
  ℕ, zero, suc, ◌+◌, ◌-◌, ◌%◌, ◌^◌, Bool, true, false, Option, none, some, List, [], ◌∷◌, set, ltb,
  leb, ◌==◌, if◌then◌else◌, add32, sub32,
}
use clibrary.Packet.{Packet, TcpOption, max_tcpoptlen}
use clibrary.Packet.Result.{Result, ok, fault, no_fuel, ◌>>=◌, byte}

-- `tcpopt_len_tbl`: an option's length; `variable` is -1.
pub data Length : Type 0 where
  variable : Length
  fixed : ℕ → Length

unfoldable pub tcpopt_len : ℕ → Length
tcpopt_len c =
    if c == 2
    then fixed 4
    else if c == 3
    then fixed 3
    else if c == 4
    then fixed 2
    else if c == 5
    then variable
    else if c == 6
    then fixed 6
    else if c == 7
    then fixed 6
    else if c == 8
    then fixed 10
    else fixed 0

abbrev tcpopt_max : ℕ
tcpopt_max = 9

-- What the loop does with the option at its position: go on behind it, having added it to the
-- packet or not, or return.
pub data Verdict : Type 0 where
  add : ℕ → ℕ → Verdict  -- jmp_len, opt_len
  skip : ℕ → Verdict
  leave : Verdict

-- The two tests and the `switch` of the loop's body, on the option's first byte.
unfoldable pub judge : List ℕ → ℕ → ℕ → ℕ → ℕ → Result Verdict
unfolding tcpopt_len
judge mem at len depth c =
    if leb tcpopt_max c
    then (if sub32 len depth == 0
        then ok leave
        else (byte mem (at + 1) >>= λ jmp. if ltb len jmp then ok (skip jmp) else ok leave))
    else elim (tcpopt_len c) [
      | variable ↦
          if sub32 len depth == 0
          then ok leave
          else (byte mem (at + 1) >>= λ jmp. ok (add jmp ((jmp + 254) % 256)))
      | fixed n ↦
          if n == 0
          then ok (add 1 0)
          else (if sub32 len depth == 0
              then ok leave
              else (byte mem (at + 1) >>= λ jmp.
                  if jmp == n then ok (add jmp ((jmp + 254) % 256)) else ok leave))
    ]

-- One option more in the packet's array; a write behind its end is a fault.
abbrev pub with_option : Packet → ℕ → ℕ → ℕ → Packet
with_option p c at opt_len = record p {
  tcp_option =
      set p.tcp_option p.tcpopt_count
        (record { kind = c; len = opt_len; value = if opt_len == 0 then none else some (at + 2) });
  tcpopt_count = p.tcpopt_count + 1;
}

unfoldable add_option : Packet → ℕ → ℕ → ℕ → Result Packet
add_option p c at opt_len =
    if ltb p.tcpopt_count max_tcpoptlen then ok (with_option p c at opt_len) else fault

-- One round of the `while`: the end of the loop, or how far it moves on.
pub data Step : Type 0 where
  stop : Packet → Step
  go : ℕ → Packet → Step

-- The loop stands `depth` bytes behind `start`.
unfoldable pub options_step : List ℕ → ℕ → ℕ → ℕ → Packet → Result Step
unfolding judge add_option
options_step mem start len depth p =
    if ltb depth len
    then (byte mem (start + depth) >>= λ c. judge mem (start + depth) len depth c >>= elim [
      | leave ↦ ok (stop p)
      | skip jmp ↦ ok (go jmp p)
      | add jmp opt_len ↦ add_option p c (start + depth) opt_len >>= λ p'. ok (go jmp p')
    ])
    else ok (stop p)

-- The `while`, on fuel.
unfoldable pub options_loop : ℕ → List ℕ → ℕ → ℕ → ℕ → Packet → Result Packet
options_loop zero mem start len depth p = no_fuel
options_loop (suc fuel) mem start len depth p = elim (options_step mem start len depth p) [
  | fault ↦ fault
  | no_fuel ↦ no_fuel
  | ok (stop p') ↦ ok p'
  | ok (go jmp p') ↦ options_loop fuel mem start len (depth + jmp) p'
]

-- `decode_tcp_options`. Each round but the last two adds an option to the array, so that there are
-- at most two more than the array has places.
unfoldable pub decode_tcp_options : List ℕ → Packet → ℕ → ℕ → Result Packet
unfolding options_loop
decode_tcp_options mem p start len =
    if ltb max_tcpoptlen len then ok p else options_loop (max_tcpoptlen + 2) mem start len 0 p
