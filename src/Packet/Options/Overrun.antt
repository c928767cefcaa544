-- ===== src/Packet/Options/Overrun.antt =====
-- tcp.c: a variable-length option whose length byte is 0.
use clibrary.Base.{
  ℕ, zero, suc, ◌+◌, ◌%◌, ◌≤◌, ◌<◌, ◌^◌, ◌≡◌, ◌⊎◌, refl, inl, inr, ◌==◌, true, false, Bool-cases,
  some, List, get_elem?, arith, ltb, sub32,
}
use clibrary.Packet.{Packet, max_tcpoptlen}
use clibrary.Packet.Result.{ok, fault}
use clibrary.Packet.Options.{go, with_option, options_step, options_loop}

-- What one round does at an option of variable length: it adds the option, or faults if the array
-- is full.
sack_step :
    (mem : List ℕ) (start len depth jmp : ℕ) (p : Packet)
    → get_elem? mem (start + depth) ≡ some 5
    → get_elem? mem (start + depth + 1) ≡ some jmp
    → depth < len
    → len < 2 ^ 32
    → (p.tcpopt_count < max_tcpoptlen)
        × ((p' : Packet) × (options_step mem start len depth p ≡ ok (go jmp p'))
            × (p'.tcpopt_count ≡ p.tcpopt_count + 1))
      ⊎ (max_tcpoptlen ≤ p.tcpopt_count) × (options_step mem start len depth p ≡ fault)
unfolding options_step
sack_step mem start len depth jmp p here next inside small =
    let in_loop : ltb depth len ≡ true = ground arith in
    let more : (sub32 len depth == 0) ≡ false = ground arith in
    elim (Bool-cases (ltb p.tcpopt_count max_tcpoptlen)) [
      | inl free ↦ inl (
        ground arith,
        (
          with_option p 5 (start + depth) ((jmp + 254) % 256),
          rw (in_loop, here, more, next, free) refl,
          refl,
        ),
      )
      | inr full ↦ inr (ground arith, rw (in_loop, here, more, next, full) refl)
    ]

-- At an option of kind 5 with the length byte 0 the loop of `decode_tcp_options` stands still and
-- adds the option again and again, until it writes behind the array `tcp_option`: more rounds
-- than `tcp_option` has places left are enough for that.
pub zero_length_option :
    (fuel : ℕ) (mem : List ℕ) (start len depth : ℕ) (p : Packet)
    → get_elem? mem (start + depth) ≡ some 5
    → get_elem? mem (start + depth + 1) ≡ some 0
    → depth < len
    → len < 2 ^ 32
    → max_tcpoptlen < fuel + p.tcpopt_count
    → p.tcpopt_count ≤ max_tcpoptlen
    → options_loop fuel mem start len depth p ≡ fault
unfolding options_loop
zero_length_option zero mem start len depth p here next inside small enough room =
    absurd (omega arith)
zero_length_option (suc fuel) mem start len depth p here next inside small enough room =
    elim (sack_step mem start len depth 0 p here next inside small) [
      | inr (_, full) ↦ rw (full, options_loop) refl
      | inl (free, (p', same, count)) ↦
          let stay : depth + 0 ≡ depth = omega arith in
          rw (same, options_loop)
            (rw stay (
              zero_length_option fuel mem start len depth p' here next inside small
                (omega (arith, count)) (omega (arith, count))))
    ]
