-- ===== src/Packet/Access/Flags.antt =====
-- packet.c: the accessors of the six TCP flags against `packet_tcpflags`.
use clibrary.Base.{
  ℕ, ◌/◌, ◌%◌, ◌^◌, ◌≡◌, refl, sym, ap, inl, inr, Bool, false, not, List, Option-cases, ◌==◌,
}
use clibrary.Packet.{Packet}
use clibrary.Packet.Result.{Result, ok, ◌>>=◌}
use clibrary.Packet.Access.{
  tcp_header, tcp_field, tcpflags, flag, tcp_fin, tcp_syn, tcp_rst, tcp_push, tcp_ack, tcp_urg,
}

-- The bit with the number n of what `packet_tcpflags` returns.
abbrev bit_of : ℕ → List ℕ → Packet → Result Bool
bit_of n mem p = tcpflags mem p >>= λ b. ok (not (b / 2 ^ n % 2 == 0))

-- No bit of 0 is set.
flag-bit_of :
    (n : ℕ) (mem : List ℕ) (p : Packet)
    → not (0 / 2 ^ n % 2 == 0) ≡ false
    → flag n mem p ≡ bit_of n mem p
unfolding tcpflags
flag-bit_of n mem p z = elim (Option-cases (tcp_header p)) [
  | inl e ↦ rw (e, flag, tcp_field) (ap ok (sym z))
  | inr (i, e) ↦ rw (e, flag, tcp_field) refl
]

-- The six accessors for FIN, SYN, RST, PSH, ACK and URG give the bits 0 to 5 of what
-- `packet_tcpflags` gives for the same packet, false where its transport is not TCP, and read
-- outside the captured bytes exactly where it does.
pub flags_lem :
    (mem : List ℕ) (p : Packet)
    → (tcp_fin mem p ≡ bit_of 0 mem p)
      × (tcp_syn mem p ≡ bit_of 1 mem p)
      × (tcp_rst mem p ≡ bit_of 2 mem p)
      × (tcp_push mem p ≡ bit_of 3 mem p)
      × (tcp_ack mem p ≡ bit_of 4 mem p)
      × (tcp_urg mem p ≡ bit_of 5 mem p)
unfolding tcp_fin tcp_syn tcp_rst tcp_push tcp_ack tcp_urg
flags_lem mem p = (
  flag-bit_of 0 mem p refl,
  flag-bit_of 1 mem p refl,
  flag-bit_of 2 mem p refl,
  flag-bit_of 3 mem p refl,
  flag-bit_of 4 mem p refl,
  flag-bit_of 5 mem p refl,
)
