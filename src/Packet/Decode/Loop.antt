-- ===== src/Packet/Decode/Loop.antt =====
-- ip4.c: `decode_ip` on a header whose length field is 0 and that announces another IP header.
use clibrary.Base.{
  ℕ, zero, suc, ◌+◌, ◌-◌, ◌*◌, ◌/◌, ◌%◌, ◌^◌, ◌≤◌, ◌≡◌, refl, sym, some, false, List, length,
  get_elem?, get_elem?-lt, ltb, arith, sub32, ◌==◌, ◌||◌, not,
}
use mathlib.Core.Path.{subst}
use clibrary.Packet.{Packet, Stats}
use clibrary.Packet.Result.{no_fuel}
use clibrary.Packet.Decode.{ip, decode, decode_ip, bind_ip}

-- An IPv4 header at `pkt` with a length field of 0, a total length within the `len` bytes there
-- and the protocol 4 (IPIP), that is no fragment.
pub record EmptyHeader (mem : List ℕ) (pkt len : ℕ) : Type 0 where
  pub head : ℕ
  pub first : get_elem? mem pkt ≡ some head
  pub no_length : head % 16 ≡ 0
  pub total : ℕ × ℕ
  pub total_length :
      (get_elem? mem (pkt + 2) ≡ some total.0) × (get_elem? mem (pkt + 2 + 1) ≡ some total.1)
  pub within : total.0 * 256 + total.1 ≤ len
  pub off : ℕ × ℕ
  pub fragment : (get_elem? mem (pkt + 6) ≡ some off.0) × (get_elem? mem (pkt + 6 + 1) ≡ some off.1)
  pub whole : ((off.0 * 256 + off.1) / 2 ^ 13 % 2 ≡ 0) × ((off.0 * 256 + off.1) % 2 ^ 13 ≡ 0)
  pub protocol : get_elem? mem (pkt + 9) ≡ some 4
  pub captured : pkt + 20 ≤ length mem

-- At an IPIP header whose length field is 0, with its 20 bytes captured, which is no fragment and
-- whose total length is within the `len` bytes there, `decode_ip` calls itself on the same bytes
-- again, so no amount of fuel is enough.
pub endless :
    (fuel : ℕ) (mem : List ℕ) (pkt len : ℕ) (p : Packet) (st : Stats)
    → EmptyHeader mem pkt len
    → decode fuel mem ip pkt len p st ≡ no_fuel
unfolding decode decode_ip bind_ip
endless zero mem pkt len p st h = refl
endless (suc fuel) mem pkt len p st h =
    let room = h.captured in
    let hlen = h.head % 16 * 4 in
    let stay : pkt + hlen ≡ pkt = omega (arith, h.no_length) in
    let all : len - hlen ≡ len = omega (arith, h.no_length) in
    let again : EmptyHeader mem (pkt + hlen) (len - hlen) =
      subst (λ a. EmptyHeader mem a (len - hlen)) (sym stay)
        (subst (EmptyHeader mem pkt) (sym all) h) in
    let total = h.total.0 * 256 + h.total.1 in
    let fits : ltb len hlen || ltb len (sub32 total hlen) ≡ false =
      ground (arith, h.no_length, h.within) in
    let only : not ((h.off.0 * 256 + h.off.1) % 2 ^ 13 == 0)
          || not ((h.off.0 * 256 + h.off.1) / 2 ^ 13 % 2 == 0)
        ≡ false =
      ground (arith, h.whole) in
    let (_, b1) = get_elem?-lt mem (pkt + 1) (omega (arith, room)) in
    let (_, b4) = get_elem?-lt mem (pkt + 4) (omega (arith, room)) in
    let (_, b5) = get_elem?-lt mem (pkt + 4 + 1) (omega (arith, room)) in
    let (_, b8) = get_elem?-lt mem (pkt + 8) (omega (arith, room)) in
    let (_, b12) = get_elem?-lt mem (pkt + 12) (omega (arith, room)) in
    let (_, b13) = get_elem?-lt mem (pkt + 12 + 1) (omega (arith, room)) in
    let (_, b14) = get_elem?-lt mem (pkt + 12 + 2) (omega (arith, room)) in
    let (_, b15) = get_elem?-lt mem (pkt + 12 + 3) (omega (arith, room)) in
    let (_, b16) = get_elem?-lt mem (pkt + 16) (omega (arith, room)) in
    let (_, b17) = get_elem?-lt mem (pkt + 16 + 1) (omega (arith, room)) in
    let (_, b18) = get_elem?-lt mem (pkt + 16 + 2) (omega (arith, room)) in
    let (_, b19) = get_elem?-lt mem (pkt + 16 + 3) (omega (arith, room)) in
    rw (h.first, h.total_length.0, h.total_length.1, fits)
      (rw (h.fragment.0, h.fragment.1, b4, b5, b1, b8, b12, b13, b14, b15, b16, b17, b18, b19)
        (rw (h.protocol, only) (endless fuel mem (pkt + hlen) (len - hlen) _ _ again)))
