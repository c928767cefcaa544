-- ===== src/Packet/Access.antt =====
-- packet.c and packet_private.h: the accessors of a packet, its iterator over the layers, and the
-- reads of a TCP header behind the transport pointer. A missing layer is NULL. Fields has the
-- accessors that return one field.
pub mod Walk
pub mod Flags
pub mod Fields
use Prim.Native.String.{String}
use clibrary.Base.{
  ℕ, zero, suc, ◌+◌, ◌/◌, ◌%◌, ◌^◌, ◌<◌, ◌≤◌, ◌≡◌, ◌≢◌, refl, ◌∙◌, sym, ap, inl, inr, Bool, true,
  false, not, ◌||◌, Option, none, some, List, [], ◌∷◌, get_elem?, get_elem?-lt, take, drop, length,
  ltb, ◌==◌, if◌then◌else◌, Bool-cases, arith,
}
use clibrary.Packet.{Protocol, Layer, Packet}
use clibrary.Packet.Result.{Result, ok, ◌>>=◌, byte, be16, be32}

-- `packet_proto_first` and `packet_proto_next`: the iterator and the layer.
unfoldable pub proto_first : Packet → ℕ × Option Layer
proto_first p = (0, if ltb 0 p.layer_count then get_elem? p.layer 0 else none)

unfoldable pub proto_next : Packet → ℕ → ℕ × Option Layer
proto_next p it = (it + 1, if ltb (it + 1) p.layer_count then get_elem? p.layer (it + 1) else none)

unfoldable pub proto_layer : Packet → ℕ → Option Layer
proto_layer p n = if ltb n p.layer_count then get_elem? p.layer n else none

-- `packet_proto_name`, with `proto_map` and the bound of `ENUM2STR`.
abbrev proto_name : Layer → String
proto_name l = elim l.protocol [
  | Protocol.eth ↦ "eth"
  | Protocol.ppp ↦ "ppp"
  | Protocol.vlan ↦ "vlan"
  | Protocol.mpls ↦ "mpls"
  | Protocol.pppoe ↦ "pppoe"
  | Protocol.ipx ↦ "ipx"
  | Protocol.spx ↦ "spx"
  | Protocol.ip4 ↦ "ip4"
  | Protocol.ip6 ↦ "ip6"
  | Protocol.ip6_rte ↦ "rte6"
  | Protocol.ip6_frag ↦ "frag6"
  | Protocol.ip6_ext ↦ "ext6"
  | Protocol.gre ↦ "gre"
  | Protocol.tcp ↦ "tcp"
  | Protocol.udp ↦ "udp"
  | Protocol.sctp ↦ "sctp"
  | Protocol.icmp ↦ "icmp"
  | Protocol.icmp6 ↦ "icmp6"
]

abbrev pub is_fragment : Packet → Bool
is_fragment p = not (p.offset == 0) || p.mf

-- `transport->protocol == PROTO_TCP`
abbrev is_tcp : Layer → Bool
is_tcp l = elim l.protocol [ Protocol.tcp ↦ true | _ ↦ false ]

-- `validate_transport_protocol(packet, PROTO_TCP)`: the TCP header's offset where it holds.
unfoldable pub tcp_header : Packet → Option ℕ
tcp_header p = elim p.transport [
  | none ↦ none
  | some i ↦ elim (get_elem? p.layer i) [
    | none ↦ none
    | some l ↦ if is_tcp l then some l.start else none
  ]
]

-- A field of the TCP header, or 0 where the transport is not TCP.
abbrev pub tcp_field : Packet → (ℕ → Result ℕ) → Result ℕ
tcp_field p get = elim (tcp_header p) [ none ↦ ok 0 | some at ↦ get at ]

tcp_field-some :
    (p : Packet) (get : ℕ → Result ℕ) (at : ℕ) → tcp_header p ≡ some at → tcp_field p get ≡ get at
tcp_field-some p get at h = rw (h, tcp_field) refl

-- Where the transport is a TCP layer, its start is the header's offset.
pub tcp_header-some :
    (p : Packet) (i : ℕ) (l : Layer)
    → p.transport ≡ some i
    → get_elem? p.layer i ≡ some l
    → l.protocol ≡ Protocol.tcp
    → tcp_header p ≡ some l.start
unfolding tcp_header
tcp_header-some p i l a b c = rw (a, tcp_header) (rw (b, c) refl)

unfoldable pub win : List ℕ → Packet → Result ℕ
win mem p = tcp_field p (λ at. be16 mem (at + 14))

unfoldable pub seq : List ℕ → Packet → Result ℕ
seq mem p = tcp_field p (λ at. be32 mem (at + 4))

unfoldable pub ack : List ℕ → Packet → Result ℕ
ack mem p = tcp_field p (λ at. be32 mem (at + 8))

unfoldable pub tcpflags : List ℕ → Packet → Result ℕ
tcpflags mem p = tcp_field p (λ at. byte mem (at + 13))

-- What the accessors of a TCP header read.
pub record Accessible (mem : List ℕ) (at : ℕ) (p : Packet) : Type 0 where
  pub sequence : seq mem p ≡ be32 mem (at + 4)
  pub acknowledged : ack mem p ≡ be32 mem (at + 8)
  pub flags : tcpflags mem p ≡ byte mem (at + 13)
  pub window : win mem p ≡ be16 mem (at + 14)

pub tcp_header-Accessible :
    (mem : List ℕ) (at : ℕ) (p : Packet) → tcp_header p ≡ some at → Accessible mem at p
unfolding seq ack win tcpflags
tcp_header-Accessible mem at p h = record {
  sequence = tcp_field-some p (λ at. be32 mem (at + 4)) at h;
  acknowledged = tcp_field-some p (λ at. be32 mem (at + 8)) at h;
  flags = tcp_field-some p (λ at. byte mem (at + 13)) at h;
  window = tcp_field-some p (λ at. be16 mem (at + 14)) at h;
}

-- The bit of `th_flags` with the number n.
abbrev pub flag : ℕ → List ℕ → Packet → Result Bool
flag n mem p = elim (tcp_header p) [
  | none ↦ ok false
  | some at ↦ (byte mem (at + 13) >>= λ b. ok (not (b / 2 ^ n % 2 == 0)))
]

unfoldable pub tcp_fin : List ℕ → Packet → Result Bool
tcp_fin = flag 0

unfoldable pub tcp_syn : List ℕ → Packet → Result Bool
tcp_syn = flag 1

unfoldable pub tcp_rst : List ℕ → Packet → Result Bool
tcp_rst = flag 2

unfoldable pub tcp_push : List ℕ → Packet → Result Bool
tcp_push = flag 3

unfoldable pub tcp_ack : List ℕ → Packet → Result Bool
tcp_ack = flag 4

unfoldable pub tcp_urg : List ℕ → Packet → Result Bool
tcp_urg = flag 5

unfoldable set_payload : Packet → ℕ → ℕ → Packet
set_payload p payload paysize = record p { alt_payload = payload; alt_paysize = paysize }

unfoldable has_alt_payload : Packet → Bool
has_alt_payload p = not (p.alt_payload == 0) || not (p.alt_paysize == 0)

unfoldable pub paysize_of : Packet → ℕ
paysize_of p = if p.alt_paysize == 0 then p.paysize else p.alt_paysize

unfoldable pub payload_of : Packet → ℕ
payload_of p = if p.alt_payload == 0 then p.payload else p.alt_payload

-- `packet_destroy`: what it gives to `free`, in order; none is NULL, and a packet comes with its
-- address.
unfoldable packet_destroy : Option (ℕ × Packet) → List ℕ
packet_destroy none = []
packet_destroy (some (address, p)) =
    if p.alt_payload == 0 then address ∷ [] else p.alt_payload ∷ address ∷ []
