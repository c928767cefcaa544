-- ===== src/Packet.antt =====
-- packet.h, packet_private.h, packet_private.c, protocol.h, options.h and stats.h: a decoded packet,
-- its stack of protocol layers, and the statistics. A pointer into the captured bytes is an offset
-- from their start; a pointer to a layer is its index.
pub mod Result
pub mod Access
pub mod Address
pub mod Options
pub mod Decode
mod Tests
use clibrary.Base.{
  ℕ, zero, suc, ◌+◌, ◌-◌, ◌%◌, ◌^◌, Bool, true, false, Option, none, some, List, [], ◌∷◌, ◌++◌,
  replicate, set, ltb, ◌==◌, if◌then◌else◌, add32, sub32,
}

-- `PROTOCOL`
pub data Protocol : Type 0 where
  eth ppp vlan mpls pppoe ipx spx ip4 ip6 ip6_rte ip6_frag ip6_ext gre tcp udp sctp icmp icmp6 :
      Protocol

-- `struct _PacketLayer`
pub record Layer : Type 0 where
  pub protocol : Protocol
  pub size : ℕ
  pub start : ℕ

-- `struct Option` of a TCP header; no value is NULL.
pub record TcpOption : Type 0 where
  pub kind : ℕ
  pub len : ℕ
  pub value : Option ℕ

-- `struct _Packet`. An address is its 16 bytes in the order of memory; `alt_payload` is an address
-- outside the captured bytes, 0 for NULL.
pub record Packet : Type 0 where
  pub version : ℕ
  pub srcaddr : List ℕ
  pub dstaddr : List ℕ
  pub srcport : ℕ
  pub dstport : ℕ
  pub protocol : ℕ
  pub mf : Bool
  pub df : Bool
  pub offset : ℕ
  pub id : ℕ
  pub ttl : ℕ
  pub tos : ℕ
  pub mss : ℕ
  pub wscale : ℕ
  pub paysize : ℕ
  pub payload : ℕ
  pub alt_paysize : ℕ
  pub alt_payload : ℕ
  pub transport : Option ℕ
  pub layer_count : ℕ
  pub tcpopt_count : ℕ
  pub layer : List Layer
  pub tcp_option : List TcpOption

-- The fields of `struct packet_stats` that the code writes, each a uint32_t.
pub record Stats : Type 0 where
  pub total_bytes : ℕ
  pub ips_packets : ℕ
  pub ips_bytes : ℕ
  pub tcps_packets : ℕ
  pub tcps_bytes : ℕ
  pub tcps_tooshort : ℕ

abbrev pub max_layers : ℕ
max_layers = 32

abbrev pub max_tcpoptlen : ℕ
max_tcpoptlen = 32

-- `packet_create`: everything in front of `tcpopt_count` is zeroed, the rest is what `malloc` found
-- in its memory, which the arguments say.
unfoldable pub packet_create : ℕ → List Layer → List TcpOption → Packet
packet_create count layers options = record {
  version = 0;
  srcaddr = replicate 16 0;
  dstaddr = replicate 16 0;
  srcport = 0;
  dstport = 0;
  protocol = 0;
  mf = false;
  df = false;
  offset = 0;
  id = 0;
  ttl = 0;
  tos = 0;
  mss = 0;
  wscale = 0;
  paysize = 0;
  payload = 0;
  alt_paysize = 0;
  alt_payload = 0;
  transport = none;
  layer_count = 0;
  tcpopt_count = count;
  layer = layers;
  tcp_option = options;
}

-- `packet_layer_ins`: the packet, and whether the result is 0 (or else -1).
unfoldable pub layer_ins : Packet → ℕ → ℕ → Protocol → Packet × Bool
layer_ins p start size proto = if p.layer_count == max_layers then (p, false) else (
  record p {
    layer_count = p.layer_count + 1;
    layer = set p.layer p.layer_count (record { protocol = proto; size = size; start = start });
  },
  true,
)

unfoldable pub layer_rem : Packet → Packet × Bool
layer_rem p =
    if p.layer_count == 0 then (p, false) else (record p { layer_count = p.layer_count - 1 }, true)

-- `packet_layer_current`
unfoldable pub layer_current : Packet → Option ℕ
layer_current p = if p.layer_count == 0 then none else some (p.layer_count - 1)

-- `packet_decode`, up to its missing `return`; NULL arguments are the flags.
unfoldable pub packet_decode : Bool → Bool → ℕ → ℕ → Packet → Stats → Option (Packet × Stats)
packet_decode no_packet no_bytes pkt len p st =
    if no_packet
    then none
    else if no_bytes
    then none
    else if len == 0
    then none
    else some (
      record p { payload = pkt; paysize = len },
      record st { total_bytes = add32 st.total_bytes len },
    )
