-- ===== src/Packet/Decode.antt =====
-- udp.c, tcp.c, ip4.c and ip6.c: the decoders. Each takes the offset of its header and the bytes
-- that are left by the caller's count, and returns the packet, the statistics, and whether the C
-- function returns 0 (or else -1).
pub mod Loop
pub mod Ends
pub mod Stack
pub mod Safe
pub mod Udp
pub mod Tcp
pub mod Wire
use clibrary.Base.{
  ℕ, zero, suc, ◌+◌, ◌-◌, ◌*◌, ◌/◌, ◌%◌, ◌^◌, Bool, true, false, not, ◌&&◌, ◌||◌, Option, none,
  some, List, [], ◌∷◌, ◌++◌, drop, ltb, leb, ◌==◌, if◌then◌else◌, add32, sub32,
}
use clibrary.Packet.{Protocol, Layer, Packet, Stats, layer_ins, layer_current}
use clibrary.Packet.Result.{Result, ok, fault, no_fuel, ◌>>=◌, byte, be16, le16}
use clibrary.Packet.Options.{decode_tcp_options}

pub record Decoded : Type 0 where
  pub packet : Packet
  pub stats : Stats
  pub good : Bool

abbrev pub done : Packet → Stats → Bool → Result Decoded
done p st good = ok (record { packet = p; stats = st; good = good })

-- A decoder that goes on from a header.
abbrev pub Decoder : Type 0
Decoder = ℕ → ℕ → Packet → Stats → Result Decoded

-- `p->payload += n; p->paysize -= n`
abbrev pub advance : Packet → ℕ → Packet
advance p n = record p { payload = p.payload + n; paysize = sub32 p.paysize n }

-- The layer that a transport decoder pushes, as the packet's transport.
unfoldable pub transport_layer : Packet → ℕ → ℕ → Protocol → Packet
unfolding layer_ins layer_current
transport_layer p pkt size proto =
    let p' = (layer_ins p pkt size proto).0 in record p' { transport = layer_current p' }

unfoldable pub decode_udp : List ℕ → Decoder
unfolding transport_layer
decode_udp mem pkt len p st = if ltb len 8 then done p st false else do
  let p1 = transport_layer p pkt 8 Protocol.udp
  sport ← be16 mem pkt
  dport ← be16 mem (pkt + 2)
  let p2 = advance (record p1 { srcport = sport; dstport = dport }) 8
  sum ← be16 mem (pkt + 6)
  if (sum == 0) && (p2.version == 6) then done p2 st false else done p2 st true

-- `hlen - sizeof *tcp_head`, as an unsigned short
abbrev options_len : ℕ → ℕ
options_len hlen = (hlen + 2 ^ 16 - 20) % 2 ^ 16

unfoldable pub decode_tcp : List ℕ → Decoder
unfolding transport_layer
decode_tcp mem pkt len p st =
    let st1 = record st {
      tcps_packets = add32 st.tcps_packets 1;
      tcps_bytes = add32 st.tcps_bytes len;
    } in
    if ltb len 20
    then done p (record st1 { tcps_tooshort = add32 st.tcps_tooshort 1 }) false
    else do
      off ← byte mem (pkt + 12)
      let hlen = off / 16 * 4
      let p1 = transport_layer p pkt hlen Protocol.tcp
      sport ← be16 mem pkt
      dport ← be16 mem (pkt + 2)
      let p2 = advance (record p1 { srcport = sport; dstport = dport }) hlen
      let optlen = options_len hlen
      p3 ← if optlen == 0 then ok p2 else decode_tcp_options mem p2 (pkt + hlen - optlen) optlen
      done p3 st1 true

-- Four bytes in the order of memory, and sixteen.
abbrev bytes4 : List ℕ → ℕ → Result (List ℕ)
bytes4 mem i = do
  a ← byte mem i
  b ← byte mem (i + 1)
  c ← byte mem (i + 2)
  d ← byte mem (i + 3)
  ok (a ∷ b ∷ c ∷ d ∷ [])

unfoldable bytes16 : List ℕ → ℕ → Result (List ℕ)
bytes16 mem i = do
  a ← bytes4 mem i
  b ← bytes4 mem (i + 4)
  c ← bytes4 mem (i + 8)
  d ← bytes4 mem (i + 12)
  ok (a ++ b ++ c ++ d)

-- `decode_ip`; `next` is `bind_ip`.
unfoldable pub decode_ip : List ℕ → Decoder → Decoder
decode_ip mem next pkt len p st = do
  head ← byte mem pkt
  let hlen = head % 16 * 4
  total ← be16 mem (pkt + 2)
  let pay_len = sub32 total hlen
  let st1 = record st { ips_packets = add32 st.ips_packets 1; ips_bytes = add32 st.ips_bytes len }
  let p1 = record p { version = 4 }
  if ltb len hlen || ltb len pay_len then done p1 st1 false else do
    let p2 = (layer_ins p1 pkt hlen Protocol.ip4).0
    off ← be16 mem (pkt + 6)
    id ← le16 mem (pkt + 4)
    tos ← byte mem (pkt + 1)
    ttl ← byte mem (pkt + 8)
    src ← bytes4 mem (pkt + 12)
    dst ← bytes4 mem (pkt + 16)
    proto ← byte mem (pkt + 9)
    let p3 = record p2 {
      df = not (off / 2 ^ 14 % 2 == 0);
      mf = not (off / 2 ^ 13 % 2 == 0);
      offset = off % 2 ^ 13;
      payload = p2.payload + hlen;
      paysize = pay_len;
      id = id;
      tos = tos;
      ttl = ttl;
      srcaddr = src ++ drop 4 p2.srcaddr;
      dstaddr = dst ++ drop 4 p2.dstaddr;
      protocol = proto;
    }
    if not (p3.offset == 0) || p3.mf
        then done p3 st1 true
        else next (pkt + hlen) (len - hlen) p3 st1

-- `decode_ip6`; `next` is `bind_ip6` here and below.
unfoldable pub decode_ip6 : List ℕ → Decoder → Decoder
unfolding bytes16
decode_ip6 mem next pkt len p st = if ltb len 40 then done p st false else do
  nxt ← byte mem (pkt + 6)
  plen ← be16 mem (pkt + 4)
  let p1 = record p { version = 6; protocol = nxt; payload = p.payload + 40; paysize = plen }
  let p2 = (layer_ins p1 pkt 40 Protocol.ip6).0
  hops ← byte mem (pkt + 7)
  src ← bytes16 mem (pkt + 8)
  dst ← bytes16 mem (pkt + 24)
  next (pkt + 40) (len - 40) (record p2 { ttl = hops; srcaddr = src; dstaddr = dst }) st

unfoldable pub decode_ip6_rte : List ℕ → Decoder → Decoder
unfolding bytes16
decode_ip6_rte mem next pkt len p st = if ltb len 8 then done p st false else do
  units ← byte mem (pkt + 1)
  let rte_len = units * 8 + 8
  if ltb len rte_len then done p st false else do
    let p1 = (layer_ins (advance p rte_len) pkt rte_len Protocol.ip6_rte).0
    nxt ← byte mem pkt
    let p2 = record p1 { protocol = nxt }
    left ← byte mem (pkt + 3)
    p3 ←
        if left == 0
        then ok p2
        else if ltb (pkt + rte_len) 16
        then fault
        else (bytes16 mem (pkt + rte_len - 16) >>= λ dst. ok (record p2 { dstaddr = dst }))
    next (pkt + rte_len) (len - rte_len) p3 st

-- On a little-endian machine the masks take the field after `ntohs` apart by the bits of its
-- swapped bytes: `IP6F_OFF_MASK` is 0xf8ff and `IP6F_MORE_FRAG` is 0x0100 there.
abbrev off_mask : ℕ → ℕ
off_mask off = off / 2 ^ 11 * 2 ^ 11 + off % 2 ^ 8

unfoldable pub decode_ip6_frag : List ℕ → Decoder → Decoder
decode_ip6_frag mem next pkt len p st = if ltb len 8 then done p st false else do
  off ← be16 mem (pkt + 2)
  nxt ← byte mem pkt
  lo ← le16 mem (pkt + 4)
  hi ← le16 mem (pkt + 6)
  let p1 = record p {
    offset = off_mask off;
    mf = not (off / 2 ^ 8 % 2 == 0);
    protocol = nxt;
    id = hi * 65536 + lo;
  }
  let p2 = (layer_ins (advance p1 8) pkt 8 Protocol.ip6_frag).0
  if not (p2.offset == 0) || p2.mf then done p2 st true else next (pkt + 8) (len - 8) p2 st

-- `ntohs` of a number below 65536
abbrev swap16 : ℕ → ℕ
swap16 n = n % 256 * 256 + n / 256

unfoldable pub decode_ip6_ext : List ℕ → Decoder → Decoder
decode_ip6_ext mem next pkt len p st = if ltb len 2 then done p st false else do
  units ← byte mem (pkt + 1)
  let ext_len = units * 8 + 8
  if ltb len ext_len then done p st false else do
    nxt ← byte mem pkt
    let p1 = record (advance p (swap16 ext_len)) { protocol = nxt }
    let p2 = (layer_ins (advance p1 ext_len) pkt ext_len Protocol.ip6_ext).0
    next (pkt + ext_len) (len - ext_len) p2 st

-- The headers whose decoders call one another.
pub data Header : Type 0 where
  ip ip6 rte frag ext : Header

-- The `switch` of `bind_ip`: IPPROTO_TCP is 6, UDP 17, IPIP 4, IPV6 41. All else, SCTP included,
-- returns -1.
unfoldable pub bind_ip : List ℕ → (Header → Decoder) → Decoder
bind_ip mem run pkt len p st =
    if p.protocol == 6
    then decode_tcp mem pkt len p st
    else if p.protocol == 17
    then decode_udp mem pkt len p st
    else if p.protocol == 4
    then run ip pkt len p st
    else if p.protocol == 41
    then run ip6 pkt len p st
    else done p st false

-- The `switch` of `bind_ip6`: also IPPROTO_ROUTING 43, FRAGMENT 44, DSTOPTS 60 and HOPOPTS 0.
unfoldable pub bind_ip6 : List ℕ → (Header → Decoder) → Decoder
bind_ip6 mem run pkt len p st =
    if p.protocol == 43
    then run rte pkt len p st
    else if p.protocol == 44
    then run frag pkt len p st
    else if (p.protocol == 60) || (p.protocol == 0)
    then run ext pkt len p st
    else if p.protocol == 6
    then decode_tcp mem pkt len p st
    else if p.protocol == 17
    then decode_udp mem pkt len p st
    else if p.protocol == 4
    then run ip pkt len p st
    else done p st false

-- The decoders' calls of one another, on fuel.
unfoldable pub decode : ℕ → List ℕ → Header → Decoder
decode zero mem h pkt len p st = no_fuel
decode (suc fuel) mem ip pkt len p st = decode_ip mem (bind_ip mem (decode fuel mem)) pkt len p st
decode (suc fuel) mem ip6 pkt len p st =
    decode_ip6 mem (bind_ip6 mem (decode fuel mem)) pkt len p st
decode (suc fuel) mem rte pkt len p st =
    decode_ip6_rte mem (bind_ip6 mem (decode fuel mem)) pkt len p st
decode (suc fuel) mem frag pkt len p st =
    decode_ip6_frag mem (bind_ip6 mem (decode fuel mem)) pkt len p st
decode (suc fuel) mem ext pkt len p st =
    decode_ip6_ext mem (bind_ip6 mem (decode fuel mem)) pkt len p st
