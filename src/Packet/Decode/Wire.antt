-- ===== src/Packet/Decode/Wire.antt =====
-- ip4.c and udp.c: the bytes of an IPv4 packet with a UDP datagram, and what the two decoders make of
-- them.
pub mod Trip
use clibrary.Base.{
  ℕ, suc, ◌+◌, ◌-◌, ◌*◌, ◌/◌, ◌%◌, ◌^◌, ◌≤◌, ◌<◌, ◌≡◌, refl, sym, ap, ◌∙◌, Bool, true, false, not,
  ◌||◌, ◌&&◌, some, none, List, [], ◌∷◌, ◌++◌, drop, length, replicate, add32, sub32, ltb, ◌==◌,
  if◌then◌else◌, arith,
}
use clibrary.Packet.{
  Protocol, Layer, TcpOption, Packet, Stats, packet_create, packet_decode, layer_ins, layer_current,
}
use clibrary.Packet.Result.{Result, ok, ◌>>=◌, byte, be16}
use clibrary.Packet.Access.{is_fragment, payload_of, paysize_of, proto_layer}
use clibrary.Packet.Access.Fields.{
  packet_version, packet_srcaddr, packet_dstaddr, packet_srcport, packet_dstport, packet_tos,
  packet_ttl, packet_protocol, packet_frag_df, packet_id, packet_proto_count,
}
use clibrary.Packet.Decode.Udp.{read_header, past_header}
use clibrary.Packet.Decode.{
  Decoded, Decoder, Header, ip, decode, decode_ip, bind_ip, decode_udp, transport_layer, done,
}

-- A UDP datagram in an IPv4 packet that is not a fragment and has no options: RFC 791 and 768.
pub record Datagram : Type 0 where
  pub tos : ℕ
  pub id : ℕ
  pub df : Bool
  pub ttl : ℕ
  pub src : ℕ × ℕ × ℕ × ℕ
  pub dst : ℕ × ℕ × ℕ × ℕ
  pub checksum : ℕ
  pub srcport : ℕ
  pub dstport : ℕ
  pub udp_checksum : ℕ
  pub text : List ℕ

-- The bytes of a header and a text, each 16-bit number with its high byte first.
abbrev pub wire : Datagram → List ℕ
wire d =
    let total = 28 + length d.text in
    let size = 8 + length d.text in
    0x45
    ∷ d.tos
    ∷ total / 256
    ∷ total % 256
    ∷ d.id / 256
    ∷ d.id % 256
    ∷ (if d.df then 0x40 else 0)
    ∷ 0
    ∷ d.ttl
    ∷ 17
    ∷ d.checksum / 256
    ∷ d.checksum % 256
    ∷ d.src.0
    ∷ d.src.1
    ∷ d.src.2
    ∷ d.src.3
    ∷ d.dst.0
    ∷ d.dst.1
    ∷ d.dst.2
    ∷ d.dst.3
    ∷ d.srcport / 256
    ∷ d.srcport % 256
    ∷ d.dstport / 256
    ∷ d.dstport % 256
    ∷ size / 256
    ∷ size % 256
    ∷ d.udp_checksum / 256
    ∷ d.udp_checksum % 256
    ∷ d.text

and_false : (b : Bool) → b && false ≡ false
and_false true = refl
and_false false = refl

join : (n : ℕ) → n / 256 * 256 + n % 256 ≡ n
join n = omega arith

-- The two bytes of the flags and the offset.
abbrev flags : Bool → ℕ
flags df = (if df then 0x40 else 0) * 256 + 0

flags_lem :
    (df : Bool)
    → (not (flags df / 2 ^ 14 % 2 == 0) ≡ df)
      × (not (flags df / 2 ^ 13 % 2 == 0) ≡ false)
      × (flags df % 2 ^ 13 ≡ 0)
flags_lem true = (refl, refl, refl)
flags_lem false = (refl, refl, refl)

-- The packet behind the IPv4 header. The identification keeps the order of the bytes.
abbrev ip_packet : Datagram → Packet → Packet
ip_packet d p =
    let q = (layer_ins (record p { version = 4 }) 0 20 Protocol.ip4).0 in
    record q {
      df = d.df;
      mf = false;
      offset = 0;
      payload = q.payload + 20;
      paysize = 8 + length d.text;
      id = d.id % 256 * 256 + d.id / 256;
      tos = d.tos;
      ttl = d.ttl;
      srcaddr = (d.src.0 ∷ d.src.1 ∷ d.src.2 ∷ d.src.3 ∷ []) ++ drop 4 q.srcaddr;
      dstaddr = (d.dst.0 ∷ d.dst.1 ∷ d.dst.2 ∷ d.dst.3 ∷ []) ++ drop 4 q.dstaddr;
      protocol = 17;
    }

abbrev pub ip_stats : ℕ → Stats → Stats
ip_stats len st = record st {
  ips_packets = add32 st.ips_packets 1;
  ips_bytes = add32 st.ips_bytes len;
}

pub decode_ip-wire :
    (d : Datagram) (next : Decoder) (len : ℕ) (p : Packet) (st : Stats)
    → len ≡ 28 + length d.text
    → len < 2 ^ 16
    → decode_ip (wire d) next 0 len p st ≡ next 20 (len - 20) (ip_packet d p) (ip_stats len st)
unfolding decode_ip
decode_ip-wire d next len p st e small =
    let total = join (28 + length d.text) in
    let enough : ltb len 20 ≡ false = ground arith in
    let rest : sub32 (28 + length d.text) 20 ≡ 8 + length d.text = omega arith in
    let fits : ltb len (8 + length d.text) ≡ false = ground arith in
    let (df, mf, offset) = flags_lem d.df in rw (total, rest, enough, fits, df, mf, offset) refl

-- The packet behind both headers.
abbrev pub udp_packet : Datagram → Packet → Packet
udp_packet d p = past_header (ip_packet d p) 20 d.srcport d.dstport

pub decode_udp-wire :
    (d : Datagram) (len : ℕ) (p : Packet) (st : Stats)
    → len ≡ 8 + length d.text
    → (transport_layer (ip_packet d p) 20 8 Protocol.udp).version ≡ 4
    → decode_udp (wire d) 20 len (ip_packet d p) st ≡ done (udp_packet d p) st true
decode_udp-wire d len p st e version =
    let long : ltb len 8 ≡ false = ground arith in
    let sum = d.udp_checksum in
    let good : not ((sum == 0) && (false)) ≡ true = ap not (and_false (sum == 0)) in
    read_header (wire d) 20 len (ip_packet d p) st d.srcport d.dstport sum long
      (ap ok (join d.srcport)) (ap ok (join d.dstport)) (ap ok (join sum))
    ∙ ap (λ v. done (udp_packet d p) st (not ((sum == 0) && (v == 6)))) version
    ∙ ap (done (udp_packet d p) st) good
