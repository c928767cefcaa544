-- ===== src/Packet/Decode/Wire/Trip.antt =====
-- ip4.c and udp.c: the round trip of a UDP datagram through its bytes and the accessors of packet.c.
use clibrary.Base.{
  ℕ, suc, ◌+◌, ◌-◌, ◌*◌, ◌/◌, ◌%◌, ◌^◌, ◌<◌, ◌≡◌, refl, ◌∙◌, true, false, some, List, [], ◌∷◌, ◌++◌,
  length, replicate, add32, ◌==◌, arith,
}
use clibrary.Packet.{
  Protocol, Layer, TcpOption, Packet, Stats, packet_create, packet_decode, layer_ins, layer_current,
}
use clibrary.Packet.Result.{ok}
use clibrary.Packet.Access.{is_fragment, payload_of, paysize_of, proto_layer}
use clibrary.Packet.Access.Fields.{
  packet_version, packet_srcaddr, packet_dstaddr, packet_srcport, packet_dstport, packet_tos,
  packet_ttl, packet_protocol, packet_frag_df, packet_id, packet_proto_count,
}
use clibrary.Packet.Decode.{Decoded, ip, decode, bind_ip, transport_layer, done}
use clibrary.Packet.Decode.Wire.{
  Datagram, wire, ip_stats, udp_packet, decode_ip-wire, decode_udp-wire,
}

-- What the packet shows of a datagram.
pub record Received (d : Datagram) (p : Packet) : Type 0 where
  pub version : packet_version p ≡ 4
  pub source : packet_srcaddr p ≡ (d.src.0 ∷ d.src.1 ∷ d.src.2 ∷ d.src.3 ∷ []) ++ replicate 12 0
  pub destination :
      packet_dstaddr p ≡ (d.dst.0 ∷ d.dst.1 ∷ d.dst.2 ∷ d.dst.3 ∷ []) ++ replicate 12 0
  pub ports : (packet_srcport p ≡ d.srcport) × (packet_dstport p ≡ d.dstport)
  pub fields : (packet_tos p ≡ d.tos) × (packet_ttl p ≡ d.ttl) × (packet_protocol p ≡ 17)
  pub fragment : (packet_frag_df p ≡ d.df) × (is_fragment p ≡ false)
  pub swapped_id : packet_id p ≡ d.id % 256 * 256 + d.id / 256
  pub text : (payload_of p ≡ 28) × (paysize_of p ≡ length d.text)
  pub network : proto_layer p 0 ≡ some (record { protocol = Protocol.ip4; size = 20; start = 0 })
  pub transport : proto_layer p 1 ≡ some (record { protocol = Protocol.udp; size = 8; start = 20 })
  pub no_more : packet_proto_count p ≡ 2

module _ (count : ℕ) (l0 l1 : Layer) (ls : List Layer) (options : List TcpOption) where
  abbrev fresh_packet : Packet
  fresh_packet = packet_create count (l0 ∷ l1 ∷ ls) options

  udp_packet-Received :
      (d : Datagram) (len : ℕ)
      → length d.text < 2 ^ 16
      → Received d (udp_packet d (record fresh_packet { payload = 0; paysize = len }))
  unfolding packet_create layer_ins layer_current transport_layer payload_of paysize_of proto_layer
  udp_packet-Received d len small = record {
    version = refl;
    source = refl;
    destination = refl;
    ports = (refl, refl);
    fields = (refl, refl, refl);
    fragment = (refl, refl);
    swapped_id = refl;
    text = (refl, omega arith);
    network = refl;
    transport = refl;
    no_more = refl;
  }

  decode-wire :
      (d : Datagram) (fuel len : ℕ) (st : Stats)
      → len ≡ 28 + length d.text
      → len < 2 ^ 16
      → let p = record fresh_packet { payload = 0; paysize = len } in
        decode (suc fuel) (wire d) ip 0 len p st ≡ done (udp_packet d p) (ip_stats len st) true
  unfolding decode bind_ip packet_create layer_ins layer_current transport_layer
  decode-wire d fuel len st e small =
      let p = record fresh_packet { payload = 0; paysize = len } in
      decode_ip-wire d (bind_ip (wire d) (decode fuel (wire d))) len p st e small
      ∙ decode_udp-wire d (len - 20) p (ip_stats len st) (omega arith) refl

  -- Round trip: the bytes of a UDP datagram in an IPv4 packet of less than 2 ^ 16 bytes, whatever its
  -- checksums, go through `packet_decode` and `decode_ip` on a new packet without an error, and the
  -- accessors give back its addresses, ports, type of service, time to live and flag, the payload
  -- behind the headers with its length, and the two layers. The identification comes with its bytes
  -- swapped.
  pub wire-Received :
      (d : Datagram) (fuel : ℕ) (st : Stats)
      → length (wire d) < 2 ^ 16
      → (p : Packet) × (st' : Stats) × (out : Decoded) × (packet_decode false false 0
            (length (wire d))
            fresh_packet
            st
          ≡ some (p, st'))
        × (decode (suc fuel) (wire d) ip 0 (length (wire d)) p st' ≡ ok out)
        × (out.good ≡ true)
        × Received d out.packet
  unfolding packet_decode
  wire-Received d fuel st small =
      let len = length (wire d) in
      let some_bytes : (len == 0) ≡ false = ground arith in
      let st' = record st { total_bytes = add32 st.total_bytes len } in
      (
        record fresh_packet { payload = 0; paysize = len },
        st',
        _,
        rw (some_bytes) refl,
        decode-wire d fuel len st' (omega arith) small,
        refl,
        udp_packet-Received d len (omega arith),
      )
