-- ===== src/Packet/Access/Fields.antt =====
-- packet.c: the accessors that return one field of a packet or of a layer.
use clibrary.Base.{ℕ, Bool, List}
use clibrary.Packet.{Protocol, Layer, Packet}

abbrev pub packet_proto_count : Packet → ℕ
packet_proto_count p = p.layer_count

abbrev pub packet_version : Packet → ℕ
packet_version p = p.version

abbrev pub packet_srcaddr : Packet → List ℕ
packet_srcaddr p = p.srcaddr

abbrev pub packet_dstaddr : Packet → List ℕ
packet_dstaddr p = p.dstaddr

abbrev packet_frag_mf : Packet → Bool
packet_frag_mf p = p.mf

abbrev pub packet_frag_df : Packet → Bool
packet_frag_df p = p.df

abbrev packet_frag_offset : Packet → ℕ
packet_frag_offset p = p.offset

abbrev pub packet_protocol : Packet → ℕ
packet_protocol p = p.protocol

abbrev pub packet_id : Packet → ℕ
packet_id p = p.id

abbrev pub packet_ttl : Packet → ℕ
packet_ttl p = p.ttl

abbrev pub packet_tos : Packet → ℕ
packet_tos p = p.tos

abbrev pub packet_srcport : Packet → ℕ
packet_srcport p = p.srcport

abbrev pub packet_dstport : Packet → ℕ
packet_dstport p = p.dstport

abbrev packet_raw_paysize : Packet → ℕ
packet_raw_paysize p = p.paysize

abbrev packet_raw_payload : Packet → ℕ
packet_raw_payload p = p.payload

abbrev packet_proto_size : Layer → ℕ
packet_proto_size l = l.size

abbrev packet_proto_data : Layer → ℕ
packet_proto_data l = l.start

abbrev packet_proto_proto : Layer → Protocol
packet_proto_proto l = l.protocol

-- `packet_mss` and `packet_winscale`: both branches return 0.
abbrev packet_mss : Packet → ℕ
packet_mss p = 0

abbrev packet_winscale : Packet → ℕ
packet_winscale p = 0
