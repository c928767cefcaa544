-- ===== src/Packet/Tests.antt =====
-- Runs of the decoders and of the accessors at concrete inputs.
use clibrary.Base.{
  ◌⊎◌, ◌<◌, Bool, false, ◌+◌, ◌||◌, ◌==◌, ◌≢◌, ℕ, zero, suc, ◌≤◌, ◌≡◌, refl, none, List, [], ◌∷◌,
  replicate, arith,
}
use clibrary.Base.{true, length, some}
use clibrary.Packet.Decode.Wire.{Datagram, wire}
use clibrary.Packet.Decode.Wire.Trip.{Received, wire-Received}
use clibrary.Packet.{packet_decode}
use clibrary.Packet.Decode.{Decoded}
use clibrary.Packet.{
  Protocol, Layer, TcpOption, Packet, Stats, max_tcpoptlen, packet_create, layer_ins,
}
use clibrary.Packet.Result.{ok, fault, no_fuel, byte}
use clibrary.Packet.Options.{options_loop, decode_tcp_options}
use clibrary.Packet.Options.Progress.{Empty, decode_tcp_options-returns}
use clibrary.Packet.Options.Overrun.{zero_length_option}
use clibrary.Packet.Access.{Accessible}
use clibrary.Packet.Address.{Address, IsLesser, ip_compare}
use clibrary.Packet.Decode.{Decoded, done, ip, decode, transport_layer, decode_udp, decode_tcp}
use clibrary.Packet.Decode.Safe.{Gives, IsGood, decode-Gives}
use clibrary.Packet.Decode.Udp.{Read, decode_udp_lem}
use clibrary.Packet.Decode.Tcp.{decode_tcp-Accessible}
use clibrary.Packet.Decode.Loop.{EmptyHeader, endless}
use clibrary.Packet.Decode.Stack.{IsStack}
use clibrary.Packet.Decode.Ends.{NoEmptyHeader, decode-returns}

abbrev no_layer : Layer
no_layer = record { protocol = Protocol.eth; size = 0; start = 0 }

abbrev no_option : TcpOption
no_option = record { kind = 0; len = 0; value = none }

abbrev new_packet : Packet
new_packet = packet_create 0 (replicate 32 no_layer) (replicate 32 no_option)

abbrev no_stats : Stats
no_stats = record {
  total_bytes = 0;
  ips_packets = 0;
  ips_bytes = 0;
  tcps_packets = 0;
  tcps_bytes = 0;
  tcps_tooshort = 0;
}

new_packet-IsStack : IsStack new_packet
unfolding packet_create
new_packet-IsStack = (refl, omega arith, tt)

-- A packet with two layers.
abbrev two_layers : Packet
two_layers =
    let p1 = (layer_ins new_packet 0 20 Protocol.ip4).0 in (layer_ins p1 20 8 Protocol.udp).0

-- Window scale, no operation, end of options.
abbrev some_options : List ℕ
some_options = 3 ∷ 3 ∷ 7 ∷ 1 ∷ 0 ∷ 9 ∷ []

decode_tcp_options-returns_example :
    ((p' : Packet) × (decode_tcp_options some_options new_packet 0 5 ≡ ok p')
      × (p'.tcpopt_count ≤ max_tcpoptlen))
    ⊎ Empty some_options 0 5 × (decode_tcp_options some_options new_packet 0 5 ≡ fault)
unfolding packet_create
decode_tcp_options-returns_example =
    decode_tcp_options-returns some_options 0 5 new_packet refl (omega arith)

zero_length_option_example : options_loop 33 (5 ∷ 0 ∷ 0 ∷ 0 ∷ []) 0 4 0 new_packet ≡ fault
unfolding packet_create
zero_length_option_example =
    zero_length_option 33 (5 ∷ 0 ∷ 0 ∷ 0 ∷ []) 0 4 0 new_packet refl refl (omega arith)
      (omega arith) (omega arith) (omega arith)

-- From 10.0.0.1 to 10.0.0.2, 20 bytes long.
abbrev empty_header : List ℕ
empty_header =
    0x40 ∷ 0 ∷ 0 ∷ 20 ∷ 0 ∷ 0 ∷ 0x40 ∷ 0 ∷ 64 ∷ 4 ∷ 0 ∷ 0 ∷ 10 ∷ 0 ∷ 0 ∷ 1 ∷ 10 ∷ 0 ∷ 0 ∷ 2 ∷ []

empty_header-EmptyHeader : EmptyHeader empty_header 0 20
empty_header-EmptyHeader = record {
  head = 0x40;
  first = refl;
  no_length = refl;
  total = (0, 20);
  total_length = (refl, refl);
  within = omega arith;
  off = (0x40, 0);
  fragment = (refl, refl);
  whole = (refl, refl);
  protocol = refl;
  captured = omega arith;
}

endless_example : decode 40 empty_header ip 0 20 new_packet no_stats ≡ no_fuel
endless_example = endless 40 empty_header 0 20 new_packet no_stats empty_header-EmptyHeader

abbrev address : ℕ → Address
address n = record { first = 1; second = n }

IsLesser-run : IsLesser (address 2) (address 3)
unfolding ip_compare
IsLesser-run = refl

IsLesser-next_run : IsLesser (address 3) (address 9)
unfolding ip_compare
IsLesser-next_run = refl

decode-Gives_example : Gives IsGood (decode 3 empty_header ip 0 20 new_packet no_stats)
decode-Gives_example = decode-Gives 3 empty_header ip 0 20 new_packet no_stats new_packet-IsStack

-- A UDP header from port 53 to port 1024 with a checksum.
abbrev udp_bytes : List ℕ
udp_bytes = 0 ∷ 53 ∷ 4 ∷ 0 ∷ 0 ∷ 8 ∷ 1 ∷ 2 ∷ []

decode_udp_lem_example :
    (8 < 8) × (decode_udp udp_bytes 0 8 new_packet no_stats ≡ done new_packet no_stats false)
    ⊎ (d : Decoded) × (decode_udp udp_bytes 0 8 new_packet no_stats ≡ ok d)
      × Read udp_bytes 0 new_packet d
decode_udp_lem_example = decode_udp_lem udp_bytes 0 8 new_packet no_stats (omega arith)

-- A TCP header without options, from port 80 to port 1024.
abbrev tcp_bytes : List ℕ
tcp_bytes =
    0 ∷ 80 ∷ 4 ∷ 0 ∷ 0 ∷ 0 ∷ 0 ∷ 7 ∷ 0 ∷ 0 ∷ 0 ∷ 9 ∷ 0x50 ∷ 0x12 ∷ 1 ∷ 0 ∷ 0 ∷ 0 ∷ 0 ∷ 0 ∷ []

decode_tcp-Accessible_example :
    Gives
      (λ d. (d.good ≡ false) ⊎ Accessible tcp_bytes 0 d.packet)
      (decode_tcp tcp_bytes 0 20 new_packet no_stats)
unfolding packet_create
decode_tcp-Accessible_example =
    decode_tcp-Accessible tcp_bytes 0 20 new_packet no_stats (refl, omega arith, tt) (omega arith)

-- A packet whose one layer is a TCP header at 0.
abbrev tcp_packet : Packet
tcp_packet = transport_layer new_packet 0 20 Protocol.tcp

-- An IPv4 header and a UDP header, without a byte 4.
abbrev datagram : List ℕ
datagram =
    0x45 ∷ 0 ∷ 0 ∷ 28 ∷ 0 ∷ 1 ∷ 0 ∷ 0 ∷ 64 ∷ 17 ∷ 0 ∷ 0 ∷ 10 ∷ 0 ∷ 0 ∷ 1 ∷ 10 ∷ 0 ∷ 0 ∷ 2 ∷ 0 ∷ 53
    ∷ 0 ∷ 53 ∷ 0 ∷ 8 ∷ 0 ∷ 0 ∷ []

abbrev has : ℕ → List ℕ → Bool
has b [] = false
has b (x ∷ xs) = x == b || has b xs

has-byte : (b : ℕ) (mem : List ℕ) (i : ℕ) → has b mem ≡ false → byte mem i ≢ ok b
has-byte b [] i h e = ground arith
has-byte b (x ∷ xs) zero h e = ground arith
has-byte b (x ∷ xs) (suc i) h e = has-byte b xs i (ground arith) e

datagram-NoEmptyHeader : NoEmptyHeader datagram 0
datagram-NoEmptyHeader i head inside e four = absurd (has-byte 4 datagram (i + 9) refl four)

decode-returns_example : decode 58 datagram ip 0 28 new_packet no_stats ≢ no_fuel
decode-returns_example =
    decode-returns 58 datagram ip 0 28 new_packet no_stats datagram-NoEmptyHeader (omega arith)

-- From 10.0.0.1, port 5353, to 10.0.0.2, port 53.
abbrev greeting : Datagram
greeting = record {
  tos = 0;
  id = 0x1234;
  df = true;
  ttl = 64;
  src = (10, 0, 0, 1);
  dst = (10, 0, 0, 2);
  checksum = 0;
  srcport = 5353;
  dstport = 53;
  udp_checksum = 0;
  text = 0x68 ∷ 0x69 ∷ [];
}

wire-Received_example :
    (p : Packet) × (st' : Stats) × (out : Decoded) × (packet_decode false false 0
        (length (wire greeting))
        (packet_create 0 (no_layer ∷ no_layer ∷ replicate 30 no_layer) (replicate 32 no_option))
        no_stats
      ≡ some (p, st'))
    × (decode 1 (wire greeting) ip 0 (length (wire greeting)) p st' ≡ ok out)
    × (out.good ≡ true)
    × Received greeting out.packet
wire-Received_example =
    wire-Received 0 no_layer no_layer (replicate 30 no_layer) (replicate 32 no_option) greeting 0
      no_stats (omega arith)
