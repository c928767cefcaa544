-- ===== src/Packet/Decode/Udp.antt =====
-- udp.c: what `decode_udp` reads, and when it reports an error.
use clibrary.Base.{
  ℕ, ◌+◌, ◌*◌, ◌≤◌, ◌<◌, ◌≡◌, ◌⊎◌, ◌↔◌, refl, sym, ap, ◌∙◌, inl, inr, Bool, true, false, not, ◌&&◌,
  if◌then◌else◌, Bool-cases, List, length, get_elem?-lt, ltb, ◌==◌, arith,
}
use clibrary.Packet.{Protocol, Packet, Stats, layer_ins}
use clibrary.Packet.Result.{ok, be16}
use clibrary.Packet.Decode.{Decoded, done, advance, decode_udp, transport_layer}

-- The insertion of a layer leaves the fields outside the stack alone.
transport_layer-rest :
    (p : Packet) (pkt size : ℕ) (proto : Protocol)
    → let q = transport_layer p pkt size proto in (q.version ≡ p.version) × (q.payload ≡ p.payload)
unfolding transport_layer layer_ins
transport_layer-rest p pkt size proto = (ground arith, ground arith)

be16-inside : (mem : List ℕ) (i : ℕ) → i + 1 < length mem → (n : ℕ) × (be16 mem i ≡ ok n)
be16-inside mem i h =
    let (hi, a) = get_elem?-lt mem i (omega arith) in
    let (lo, b) = get_elem?-lt mem (i + 1) h in (hi * 256 + lo, rw (a, b) refl)

abbrev pub past_header : Packet → ℕ → ℕ → ℕ → Packet
past_header p pkt a b =
    advance (record (transport_layer p pkt 8 Protocol.udp) { srcport = a; dstport = b }) 8

-- The last test of `decode_udp`.
done_if :
    (bad : Bool) (q : Packet) (st : Stats)
    → (if bad then done q st false else done q st true) ≡ done q st (not bad)
done_if true q st = refl
done_if false q st = refl

pub read_header :
    (mem : List ℕ) (pkt len : ℕ) (p : Packet) (st : Stats) (a b c : ℕ)
    → ltb len 8 ≡ false
    → be16 mem pkt ≡ ok a
    → be16 mem (pkt + 2) ≡ ok b
    → be16 mem (pkt + 6) ≡ ok c
    → let q = past_header p pkt a b in
      decode_udp mem pkt len p st ≡ done q st (not ((c == 0) && (q.version == 6)))
unfolding decode_udp
read_header mem pkt len p st a b c long ea eb ec =
    let q = past_header p pkt a b in
    rw (long, ea, eb, ec, decode_udp) (done_if ((c == 0) && (q.version == 6)) q st)

ok_inj : {a b : ℕ} → ok a ≡ ok b → a ≡ b
ok_inj e = cc

refused_iff : (c v : ℕ) → (not ((c == 0) && (v == 6)) ≡ false) ↔ ((c ≡ 0) × (v ≡ 6))
refused_iff c v = ground arith

-- What a UDP header gives.
pub record Read (mem : List ℕ) (pkt : ℕ) (p : Packet) (d : Decoded) : Type 0 where
  pub source : be16 mem pkt ≡ ok d.packet.srcport
  pub destination : be16 mem (pkt + 2) ≡ ok d.packet.dstport
  pub past : d.packet.payload ≡ p.payload + 8
  pub refused : (d.good ≡ false) ↔ ((be16 mem (pkt + 6) ≡ ok 0) × (p.version ≡ 6))

-- `decode_udp` on bytes that are all there refuses fewer than 8 without a change. Otherwise it ends,
-- takes the two ports from the header in network byte order and moves the payload past the header,
-- and it returns -1 exactly if the checksum is 0 in an IPv6 packet.
pub decode_udp_lem :
    (mem : List ℕ) (pkt len : ℕ) (p : Packet) (st : Stats)
    → pkt + len ≤ length mem
    → (len < 8) × (decode_udp mem pkt len p st ≡ done p st false)
      ⊎ (d : Decoded) × (decode_udp mem pkt len p st ≡ ok d) × Read mem pkt p d
unfolding decode_udp
decode_udp_lem mem pkt len p st h = elim (Bool-cases (ltb len 8)) [
  | inl short ↦ inl (ground arith, rw (short, decode_udp) refl)
  | inr long ↦
      let inside : 8 ≤ len = ground arith in
      let (a, ea) = be16-inside mem pkt (omega arith) in
      let (b, eb) = be16-inside mem (pkt + 2) (omega arith) in
      let (c, ec) = be16-inside mem (pkt + 6) (omega arith) in
      let rest = transport_layer-rest p pkt 8 Protocol.udp in
      let q = past_header p pkt a b in
      inr (
        record { packet = q; stats = st; good = not ((c == 0) && (q.version == 6)) },
        read_header mem pkt len p st a b c long ea eb ec,
        record {
          source = ea;
          destination = eb;
          past = ap (λ n. n + 8) rest.1;
          refused =
              let iff = refused_iff c q.version in
              (
                λ e. let k = iff.0 e in (ec ∙ ap ok k.0, sym rest.0 ∙ k.1),
                λ k. iff.1 (ok_inj (sym ec ∙ k.0), rest.0 ∙ k.1),
              );
        },
      )
]
