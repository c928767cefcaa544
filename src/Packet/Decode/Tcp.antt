-- ===== src/Packet/Decode/Tcp.antt =====
-- tcp.c and packet.c: the accessors of a TCP header after `decode_tcp`.
use clibrary.Base.{
  ℕ, zero, suc, ◌+◌, ◌-◌, ◌<◌, ◌≡◌, ◌⊎◌, refl, inl, inr, true, false, some, List, [], ◌∷◌, length,
  get_elem?, set, ◌==◌, arith,
}
use clibrary.Packet.{Protocol, Layer, Packet, Stats, max_layers, layer_current}
use clibrary.Packet.Decode.{done, decode_tcp, transport_layer}
use clibrary.Packet.Decode.Stack.{IsStack, ins_room}
use clibrary.Packet.Decode.Safe.{
  Gives, gives_ok, Gives-bind, Gives-if, Gives-keep, IsSame, decode_tcp_options-Gives,
}
use clibrary.Packet.Access.{tcp_header, tcp_header-some, Accessible, tcp_header-Accessible}

get_elem?-set :
    {A : Type 0} (xs : List A) (i : ℕ) (x : A) → i < length xs → get_elem? (set xs i x) i ≡ some x
get_elem?-set [] i x h = absurd (omega arith)
get_elem?-set (y ∷ xs) zero x h = refl
get_elem?-set (y ∷ xs) (suc i) x h = get_elem?-set xs i x (omega arith)

-- A packet whose TCP header stands at an offset.
abbrev HasHeader : ℕ → Packet → Type 0
HasHeader pkt p = tcp_header p ≡ some pkt

abbrev with_layer : Packet → Layer → Packet
with_layer p l = record p {
  layer_count = p.layer_count + 1;
  layer = set p.layer p.layer_count l;
  transport = some p.layer_count;
}

transport_layer_room :
    (p : Packet) (pkt size : ℕ)
    → p.layer_count < max_layers
    → transport_layer p pkt size Protocol.tcp
      ≡ with_layer p (record { protocol = Protocol.tcp; size = size; start = pkt })
unfolding transport_layer layer_current
transport_layer_room p pkt size room =
    let e : p.layer_count == max_layers ≡ false = ground arith in
    let f : p.layer_count + 1 == 0 ≡ false = ground arith in
    let g : p.layer_count + 1 - 1 ≡ p.layer_count = omega arith in
    rw (ins_room p pkt size Protocol.tcp e, f, g) refl

transport_layer-HasHeader :
    (p : Packet) (pkt size : ℕ)
    → IsStack p
    → p.layer_count < max_layers
    → HasHeader pkt (transport_layer p pkt size Protocol.tcp)
transport_layer-HasHeader p pkt size h room =
    let l : Layer = record { protocol = Protocol.tcp; size = size; start = pkt } in
    let k = get_elem?-set p.layer p.layer_count l (omega (arith, h.0)) in
    rw (transport_layer_room p pkt size room)
      (tcp_header-some (with_layer p l) p.layer_count l refl k refl)

HasHeader-IsSame : (pkt : ℕ) (p p' : Packet) → IsSame p p' → HasHeader pkt p → HasHeader pkt p'
unfolding tcp_header
HasHeader-IsSame pkt p p' same h = rw (same.0, same.2) h

-- `decode_tcp` on a packet whose stack lies inside its array and has room for a layer: if it ends
-- without a fault, it has refused the bytes, or the accessors for the sequence and acknowledgement
-- numbers, the flags and the window read the header that was decoded.
pub decode_tcp-Accessible :
    (mem : List ℕ) (pkt len : ℕ) (p : Packet) (st : Stats)
    → IsStack p
    → p.layer_count < max_layers
    → Gives (λ d. (d.good ≡ false) ⊎ Accessible mem pkt d.packet) (decode_tcp mem pkt len p st)
unfolding decode_tcp tcp_header
decode_tcp-Accessible mem pkt len p st h room =
    let t = λ (n : ℕ). transport_layer-HasHeader p pkt n h room in
    let o = decode_tcp_options-Gives (HasHeader pkt) (HasHeader-IsSame pkt) mem in
    let keep =
      Gives-keep {P = λ d. (d.good ≡ false) ⊎ Accessible mem pkt d.packet} (HasHeader pkt) in
    let refused : (q : Packet) (s : Stats)
        → Gives (λ d. (d.good ≡ false) ⊎ Accessible mem pkt d.packet) (done q s false) =
      λ q s. gives_ok (inl refl) in
    let read : (q : Packet) (s : Stats)
        → HasHeader pkt q
        → Gives (λ d. (d.good ≡ false) ⊎ Accessible mem pkt d.packet) (done q s true) =
      λ q s k. gives_ok (inr (tcp_header-Accessible mem pkt q k)) in
    search (Gives-bind, keep, Gives-if, gives_ok, t, o, refused, read) depth 40
