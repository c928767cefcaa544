-- ===== src/Packet/Decode/Safe.antt =====
-- udp.c, tcp.c, ip4.c and ip6.c: every decoder keeps the stack of layers inside its array.
use clibrary.Base.{
  ℕ, zero, suc, ◌+◌, ◌≤◌, ◌≡◌, sym, ap, ◌∙◌, inl, inr, Bool, true, false, List, length,
  if◌then◌else◌, arith, ltb,
}
use mathlib.Core.Path.{subst}
use clibrary.Packet.{Protocol, Packet, Stats, max_layers, max_tcpoptlen}
use clibrary.Packet.Result.{Result, ok, fault, no_fuel, ◌>>=◌, Result-cases}
use clibrary.Packet.Options.{stop, go, options_step, options_loop, decode_tcp_options}
use clibrary.Packet.Decode.{
  Decoded, Decoder, decode_udp, decode_tcp, decode_ip, decode_ip6, decode_ip6_rte, decode_ip6_frag,
  decode_ip6_ext, bind_ip, bind_ip6, Header, ip, ip6, rte, frag, ext, decode,
}
use clibrary.Packet.Decode.Stack.{IsInside, IsStack, layer_ins-IsStack, transport_layer-IsStack}

-- What holds of the value that a result carries, if it carries one.
pub data Gives {A : Type 0} (P : A → Type 0) : Result A → Type 0 where
  gives_ok : {a : A} → P a → Gives P (ok a)
  gives_fault : Gives P fault
  gives_no_fuel : Gives P no_fuel

pub Gives-bind :
    {A B : Type 0} {P : B → Type 0} (r : Result A) (f : A → Result B)
    → ((a : A) → Gives P (f a))
    → Gives P (r >>= f)
Gives-bind (ok a) f h = h a
Gives-bind fault f h = gives_fault
Gives-bind no_fuel f h = gives_no_fuel

pub Gives-keep :
    {P : Decoded → Type 0} (Q : Packet → Type 0) (r : Result Packet) (f : Packet → Result Decoded)
    → Gives Q r
    → ((a : Packet) → Q a → Gives P (f a))
    → Gives P (r >>= f)
Gives-keep Q (ok a) f (gives_ok k) h = h a k
Gives-keep Q fault f k h = gives_fault
Gives-keep Q no_fuel f k h = gives_no_fuel

pub Gives-if :
    {A : Type 0} {P : A → Type 0} (b : Bool) (x y : Result A)
    → Gives P x
    → Gives P y
    → Gives P (if b then x else y)
Gives-if true x y h k = h
Gives-if false x y h k = k

-- The packet of a decoder's result has a stack inside its array.
abbrev pub IsGood : Decoded → Type 0
IsGood d = IsStack d.packet

-- The options' decoder leaves the stack alone.
abbrev pub IsSame : Packet → Packet → Type 0
IsSame p p' = (p'.layer ≡ p.layer) × (p'.layer_count ≡ p.layer_count) × (p'.transport ≡ p.transport)

go-IsSame :
    (mem : List ℕ) (start len depth jmp : ℕ) (p p' : Packet)
    → options_step mem start len depth p ≡ ok (go jmp p')
    → IsSame p p'
unfolding options_step
go-IsSame mem start len depth jmp p p' h = (ground arith, ground arith, ground arith)

stop-IsSame :
    (mem : List ℕ) (start len depth : ℕ) (p p' : Packet)
    → options_step mem start len depth p ≡ ok (stop p')
    → IsSame p p'
unfolding options_step
stop-IsSame mem start len depth p p' h = (ground arith, ground arith, ground arith)

IsSame-IsStack : (p p' : Packet) → IsSame p p' → IsStack p → IsStack p'
IsSame-IsStack p p' same h =
    let inside : IsInside p'.transport p'.layer_count = rw (same.2, same.1) h.2 in
    (ap length same.0 ∙ h.0, subst (λ n. n ≤ max_layers) (sym same.1) h.1, inside)

-- What the options' decoder keeps of a packet: all that depends on its stack only.
module _ (Q : Packet → Type 0) (respects : (p p' : Packet) → IsSame p p' → Q p → Q p')
    (mem : List ℕ) (start len : ℕ) where
  options_loop-Gives :
      (fuel depth : ℕ) (p : Packet) → Q p → Gives Q (options_loop fuel mem start len depth p)
  unfolding options_loop
  options_loop-Gives zero depth p h = gives_no_fuel
  options_loop-Gives (suc fuel) depth p h =
      elim (Result-cases (options_step mem start len depth p)) [
        | inr (inl e) ↦ rw (e, options_loop) gives_fault
        | inr (inr e) ↦ rw (e, options_loop) gives_no_fuel
        | inl (stop p', e) ↦
            rw (e, options_loop)
              (gives_ok (respects p p' (stop-IsSame mem start len depth p p' e) h))
        | inl (go jmp p', e) ↦
            rw (e, options_loop)
              (options_loop-Gives fuel (depth + jmp) p'
                (respects p p' (go-IsSame mem start len depth jmp p p' e) h))
      ]

  pub decode_tcp_options-Gives : (p : Packet) → Q p → Gives Q (decode_tcp_options mem p start len)
  unfolding decode_tcp_options
  decode_tcp_options-Gives p h =
      Gives-if (ltb max_tcpoptlen len) (ok p) (options_loop (max_tcpoptlen + 2) mem start len 0 p)
        (gives_ok h) (options_loop-Gives (max_tcpoptlen + 2) 0 p h)

module _ (mem : List ℕ) (pkt len : ℕ) (p : Packet) (st : Stats) (h : IsStack p) where
  decode_udp-Gives : Gives IsGood (decode_udp mem pkt len p st)
  unfolding decode_udp
  decode_udp-Gives =
      let t = transport_layer-IsStack p pkt 8 Protocol.udp h in
      search (Gives-bind, Gives-if, gives_ok, t) depth 40

  decode_tcp-Gives : Gives IsGood (decode_tcp mem pkt len p st)
  unfolding decode_tcp
  decode_tcp-Gives =
      let t = λ (n : ℕ). transport_layer-IsStack p pkt n Protocol.tcp h in
      let o = decode_tcp_options-Gives IsStack IsSame-IsStack mem in
      let keep = Gives-keep {P = IsGood} IsStack in
      search (Gives-bind, keep, Gives-if, gives_ok, t, o) depth 40

-- The decoders that go on with `next`, where that keeps the stack.
module _ (mem : List ℕ) (next : Decoder)
    (keeps : (pkt len : ℕ) (p : Packet) (st : Stats) → IsStack p → Gives IsGood (next pkt len p st))
    (pkt len : ℕ) (p : Packet) (st : Stats) (h : IsStack p) where
  decode_ip-Gives : Gives IsGood (decode_ip mem next pkt len p st)
  unfolding decode_ip
  decode_ip-Gives =
      let i = layer_ins-IsStack (record p { version = 4 }) pkt in
      search (Gives-bind, Gives-if, gives_ok, i) depth 40

  decode_ip6-Gives : Gives IsGood (decode_ip6 mem next pkt len p st)
  unfolding decode_ip6
  decode_ip6-Gives = search (Gives-bind, Gives-if, gives_ok, layer_ins-IsStack) depth 40

  decode_ip6_rte-Gives : Gives IsGood (decode_ip6_rte mem next pkt len p st)
  unfolding decode_ip6_rte
  decode_ip6_rte-Gives =
      let keep = Gives-keep {P = IsGood} IsStack in
      search (Gives-bind, keep, Gives-if, gives_ok, gives_fault, layer_ins-IsStack) depth 40

  decode_ip6_frag-Gives : Gives IsGood (decode_ip6_frag mem next pkt len p st)
  unfolding decode_ip6_frag
  decode_ip6_frag-Gives = search (Gives-bind, Gives-if, gives_ok, layer_ins-IsStack) depth 40

  decode_ip6_ext-Gives : Gives IsGood (decode_ip6_ext mem next pkt len p st)
  unfolding decode_ip6_ext
  decode_ip6_ext-Gives = search (Gives-bind, Gives-if, gives_ok, layer_ins-IsStack) depth 40

-- The two switches, over runs that keep the stack.
module _ (mem : List ℕ) (run : Header → Decoder)
    (keeps : (h : Header) (pkt len : ℕ) (p : Packet) (st : Stats)
      → IsStack p
      → Gives IsGood (run h pkt len p st))
    (pkt len : ℕ) (p : Packet) (st : Stats) (h : IsStack p) where
  bind_ip-Gives : Gives IsGood (bind_ip mem run pkt len p st)
  unfolding bind_ip
  bind_ip-Gives = search (Gives-if, gives_ok, decode_tcp-Gives, decode_udp-Gives) depth 20

  bind_ip6-Gives : Gives IsGood (bind_ip6 mem run pkt len p st)
  unfolding bind_ip6
  bind_ip6-Gives = search (Gives-if, gives_ok, decode_tcp-Gives, decode_udp-Gives) depth 20

-- Whatever bytes the decoders read, whatever header they start with and however deep the headers
-- are nested: on a packet whose stack lies inside its array of 32 layers, with a transport pointer
-- into the counted layers, the packet that they leave, if they end without a fault, has both
-- properties again.
pub decode-Gives :
    (fuel : ℕ) (mem : List ℕ) (h : Header) (pkt len : ℕ) (p : Packet) (st : Stats)
    → IsStack p
    → Gives IsGood (decode fuel mem h pkt len p st)
unfolding decode
decode-Gives zero mem h pkt len p st k = gives_no_fuel
decode-Gives (suc fuel) mem ip pkt len p st k =
    decode_ip-Gives mem (bind_ip mem (decode fuel mem))
      (bind_ip-Gives mem (decode fuel mem) (decode-Gives fuel mem)) pkt len p st k
decode-Gives (suc fuel) mem ip6 pkt len p st k =
    decode_ip6-Gives mem (bind_ip6 mem (decode fuel mem))
      (bind_ip6-Gives mem (decode fuel mem) (decode-Gives fuel mem)) pkt len p st k
decode-Gives (suc fuel) mem rte pkt len p st k =
    decode_ip6_rte-Gives mem (bind_ip6 mem (decode fuel mem))
      (bind_ip6-Gives mem (decode fuel mem) (decode-Gives fuel mem)) pkt len p st k
decode-Gives (suc fuel) mem frag pkt len p st k =
    decode_ip6_frag-Gives mem (bind_ip6 mem (decode fuel mem))
      (bind_ip6-Gives mem (decode fuel mem) (decode-Gives fuel mem)) pkt len p st k
decode-Gives (suc fuel) mem ext pkt len p st k =
    decode_ip6_ext-Gives mem (bind_ip6 mem (decode fuel mem))
      (bind_ip6-Gives mem (decode fuel mem) (decode-Gives fuel mem)) pkt len p st k
