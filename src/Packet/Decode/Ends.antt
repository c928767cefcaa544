-- ===== src/Packet/Decode/Ends.antt =====
-- udp.c, tcp.c, ip4.c and ip6.c: the depth of the decoders' calls of one another.
use clibrary.Base.{
  ℕ, zero, suc, ◌+◌, ◌-◌, ◌*◌, ◌%◌, ◌≤◌, ◌<◌, ◌≡◌, ◌≢◌, inl, inr, refl, sym, ap, ◌∙◌, Bool, true,
  false, ◌||◌, Option, none, some, List, if◌then◌else◌, arith, ltb, ◌==◌,
}
use clibrary.Packet.{Packet, Stats}
use clibrary.Packet.Result.{Result, ok, fault, no_fuel, ◌>>=◌, read, byte, Result-cases}
use clibrary.Packet.Options.{decode_tcp_options}
use clibrary.Packet.Options.Progress.{decode_tcp_options-ne-no_fuel}
use clibrary.Packet.Decode.{
  Decoder, decode_udp, decode_tcp, decode_ip, decode_ip6, decode_ip6_rte, decode_ip6_frag,
  decode_ip6_ext, bind_ip, bind_ip6, Header, ip, ip6, rte, frag, ext, decode,
}

-- A result that is not out of fuel.
data Ends {A : Type 0} : Result A → Type 0 where
  ends_ok : {a : A} → Ends (ok a)
  ends_fault : Ends fault

module _ (mem : List ℕ) where
  Ends-bind :
      {A B : Type 0} (r : Result A) (f : A → Result B)
      → Ends r
      → ((a : A) → r ≡ ok a → Ends (f a))
      → Ends (r >>= f)
  Ends-bind (ok a) f h k = k a refl
  Ends-bind fault f h k = ends_fault
  Ends-bind no_fuel f h k = elim h [ ]

  Ends-if :
      {A : Type 0} (b : Bool) (x y : Result A)
      → (b ≡ true → Ends x)
      → (b ≡ false → Ends y)
      → Ends (if b then x else y)
  Ends-if true x y h k = h refl
  Ends-if false x y h k = k refl

  read-Ends : (o : Option ℕ) → Ends (read o)
  read-Ends none = ends_fault
  read-Ends (some b) = ends_ok

  options-Ends : (p : Packet) (start len : ℕ) → Ends (decode_tcp_options mem p start len)
  options-Ends p start len = elim (Result-cases (decode_tcp_options mem p start len)) [
    | inl (a, e) ↦ rw e ends_ok
    | inr (inl e) ↦ rw e ends_fault
    | inr (inr e) ↦ absurd (decode_tcp_options-ne-no_fuel mem p start len e)
  ]

  module _ (pkt len : ℕ) (p : Packet) (st : Stats) where
    decode_udp-Ends : Ends (decode_udp mem pkt len p st)
    unfolding decode_udp
    decode_udp-Ends = search (Ends-bind, Ends-if, ends_ok, read-Ends) depth 40

    decode_tcp-Ends : Ends (decode_tcp mem pkt len p st)
    unfolding decode_tcp
    decode_tcp-Ends = search (Ends-bind, Ends-if, ends_ok, read-Ends, options-Ends) depth 40

    decode_ip6-Ends :
        (next : Decoder)
        → ((q : Packet) → ltb len 40 ≡ false → Ends (next (pkt + 40) (len - 40) q st))
        → Ends (decode_ip6 mem next pkt len p st)
    unfolding decode_ip6
    decode_ip6-Ends next h = search (Ends-bind, Ends-if, ends_ok, read-Ends, h) depth 40

    decode_ip6_rte-Ends :
        (next : Decoder)
        → ((q : Packet) (n : ℕ)
            → ltb len (n * 8 + 8) ≡ false
            → Ends (next (pkt + (n * 8 + 8)) (len - (n * 8 + 8)) q st))
        → Ends (decode_ip6_rte mem next pkt len p st)
    unfolding decode_ip6_rte
    decode_ip6_rte-Ends next h =
        search (Ends-bind, Ends-if, ends_ok, ends_fault, read-Ends, h) depth 40

    decode_ip6_frag-Ends :
        (next : Decoder)
        → ((q : Packet) → ltb len 8 ≡ false → Ends (next (pkt + 8) (len - 8) q st))
        → Ends (decode_ip6_frag mem next pkt len p st)
    unfolding decode_ip6_frag
    decode_ip6_frag-Ends next h = search (Ends-bind, Ends-if, ends_ok, read-Ends, h) depth 40

    decode_ip6_ext-Ends :
        (next : Decoder)
        → ((q : Packet) (n : ℕ)
            → ltb len (n * 8 + 8) ≡ false
            → Ends (next (pkt + (n * 8 + 8)) (len - (n * 8 + 8)) q st))
        → Ends (decode_ip6_ext mem next pkt len p st)
    unfolding decode_ip6_ext
    decode_ip6_ext-Ends next h = search (Ends-bind, Ends-if, ends_ok, read-Ends, h) depth 40

    -- The header's first byte and its protocol, as the decoder that follows finds them.
    decode_ip-Ends :
        (next : Decoder)
        → ((q : Packet) (st' : Stats) (head proto : ℕ) (short : Bool)
            → byte mem pkt ≡ ok head
            → byte mem (pkt + 9) ≡ ok proto
            → q.protocol ≡ proto
            → ltb len (head % 16 * 4) || short ≡ false
            → Ends (next (pkt + head % 16 * 4) (len - head % 16 * 4) q st'))
        → Ends (decode_ip mem next pkt len p st)
    unfolding decode_ip
    decode_ip-Ends next h = search (Ends-bind, Ends-if, ends_ok, read-Ends, h) depth 60

    bind_ip-Ends :
        (run : Header → Decoder)
        → (p.protocol == 4 ≡ true → Ends (run ip pkt len p st))
        → (p.protocol == 41 ≡ true → Ends (run ip6 pkt len p st))
        → Ends (bind_ip mem run pkt len p st)
    unfolding bind_ip
    bind_ip-Ends run h k =
        search (Ends-if, ends_ok, decode_tcp-Ends, decode_udp-Ends, h, k) depth 20

    bind_ip6-Ends :
        (run : Header → Decoder)
        → ((h : Header) → Ends (run h pkt len p st))
        → Ends (bind_ip6 mem run pkt len p st)
    unfolding bind_ip6
    bind_ip6-Ends run h = search (Ends-if, ends_ok, decode_tcp-Ends, decode_udp-Ends, h) depth 20

-- From `pkt` on, no byte that could be the first of an IPv4 header has a length field of 0 and the
-- protocol 4 (IPIP) behind it.
abbrev pub NoEmptyHeader : List ℕ → ℕ → Type 0
NoEmptyHeader mem pkt =
    (i head : ℕ) → pkt ≤ i → byte mem i ≡ ok head → byte mem (i + 9) ≡ ok 4 → head % 16 ≢ 0

-- Fuel for a header with so many bytes left.
abbrev need : Header → ℕ → ℕ
need ip len = 2 * len + 2
need _ len = 2 * len + 1

later : (mem : List ℕ) (pkt n : ℕ) → NoEmptyHeader mem pkt → NoEmptyHeader mem (pkt + n)
later mem pkt n ne i head k = ne i head (omega arith)

need-le : (h : Header) (len : ℕ) → need h len ≤ 2 * len + 2
need-le ip len = omega arith
need-le h len = omega arith

-- Behind a header of `n` bytes there is fuel for any other.
enough :
    (h : Header) (len n fuel : ℕ)
    → ltb len n ≡ false
    → 0 < n
    → 2 * len + 1 ≤ suc fuel
    → need h (len - n) ≤ fuel
enough h len n fuel fits more f = ground (arith, need-le h (len - n))

again :
    (len n fuel : ℕ) (short : Bool)
    → n ≢ 0
    → ltb len (n * 4) || short ≡ false
    → 2 * len + 2 ≤ suc fuel
    → 2 * (len - n * 4) + 2 ≤ fuel
again len n fuel short some_bytes fits f = ground arith

fits_lem : (b c : Bool) → b || c ≡ false → b ≡ false
fits_lem b c h = ground arith

decode-Ends :
    (fuel : ℕ) (mem : List ℕ) (h : Header) (pkt len : ℕ) (p : Packet) (st : Stats)
    → NoEmptyHeader mem pkt
    → need h len ≤ fuel
    → Ends (decode fuel mem h pkt len p st)
unfolding decode
decode-Ends zero mem ip pkt len p st ne f = absurd (omega arith)
decode-Ends zero mem h pkt len p st ne f = absurd (omega arith)
decode-Ends (suc fuel) mem ip pkt len p st ne f =
    decode_ip-Ends mem pkt len p st (bind_ip mem (decode fuel mem))
      (λ q st' head proto short e e' same fits.
        bind_ip-Ends mem (pkt + head % 16 * 4) (len - head % 16 * 4) q st' (decode fuel mem)
          (λ four. decode-Ends fuel mem ip _ _ q st' (later mem pkt _ ne) (
            let proto_4 : q.protocol ≡ 4 = ground arith in
            let some_bytes = ne pkt head (omega arith) e (e' ∙ ap ok (sym same ∙ proto_4)) in
            again len (head % 16) fuel short some_bytes fits f))
          (λ six. decode-Ends fuel mem ip6 _ _ q st' (later mem pkt _ ne) (omega (arith, f))))
decode-Ends (suc fuel) mem ip6 pkt len p st ne f =
    decode_ip6-Ends mem pkt len p st (bind_ip6 mem (decode fuel mem)) (λ q fits.
      bind_ip6-Ends mem (pkt + 40) (len - 40) q st (decode fuel mem) (λ h.
        decode-Ends fuel mem h _ _ q st (later mem pkt 40 ne)
          (enough h len 40 fuel fits (omega arith) f)))
decode-Ends (suc fuel) mem rte pkt len p st ne f =
    decode_ip6_rte-Ends mem pkt len p st (bind_ip6 mem (decode fuel mem)) (λ q n fits.
      bind_ip6-Ends mem (pkt + (n * 8 + 8)) (len - (n * 8 + 8)) q st (decode fuel mem) (λ h.
        decode-Ends fuel mem h _ _ q st (later mem pkt _ ne)
          (enough h len (n * 8 + 8) fuel fits (omega arith) f)))
decode-Ends (suc fuel) mem frag pkt len p st ne f =
    decode_ip6_frag-Ends mem pkt len p st (bind_ip6 mem (decode fuel mem)) (λ q fits.
      bind_ip6-Ends mem (pkt + 8) (len - 8) q st (decode fuel mem) (λ h.
        decode-Ends fuel mem h _ _ q st (later mem pkt 8 ne)
          (enough h len 8 fuel fits (omega arith) f)))
decode-Ends (suc fuel) mem ext pkt len p st ne f =
    decode_ip6_ext-Ends mem pkt len p st (bind_ip6 mem (decode fuel mem)) (λ q n fits.
      bind_ip6-Ends mem (pkt + (n * 8 + 8)) (len - (n * 8 + 8)) q st (decode fuel mem) (λ h.
        decode-Ends fuel mem h _ _ q st (later mem pkt _ ne)
          (enough h len (n * 8 + 8) fuel fits (omega arith) f)))

Ends-ne : {A : Type 0} (r : Result A) → Ends r → r ≢ no_fuel
Ends-ne (ok a) ends_ok e = ground arith
Ends-ne fault ends_fault e = ground arith
Ends-ne no_fuel h e = elim h [ ]

-- The decoders call one another at most `2 * len + 2` deep, whatever header and packet they start
-- with, where no byte from `pkt` on starts an IPIP header whose length field is 0: with so much fuel
-- the result is never out of fuel.
pub decode-returns :
    (fuel : ℕ) (mem : List ℕ) (h : Header) (pkt len : ℕ) (p : Packet) (st : Stats)
    → NoEmptyHeader mem pkt
    → 2 * len + 2 ≤ fuel
    → decode fuel mem h pkt len p st ≢ no_fuel
decode-returns fuel mem h pkt len p st ne f =
    Ends-ne (decode fuel mem h pkt len p st)
      (decode-Ends fuel mem h pkt len p st ne (omega (arith, need-le h len, f)))
