-- ===== src/Packet/Decode/Stack.antt =====
-- packet_private.c: the stack of layers and its array, and the transport pointer into the stack.
use clibrary.Base.{
  ℕ, ◌+◌, ◌≤◌, ◌<◌, ◌≡◌, refl, ◌∙◌, inl, inr, true, false, Option, none, some, length, length-set,
  set, ◌==◌, Bool-cases, arith,
}
use clibrary.Packet.{Protocol, Packet, max_layers, layer_ins, layer_rem, layer_current}
use clibrary.Packet.Decode.{transport_layer}

abbrev pub IsInside : Option ℕ → ℕ → Type 0
IsInside none n = Unit {0}
IsInside (some i) n = i < n

IsInside-suc : (t : Option ℕ) (n : ℕ) → IsInside t n → IsInside t (n + 1)
IsInside-suc none n h = tt
IsInside-suc (some i) n h = omega arith

-- The array has its 32 slots, no more are counted, and the transport is one of the counted layers.
abbrev pub IsStack : Packet → Type 0
IsStack p =
    (length p.layer ≡ max_layers)
    × (p.layer_count ≤ max_layers)
    × IsInside p.transport p.layer_count

module _ (p : Packet) (start size : ℕ) (proto : Protocol) where
  ins_full : p.layer_count == max_layers ≡ true → layer_ins p start size proto ≡ (p, false)
  unfolding layer_ins
  ins_full e = rw (e, layer_ins) refl

  pub ins_room :
      p.layer_count == max_layers ≡ false
      → layer_ins p start size proto ≡ (
        record p {
          layer_count = p.layer_count + 1;
          layer =
              set p.layer p.layer_count (record { protocol = proto; size = size; start = start });
        },
        true,
      )
  unfolding layer_ins
  ins_room e = rw (e, layer_ins) refl

  pub layer_ins-IsStack : IsStack p → IsStack (layer_ins p start size proto).0
  layer_ins-IsStack h = elim (Bool-cases (p.layer_count == max_layers)) [
    | inl e ↦ rw (ins_full e) h
    | inr e ↦
        let room : p.layer_count + 1 ≤ max_layers = (let k = h.1 in ground arith) in
        rw (ins_room e) (
          length-set p.layer p.layer_count _ ∙ h.0,
          room,
          IsInside-suc p.transport p.layer_count h.2,
        )
  ]

-- `packet_layer_rem` after `packet_layer_ins` on a stack with room returns 0 and gives back the
-- count, and the current layer is then the one that was inserted before, or NULL.
rem-ins :
    (p : Packet) (start size : ℕ) (proto : Protocol)
    → p.layer_count < max_layers
    → let q = layer_ins p start size proto in
      let r = layer_rem q.0 in
      (q.1 ≡ true)
      × (r.1 ≡ true)
      × (r.0.layer_count ≡ p.layer_count)
      × (layer_current q.0 ≡ some p.layer_count)
      × (layer_current r.0 ≡ layer_current p)
unfolding layer_ins layer_rem layer_current
rem-ins p start size proto h =
    (ground arith, ground arith, ground arith, ground arith, ground arith)

current-IsInside : (p : Packet) → IsInside (layer_current p) p.layer_count
unfolding layer_current
current-IsInside p = elim (Bool-cases (p.layer_count == 0)) [
  | inl e ↦ rw (e, layer_current) tt
  | inr e ↦ rw (e, layer_current) (ground arith)
]

-- On a stack inside its array of 32 layers, with a transport pointer into the counted layers, the
-- step that the UDP and the TCP decoder share (the insertion of a layer, ignored when the stack is
-- full, and the transport pointer set to the current layer) gives such a packet again.
pub transport_layer-IsStack :
    (p : Packet) (pkt size : ℕ) (proto : Protocol)
    → IsStack p
    → IsStack (transport_layer p pkt size proto)
unfolding transport_layer
transport_layer-IsStack p pkt size proto h =
    let k = layer_ins-IsStack p pkt size proto h in
    (k.0, k.1, current-IsInside (layer_ins p pkt size proto).0)
