-- ===== src/Packet/Access/Walk.antt =====
-- packet.c: a walk over the layers of a packet with `packet_proto_first` and `packet_proto_next`.
use clibrary.Base.{
  ℕ, zero, suc, ◌+◌, ◌<◌, ◌≤◌, ◌≡◌, ◌≢◌, refl, ◌∙◌, sym, ap, inl, inr, Bool, true, false, Option,
  none, some, List, [], ◌∷◌, get_elem?, get_elem?-lt, take, drop, length, ltb, if◌then◌else◌,
  Bool-cases, arith,
}
use clibrary.Packet.{Layer, Packet}
use clibrary.Packet.Access.{proto_first, proto_next}

-- A caller's loop over the layers, with the number of calls of `packet_proto_next` that are allowed;
-- whether it has ended is the second part.
abbrev collect : ℕ → Packet → ℕ × Option Layer → List Layer × Bool
collect fuel p (it, none) = ([], true)
collect zero p (it, some l) = (l ∷ [], false)
collect (suc fuel) p (it, some l) =
    let rest = collect fuel p (proto_next p it) in (l ∷ rest.0, rest.1)

abbrev walk : Packet → List Layer × Bool
walk p = collect p.layer_count p (proto_first p)

some_inj : {A : Type 0} {a b : A} → some a ≡ some b → a ≡ b
some_inj e = cc

none-some : {A : Type 0} {a : A} → none ≢ some a
none-some e = ground arith

drop-take_all : {A : Type 0} (n it : ℕ) (xs : List A) → n ≤ it → drop it (take n xs) ≡ []
drop-take_all zero zero xs h = refl
drop-take_all zero (suc it) xs h = refl
drop-take_all (suc n) zero xs h = absurd (omega arith)
drop-take_all (suc n) (suc it) [] h = refl
drop-take_all (suc n) (suc it) (x ∷ xs) h = drop-take_all n it xs (omega arith)

drop-take_next :
    {A : Type 0} (n it : ℕ) (xs : List A) (x : A)
    → it < n
    → get_elem? xs it ≡ some x
    → drop it (take n xs) ≡ x ∷ drop (suc it) (take n xs)
drop-take_next zero it xs x h e = absurd (omega arith)
drop-take_next (suc n) it [] x h e = absurd (none-some e)
drop-take_next (suc n) zero (y ∷ xs) x h e = ap (λ z. z ∷ take n xs) (some_inj e)
drop-take_next (suc n) (suc it) (y ∷ xs) x h e = drop-take_next n it xs x (omega arith) e

ltb-lt : (a b : ℕ) → ltb a b ≡ true → a < b
ltb-lt a b h = ground arith

ltb-ge : (a b : ℕ) → ltb a b ≡ false → b ≤ a
ltb-ge a b h = ground arith

-- `packet_proto_first` and `packet_proto_next` give the layer at an index below the count.
abbrev at_index : Packet → ℕ → Option Layer
at_index p it = if ltb it p.layer_count then get_elem? p.layer it else none

collect_end :
    (p : Packet) (fuel it : ℕ)
    → ltb it p.layer_count ≡ false
    → collect fuel p (it, at_index p it) ≡ ([], true)
collect_end p zero it e = rw (e) refl
collect_end p (suc fuel) it e = rw (e) refl

collect_done :
    (p : Packet) (fuel it : ℕ)
    → ltb it p.layer_count ≡ false
    → collect fuel p (it, at_index p it) ≡ (drop it (take p.layer_count p.layer), true)
collect_done p fuel it e =
    collect_end p fuel it e
    ∙ ap (λ l. (l, true)) (sym (drop-take_all p.layer_count it p.layer (ltb-ge it p.layer_count e)))

collect_next :
    (p : Packet) (fuel it : ℕ) (l : Layer)
    → ltb it p.layer_count ≡ true
    → get_elem? p.layer it ≡ some l
    → collect (suc fuel) p (it, at_index p it) ≡ (
      l ∷ (collect fuel p (suc it, at_index p (suc it))).0,
      (collect fuel p (suc it, at_index p (suc it))).1,
    )
unfolding proto_next
collect_next p fuel it l e found =
    let up : it + 1 ≡ suc it = omega arith in
    let next : proto_next p it ≡ (suc it, at_index p (suc it)) = ap (λ n. (n, at_index p n)) up in
    rw (e, found) (ap (λ r. let rest = collect fuel p r in (l ∷ rest.0, rest.1)) next)

collect-drop :
    (p : Packet) (fuel it : ℕ)
    → p.layer_count ≤ length p.layer
    → p.layer_count ≤ it + fuel
    → collect fuel p (it, at_index p it) ≡ (drop it (take p.layer_count p.layer), true)
unfolding proto_next
collect-drop p zero it h k = elim (Bool-cases (ltb it p.layer_count)) [
  | inr e ↦ collect_done p zero it e
  | inl e ↦ let lt = ltb-lt it p.layer_count e in absurd (omega arith)
]
collect-drop p (suc fuel) it h k = elim (Bool-cases (ltb it p.layer_count)) [
  | inr e ↦ collect_done p (suc fuel) it e
  | inl e ↦
      let lt = ltb-lt it p.layer_count e in
      let (l, found) = get_elem?-lt p.layer it (omega arith) in
      let d = drop-take_next p.layer_count it p.layer l lt found in
      collect_next p fuel it l e found
      ∙ ap (λ r. (l ∷ r.0, r.1)) (collect-drop p fuel (suc it) h (omega arith))
      ∙ ap (λ l. (l, true)) (sym d)
]

-- A walk that starts with `packet_proto_first` and calls `packet_proto_next` until it returns NULL
-- ends within as many calls as there are layers, and gives the layers in the order of their
-- insertion, if no more are counted than the array has.
walk_lem :
    (p : Packet) → p.layer_count ≤ length p.layer → walk p ≡ (take p.layer_count p.layer, true)
unfolding proto_first
walk_lem p h = collect-drop p p.layer_count 0 h (omega arith)
