-- ===== src/Packet/Address.antt =====
-- ipaddr.h: `ip_compare` as an x86-64 build compiles it, on the two 64-bit halves of an address.
use clibrary.Base.{ℕ, ◌≡◌, sym, ap, ◌∙◌, ◌↔◌, ltb, if◌then◌else◌, arith}

-- `struct ipaddr`, as `addr64[0]` and `addr64[1]`.
pub record Address : Type 0 where
  pub first : ℕ
  pub second : ℕ

-- `IP_CODE`
pub data IpCode : Type 0 where
  ip_lesser ip_equal ip_greater : IpCode

unfoldable pub ip_compare : Address → Address → IpCode
ip_compare a b =
    if ltb a.first b.first
    then ip_lesser
    else if ltb b.first a.first
    then ip_greater
    else if ltb a.second b.second
    then ip_lesser
    else if ltb b.second a.second
    then ip_greater
    else ip_equal

abbrev opposite : IpCode → IpCode
opposite ip_lesser = ip_greater
opposite ip_equal = ip_equal
opposite ip_greater = ip_lesser

-- The order that the answers IP_LESSER and IP_EQUAL stand for.
abbrev pub IsLesser : Address → Address → Type 0
IsLesser a b = ip_compare a b ≡ ip_lesser

ip_compare_swap : (a b : Address) → ip_compare b a ≡ opposite (ip_compare a b)
unfolding ip_compare
ip_compare_swap a b = ground arith

ip_compare_same : (a : Address) → ip_compare a a ≡ ip_equal
unfolding ip_compare
ip_compare_same a = ground arith

ip_compare_equal : (a b : Address) → ip_compare a b ≡ ip_equal → a ≡ b
unfolding ip_compare
ip_compare_equal a b h = ground arith

-- The comparison of two addresses the other way round gives the opposite answer, and IP_EQUAL is
-- the answer exactly for equal addresses.
ip_compare_lem :
    (a b : Address)
    → (ip_compare b a ≡ opposite (ip_compare a b)) × ((ip_compare a b ≡ ip_equal) ↔ (a ≡ b))
ip_compare_lem a b = (
  ip_compare_swap a b,
  (ip_compare_equal a b, λ e. ap (ip_compare a) (sym e) ∙ ip_compare_same a),
)

-- If the first of three addresses is IP_LESSER than the second and the second than the third, then
-- the first is IP_LESSER than the third.
ip_compare_trans : (a b c : Address) → IsLesser a b → IsLesser b c → IsLesser a c
unfolding ip_compare
ip_compare_trans a b c h k = ground arith
