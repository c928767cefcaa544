-- ===== src/Hashmap/Crc.antt =====
-- hashmap.c: `crc32_tab` and `crc32` against the division of polynomials that they stand for.
use Prim.Native.Nat.{bit_xor}
use clibrary.Base.{
  ℕ, zero, suc, ◌/◌, ◌%◌, ◌^◌, ◌<◌, ◌≡◌, refl, ap, ◌∙◌, Bool, true, ◌&&◌, List, [], ◌∷◌, get_or,
  take, ◌==◌, if◌then◌else◌, arith,
}
use clibrary.Hashmap.Hash.{crc32_tab, crc32_rounds, crc32}

-- One bit of the division by the polynomial 0x04c11db7, with the bits in reverse order.
abbrev shift_bit : ℕ → ℕ
shift_bit r = if r % 2 == 0 then r / 2 else bit_xor (r / 2) 0xedb88320

unfoldable shift_bits : ℕ → ℕ → ℕ
shift_bits zero r = r
shift_bits (suc n) r = shift_bits n (shift_bit r)

-- The check value of a text bit by bit, with no table, and neither of the two inversions that the
-- CRC-32 of other programs makes.
unfoldable pub crc_of : ℕ → List ℕ → ℕ
unfolding shift_bits
crc_of crc [] = crc
crc_of crc (b ∷ bs) = crc_of (bit_xor (shift_bits 8 (bit_xor crc b % 256)) (crc / 2 ^ 8)) bs

same_below : ℕ → (ℕ → ℕ) → (ℕ → ℕ) → Bool
same_below zero f g = true
same_below (suc n) f g = (f n == g n) && same_below n f g

same_below_sound : (n : ℕ) (f g : ℕ → ℕ) (x : ℕ) → same_below n f g ≡ true → x < n → f x ≡ g x
unfolding same_below
same_below_sound zero f g x h lt = absurd (omega arith)
same_below_sound (suc n) f g x h lt = ground (arith, same_below_sound n f g x)

table_bits : same_below 256 (λ x. get_or crc32_tab x 0) (λ x. shift_bits 8 x) ≡ true
unfolding same_below shift_bits
table_bits = refl

crc32_tab-shift_bits : (x : ℕ) → get_or crc32_tab (x % 256) 0 ≡ shift_bits 8 (x % 256)
crc32_tab-shift_bits x =
    same_below_sound 256 (λ x. get_or crc32_tab x 0) (λ x. shift_bits 8 x) (x % 256) table_bits
      (omega arith)

rounds-crc_of : (crc : ℕ) (s : List ℕ) → crc32_rounds crc s ≡ crc_of crc s
unfolding crc_of
rounds-crc_of crc [] = refl
rounds-crc_of crc (b ∷ bs) =
    let e = crc32_tab-shift_bits (bit_xor crc b) in
    ap (λ t. crc32_rounds (bit_xor t (crc / 2 ^ 8)) bs) e
    ∙ rounds-crc_of (bit_xor (shift_bits 8 (bit_xor crc b % 256)) (crc / 2 ^ 8)) bs

-- `crc32`, which goes by the table `crc32_tab`, gives for every string what the division by the
-- CRC-32 polynomial gives bit by bit, from 0 and without a final inversion.
pub crc32-crc_of : (s : List ℕ) (len : ℕ) → crc32 s len ≡ crc_of 0 (take len s)
unfolding crc32
crc32-crc_of s len = rounds-crc_of 0 (take len s)
