-- ===== src/Base/Words.antt =====
-- C's unsigned arithmetic: values below 2 ^ w, with the wrap-around written out.
use Prim.Native.Nat.{ℕ, ◌+◌, ◌-◌, ◌%◌, ◌^◌, ◌<◌}
use mathlib.Core.Path.{◌≡◌}
use mathlib.Core.Logic.{◌⊎◌}
use native.Mathlib.Omega.{arith}

-- `size_t` and `unsigned long`
abbrev pub ulong_max : ℕ
ulong_max = 2 ^ 64 - 1

abbrev pub add64 : ℕ → ℕ → ℕ
add64 a b = (a + b) % 2 ^ 64

abbrev pub sub64 : ℕ → ℕ → ℕ
sub64 a b = (a + 2 ^ 64 - b) % 2 ^ 64

-- `unsigned` and `uint32_t`
abbrev pub add32 : ℕ → ℕ → ℕ
add32 a b = (a + b) % 2 ^ 32

abbrev pub sub32 : ℕ → ℕ → ℕ
sub32 a b = (a + 2 ^ 32 - b) % 2 ^ 32

-- An index that goes round at `size` moves on by one, or back to 0.
pub wrap_cases :
    (size i : ℕ)
    → size < 2 ^ 64
    → i < size
    → ((add64 i 1 % size ≡ i + 1) × (i + 1 < size)) ⊎ ((add64 i 1 % size ≡ 0) × (i + 1 ≡ size))
wrap_cases size i h k = grind arith
