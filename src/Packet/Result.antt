-- ===== src/Packet/Result.antt =====
-- What a decoder gives back, and how it reads the captured bytes. `fault` is a read outside those
-- bytes or a write behind an array; `no_fuel` is a loop or a recursion that has not ended yet.
use clibrary.Base.{ℕ, ◌+◌, ◌*◌, ◌≡◌, ◌⊎◌, inl, inr, refl, Option, none, some, List, get_elem?}

pub data Result (A : Type 0) : Type 0 where
  ok : A → Result A
  fault : Result A
  no_fuel : Result A

infixl 5 ◌>>=◌
abbrev pub ◌>>=◌ : {A B : Type 0} → Result A → (A → Result B) → Result B
ok a >>= f = f a
fault >>= f = fault
no_fuel >>= f = no_fuel

abbrev pub read : Option ℕ → Result ℕ
read none = fault
read (some b) = ok b

abbrev pub byte : List ℕ → ℕ → Result ℕ
byte mem i = read (get_elem? mem i)

-- `ntohs` and `ntohl` of a field, and a 16-bit field left in the order of a little-endian machine.
abbrev pub be16 : List ℕ → ℕ → Result ℕ
be16 mem i = do hi ← byte mem i; lo ← byte mem (i + 1); ok (hi * 256 + lo)

abbrev pub le16 : List ℕ → ℕ → Result ℕ
le16 mem i = do lo ← byte mem i; hi ← byte mem (i + 1); ok (hi * 256 + lo)

abbrev pub be32 : List ℕ → ℕ → Result ℕ
be32 mem i = do hi ← be16 mem i; lo ← be16 mem (i + 2); ok (hi * 65536 + lo)

pub Result-cases :
    {A : Type 0} (r : Result A) → ((a : A) × (r ≡ ok a)) ⊎ (r ≡ fault) ⊎ (r ≡ no_fuel)
Result-cases (ok a) = inl (a, refl)
Result-cases fault = inr (inl refl)
Result-cases no_fuel = inr (inr refl)
