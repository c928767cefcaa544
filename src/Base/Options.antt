-- ===== src/Base/Options.antt =====
-- What is known of a function that goes on with the value of an option, from its result.
use mathlib.Core.Path.{◌≡◌, refl, sym}
use mathlib.Core.Option.{Option, none, some, some-injective, none-ne-some}

module _ {A B : Type 0} (f : A → B) where
  pub some_lem :
      (o : Option A) {b : B}
      → elim o as (λ x. Option B) [ none ↦ none | some a ↦ some (f a) ] ≡ some b
      → (a : A) × (o ≡ some a) × (f a ≡ b)
  some_lem none e = absurd (none-ne-some _ e)
  some_lem (some a) e = (a, refl, some-injective _ _ e)

  pub none_lem :
      (o : Option A)
      → elim o as (λ x. Option B) [ none ↦ none | some a ↦ some (f a) ] ≡ none
      → o ≡ none
  none_lem none h = refl
  none_lem (some a) h = absurd (none-ne-some _ (sym h))
