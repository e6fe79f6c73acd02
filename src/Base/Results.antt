-- ===== src/Base/Results.antt =====
-- A Go result with an error: a value, or the error alone.
use mathlib.Core.Path.{◌≡◌, refl}

pub data Result {ℓ κ} (E : Type κ) (A : Type ℓ) : Type (ℓ ⊔ κ) where
  err : E → Result E A
  ok : A → Result E A

-- The early return on an error.
infixl 5 ◌>>=◌
abbrev pub ◌>>=◌ {μ ℓ κ} :
    {E : Type μ} {A : Type ℓ} {B : Type κ} (first : Result E A) (next : A → Result E B) → Result E B
err why >>= next = err why
ok value >>= next = next value

-- A result without an error comes from steps without one.
pub >>=-eq-ok {μ ℓ κ} :
    {E : Type μ} {A : Type ℓ} {B : Type κ} (first : Result E A) (next : A → Result E B) {b : B}
    → (first >>= next) ≡ ok b
    → (value : A) × (first ≡ ok value) × (next value ≡ ok b)
>>=-eq-ok (err why) next h = cc
>>=-eq-ok (ok value) next h = (value, refl, h)
