-- ===== src/Grammar/Numbers.antt =====
-- Printed numbers read back (internal/client/gs108tv2/codec.go).
use terraform_provider_netge.Base.{
  ℕ, zero, suc, ◌+◌, ◌*◌, ◌/◌, ◌%◌, ◌-◌, ◌≤◌, ◌<◌, ◌≡◌, refl, ap, ◌∙◌, true, false, Bool-cases, inl,
  inr, some, [], ◌∷◌, arith, ltb, leb, ltb→lt, ◌&&◌, Bytes, All, is_empty,
}
use terraform_provider_netge.Grammar.{
  digits_onto, decimal, number_from, without_plus, positive_number,
}

-- A digit of a decimal number.
abbrev pub IsDigit : ℕ → Type 0
IsDigit c = (48 ≤ c) × (c ≤ 57)

number_from-digit :
    (n d : ℕ) (rest : Bytes)
    → d < 10
    → number_from n ((48 + d) ∷ rest) ≡ number_from (n * 10 + d) rest
unfolding number_from
number_from-digit n d rest h =
    let inside : (leb 48 (48 + d) && leb (48 + d) 57) ≡ true = ground (arith, h) in
    let value : 48 + d - 48 ≡ d = omega arith in rw (number_from, inside, value) refl

digits_onto-small :
    (fuel n : ℕ) (rest : Bytes) → ltb n 10 ≡ true → digits_onto (suc fuel) n rest ≡ (48 + n) ∷ rest
unfolding digits_onto
digits_onto-small fuel n rest h = rw (digits_onto, h) refl

digits_onto-large :
    (fuel n : ℕ) (rest : Bytes)
    → ltb n 10 ≡ false
    → digits_onto (suc fuel) n rest ≡ digits_onto fuel (n / 10) ((48 + n % 10) ∷ rest)
unfolding digits_onto
digits_onto-large fuel n rest h = rw (digits_onto, h) refl

number_from-digits_onto :
    (fuel n : ℕ) (rest : Bytes)
    → n ≤ fuel
    → number_from 0 (digits_onto fuel n rest) ≡ number_from n rest
unfolding digits_onto
number_from-digits_onto zero n rest h =
    let empty : n ≡ 0 = omega (arith, h) in rw (empty) (number_from-digit 0 0 rest (omega arith))
number_from-digits_onto (suc fuel) n rest h = elim (Bool-cases (ltb n 10)) [
  | inl small ↦
      rw (digits_onto-small fuel n rest small) (
        number_from-digit 0 n rest (ltb→lt n 10 small) ∙ ap (λ m. number_from m rest) (omega arith))
  | inr large ↦ rw (digits_onto-large fuel n rest large) (
      number_from-digits_onto fuel (n / 10) ((48 + n % 10) ∷ rest) (ground (arith, h, large))
      ∙ number_from-digit (n / 10) (n % 10) rest (omega arith)
      ∙ ap (λ m. number_from m rest) (omega arith))
]

digits_onto-IsDigit :
    (fuel n : ℕ) (rest : Bytes)
    → All IsDigit rest
    → All IsDigit (digits_onto fuel n rest) × (is_empty (digits_onto fuel n rest) ≡ false)
unfolding digits_onto
digits_onto-IsDigit zero n rest h = (((omega arith, omega arith), h), refl)
digits_onto-IsDigit (suc fuel) n rest h = elim (Bool-cases (ltb n 10)) [
  | inl small ↦
      rw (digits_onto-small fuel n rest small) (((omega arith, ground (arith, small)), h), refl)
  | inr large ↦
      rw (digits_onto-large fuel n rest large)
        (digits_onto-IsDigit fuel (n / 10) ((48 + n % 10) ∷ rest) ((omega arith, omega arith), h))
]

pub decimal-IsDigit : (n : ℕ) → All IsDigit (decimal n) × (is_empty (decimal n) ≡ false)
unfolding decimal
decimal-IsDigit n = digits_onto-IsDigit n n [] tt

-- A number in the range of int that is not zero.
pub positive_number-decimal :
    (n : ℕ) → 0 < n → n < 9223372036854775808 → positive_number (decimal n) ≡ some n
unfolding positive_number decimal
positive_number-decimal n pos small =
    let digits = decimal-IsDigit n in
    let plain : without_plus (decimal n) ≡ decimal n = unsigned (decimal n) digits.0 in
    let value : number_from 0 (decimal n) ≡ some n =
      number_from-digits_onto n n [] (omega arith) ∙ done n in
    let inside : (ltb 0 n && ltb n 9223372036854775808) ≡ true = ground (arith, pos, small) in
    rw (plain, digits.1, value, inside) refl
  where
    unsigned : (ds : Bytes) → All IsDigit ds → without_plus ds ≡ ds
    unsigned [] h = refl
    unsigned (c ∷ cs) h = ground (arith, h.0)

    done : (n : ℕ) → number_from n [] ≡ some n
    done n = refl
