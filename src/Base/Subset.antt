-- ===== src/Base/Subset.antt =====
-- Finite sets by counting: a map whose keys all occur in a map of the same size has the same keys.
use Prim.Native.Nat.{ℕ, suc, ◌≤◌}
use mathlib.Core.Path.{◌≡◌, refl, sym, ap, ◌∙◌}
use mathlib.Core.Logic.{inl, inr}
use mathlib.Core.Bool.{true, false}
use mathlib.Core.Option.{none, some}
use mathlib.Core.List.{List, [], ◌∷◌}
use native.Mathlib.Omega.{arith}
use terraform_provider_netge.Base.Tests.{◌==◌, ==_iff, if◌then◌else◌, Bool-cases, Option-cases}
use terraform_provider_netge.Base.Lists.{length}
use terraform_provider_netge.Base.Maps.{elem, Distinct, lookup, keys, is_some, elem-keys}

erase_first : ℕ → List ℕ → List ℕ
erase_first k [] = []
erase_first k (j ∷ ks) = let rest = erase_first k ks in if j == k then ks else j ∷ rest

length-erase_first :
    (k : ℕ) (ks : List ℕ) → elem k ks ≡ true → length ks ≡ suc (length (erase_first k ks))
unfolding elem erase_first
length-erase_first k [] h = cc
length-erase_first k (j ∷ ks) h = ground (arith, length-erase_first k ks)

elem-erase_first :
    (k j : ℕ) (ks : List ℕ) → (k == j) ≡ false → elem j ks ≡ true → elem j (erase_first k ks) ≡ true
unfolding elem erase_first
elem-erase_first k j [] ne h = cc
elem-erase_first k j (i ∷ ks) ne h = ground (arith, elem-erase_first k j ks)

-- Distinct keys that all occur in another list are not more than that list has.
length_of_subset :
    (xs ys : List ℕ)
    → Distinct xs
    → ((k : ℕ) → elem k xs ≡ true → elem k ys ≡ true)
    → length xs ≤ length ys
unfolding elem
length_of_subset [] ys d h = omega arith
length_of_subset (x ∷ xs) ys d h =
    let within : elem x ys ≡ true = h x (ground arith) in
    let rest : length xs ≤ length (erase_first x ys) =
      length_of_subset xs (erase_first x ys) d.1
        (λ k e. elem-erase_first x k ys (ground (arith, d.0)) (h k (ground arith))) in
    omega (arith, length-erase_first x ys within)

-- So with equal lengths the other list has no further key.
pub elem_of_subset :
    (xs ys : List ℕ) (k : ℕ)
    → Distinct xs
    → ((j : ℕ) → elem j xs ≡ true → elem j ys ≡ true)
    → length xs ≡ length ys
    → elem k xs ≡ false
    → elem k ys ≡ false
unfolding elem
elem_of_subset xs ys k d h e out = elim (Bool-cases (elem k ys)) [
  | inr absent ↦ absent
  | inl present ↦ absurd (
      omega (
        arith,
        length_of_subset (k ∷ xs) ys (out, d)
            (λ j m. elim (Bool-cases (k == j)) [
              | inl same ↦ rw (← (==_iff k j).0 same) present
              | inr ne ↦ h j (ground arith)
            ]),
      ))
]

module _ {ℓ} {V : Type ℓ} where
  pub length-keys : (m : List (ℕ × V)) → length (keys m) ≡ length m
  length-keys [] = refl
  length-keys ((k, v) ∷ m) = ap suc (length-keys m)

  pub lookup-none : (k : ℕ) (m : List (ℕ × V)) → elem k (keys m) ≡ false → lookup k m ≡ none
  lookup-none k m h = elim (Option-cases (lookup k m)) [
    | inl e ↦ e
    | inr (v, e) ↦ cc (elem-keys k m, h, ap is_some e)
  ]

  pub elem-lookup :
      (k : ℕ) (m : List (ℕ × V)) {v : V} → lookup k m ≡ some v → elem k (keys m) ≡ true
  elem-lookup k m e = elem-keys k m ∙ ap is_some e

  pub lookup-elem :
      (k : ℕ) (m : List (ℕ × V)) → elem k (keys m) ≡ true → (v : V) × (lookup k m ≡ some v)
  lookup-elem k m h = elim (Option-cases (lookup k m)) [
    | inl e ↦ cc (elem-keys k m, h, ap is_some e)
    | inr found ↦ found
  ]

-- Where all keys of a map occur in a map of the same size, a key that it lacks is lacking there.
pub lookup_of_subset {ℓ κ} :
    {V : Type ℓ} {W : Type κ} (l : List (ℕ × V)) (r : List (ℕ × W)) (k : ℕ)
    → Distinct (keys l)
    → length l ≡ length r
    → ((j : ℕ) → elem j (keys l) ≡ true → elem j (keys r) ≡ true)
    → lookup k l ≡ none
    → lookup k r ≡ none
lookup_of_subset l r k d e sub h = lookup-none k r (
    elem_of_subset (keys l) (keys r) k d sub (length-keys l ∙ e ∙ sym (length-keys r))
      (elem-keys k l ∙ ap is_some h))
