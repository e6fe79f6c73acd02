-- ===== src/Base/Maps.antt =====
-- A Go map with integer keys as an association list, a set as a list, and the sorted keys.
use Prim.Native.Nat.{ℕ, zero, suc, ◌+◌}
use mathlib.Core.Path.{◌≡◌, refl, ◌∙◌}
use mathlib.Core.Logic.{inl, inr}
use mathlib.Core.Bool.{Bool, true, false, ◌||◌, ◌&&◌}
use mathlib.Core.Option.{Option, none, some}
use mathlib.Core.List.{List, [], ◌∷◌, ◌++◌}
use native.Mathlib.Omega.{arith}
use terraform_provider_netge.Base.Tests.{◌==◌, ==_iff, leb, if◌then◌else◌, Bool-cases}

unfoldable pub elem : ℕ → List ℕ → Bool
elem k [] = false
elem k (j ∷ ks) = if j == k then true else elem k ks

-- The keys of a map occur once each.
abbrev pub Distinct : List ℕ → Type 0
Distinct [] = Unit
Distinct (k ∷ ks) = (elem k ks ≡ false) × Distinct ks

unfoldable pub insert_sorted : ℕ → List ℕ → List ℕ
insert_sorted k [] = k ∷ []
insert_sorted k (j ∷ ks) = if leb k j then k ∷ j ∷ ks else j ∷ insert_sorted k ks

-- slices.Sort and sort.Ints
unfoldable pub sort : List ℕ → List ℕ
unfolding insert_sorted
sort [] = []
sort (k ∷ ks) = insert_sorted k (sort ks)

-- The elements that pass a test, in order.
unfoldable pub keep : (ℕ → Bool) → List ℕ → List ℕ
keep test [] = []
keep test (k ∷ ks) = let rest = keep test ks in if test k then k ∷ rest else rest

elem-insert_sorted :
    (k j : ℕ) (ks : List ℕ) → elem k (insert_sorted j ks) ≡ (if j == k then true else elem k ks)
unfolding elem insert_sorted
elem-insert_sorted k j [] = refl
elem-insert_sorted k j (i ∷ ks) = ground (arith, elem-insert_sorted k j ks)

pub elem-sort : (k : ℕ) (ks : List ℕ) → elem k (sort ks) ≡ elem k ks
unfolding elem sort
elem-sort k [] = refl
elem-sort k (j ∷ ks) = elem-insert_sorted k j (sort ks) ∙ ground (arith, elem-sort k ks)

pub elem-append : (k : ℕ) (xs ys : List ℕ) → elem k (xs ++ ys) ≡ (elem k xs || elem k ys)
unfolding elem
elem-append k [] ys = refl
elem-append k (x ∷ xs) ys = ground (arith, elem-append k xs ys)

pub elem-keep :
    (test : ℕ → Bool) (k : ℕ) (ks : List ℕ) → elem k (keep test ks) ≡ (elem k ks && test k)
unfolding elem keep
elem-keep test k [] = refl
elem-keep test k (j ∷ ks) = elim (Bool-cases (j == k)) [
  | inl e ↦ let p : j ≡ k = (==_iff j k).0 e in rw (p) (ground (arith, elem-keep test k ks))
  | inr n ↦ ground (arith, elem-keep test k ks)
]

module _ {ℓ} {V : Type ℓ} where
  unfoldable pub lookup : ℕ → List (ℕ × V) → Option V
  lookup k [] = none
  lookup k ((j, v) ∷ m) = if j == k then some v else lookup k m

  -- m[k] = v
  unfoldable pub insert : ℕ → V → List (ℕ × V) → List (ℕ × V)
  insert k v [] = (k, v) ∷ []
  insert k v ((j, w) ∷ m) = if j == k then (k, v) ∷ m else (j, w) ∷ insert k v m

  abbrev pub keys : List (ℕ × V) → List ℕ
  keys [] = []
  keys ((k, v) ∷ m) = k ∷ keys m

  abbrev pub is_some : Option V → Bool
  is_some none = false
  is_some (some v) = true

  -- m[k] = f(k) for each k of the list, in order.
  unfoldable pub insert_all : (ℕ → V) → List ℕ → List (ℕ × V) → List (ℕ × V)
  unfolding insert
  insert_all f [] m = m
  insert_all f (k ∷ ks) m = insert_all f ks (insert k (f k) m)

  pub lookup-insert :
      (j k : ℕ) (v : V) (m : List (ℕ × V))
      → lookup j (insert k v m) ≡ (if k == j then some v else lookup j m)
  unfolding lookup insert
  lookup-insert j k v [] = refl
  lookup-insert j k v ((i, w) ∷ m) = ground (arith, lookup-insert j k v m)

  pub lookup-insert_all :
      (f : ℕ → V) (j : ℕ) (ks : List ℕ) (m : List (ℕ × V))
      → lookup j (insert_all f ks m) ≡ (if elem j ks then some (f j) else lookup j m)
  unfolding insert_all elem
  lookup-insert_all f j [] m = refl
  lookup-insert_all f j (k ∷ ks) m =
      ground (arith, lookup-insert_all f j ks (insert k (f k) m), lookup-insert j k (f k) m)

  pub elem-keys : (k : ℕ) (m : List (ℕ × V)) → elem k (keys m) ≡ is_some (lookup k m)
  unfolding lookup elem
  elem-keys k [] = refl
  elem-keys k ((j, v) ∷ m) = ground (arith, elem-keys k m)

-- The consecutive numbers from `start` on.
unfoldable pub range_from : ℕ → ℕ → List ℕ
range_from start zero = []
range_from start (suc n) = start ∷ range_from (start + 1) n
