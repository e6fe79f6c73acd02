-- ===== src/Base/Words.antt =====
-- Bytes as numbers below 256, and the big- and little-endian words of encoding/binary.
use Prim.Native.Nat.{ℕ, ◌+◌, ◌*◌, ◌/◌, ◌%◌, ◌<◌}
use mathlib.Core.Path.{◌≡◌}
use mathlib.Core.Logic.{◌↔◌}
use mathlib.Core.Bool.{Bool, true, false, ◌&&◌}
use mathlib.Core.List.{List, [], ◌∷◌}
use native.Mathlib.Omega.{arith}
use terraform_provider_netge.Base.Tests.{◌==◌}

abbrev pub Bytes : Type 0
Bytes = List ℕ

abbrev pub IsByte : ℕ → Type 0
IsByte b = b < 256

abbrev pub IsU16 : ℕ → Type 0
IsU16 n = n < 65536

abbrev pub IsU32 : ℕ → Type 0
IsU32 n = n < 4294967296

-- byte(n >> 8) and byte(n): the conversions wrap.
abbrev pub high : ℕ → ℕ
high n = n / 256 % 256

abbrev pub low : ℕ → ℕ
low n = n % 256

-- binary.BigEndian.Uint16 and binary.LittleEndian.Uint16 of two bytes in buffer order.
abbrev pub be16 : ℕ → ℕ → ℕ
be16 a b = a * 256 + b

abbrev pub le16 : ℕ → ℕ → ℕ
le16 a b = b * 256 + a

-- bytes.Equal
unfoldable pub equal : Bytes → Bytes → Bool
equal [] [] = true
equal (x ∷ xs) (y ∷ ys) = x == y && equal xs ys
equal _ _ = false

-- It decides equality of byte strings.
pub equal_iff : (left right : Bytes) → (equal left right ≡ true) ↔ (left ≡ right)
unfolding equal
equal_iff [] [] = ground arith
equal_iff [] (byte ∷ right) = ground arith
equal_iff (byte ∷ left) [] = ground arith
equal_iff (byte ∷ left) (byte' ∷ right) = ground (arith, equal_iff left right)
