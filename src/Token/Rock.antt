-- ===== src/Token/Rock.antt =====
-- NtgrRock (internal/nsdp/token.go): the XOR with a repeating key.
use Prim.Native.Nat.{bit_xor}
use terraform_provider_netge.Base.{
  ℕ, zero, suc, ◌+◌, ◌%◌, ◌<◌, ◌≡◌, ◌∙◌, ascii, refl, ap, Bool, true, [], ◌∷◌, arith, ◌==◌, ==_iff,
  length, get_or, Bytes, IsByte, All, all_below, all_below_sound,
}
use terraform_provider_netge.Token.{ntgr_rock_key, rock_from, ntgr_rock}

abbrev key_byte : ℕ → ℕ
key_byte i = get_or ntgr_rock_key i 0

abbrev undone : ℕ → ℕ → Bool
undone j c = bit_xor (bit_xor c (key_byte j)) (key_byte j) == c

key_table : all_below 19 (λ j. all_below 256 (undone j)) ≡ true
unfolding all_below
key_table = refl

key_twice : (i c : ℕ) → IsByte c → bit_xor (bit_xor c (key_byte (i % 19))) (key_byte (i % 19)) ≡ c
key_twice i c byte = (==_iff (bit_xor (bit_xor c (key_byte (i % 19))) (key_byte (i % 19))) c).0 (
    all_below_sound 256 (undone (i % 19)) c
      (all_below_sound 19 (λ j. all_below 256 (undone j)) (i % 19) key_table (omega arith)) byte)

rock_from_twice : (i : ℕ) (pw : Bytes) → All IsByte pw → rock_from i (rock_from i pw) ≡ pw
unfolding rock_from
rock_from_twice i [] h = refl
rock_from_twice i (c ∷ pw) h = rw (key_twice i c h.0, rock_from_twice (i + 1) pw h.1) refl

length-rock_from : (i : ℕ) (pw : Bytes) → length (rock_from i pw) ≡ length pw
unfolding rock_from
length-rock_from i [] = refl
length-rock_from i (c ∷ pw) = ap suc (length-rock_from (i + 1) pw)

pub length-ntgr_rock : (pw : Bytes) → length (ntgr_rock pw) ≡ length pw
unfolding ntgr_rock
length-ntgr_rock pw = length-rock_from 0 pw

-- The byte of the key text at an index, the text repeated.
abbrev pub key_text_byte : ℕ → ℕ
key_text_byte j = get_or (ascii "NtgrSmartSwitchRock") (j % 19) 0

rock_from-at :
    (i j : ℕ) (pw : Bytes)
    → j < length pw
    → get_or (rock_from i pw) j 0 ≡ bit_xor (get_or pw j 0) (key_text_byte (i + j))
unfolding rock_from
rock_from-at i j [] h = absurd (omega (arith, h))
rock_from-at i zero (c ∷ pw) h =
    let same : i ≡ i + 0 = omega arith in ap (λ k. bit_xor c (key_text_byte k)) same
rock_from-at i (suc j) (c ∷ pw) h =
    let same : i + 1 + j ≡ i + suc j = omega arith in
    rock_from-at (i + 1) j pw (omega (arith, h))
    ∙ ap (λ k. bit_xor (get_or pw j 0) (key_text_byte k)) same

-- NtgrRock keeps the length of a password of bytes, at each index gives the XOR of its byte
-- with the byte of the text NtgrSmartSwitchRock at that index, the text repeated, and undoes
-- itself.
pub ntgr_rock-at :
    (pw : Bytes) (j : ℕ)
    → All IsByte pw
    → j < length pw
    → (length (ntgr_rock pw) ≡ length pw)
      × (get_or (ntgr_rock pw) j 0 ≡ bit_xor (get_or pw j 0) (key_text_byte j))
      × (ntgr_rock (ntgr_rock pw) ≡ pw)
unfolding ntgr_rock
ntgr_rock-at pw j bytes h =
    let same : 0 + j ≡ j = omega arith in
    (
      length-ntgr_rock pw,
      rock_from-at 0 j pw h ∙ ap (λ k. bit_xor (get_or pw j 0) (key_text_byte k)) same,
      rock_from_twice 0 pw bytes,
    )
