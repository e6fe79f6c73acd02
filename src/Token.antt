-- ===== src/Token.antt =====
-- internal/nsdp/token.go and the request builders of internal/nsdp/wire.go that carry its tokens.
-- `none` stands for the panic of an index past the end.
pub mod Rock
pub mod Requests
mod Tests
use Prim.Native.Nat.{bit_and, bit_xor}
use mathlib.Core.Option
use terraform_provider_netge.Base.{
  ℕ, zero, suc, ◌+◌, ◌%◌, Bool, true, false, not, ◌||◌, Option, none, some, List, [], ◌∷◌, ◌++◌,
  length, get_or, take, replicate, ltb, ◌==◌, if◌then◌else◌, Bytes,
}
use terraform_provider_netge.Wire.{Tlv, encode_set_tlvs, system_name_tag}

abbrev pub login_tag_plain : ℕ
login_tag_plain = 0x000a

abbrev pub login_tag_v1 : ℕ
login_tag_v1 = 0x0018

abbrev pub login_tag_v2 : ℕ
login_tag_v2 = 0x001a

-- "NtgrSmartSwitchRock"
abbrev pub ntgr_rock_key : Bytes
ntgr_rock_key =
    0x4e ∷ 0x74 ∷ 0x67 ∷ 0x72 ∷ 0x53 ∷ 0x6d ∷ 0x61 ∷ 0x72 ∷ 0x74 ∷ 0x53 ∷ 0x77 ∷ 0x69 ∷ 0x74 ∷ 0x63
    ∷ 0x68 ∷ 0x52 ∷ 0x6f ∷ 0x63 ∷ 0x6b ∷ []

unfoldable pub pad_password : Bytes → Bytes
pad_password pw = take 20 (pw ++ replicate 20 0)

-- The loop of NtgrRock from the index i on.
unfoldable pub rock_from : ℕ → Bytes → Bytes
rock_from i [] = []
rock_from i (c ∷ pw) =
    bit_xor c (get_or ntgr_rock_key (i % length ntgr_rock_key) 0) ∷ rock_from (i + 1) pw

unfoldable pub ntgr_rock : Bytes → Bytes
unfolding rock_from
ntgr_rock pw = rock_from 0 pw

-- The XOR of the bytes at some indices of the nonce, the MAC and the password.
xor_at : Bytes → List ℕ → ℕ
xor_at xs [] = 0
xor_at xs (i ∷ is) = bit_xor (get_or xs i 0) (xor_at xs is)

mix : Bytes → Bytes → Bytes → List ℕ → List ℕ → List ℕ → ℕ
unfolding xor_at
mix n m p ns ms ps = bit_xor (xor_at n ns) (bit_xor (xor_at m ms) (xor_at p ps))

unfoldable pub v2_login_token : Bytes → Bytes → Bytes → Option Bytes
unfolding mix
v2_login_token n m p =
    if ltb (length n) 4 || (ltb (length m) 6 || ltb (length p) 20)
    then none
    else some (
        mix n m p (3 ∷ 2 ∷ []) (1 ∷ 5 ∷ []) (2 ∷ 1 ∷ 0 ∷ [])
        ∷ mix n m p (3 ∷ 1 ∷ []) (4 ∷ 0 ∷ []) (4 ∷ 3 ∷ 5 ∷ [])
        ∷ mix n m p (0 ∷ 2 ∷ []) (3 ∷ 2 ∷ []) (8 ∷ 6 ∷ 7 ∷ [])
        ∷ mix n m p (0 ∷ 1 ∷ []) (4 ∷ 5 ∷ []) (11 ∷ 10 ∷ 9 ∷ [])
        ∷ mix n m p (3 ∷ 2 ∷ []) (1 ∷ 5 ∷ []) (12 ∷ 14 ∷ 13 ∷ [])
        ∷ mix n m p (3 ∷ 1 ∷ []) (4 ∷ 0 ∷ []) (17 ∷ 16 ∷ 15 ∷ [])
        ∷ mix n m p (0 ∷ 2 ∷ []) (3 ∷ 2 ∷ []) (19 ∷ 18 ∷ 0 ∷ [])
        ∷ mix n m p (0 ∷ 1 ∷ []) (4 ∷ 5 ∷ []) (3 ∷ 5 ∷ 1 ∷ [])
        ∷ [])

unfoldable pub v1_login_token : Bytes → Bytes → Bytes → Option Bytes
unfolding mix
v1_login_token n m p =
    if ltb (length n) 4 || (ltb (length m) 6 || ltb (length p) 16)
    then none
    else some (
        mix n m p (3 ∷ 2 ∷ []) (1 ∷ 5 ∷ []) (13 ∷ 9 ∷ 7 ∷ 1 ∷ [])
        ∷ mix n m p (3 ∷ 1 ∷ []) (4 ∷ 0 ∷ []) (14 ∷ 10 ∷ 6 ∷ 2 ∷ [])
        ∷ mix n m p (0 ∷ 2 ∷ []) (3 ∷ 2 ∷ []) (12 ∷ 8 ∷ 5 ∷ 0 ∷ [])
        ∷ mix n m p (0 ∷ 1 ∷ []) (4 ∷ 5 ∷ []) (15 ∷ 11 ∷ 4 ∷ 3 ∷ [])
        ∷ [])

abbrev pub has_bit : ℕ → ℕ → Bool
has_bit capability bit = not (bit_and capability bit == 0)

unfoldable pub login_token : ℕ → Bytes → Bytes → Bytes → Option Bytes
unfolding ntgr_rock v2_login_token v1_login_token pad_password
login_token capability nonce mac password =
    let pw = if has_bit capability 1 then ntgr_rock password else password in
    if has_bit capability 0x10
    then v2_login_token nonce mac (pad_password pw)
    else if has_bit capability 8
    then v1_login_token nonce mac (pad_password pw)
    else some pw

unfoldable pub login_tag_for : ℕ → ℕ
login_tag_for capability =
    if has_bit capability 0x10
    then login_tag_v2
    else if has_bit capability 8
    then login_tag_v1
    else login_tag_plain

unfoldable pub encode_set_login_request : Bytes → Bytes → ℕ → ℕ → Bytes → Bytes → Option Bytes
unfolding login_token login_tag_for encode_set_tlvs
encode_set_login_request mac agent seq capability nonce password =
    elim (login_token capability nonce agent password) [
      | none ↦ none
      | some token ↦
          encode_set_tlvs mac agent seq
            (record { tag = login_tag_for capability; value = token } ∷ [])
    ]

unfoldable pub encode_set_name_request : Bytes → Bytes → ℕ → ℕ → Bytes → Bytes → Option Bytes
unfolding login_tag_for encode_set_tlvs
encode_set_name_request mac agent seq capability token name = encode_set_tlvs mac agent seq (
    record { tag = login_tag_for capability; value = token }
    ∷ record { tag = system_name_tag; value = name }
    ∷ [])
