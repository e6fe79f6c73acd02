-- ===== src/Token/Tests.antt =====
-- The tokens and the requests that carry them on concrete inputs.
use mathlib.Core.Option
use Prim.Native.Nat.{bit_xor}
use terraform_provider_netge.Base.{◌≡◌, refl, false, some, [], ◌∷◌, arith, length, get_or, Bytes}
use terraform_provider_netge.Wire.{walk_tlvs}
use terraform_provider_netge.Token.{
  ntgr_rock, login_token, login_tag_for, encode_set_login_request, encode_set_name_request,
}
use terraform_provider_netge.Token.Rock.{key_text_byte, ntgr_rock-at}
use terraform_provider_netge.Token.Requests.{
  token_length, encode_set_login_request-walk_tlvs, encode_set_name_request-walk_tlvs,
}

abbrev password : Bytes
password = 0x70 ∷ 0x61 ∷ 0x73 ∷ 0x73 ∷ []

abbrev manager : Bytes
manager = 2 ∷ 0 ∷ 0 ∷ 0 ∷ 0 ∷ 1 ∷ []

abbrev switch : Bytes
switch = 0x10 ∷ 0x20 ∷ 0x30 ∷ 0x40 ∷ 0x50 ∷ 0x60 ∷ []

abbrev nonce : Bytes
nonce = 0xde ∷ 0xad ∷ 0xbe ∷ 0xef ∷ []

rock_test : ntgr_rock password ≡ 0x3e ∷ 0x15 ∷ 0x14 ∷ 0x01 ∷ []
unfolding ntgr_rock
rock_test = refl

ntgr_rock-at_example :
    (length (ntgr_rock password) ≡ 4)
    × (get_or (ntgr_rock password) 2 0 ≡ bit_xor 0x73 (key_text_byte 2))
    × (ntgr_rock (ntgr_rock password) ≡ password)
ntgr_rock-at_example =
    ntgr_rock-at password 2 (omega arith, (omega arith, (omega arith, (omega arith, tt))))
      (omega arith)

-- Capability 0x11: the password goes through NtgrRock, and the token is a V2 token.
encode_set_login_request-walk_tlvs_example :
    (t : Bytes) × (login_token 0x11 nonce switch password ≡ some t)
    × (length t ≡ token_length (login_tag_for 0x11) (length password))
    × (Option.map walk_tlvs (encode_set_login_request manager switch 7 0x11 nonce password)
        ≡ some (record { tag = login_tag_for 0x11; value = t } ∷ [], false))
encode_set_login_request-walk_tlvs_example =
    encode_set_login_request-walk_tlvs manager switch nonce password 7 0x11 refl refl (omega arith)
      (omega arith)

named_request_test :
    Option.map walk_tlvs (encode_set_name_request manager switch 8 0x10 nonce password)
    ≡ some (
      record { tag = login_tag_for 0x10; value = nonce }
          ∷ record { tag = 0x0003; value = password }
          ∷ [],
      false,
    )
named_request_test =
    encode_set_name_request-walk_tlvs manager switch nonce password 8 0x10 refl (omega arith)
      (omega arith)
