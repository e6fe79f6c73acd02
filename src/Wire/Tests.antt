-- ===== src/Wire/Tests.antt =====
-- Frames of internal/nsdp/wire_test.go and the theorems of the wire format at concrete inputs.
use terraform_provider_netge.Base.{
  ◌+◌, ◌%◌, ◌≡◌, ◌↔◌, refl, true, false, some, [], ◌∷◌, ◌++◌, arith, Bytes, drop, get_or,
}
use mathlib.Core.Option
use terraform_provider_netge.Wire.{
  Tlv, Reply, reply, status_error, cmd_set, terminator, encode_get_request, encode_set_tlvs,
  encode_reply, walk_tlvs, read_reply, parse_reply,
}
use terraform_provider_netge.Wire.Walk.{Splits, walk_tlvs-Splits}
use terraform_provider_netge.Wire.Requests.{
  header, get_tlvs, walk_tlvs-encode_set_tlvs, walk_tlvs-encode_get_request,
}
use terraform_provider_netge.Wire.Replies.{Answers, parse_reply_iff}
use terraform_provider_netge.Wire.Exchange.{
  echoed, token_payload, get_exchange, parse_reply_auth_mismatch,
}

abbrev mac : Bytes
mac = 0x02 ∷ 0x11 ∷ 0x22 ∷ 0x33 ∷ 0x44 ∷ 0x55 ∷ []

abbrev switch_mac : Bytes
switch_mac = 0x28 ∷ 0x80 ∷ 0x88 ∷ 0x01 ∷ 0x02 ∷ 0x03 ∷ []

abbrev name_tlv : Tlv
name_tlv = record { tag = 0x0003; value = b's' ∷ b'w' ∷ [] }

abbrev auth_tlv : Tlv
auth_tlv = record { tag = 0x001a; value = 1 ∷ 2 ∷ 3 ∷ 4 ∷ 5 ∷ 6 ∷ 7 ∷ 8 ∷ [] }

-- The 44-byte single-tag request.
single_get :
    Option.map (drop 32) (encode_get_request mac [] 7 (0x01 ∷ []))
    ≡ some (0x00 ∷ 0x01 ∷ 0 ∷ 0 ∷ 0 ∷ 0 ∷ 0 ∷ 0 ∷ 0xff ∷ 0xff ∷ 0 ∷ 0 ∷ [])
unfolding encode_get_request Option.map
single_get = refl

abbrev dangling : Bytes
dangling =
    header 2 mac switch_mac 7 ++ (0 ∷ 3 ∷ 0 ∷ 2 ∷ b's' ∷ b'w' ∷ 0 ∷ 0 ∷ 0xff ∷ 0xff ∷ 0 ∷ 0 ∷ [])

-- The firmware's dangling tail keeps the entries in front of the cut.
walk_dangling : walk_tlvs dangling ≡ (name_tlv ∷ [], true)
unfolding walk_tlvs
walk_dangling = refl

walk_tlvs-Splits_example : Splits (drop 32 dangling) (walk_tlvs dangling)
walk_tlvs-Splits_example = walk_tlvs-Splits dangling (omega arith)

walk_tlvs-encode_set_tlvs_example :
    Option.map walk_tlvs (encode_set_tlvs mac switch_mac 9 (auth_tlv ∷ name_tlv ∷ []))
    ≡ some (auth_tlv ∷ name_tlv ∷ [], false)
walk_tlvs-encode_set_tlvs_example =
    walk_tlvs-encode_set_tlvs mac switch_mac 9 auth_tlv (name_tlv ∷ []) refl (ground arith)

get_request_test :
    Option.map walk_tlvs (encode_get_request mac [] 9 (1 ∷ 3 ∷ []))
    ≡ some (get_tlvs (1 ∷ 3 ∷ []), false)
get_request_test = walk_tlvs-encode_get_request mac [] 9 (1 ∷ 3 ∷ []) refl (omega arith)

parse_reply_iff_example :
    (parse_reply dangling 2 7 mac switch_mac ≡ reply (read_reply dangling)) ↔ (
      Answers dangling 2 7 mac switch_mac
      × (get_or dangling 2 0 ≡ 0)
      × (read_reply dangling ≡ read_reply dangling))
parse_reply_iff_example = parse_reply_iff dangling 2 7 mac switch_mac (read_reply dangling)

get_exchange_example :
    Option.bind (encode_get_request mac [] 9 (3 ∷ [])) (λ req.
      Option.map (λ pkt. parse_reply pkt 0x02 9 mac []) (encode_reply req 0 0 [] (name_tlv ∷ [])))
    ≡ some (reply (echoed 0 0 mac [] 9 (name_tlv ∷ [], false)))
get_exchange_example =
    get_exchange 9 mac [] (3 ∷ []) (name_tlv ∷ []) refl (omega arith) (omega arith) (ground arith)

parse_reply_auth_mismatch_example :
    (r : Reply) × (Option.map
        (λ pkt. parse_reply pkt ((cmd_set + 1) % 256) 9 mac switch_mac)
        (encode_reply
          (header cmd_set mac switch_mac 9 ++ terminator)
          0x0d
          0x1a
          (token_payload (1 ∷ 2 ∷ []))
          [])
      ≡ some (
          status_error r
            (record { status = 0x0d; failing_tag = 0x1a; expected_auth = some (1 ∷ 2 ∷ []) })))
parse_reply_auth_mismatch_example =
    parse_reply_auth_mismatch cmd_set 0x1a 9 mac switch_mac terminator (1 ∷ 2 ∷ []) [] refl
      (omega arith) (omega arith) (omega arith) (omega arith)
