-- ===== src/Wire.antt =====
-- internal/nsdp/wire.go: the frames of the NSDP v2 protocol.
-- A byte slice is a list of numbers, a nil MAC is the empty list. A slice that the walk advances
-- by an offset is the rest of the packet behind that offset. `none` is a panic.
pub mod Walk
pub mod Requests
pub mod Replies
pub mod Exchange
mod Tests
use terraform_provider_netge.Base.{
  ℕ, zero, suc, ◌+◌, ◌*◌, ◌%◌, ◌/◌, Bool, true, false, not, ◌&&◌, Option, none, some, List, [], ◌∷◌,
  ◌++◌, length, get_or, set, take, drop, ltb, leb, ◌==◌, if◌then◌else◌, Bytes, high, low, be16,
  equal,
}
use mathlib.Core.Option

abbrev pub proto_version : ℕ
proto_version = 0x01

abbrev pub cmd_get : ℕ
cmd_get = 0x01

abbrev pub cmd_set : ℕ
cmd_set = 0x03

abbrev pub header_len : ℕ
header_len = 32

abbrev pub reply_min_len : ℕ
reply_min_len = 36

abbrev pub tlv_term_tag : ℕ
tlv_term_tag = 0xffff

abbrev pub system_name_tag : ℕ
system_name_tag = 0x0003

abbrev pub status_auth_mismatch : ℕ
status_auth_mismatch = 0x0d

-- "NSDP"
abbrev pub magic : Bytes
magic = 0x4e ∷ 0x53 ∷ 0x44 ∷ 0x50 ∷ []

abbrev pub terminator : Bytes
terminator = 0xff ∷ 0xff ∷ 0x00 ∷ 0x00 ∷ []

pub record Tlv : Type 0 where
  pub tag : ℕ
  pub value : Bytes

-- binary.BigEndian.PutUint32
abbrev pub be32_bytes : ℕ → Bytes
be32_bytes n = n / 16777216 % 256 ∷ n / 65536 % 256 ∷ n / 256 % 256 ∷ n % 256 ∷ []

-- binary.BigEndian.Uint32 of a slice of four bytes.
abbrev pub be32 : Bytes → ℕ
be32 (a ∷ b ∷ c ∷ d ∷ _) = a * 16777216 + b * 65536 + c * 256 + d
be32 _ = 0

-- The Agent ID: broadcast for every length other than 6.
abbrev pub agent_id : Bytes → Bytes
agent_id agent = if length agent == 6 then agent else 0 ∷ 0 ∷ 0 ∷ 0 ∷ 0 ∷ 0 ∷ []

unfoldable pub encode_header : Bytes → Bytes → ℕ → Option Bytes
encode_header mac agent seq =
    if ltb (length mac) 6
    then none
    else some (
        (proto_version ∷ cmd_get ∷ 0 ∷ 0 ∷ 0 ∷ 0 ∷ 0 ∷ 0 ∷ [])
        ++ (take 6 mac
            ++ (agent_id agent ++ (be32_bytes seq ++ (magic ++ (0 ∷ 0 ∷ 0 ∷ 0 ∷ 0 ∷ []))))))

get_entries : Bytes → Bytes
get_entries [] = []
get_entries (tag ∷ tags) = tag ∷ 0 ∷ 0 ∷ 0 ∷ get_entries tags

unfoldable pub encode_get_request : Bytes → Bytes → ℕ → Bytes → Option Bytes
unfolding encode_header get_entries
encode_get_request mac agent seq tags =
    Option.map (λ req. set req 1 cmd_get ++ (get_entries tags ++ (0 ∷ 0 ∷ 0 ∷ terminator)))
      (encode_header mac agent seq)

-- A full {tag BE16, len BE16, value} entry.
abbrev pub tlv_bytes : Tlv → Bytes
tlv_bytes t = high t.tag ∷ low t.tag ∷ high (length t.value) ∷ low (length t.value) ∷ t.value

-- The loop of encodeSetTLVs from index `i` on.
append_tlvs : Bytes → ℕ → List Tlv → Bytes
append_tlvs req i [] = req
append_tlvs req i (t ∷ ts) =
    append_tlvs
      (if i == 0
        then set req 32 (high t.tag)
          ++ (low t.tag ∷ high (length t.value) ∷ low (length t.value) ∷ t.value)
        else req ++ tlv_bytes t)
      (i + 1) ts

unfoldable pub encode_set_tlvs : Bytes → Bytes → ℕ → List Tlv → Option Bytes
unfolding encode_header append_tlvs
encode_set_tlvs mac agent seq tlvs =
    Option.map (λ req. append_tlvs (set req 1 cmd_set) 0 tlvs ++ terminator)
      (encode_header mac agent seq)

unfoldable pub region : List Tlv → Bytes
region [] = []
region (t ∷ ts) = tlv_bytes t ++ region ts

-- A request shorter than 24 bytes makes the slice expression `req[8:24]` panic.
unfoldable pub encode_reply : Bytes → ℕ → ℕ → Bytes → List Tlv → Option Bytes
unfolding region
encode_reply req status failing payload tlvs =
    if ltb (length req) 24
    then none
    else some (
        (proto_version ∷ (get_or req 1 0 + 1) % 256 ∷ status ∷ 0 ∷ [])
        ++ ((high failing ∷ low failing ∷ 0 ∷ 0 ∷ [])
            ++ (take 16 (drop 8 req)
                ++ (magic ++ ((0 ∷ 0 ∷ 0 ∷ 0 ∷ []) ++ (payload ++ (region tlvs ++ terminator)))))))

-- The loop of WalkTLVs on the packet behind `off`; the flag is `truncated`.
unfoldable pub walk : ℕ → Bytes → List Tlv × Bool
walk (suc fuel) (a ∷ b ∷ c ∷ d ∷ rest) =
    let later = walk fuel (drop (be16 c d) rest) in
    if be16 a b == tlv_term_tag
    then ([], false)
    else if ltb (length rest) (be16 c d)
    then ([], true)
    else (record { tag = be16 a b; value = take (be16 c d) rest } ∷ later.0, later.1)
walk _ _ = ([], false)

unfoldable pub walk_tlvs : Bytes → List Tlv × Bool
unfolding walk
walk_tlvs pkt = walk (length pkt) (drop header_len pkt)

pub record Reply : Type 0 where
  pub status : ℕ
  pub failing_tag : ℕ
  pub seq : ℕ
  pub manager_mac : Bytes
  pub agent_mac : Bytes
  pub tlvs : List Tlv
  pub truncated : Bool

-- The reasons of ErrMalformed.
pub data Malformed : Type 0 where
  short_packet bad_version bad_command bad_magic stale_sequence : Malformed
  manager_echo agent_echo : Malformed

-- ErrStatus as ParseReply leaves it; `none` is a nil ExpectedAuth.
pub record ErrStatus : Type 0 where
  pub status : ℕ
  pub failing_tag : ℕ
  pub expected_auth : Option Bytes

-- What ParseReply returns: no reply and ErrMalformed, a reply and ErrStatus, or a reply alone.
pub data Parsed : Type 0 where
  malformed : Malformed → Parsed
  status_error : Reply → ErrStatus → Parsed
  reply : Reply → Parsed

unfoldable pub expected_auth_payload : Bytes → Option Bytes
expected_auth_payload pkt =
    let n = be16 (get_or pkt 32 0) (get_or pkt 33 0) in
    if ltb (length pkt) (header_len + 2)
    then none
    else if n == 0
    then none
    else if ltb (length pkt) (header_len + 2 + n)
    then none
    else some (take n (drop (header_len + 2) pkt))

-- The reply behind all the checks.
unfoldable pub read_reply : Bytes → Reply
read_reply pkt = record {
  status = get_or pkt 2 0;
  failing_tag = be16 (get_or pkt 4 0) (get_or pkt 5 0);
  seq = be32 (take 4 (drop 20 pkt));
  manager_mac = take 6 (drop 8 pkt);
  agent_mac = take 6 (drop 14 pkt);
  tlvs = (walk_tlvs pkt).0;
  truncated = (walk_tlvs pkt).1;
}

unfoldable pub finish_reply : Bytes → Reply → Parsed
finish_reply pkt r =
    if r.status == 0
    then reply r
    else status_error r (record {
      status = r.status;
      failing_tag = r.failing_tag;
      expected_auth = if r.status == status_auth_mismatch then expected_auth_payload pkt else none;
    })

-- The checks of ParseReply in their order; `none` is a packet that passes them all.
unfoldable pub check_reply : Bytes → ℕ → ℕ → Bytes → Bytes → Option Malformed
check_reply pkt expect_cmd want_seq manager agent =
    if ltb (length pkt) reply_min_len
    then some short_packet
    else if not (get_or pkt 0 0 == proto_version)
    then some bad_version
    else if not (get_or pkt 1 0 == expect_cmd)
    then some bad_command
    else if not (equal (take 4 (drop 24 pkt)) magic)
    then some bad_magic
    else if not (be32 (take 4 (drop 20 pkt)) == want_seq)
    then some stale_sequence
    else if length manager == 6 && not (equal (take 6 (drop 8 pkt)) manager)
    then some manager_echo
    else if length agent == 6 && not (equal (take 6 (drop 14 pkt)) agent)
    then some agent_echo
    else none

unfoldable pub parse_reply : Bytes → ℕ → ℕ → Bytes → Bytes → Parsed
parse_reply pkt expect_cmd want_seq manager agent =
    elim (check_reply pkt expect_cmd want_seq manager agent) [
      | some reason ↦ malformed reason
      | none ↦ finish_reply pkt (read_reply pkt)
    ]
