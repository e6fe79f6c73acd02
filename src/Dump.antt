-- ===== src/Dump.antt =====
-- internal/nsdp/dump.go: block reads and the typed decoders of reply values.
-- A decoder returns none where the source leaves Decoded nil, and its notes are not modelled.
pub mod Typed
pub mod Reads
pub mod Identity
pub mod Budget
mod Tests
use mathlib.Core.Option
use terraform_provider_netge.Base.{
  ℕ, zero, suc, ◌+◌, ◌*◌, ◌/◌, ◌%◌, Bool, true, false, not, ◌&&◌, ◌||◌, Option, none, some, List,
  [], ◌∷◌, ◌++◌, map, length, get_or, set, take, drop, ltb, leb, ◌==◌, if◌then◌else◌, Bytes, high,
  low, be16, ascii_trim,
}
use terraform_provider_netge.Wire.{Tlv, cmd_get, terminator, be32, tlv_bytes, encode_header}

abbrev pub block_marker_v2 : ℕ
block_marker_v2 = 0x0014

-- The loop of encodeGetTLVs from index `i` on.
unfoldable pub append_get_tlvs : Bytes → ℕ → List Tlv → Bytes
append_get_tlvs req i [] = req
append_get_tlvs req i (t ∷ ts) =
    append_get_tlvs
      (if i == 0
        then set req 32 (high t.tag)
          ++ (low t.tag ∷ high (length t.value) ∷ low (length t.value) ∷ t.value)
        else req ++ tlv_bytes t)
      (i + 1) ts

unfoldable pub encode_get_tlvs : Bytes → Bytes → ℕ → List Tlv → Option Bytes
unfolding encode_header append_get_tlvs
encode_get_tlvs mac agent seq tlvs =
    Option.map (λ req. append_get_tlvs (set req 1 cmd_get) 0 tlvs ++ terminator)
      (encode_header mac agent seq)

-- The block ID is the high byte of the tag that is read.
unfoldable pub encode_block_get_request : Bytes → Bytes → ℕ → ℕ → ℕ → Bytes → Option Bytes
unfolding encode_get_tlvs
encode_block_get_request mac agent seq block marker selector =
    encode_get_tlvs mac agent seq
      (record { tag = marker; value = [] } ∷ record { tag = block * 256; value = selector } ∷ [])

pub record Be16Array : Type 0 where
  pub prefix : ℕ
  pub entries : List ℕ

pub record PortTrafficStats : Type 0 where
  pub port : ℕ
  pub received : ℕ
  pub sent : ℕ
  pub packets : ℕ
  pub broadcast : ℕ
  pub multicast : ℕ
  pub errors : ℕ

pub record PvidEntry : Type 0 where
  pub port : ℕ
  pub vlan_id : ℕ

pub record PortQosEntry : Type 0 where
  pub port : ℕ
  pub priority : ℕ

pub record BandwidthEntry : Type 0 where
  pub port : ℕ
  pub limit : ℕ

pub record IgmpConfig : Type 0 where
  pub enabled : ℕ
  pub vlan_id : ℕ

pub record PortMirrorConfig : Type 0 where
  pub dst_port : ℕ
  pub reserved : ℕ
  pub src_ports : ℕ

pub record SpeedLinkStatus : Type 0 where
  pub port : ℕ
  pub speed : ℕ
  pub flow : ℕ

pub record PortAdminStatusEntry : Type 0 where
  pub port : ℕ
  pub admin : ℕ
  pub flow : ℕ

pub record PortBasedVlanEntry : Type 0 where
  pub vlan_id : ℕ
  pub ports : ℕ

pub record PortEntry : Type 0 where
  pub port : ℕ
  pub value : ℕ

-- The dynamic type of Attr.Decoded: the typed values, and none for nil.
pub data Decoded : Type 0 where
  text : Bytes → Decoded
  model_code : ℕ → Decoded
  mac_address : Bytes → Decoded
  ip_address : Bytes → Decoded
  dhcp_mode : ℕ → Decoded
  byte : ℕ → Decoded
  capability_word : ℕ → Decoded
  traffic : List PortTrafficStats → Decoded
  port_based : List PortBasedVlanEntry → Decoded
  be16_array : Be16Array → Decoded
  pvid_table : List PvidEntry → Decoded
  qos_mode : ℕ → Decoded
  qos_table : List PortQosEntry → Decoded
  bandwidth : BandwidthEntry → Decoded
  mirroring : PortMirrorConfig → Decoded
  igmp : IgmpConfig → Decoded
  engine_mode : ℕ → Decoded
  speed_table : List SpeedLinkStatus → Decoded
  admin_table : List PortAdminStatusEntry → Decoded
  unverified : List PortEntry → Decoded

-- The pieces v[i*size : (i+1)*size] for i below a count.
unfoldable pub pieces : ℕ → ℕ → Bytes → List Bytes
pieces size zero v = []
pieces size (suc n) v = take size v ∷ pieces size n (drop size v)

-- Entries of one size, where the value is not empty and holds a whole number of them.
unfoldable pub entries_of : {A : Type 0} → ℕ → (Bytes → A) → Bytes → Option (List A)
unfolding pieces
entries_of size read v =
    if ltb 0 (length v) && length v % size == 0
    then some (map read (pieces size (length v / size) v))
    else none

-- binary.BigEndian.Uint16 and Uint64 at an offset.
abbrev pub be16_at : ℕ → Bytes → ℕ
be16_at i v = be16 (get_or v i 0) (get_or v (i + 1) 0)

abbrev pub be64_at : ℕ → Bytes → ℕ
be64_at i v = be32 (take 4 (drop i v)) * 4294967296 + be32 (take 4 (drop (i + 4) v))

abbrev pub read_traffic : Bytes → PortTrafficStats
read_traffic e = record {
  port = get_or e 0 0;
  received = be64_at 1 e;
  sent = be64_at 9 e;
  packets = be64_at 17 e;
  broadcast = be64_at 25 e;
  multicast = be64_at 33 e;
  errors = be64_at 41 e;
}

abbrev pub read_port_based : Bytes → PortBasedVlanEntry
read_port_based e = record { vlan_id = be16_at 0 e; ports = get_or e 2 0 }

abbrev pub read_pvid : Bytes → PvidEntry
read_pvid e = record { port = get_or e 0 0; vlan_id = be16_at 1 e }

abbrev pub read_qos : Bytes → PortQosEntry
read_qos e = record { port = get_or e 0 0; priority = get_or e 1 0 }

abbrev pub read_speed : Bytes → SpeedLinkStatus
read_speed e = record { port = get_or e 0 0; speed = get_or e 1 0; flow = get_or e 2 0 }

abbrev pub read_admin : Bytes → PortAdminStatusEntry
read_admin e = record { port = get_or e 0 0; admin = get_or e 1 0; flow = get_or e 2 0 }

abbrev pub read_unverified : Bytes → PortEntry
read_unverified e = record { port = get_or e 0 0; value = be16_at 1 e }

-- The entries of the BE16 array behind its prefix.
unfoldable pub be16_words : Bytes → List ℕ
be16_words (a ∷ b ∷ rest) = be16 a b ∷ be16_words rest
be16_words _ = []

-- A value of one length.
abbrev pub of_length : ℕ → (Bytes → Decoded) → Bytes → Option Decoded
of_length n read v = if length v == n then some (read v) else none

unfoldable pub in_list : ℕ → List ℕ → Bool
in_list tag [] = false
in_list tag (t ∷ ts) = tag == t || in_list tag ts

-- The tags whose values are texts.
abbrev pub text_tags : List ℕ
text_tags =
    0x0001 ∷ 0x0003 ∷ 0x0005 ∷ 0x000d ∷ 0x000e ∷ 0x0011 ∷ 0x7400 ∷ 0x7800 ∷ 0x8000 ∷ 0x0012 ∷ []

-- DecodeTLV
unfoldable pub decode_tlv : Tlv → Option Decoded
unfolding in_list entries_of be16_words ascii_trim
decode_tlv t =
    let v = t.value in
    if in_list t.tag text_tags
    then some (text (ascii_trim v))
    else if t.tag == 0x0002
    then of_length 2 (λ b. model_code (be16_at 0 b)) v
    else if t.tag == 0x0004
    then of_length 6 mac_address v
    else if in_list t.tag (0x0006 ∷ 0x0007 ∷ 0x0008 ∷ [])
    then of_length 4 ip_address v
    else if t.tag == 0x000b
    then of_length 1 (λ b. dhcp_mode (get_or b 0 0)) v
    else if in_list t.tag (0x000c ∷ 0x000f ∷ 0x6c00 ∷ [])
    then of_length 1 (λ b. byte (get_or b 0 0)) v
    else if t.tag == 0x0014
    then of_length 4 (λ b. capability_word (be32 b)) v
    else if t.tag == 0x1000
    then Option.map traffic (entries_of 49 read_traffic v)
    else if t.tag == 0x2400
    then Option.map port_based (entries_of 3 read_port_based v)
    else if t.tag == 0x2800
    then (if leb 2 (length v) && length v % 2 == 0
        then some (be16_array (record { prefix = be16_at 0 v; entries = be16_words (drop 2 v) }))
        else none)
    else if t.tag == 0x3000
    then Option.map pvid_table (entries_of 3 read_pvid v)
    else if t.tag == 0x3400
    then of_length 1 (λ b. qos_mode (get_or b 0 0)) v
    else if t.tag == 0x3800
    then Option.map qos_table (entries_of 2 read_qos v)
    else if in_list t.tag (0x4c00 ∷ 0x5000 ∷ 0x5800 ∷ [])
    then of_length 5 (λ b. bandwidth (record { port = get_or b 0 0; limit = be16_at 3 b })) v
    else if t.tag == 0x5c00
    then of_length 3
        (λ b.
          mirroring
            (record { dst_port = get_or b 0 0; reserved = get_or b 1 0; src_ports = get_or b 2 0 }))
        v
    else if t.tag == 0x6800
    then of_length 4 (λ b. igmp (record { enabled = be16_at 0 b; vlan_id = be16_at 2 b })) v
    else if t.tag == 0x2000
    then of_length 1 (λ b. engine_mode (get_or b 0 0)) v
    else if t.tag == 0x0c00
    then Option.map speed_table (entries_of 3 read_speed v)
    else if t.tag == 0x9400
    then Option.map admin_table (entries_of 3 read_admin v)
    else if in_list t.tag (0x8800 ∷ 0x9c00 ∷ [])
    then Option.map unverified (entries_of 3 read_unverified v)
    else none

-- An Attr without its name and note.
pub record Attr : Type 0 where
  pub tag : ℕ
  pub value : Bytes
  pub decoded : Option Decoded

unfoldable pub decode_tlvs : List Tlv → List Attr
unfolding decode_tlv
decode_tlvs [] = []
decode_tlvs (t ∷ ts) =
    record { tag = t.tag; value = t.value; decoded = decode_tlv t } ∷ decode_tlvs ts
