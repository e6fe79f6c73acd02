-- ===== src/Dump/Reads.antt =====
-- The reads of blocks and tables (internal/nsdp/dump.go, vlan.go, methods.go, client.go).
use mathlib.Core.Option
use terraform_provider_netge.Base.{
  ℕ, ◌%◌, Bool, true, false, Option, none, some, List, [], ◌∷◌, ◌++◌, length, ltb, ◌&&◌, ◌==◌,
  if◌then◌else◌, Bytes, Result, err, ok, keys, lookup, sort, ascii_trim,
}
use terraform_provider_netge.Wire.{Tlv}
use terraform_provider_netge.Entries.{Membership, decode_entries}
use terraform_provider_netge.Client.{
  Client, Failure, Action, pure, fail, ◌>>=◌, or_fail, retry, get_attr, get_attrs, default_attempts,
  bad_length, bad_layout, panics,
}
use terraform_provider_netge.Dump.{
  block_marker_v2, encode_block_get_request, SpeedLinkStatus, PortAdminStatusEntry,
  PortTrafficStats, PvidEntry, Decoded, speed_table, admin_table, traffic, pvid_table, Attr,
  decode_tlv, decode_tlvs,
}

unfoldable pub get_block : Client → ℕ → Bytes → Action (List Attr)
unfolding ◌>>=◌ retry encode_block_get_request decode_tlvs pure
get_block c block selector =
    retry c (λ seq. encode_block_get_request c.mac c.agent_mac seq block block_marker_v2 selector)
      default_attempts
    >>= λ r. pure (decode_tlvs r.tlvs)

-- The tables of the attributes with a tag, one after the other; none at a value of another layout.
unfoldable pub collect : {A : Type 0} → ℕ → (Attr → Option (List A)) → List Attr → Option (List A)
collect tag read [] = some []
collect tag read (a ∷ rest) =
    let later = collect tag read rest in
    if a.tag == tag
    then elim (read a) [ none ↦ none | some entries ↦ Option.map (λ tail. entries ++ tail) later ]
    else later

abbrev pub decoded_again : Attr → Option Decoded
decoded_again a = decode_tlv (record { tag = a.tag; value = a.value })

abbrev pub as_speed : Option Decoded → Option (List SpeedLinkStatus)
as_speed (some (speed_table entries)) = some entries
as_speed _ = none

abbrev pub as_admin : Option Decoded → Option (List PortAdminStatusEntry)
as_admin (some (admin_table entries)) = some entries
as_admin _ = none

abbrev pub as_traffic : Option Decoded → Option (List PortTrafficStats)
as_traffic (some (traffic entries)) = some entries
as_traffic _ = none

abbrev pub as_pvids : Option Decoded → Option (List PvidEntry)
as_pvids (some (pvid_table entries)) = some entries
as_pvids _ = none

abbrev pub as_memberships : Attr → Option (List Membership)
as_memberships a =
    if ltb 0 (length a.value) && length a.value % 4 == 0
    then some (decode_entries a.value)
    else none

abbrev pub get_table : {A : Type 0} → Client → ℕ → ℕ → (Attr → Option (List A)) → Action (List A)
get_table c block tag read =
    get_block c block [] >>= λ attrs. or_fail bad_layout (collect tag read attrs)

unfoldable pub get_speed_link_statuses : Client → Action (List SpeedLinkStatus)
unfolding ◌>>=◌ get_block collect or_fail decode_tlv
get_speed_link_statuses c = get_table c 0x0c 0x0c00 (λ a. as_speed (decoded_again a))

unfoldable pub get_port_admin_statuses : Client → Action (List PortAdminStatusEntry)
unfolding ◌>>=◌ get_block collect or_fail decode_tlv
get_port_admin_statuses c = get_table c 0x94 0x9400 (λ a. as_admin (decoded_again a))

unfoldable pub get_port_traffic_stats : Client → Action (List PortTrafficStats)
unfolding ◌>>=◌ get_block collect or_fail decode_tlv
get_port_traffic_stats c = get_table c 0x10 0x1000 (λ a. as_traffic (decoded_again a))

unfoldable pub get_pvids : Client → Action (List PvidEntry)
unfolding ◌>>=◌ get_block collect or_fail decode_tlv
get_pvids c = get_table c 0x30 0x3000 (λ a. as_pvids (decoded_again a))

unfoldable pub get_8021q_vlans : Client → Action (List Membership)
unfolding ◌>>=◌ get_block collect or_fail decode_entries
get_8021q_vlans c = get_table c 0x28 0x2800 as_memberships

-- An IPv4 address of four bytes, for the tags of the address, the mask and the gateway.
unfoldable pub get_address : Client → ℕ → Action Bytes
unfolding ◌>>=◌ get_attr pure fail
get_address c tag =
    get_attr c tag >>= λ value. if length value == 4 then pure value else fail bad_length

-- The system name and the location.
unfoldable pub get_text : Client → ℕ → Action Bytes
unfolding ◌>>=◌ get_attr pure ascii_trim
get_text c tag = get_attr c tag >>= λ value. pure (ascii_trim value)

abbrev pub default_dump_small_tags : List ℕ
default_dump_small_tags =
    0x01 ∷ 0x02 ∷ 0x03 ∷ 0x04 ∷ 0x05 ∷ 0x06 ∷ 0x07 ∷ 0x08 ∷ 0x0b ∷ 0x0c ∷ 0x0d ∷ 0x0e ∷ 0x0f ∷ 0x11
    ∷ 0x12 ∷ 0x14 ∷ 0x17 ∷ []

abbrev pub default_dump_block_ids : List ℕ
default_dump_block_ids = 0x78 ∷ 0x74 ∷ 0x0c ∷ 0x30 ∷ 0x94 ∷ []

pub record BlockResult : Type 0 where
  pub block_id : ℕ
  pub outcome : Result Failure (List Attr)

pub record DumpResult : Type 0 where
  pub attrs : List Attr
  pub blocks : List BlockResult

-- The small tags of the map, sorted by tag.
unfoldable pub sorted_tlvs : List (ℕ × Bytes) → List ℕ → List Tlv
unfolding lookup
sorted_tlvs m [] = []
sorted_tlvs m (tag ∷ tags) =
    record { tag = tag; value = Option.get_or (lookup tag m) [] } ∷ sorted_tlvs m tags

unfoldable pub is_panic : Failure → Bool
is_panic panics = true
is_panic why = false

-- An error is recorded, and only a panic goes on.
unfoldable pub record_outcome : {A : Type 0} → Result Failure A → Action (Result Failure A)
unfolding is_panic pure fail
record_outcome (err why) = if is_panic why then fail why else pure (err why)
record_outcome (ok a) = pure (ok a)

unfoldable pub recorded : {A : Type 0} → Action A → Action (Result Failure A)
unfolding record_outcome
recorded m s = record_outcome (m s).0 (m s).1

unfoldable pub dump_blocks : Client → List ℕ → Action (List BlockResult)
unfolding ◌>>=◌ get_block recorded pure
dump_blocks c [] = pure []
dump_blocks c (block ∷ blocks) = recorded (get_block c block []) >>= λ outcome.
    dump_blocks c blocks >>= λ later. pure (record { block_id = block; outcome = outcome } ∷ later)

unfoldable pub dump : Client → Action DumpResult
unfolding ◌>>=◌ get_attrs sorted_tlvs sort decode_tlvs dump_blocks pure
dump c = get_attrs c default_dump_small_tags >>= λ m.
    dump_blocks c default_dump_block_ids >>= λ blocks.
    pure (record { attrs = decode_tlvs (sorted_tlvs m (sort (keys m))); blocks = blocks })
