-- ===== src/Entries.antt =====
-- internal/nsdp/vlan.go and the payload builders of internal/nsdp/methods.go. A typed SET is the
-- tag and the payload that it passes to SetRaw; a negative number, which the range checks refuse,
-- has no counterpart.
pub mod Bitmaps
pub mod Methods
mod Tests
use Prim.Native.Nat.{bit_and, bit_or}
use terraform_provider_netge.Base.{
  ℕ, zero, suc, ◌+◌, ◌-◌, ◌%◌, ◌^◌, Bool, true, false, not, ◌&&◌, ◌||◌, List, [], ◌∷◌, length, ltb,
  leb, ◌==◌, if◌then◌else◌, Bytes, high, low, be16, Result, ok, err,
}
use terraform_provider_netge.Wire.{Tlv}

-- 1 << (8 - p)
abbrev pub bit : ℕ → ℕ
bit p = 2 ^ (8 - p)

-- The loop of PortBitmap.
unfoldable pub add_ports : ℕ → List ℕ → ℕ
add_ports b [] = b
add_ports b (p ∷ ports) = add_ports (if leb 1 p && leb p 8 then bit_or b (bit p) else b) ports

unfoldable pub port_bitmap : List ℕ → ℕ
unfolding add_ports
port_bitmap ports = add_ports 0 ports

-- The loop of PortsFromBitmap from port p on.
unfoldable pub ports_from : ℕ → ℕ → ℕ → List ℕ
ports_from zero p b = []
ports_from (suc rounds) p b =
    let later = ports_from rounds (p + 1) b in if bit_and b (bit p) == 0 then later else p ∷ later

unfoldable pub ports_from_bitmap : ℕ → List ℕ
unfolding ports_from
ports_from_bitmap b = ports_from 8 1 b

pub record Membership : Type 0 where
  pub vlan_id : ℕ
  pub tagged : ℕ
  pub untagged : ℕ

-- x &^ y of two bytes.
abbrev pub and_not : ℕ → ℕ → ℕ
and_not x y = x - bit_and x y

unfoldable pub new_membership : ℕ → List ℕ → List ℕ → Membership
unfolding port_bitmap
new_membership vid tagged untagged = record {
  vlan_id = vid % 65536;
  tagged = port_bitmap tagged;
  untagged = port_bitmap untagged;
}

unfoldable pub decode_entry : ℕ → ℕ → ℕ → Membership
decode_entry vid member tagged = record {
  vlan_id = vid;
  tagged = bit_and tagged member;
  untagged = and_not member tagged;
}

-- The inner loop of Get8021QVLANs.
unfoldable pub decode_entries : Bytes → List Membership
unfolding decode_entry
decode_entries (a ∷ b ∷ member ∷ tagged ∷ rest) =
    decode_entry (be16 a b) member tagged ∷ decode_entries rest
decode_entries _ = []

pub data MethodError : Type 0 where
  port_range vlan_range mode_range : MethodError

abbrev pub out_of_ports : ℕ → Bool
out_of_ports port = ltb port 1 || ltb 8 port

unfoldable pub set_pvid : ℕ → ℕ → Result MethodError Tlv
set_pvid port vid =
    if out_of_ports port
    then err port_range
    else if ltb 4095 vid
    then err vlan_range
    else ok (record { tag = 0x3000; value = low port ∷ high vid ∷ low vid ∷ [] })

unfoldable pub vlan_payload : ℕ → List ℕ → List ℕ → Bytes
unfolding port_bitmap
vlan_payload vid tagged untagged =
    high vid
    ∷ low vid
    ∷ bit_or (port_bitmap tagged) (port_bitmap untagged)
    ∷ port_bitmap tagged
    ∷ []

unfoldable pub set_vlan : ℕ → List ℕ → List ℕ → Result MethodError Tlv
unfolding vlan_payload
set_vlan vid tagged untagged =
    if ltb 4095 vid
    then err vlan_range
    else ok (record { tag = 0x2800; value = vlan_payload vid tagged untagged })

unfoldable pub bool_payload : Bool → Bytes
bool_payload on = if on then 1 ∷ [] else 0 ∷ []

unfoldable pub port_config_payload : ℕ → Bool → Bool → Bytes
port_config_payload port admin flow =
    low port ∷ (if admin then 1 else 0) ∷ (if flow then 1 else 0) ∷ []

unfoldable pub set_port_config : ℕ → Bool → Bool → Result MethodError Tlv
unfolding port_config_payload
set_port_config port admin flow =
    if out_of_ports port
    then err port_range
    else ok (record { tag = 0x9400; value = port_config_payload port admin flow })

unfoldable pub mirror_payload : ℕ → List ℕ → Bytes
unfolding port_bitmap
mirror_payload port sources =
    if port == 0 then 0 ∷ 0 ∷ 0 ∷ [] else low port ∷ 0 ∷ port_bitmap sources ∷ []

unfoldable pub set_port_based_vlan : ℕ → List ℕ → Result MethodError Tlv
unfolding port_bitmap
set_port_based_vlan vid ports =
    if ltb 4095 vid
    then err vlan_range
    else ok (record { tag = 0x2400; value = high vid ∷ low vid ∷ port_bitmap ports ∷ [] })

unfoldable pub igmp_payload : Bool → ℕ → Bytes
igmp_payload on vid = if on then 0 ∷ 1 ∷ high vid ∷ low vid ∷ [] else 0 ∷ 0 ∷ 0 ∷ 0 ∷ []

unfoldable pub delete_vlan : ℕ → Result MethodError Tlv
delete_vlan vid =
    if ltb 4095 vid
    then err vlan_range
    else ok (record { tag = 0x2c00; value = high vid ∷ low vid ∷ [] })
