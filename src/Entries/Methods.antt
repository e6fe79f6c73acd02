-- ===== src/Entries/Methods.antt =====
-- The other typed SETs of internal/nsdp/methods.go: the tag and the payload passed to SetRaw.
use terraform_provider_netge.Base.{
  ℕ, Bool, not, ◌&&◌, List, [], ◌∷◌, ltb, ◌==◌, if◌then◌else◌, Bytes, high, low, Result, ok, err,
}
use terraform_provider_netge.Wire.{Tlv}
use terraform_provider_netge.Entries.{
  MethodError, port_range, mode_range, out_of_ports, mirror_payload, igmp_payload, bool_payload,
}

unfoldable pub set_action : ℕ → ℕ → Tlv
set_action tag value = record { tag = tag; value = value ∷ [] }

abbrev pub set_reboot : Tlv
unfolding set_action
set_reboot = set_action 0x0013 1

abbrev pub set_factory_defaults : Tlv
unfolding set_action
set_factory_defaults = set_action 0x0400 1

abbrev pub reset_port_stats : Tlv
unfolding set_action
reset_port_stats = set_action 0x1400 1

-- The priority is a byte.
unfoldable pub set_qos_priority : ℕ → ℕ → Result MethodError Tlv
set_qos_priority port priority =
    if out_of_ports port
    then err port_range
    else ok (record { tag = 0x3800; value = low port ∷ priority ∷ [] })

unfoldable pub set_qos_mode : ℕ → Result MethodError Tlv
set_qos_mode mode =
    if not (mode == 1) && not (mode == 2)
    then err mode_range
    else ok (record { tag = 0x3400; value = mode ∷ [] })

-- setBandwidth for the tags of the ingress, egress and storm rates.
unfoldable pub set_bandwidth : ℕ → ℕ → ℕ → Result MethodError Tlv
set_bandwidth tag port limit =
    if out_of_ports port
    then err port_range
    else ok (record { tag = tag; value = low port ∷ 0 ∷ 0 ∷ high limit ∷ low limit ∷ [] })

unfoldable pub set_port_mirroring : ℕ → List ℕ → Result MethodError Tlv
unfolding mirror_payload
set_port_mirroring port sources =
    if ltb 8 port
    then err port_range
    else ok (record { tag = 0x5c00; value = mirror_payload port sources })

unfoldable pub set_vlan_engine_mode : ℕ → Result MethodError Tlv
set_vlan_engine_mode mode =
    if ltb 4 mode then err mode_range else ok (record { tag = 0x2000; value = mode ∷ [] })

unfoldable pub set_igmp_snooping : Bool → ℕ → Tlv
unfolding igmp_payload
set_igmp_snooping on vid = record { tag = 0x6800; value = igmp_payload on vid }

unfoldable pub set_block_unknown_multicast : Bool → Tlv
unfolding bool_payload
set_block_unknown_multicast on = record { tag = 0x6c00; value = bool_payload on }

unfoldable pub set_igmp_header_validation : Bool → Tlv
unfolding bool_payload
set_igmp_header_validation on = record { tag = 0x7000; value = bool_payload on }

unfoldable pub set_location : Bytes → Tlv
set_location location = record { tag = 0x0005; value = location }

unfoldable pub set_dhcp_mode : ℕ → Result MethodError Tlv
set_dhcp_mode mode =
    if ltb 2 mode then err mode_range else ok (record { tag = 0x000b; value = mode ∷ [] })
