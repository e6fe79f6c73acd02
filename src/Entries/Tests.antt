-- ===== src/Entries/Tests.antt =====
-- The port bitmaps on concrete ports.
use terraform_provider_netge.Base.{◌≡◌, refl, ◌&&◌, [], ◌∷◌, arith, leb, elem, ok}
use terraform_provider_netge.Entries.{
  port_bitmap, ports_from_bitmap, and_not, decode_entries, vlan_payload, set_vlan, set_pvid,
  new_membership,
}
use terraform_provider_netge.Entries.Bitmaps.{
  ports_from_bitmap-port_bitmap, decode_entries-vlan_payload,
}

set_vlan_test :
    set_vlan 999 (5 ∷ []) (3 ∷ [])
    ≡ ok (record { tag = 0x2800; value = 0x03 ∷ 0xe7 ∷ 0x28 ∷ 0x08 ∷ [] })
unfolding set_vlan
set_vlan_test = refl

set_pvid_test : set_pvid 3 999 ≡ ok (record { tag = 0x3000; value = 3 ∷ 0x03 ∷ 0xe7 ∷ [] })
unfolding set_pvid
set_pvid_test = refl

new_membership_test :
    new_membership 10 (1 ∷ []) (2 ∷ 9 ∷ [])
    ≡ record { vlan_id = 10; tagged = 0x80; untagged = 0x40 }
unfolding new_membership
new_membership_test = refl

ports_from_bitmap-port_bitmap_test :
    elem 3 (ports_from_bitmap (port_bitmap (8 ∷ 3 ∷ 12 ∷ [])))
    ≡ (elem 3 (8 ∷ 3 ∷ 12 ∷ []) && (leb 1 3 && leb 3 8))
ports_from_bitmap-port_bitmap_test = ports_from_bitmap-port_bitmap 3 (8 ∷ 3 ∷ 12 ∷ [])

decode_entries-vlan_payload_example :
    decode_entries (vlan_payload 999 (5 ∷ []) (3 ∷ 5 ∷ []))
    ≡ record {
      vlan_id = 999;
      tagged = port_bitmap (5 ∷ []);
      untagged = and_not (port_bitmap (3 ∷ 5 ∷ [])) (port_bitmap (5 ∷ []));
    }
      ∷ []
decode_entries-vlan_payload_example =
    decode_entries-vlan_payload 999 (5 ∷ []) (3 ∷ 5 ∷ []) (omega arith)
