-- ===== src/Grammar/Tests.antt =====
-- The lines of the grammar (internal/client/gs108tv2/codec.go).
use terraform_provider_netge.Base.{◌≡◌, ◌↔◌, refl, true, none, some, [], ◌∷◌, arith, elem, lookup}
use terraform_provider_netge.Model.{VlanState, untagged, tagged, get, port_range}
use terraform_provider_netge.Grammar.{
  fields, parse_vlan_declares, parse_vlan_membership, parse_vlan_pvid, vlan_declare_line,
  vlan_membership_line, vlan_pvid_line, is_untagged, validate_renderable, pvid_of,
  default_port_count, pvid_not_untagged,
}
use terraform_provider_netge.Grammar.Lines.{joined_as, parse-vlan_lines}
use terraform_provider_netge.Grammar.Renderable.{validate_renderable-untagged}

parse-vlan_lines_example :
    (parse_vlan_declares (fields (vlan_declare_line 42)) ≡ some (42 ∷ []))
    × (parse_vlan_pvid (fields (vlan_pvid_line 42)) ≡ some 42)
    × (parse_vlan_membership (fields (vlan_membership_line 42 8 (joined_as true)))
        ≡ some (42, 8, joined_as true))
parse-vlan_lines_example =
    parse-vlan_lines 42 8 true (omega arith, omega arith) (omega arith, omega arith)

-- Port 8 has a VLAN of its own, and port 1 is a tagged member of it.
abbrev eight_ports : VlanState
eight_ports = record {
  port_count = 8;
  vlans =
      (
        1,
        record {
          id = 1;
          ports =
              (1, untagged)
              ∷ (2, untagged)
              ∷ (3, untagged)
              ∷ (4, untagged)
              ∷ (5, untagged)
              ∷ (6, untagged)
              ∷ (7, untagged)
              ∷ [];
        },
      )
      ∷ (42, record { id = 42; ports = (8, untagged) ∷ (1, tagged) ∷ [] })
      ∷ [];
  pvids = (1, 1) ∷ (2, 1) ∷ (3, 1) ∷ (4, 1) ∷ (5, 1) ∷ (6, 1) ∷ (7, 1) ∷ (8, 42) ∷ [];
}

eight_ports_pass : validate_renderable eight_ports ≡ none
unfolding validate_renderable
eight_ports_pass = refl

port_8_in_range : elem 8 (port_range default_port_count) ≡ true
unfolding elem port_range
port_8_in_range = refl

vlan_42_found :
    lookup 42 eight_ports.vlans
    ≡ some (record { id = 42; ports = (8, untagged) ∷ (1, tagged) ∷ [] })
unfolding lookup
vlan_42_found = refl

validate_renderable-untagged_example :
    (is_untagged (get ((8, untagged) ∷ (1, tagged) ∷ []) 8) ≡ true) ↔ (pvid_of eight_ports 8 ≡ 42)
validate_renderable-untagged_example =
    validate_renderable-untagged eight_ports 8 42
      (record { id = 42; ports = (8, untagged) ∷ (1, tagged) ∷ [] }) eight_ports_pass
      port_8_in_range vlan_42_found

-- A PVID whose VLAN carries the port tagged is refused.
pvid_not_untagged_test :
    validate_renderable (record eight_ports {
      pvids = (1, 42) ∷ (2, 1) ∷ (3, 1) ∷ (4, 1) ∷ (5, 1) ∷ (6, 1) ∷ (7, 1) ∷ (8, 42) ∷ [];
    })
    ≡ some (pvid_not_untagged 42 1)
unfolding validate_renderable
pvid_not_untagged_test = refl
