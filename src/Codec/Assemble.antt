-- ===== src/Codec/Assemble.antt =====
-- internal/client/gs108tv2/codec.go: the VLAN state that the lines of a file add up to.
use terraform_provider_netge.Base.{
  ℕ, Bool, false, not, ◌&&◌, ◌||◌, none, some, List, [], ◌∷◌, ◌++◌, ◌==◌, if◌then◌else◌, lookup,
  insert, insert_all, is_some, sort, elem,
}
use terraform_provider_netge.Model.{
  PortMembership, ignored, untagged, Ports, Vlan, VlanState, port_range,
}
use terraform_provider_netge.Grammar.{default_pvid, default_port_count, is_untagged, pvid_of}
use terraform_provider_netge.Codec.Scan.{Member, Issue, never_declared, Database}

-- The implicit VLAN 1 of a file without VLAN lines.
unfoldable pub implicit_members : List ℕ → List Member
implicit_members [] = []
implicit_members (port ∷ ports) =
    record { vid = default_pvid; port = port; membership = untagged } ∷ implicit_members ports

unfoldable pub with_default : Database → Database
unfolding implicit_members
with_default d = if d.saw_vlan_line then d else record d {
  declared = d.declared ++ (default_pvid ∷ []);
  members = d.members ++ implicit_members (port_range default_port_count);
}

abbrev pub empty_vlan : ℕ → Vlan
empty_vlan vid = record { id = vid; ports = [] }

abbrev pub VlanMap : Type 0
VlanMap = List (ℕ × Vlan)

-- The explicit memberships, and the issues of those whose VLAN is not there.
unfoldable pub realize : VlanMap → List Issue → List Member → VlanMap × List Issue
realize vlans issues [] = (vlans, issues)
realize vlans issues (m ∷ members) = elim (lookup m.vid vlans) [
  | none ↦ realize vlans (issues ++ (never_declared m ∷ [])) members
  | some vlan ↦
      realize (insert m.vid (record vlan { ports = insert m.port m.membership vlan.ports }) vlans)
        issues members
]

-- The memberships of VLAN 1, the last one of a port in force.
unfoldable pub explicit_ports : Ports → List Member → Ports
explicit_ports ports [] = ports
explicit_ports ports (m ∷ members) =
    explicit_ports (if m.vid == default_pvid then insert m.port m.membership ports else ports)
      members

unfoldable pub untagged_elsewhere : ℕ → List Member → Bool
untagged_elsewhere port [] = false
untagged_elsewhere port (m ∷ members) =
    not (m.vid == default_pvid) && (is_untagged m.membership && m.port == port)
    || untagged_elsewhere port members

unfoldable pub inferred_membership : VlanState → List Member → ℕ → PortMembership
unfolding explicit_ports untagged_elsewhere
inferred_membership state members port = elim (lookup port (explicit_ports [] members)) [
  | some m ↦ m
  | none ↦
      if pvid_of state port == default_pvid && not (untagged_elsewhere port members)
      then untagged
      else ignored
]

unfoldable pub inferred_ports : VlanState → List Member → List ℕ → Ports
unfolding inferred_membership
inferred_ports state members [] = []
inferred_ports state members (port ∷ ports) =
    (port, inferred_membership state members port) ∷ inferred_ports state members ports

unfoldable pub some_untagged : Ports → Bool
some_untagged [] = false
some_untagged ((port, m) ∷ ports) = is_untagged m || some_untagged ports

-- VLAN 1 and whether it is meaningfully present.
unfoldable pub infer_vlan1 : Bool → VlanState → List Member → Vlan × Bool
unfolding inferred_ports some_untagged
infer_vlan1 was_declared state members =
    let ports = inferred_ports state members (port_range state.port_count) in
    (record { id = default_pvid; ports = ports }, was_declared || some_untagged ports)

-- One round of inferAccessVLANMembershipFromPVID; a port without a PVID reads 0.
unfoldable pub infer_access_port : VlanState → ℕ → VlanState
infer_access_port state port =
    if pvid_of state port == 0 then state else elim (lookup (pvid_of state port) state.vlans) [
      | none ↦ state
      | some vlan ↦ if is_some (lookup port vlan.ports) then state else record state {
        vlans =
            insert (pvid_of state port) (record vlan { ports = insert port untagged vlan.ports })
              state.vlans;
      }
    ]

unfoldable pub infer_access : VlanState → List ℕ → VlanState
unfolding infer_access_port
infer_access state [] = state
infer_access state (port ∷ ports) = infer_access (infer_access_port state port) ports

-- The declared VLANs with the explicit memberships.
unfoldable pub realized : Database → VlanMap × List Issue
unfolding realize
realized d = realize (insert_all empty_vlan (sort d.declared) []) [] d.members

abbrev pub state_of : VlanMap → List (ℕ × ℕ) → VlanState
state_of vlans pvids = record { port_count = default_port_count; vlans = vlans; pvids = pvids }

-- VLAN 1 is entered if it is kept.
abbrev pub with_vlan1 : Vlan × Bool → VlanState → VlanState
with_vlan1 (vlan1, keep) state =
    if keep then record state { vlans = insert default_pvid vlan1 state.vlans } else state

-- The VLANs that the declarations and memberships give, with the inferred VLAN 1 and access ports.
unfoldable pub assemble : Database → List (ℕ × ℕ) → VlanState × List Issue
unfolding realized infer_vlan1 infer_access
assemble d pvids =
    let state = state_of (realized d).0 pvids in
    (
      infer_access (with_vlan1 (infer_vlan1 (elem default_pvid d.declared) state d.members) state)
          (port_range default_port_count),
      (realized d).1,
    )
