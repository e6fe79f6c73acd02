-- ===== src/Plan/Switch.antt =====
-- What a plan relies on in the channel behind VLANApplier (internal/model/vlan_plan.go): the
-- drivers' own code is not modelled, so the behaviour they document is an interface.
use terraform_provider_netge.Base.{
  ℕ, ◌≡◌, Bool, true, false, Option, none, some, List, ◌==◌, if◌then◌else◌, elem,
}
use terraform_provider_netge.Model.{is_ignored, Ports, get}
use terraform_provider_netge.Plan.{VlanApplier}

-- The port is a member of a VLAN that the channel shows with these ports.
abbrev pub Shown : Option Ports → ℕ → Type 0
Shown o port = (ports : Ports) × (o ≡ some ports) × (is_ignored (get ports port) ≡ false)

-- A switch: `vlan` and `pvid` are what reading it back shows, and `known` are the VLANs that take
-- a membership. AddVLAN may show the new VLAN with any ports, or not at all (NSDP creates it with
-- its first membership). A PVID needs a member port, and a VLAN that is a PVID is not deleted.
pub record IsSwitch {S E : Type 0} (applier : VlanApplier S E) : Type 0 where
  pub vlan : S → ℕ → Option Ports
  pub pvid : S → ℕ → Option ℕ
  pub known : S → ℕ → Bool
  pub shown_known : (s : S) (vid : ℕ) (ports : Ports) → vlan s vid ≡ some ports → known s vid ≡ true
  pub add_ok : (vid : ℕ) (s : S) → (applier.add vid s).1 ≡ none
  pub add_known :
      (vid j : ℕ) (s : S) → known (applier.add vid s).0 j ≡ (if vid == j then true else known s j)
  pub add_vlan : (vid j : ℕ) (s : S) → (vid == j) ≡ false → vlan (applier.add vid s).0 j ≡ vlan s j
  pub add_pvid : (vid port : ℕ) (s : S) → pvid (applier.add vid s).0 port ≡ pvid s port
  pub set_ok :
      (vid : ℕ) (ports : Ports) (s : S)
      → known s vid ≡ true
      → (applier.set_ports vid ports s).1 ≡ none
  pub set_known :
      (vid j : ℕ) (ports : Ports) (s : S)
      → known s vid ≡ true
      → known (applier.set_ports vid ports s).0 j ≡ known s j
  pub set_vlan :
      (vid j : ℕ) (ports : Ports) (s : S)
      → known s vid ≡ true
      → vlan (applier.set_ports vid ports s).0 j ≡ (if vid == j then some ports else vlan s j)
  pub set_pvid :
      (vid port : ℕ) (ports : Ports) (s : S)
      → known s vid ≡ true
      → pvid (applier.set_ports vid ports s).0 port ≡ pvid s port
  pub assign_ok :
      (vid : ℕ) (ports : List ℕ) (s : S)
      → ((p : ℕ) → elem p ports ≡ true → Shown (vlan s vid) p)
      → (applier.assign vid ports s).1 ≡ none
  pub assign_known :
      (vid j : ℕ) (ports : List ℕ) (s : S)
      → ((p : ℕ) → elem p ports ≡ true → Shown (vlan s vid) p)
      → known (applier.assign vid ports s).0 j ≡ known s j
  pub assign_vlan :
      (vid j : ℕ) (ports : List ℕ) (s : S)
      → ((p : ℕ) → elem p ports ≡ true → Shown (vlan s vid) p)
      → vlan (applier.assign vid ports s).0 j ≡ vlan s j
  pub assign_pvid :
      (vid port : ℕ) (ports : List ℕ) (s : S)
      → ((p : ℕ) → elem p ports ≡ true → Shown (vlan s vid) p)
      → pvid (applier.assign vid ports s).0 port
        ≡ (if elem port ports then some vid else pvid s port)
  pub delete_ok :
      (vids : List ℕ) (s : S)
      → ((p vid : ℕ) → pvid s p ≡ some vid → elem vid vids ≡ false)
      → (applier.delete vids s).1 ≡ none
  pub delete_vlan :
      (vids : List ℕ) (j : ℕ) (s : S)
      → ((p vid : ℕ) → pvid s p ≡ some vid → elem vid vids ≡ false)
      → vlan (applier.delete vids s).0 j ≡ (if elem j vids then none else vlan s j)
  pub delete_pvid :
      (vids : List ℕ) (port : ℕ) (s : S)
      → ((p vid : ℕ) → pvid s p ≡ some vid → elem vid vids ≡ false)
      → pvid (applier.delete vids s).0 port ≡ pvid s port
