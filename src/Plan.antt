-- ===== src/Plan.antt =====
-- internal/model/vlan_plan.go: the ordered convergence plan, and its replay through an applier.
-- The fresh maps that Normalize builds make the maps that step1 and step2 share with the states
-- unobservable, so maps are values. A Vlan with nil Ports is a missing entry.
pub mod Steps
pub mod Members
pub mod Placed
pub mod Phases
pub mod Switch
pub mod Stages
pub mod Converge
mod Tests
use mathlib.Core.Option
use terraform_provider_netge.Base.{
  ℕ, zero, suc, ◌+◌, Bool, true, false, not, ◌&&◌, Option, none, some, List, [], ◌∷◌, ◌++◌, map,
  leb, if◌then◌else◌, elem, lookup, insert, insert_all, keys, sort, keep, Result, ok, err,
}
use terraform_provider_netge.Model.{
  PortMembership, ignored, untagged, tagged, other, zero_membership, Ports, Vlan, VlanState,
  Invalid, get, fill, port_range, normalize, validate, equal_states, vlan_ids, added_vlans,
  removed_vlans, preserve_removed_vlans, preserved_ports, batch_pvids,
}

pub data VlanOp : Type 0 where
  add_vlan : ℕ → VlanOp
  set_membership : ℕ → Ports → VlanOp
  set_pvids : ℕ → List ℕ → VlanOp
  delete_vlans : List ℕ → VlanOp

unfoldable pub ignored_ports : ℕ → Ports
unfolding fill port_range
ignored_ports n = fill (λ port. ignored) (port_range n)

-- order[m], 0 for a value that the map lacks.
abbrev pub order : PortMembership → ℕ
order untagged = 1
order tagged = 2
order ignored = 3
order (other s) = 0

unfoldable pub min_membership : PortMembership → PortMembership → PortMembership
min_membership left right = if leb (order left) (order right) then left else right

-- The loop overwrites every entry of the all-ignored map.
unfoldable pub merged_membership : Ports → Ports → ℕ → Ports
unfolding min_membership fill port_range get
merged_membership current desired n =
    fill (λ port. min_membership (get current port) (get desired port)) (port_range n)

unfoldable pub intersect_vlan_ids : List ℕ → List ℕ → List ℕ
unfolding keep elem
intersect_vlan_ids left right = keep (λ vid. elem vid left) right

unfoldable pub sorted_vlan_keys {ℓ} : {V : Type ℓ} → List (ℕ × V) → List ℕ
unfolding sort
sorted_vlan_keys m = sort (keys m)

-- vlans[vid].Ports, empty for a missing VLAN.
unfoldable pub ports_of : List (ℕ × Vlan) → ℕ → Ports
unfolding lookup
ports_of vlans vid = Option.get_or (Option.map (λ v. v.ports) (lookup vid vlans)) []

-- vlans[vid], the zero Vlan for a missing one.
unfoldable pub vlan_of : List (ℕ × Vlan) → ℕ → Vlan
unfolding lookup
vlan_of vlans vid = Option.get_or (lookup vid vlans) (record { id = 0; ports = [] })

-- The VLAN whose entry is spliced: step2's, else the current one, else an all-ignored one.
spliced_vlan : List (ℕ × Vlan) → VlanState → ℕ → ℕ → Vlan
unfolding lookup ignored_ports
spliced_vlan step2 current pvid n = elim (lookup pvid step2) [
  | some v ↦ v
  | none ↦ Option.get_or (lookup pvid current.vlans) (record { id = pvid; ports = ignored_ports n })
]

splice_port : List (ℕ × Vlan) → VlanState → ℕ → ℕ → List (ℕ × Vlan)
unfolding spliced_vlan insert get ports_of lookup
splice_port step2 current n port =
    let pvid = Option.get_or (lookup port current.pvids) 0 in
    let v = spliced_vlan step2 current pvid n in
    let kept = get (ports_of current.vlans pvid) port in
    insert pvid (record v { ports = insert port kept v.ports }) step2

unfoldable pub splice_preserved_ports : List (ℕ × Vlan) → VlanState → List ℕ → ℕ → List (ℕ × Vlan)
unfolding splice_port
splice_preserved_ports step2 current [] n = step2
splice_preserved_ports step2 current (port ∷ ports) n =
    splice_preserved_ports (splice_port step2 current n port) current ports n

-- The VLANs of both states, with the per-port minimum of the two memberships.
abbrev pub widened : VlanState → VlanState → ℕ → Vlan
widened current desired vid = record {
  id = vid;
  ports =
      merged_membership (ports_of current.vlans vid) (ports_of desired.vlans vid)
        desired.port_count;
}

unfoldable pub step1_vlans : VlanState → VlanState → List (ℕ × Vlan)
unfolding insert_all vlan_of added_vlans intersect_vlan_ids vlan_ids ports_of merged_membership
step1_vlans current desired =
    insert_all (widened current desired) (intersect_vlan_ids (vlan_ids current) (vlan_ids desired))
      (insert_all (vlan_of desired.vlans) (added_vlans current desired) [])

unfoldable pub step2_vlans : VlanState → VlanState → List (ℕ × Vlan)
unfolding insert_all vlan_of removed_vlans intersect_vlan_ids vlan_ids ignored_ports
    splice_preserved_ports preserved_ports
step2_vlans current desired =
    splice_preserved_ports
      (insert_all (λ vid. record { id = vid; ports = ignored_ports desired.port_count })
        (removed_vlans current desired)
        (insert_all (vlan_of desired.vlans)
          (intersect_vlan_ids (vlan_ids current) (vlan_ids desired)) []))
      current (preserved_ports desired) desired.port_count

unfoldable pub deleted_vlans : VlanState → VlanState → List ℕ
unfolding removed_vlans preserve_removed_vlans preserved_ports
deleted_vlans current desired =
    preserve_removed_vlans (removed_vlans current desired) current (preserved_ports desired)

-- One SetMembershipOp for each VLAN of a step, ascending.
unfoldable pub membership_ops : List (ℕ × Vlan) → List VlanOp
unfolding sorted_vlan_keys ports_of
membership_ops step = map (λ vid. set_membership vid (ports_of step vid)) (sorted_vlan_keys step)

unfoldable pub ports_in : List (ℕ × List ℕ) → ℕ → List ℕ
unfolding lookup
ports_in batches vid = Option.get_or (lookup vid batches) []

unfoldable pub pvid_ops : List (ℕ × List ℕ) → List VlanOp
unfolding sorted_vlan_keys ports_in
pvid_ops batches = map (λ vid. set_pvids vid (ports_in batches vid)) (sorted_vlan_keys batches)

unfoldable pub delete_ops : List ℕ → List VlanOp
delete_ops [] = []
delete_ops (vid ∷ vids) = delete_vlans (vid ∷ vids) ∷ []

-- The five phases of the plan between two normalized states.
unfoldable pub plan_ops : VlanState → VlanState → List VlanOp
unfolding step1_vlans step2_vlans deleted_vlans membership_ops pvid_ops delete_ops batch_pvids
    added_vlans
plan_ops current desired =
    map add_vlan (added_vlans current desired)
    ++ (membership_ops (step1_vlans current desired)
        ++ (pvid_ops (batch_pvids desired)
            ++ (membership_ops (step2_vlans current desired)
                ++ delete_ops (deleted_vlans current desired))))

unfoldable pub plan : VlanState → VlanState → Result Invalid (List VlanOp)
unfolding plan_ops normalize validate equal_states
plan current desired = elim (validate (normalize desired)) [
  | some e ↦ err e
  | none ↦
      if equal_states (normalize current) (normalize desired)
      then ok []
      else ok (plan_ops (normalize current) (normalize desired))
]

-- VLANApplier: each operation changes the state of the channel, and may return an error.
pub record VlanApplier (S E : Type 0) : Type 0 where
  pub add : ℕ → S → S × Option E
  pub set_ports : ℕ → Ports → S → S × Option E
  pub assign : ℕ → List ℕ → S → S × Option E
  pub delete : List ℕ → S → S × Option E

module _ {S E : Type 0} (applier : VlanApplier S E) where
  unfoldable pub apply_op : VlanOp → S → S × Option E
  apply_op (add_vlan vid) s = applier.add vid s
  apply_op (set_membership vid ports) s = applier.set_ports vid ports s
  apply_op (set_pvids vid ports) s = applier.assign vid ports s
  apply_op (delete_vlans vids) s = applier.delete vids s

  -- Run: the first error ends the replay and is returned as it is.
  unfoldable pub run : List VlanOp → S → S × Option E
  unfolding apply_op
  run [] s = (s, none)
  run (op ∷ ops) s =
      let after = apply_op op s in
      let rest = run ops after.0 in elim after.1 [ some e ↦ (after.0, some e) | none ↦ rest ]
