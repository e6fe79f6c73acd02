-- ===== src/Codec/Realized.antt =====
-- The map of VLANs that memberships are entered into (internal/client/gs108tv2/codec.go).
use mathlib.Core.Path.{subst}
use terraform_provider_netge.Base.{
  ℕ, ◌≡◌, refl, ap, ◌∙◌, inl, inr, true, ◌&&◌, Option, none, some, List, [], ◌∷◌, ◌==◌, ==_iff, All,
  lookup, insert, lookup-insert, is_some, if◌then◌else◌, Bool-cases, Option-cases,
}
use terraform_provider_netge.Model.{PortMembership, Vlan}
use terraform_provider_netge.Codec.Scan.{Member, Issue}
use terraform_provider_netge.Codec.Assemble.{VlanMap, realize}

-- The membership that a map has of a port in a VLAN.
unfoldable pub membership_in : VlanMap → ℕ → ℕ → Option PortMembership
membership_in vlans vid port = elim (lookup vid vlans) [
  | none ↦ none
  | some vlan ↦ lookup port vlan.ports
]

-- The last membership of a port in a VLAN among some, or another one.
unfoldable pub latest : ℕ → ℕ → List Member → Option PortMembership → Option PortMembership
latest vid port [] found = found
latest vid port (m ∷ members) found =
    latest vid port members (if m.vid == vid && m.port == port then some m.membership else found)

-- A map with one more membership.
abbrev entered : VlanMap → Vlan → Member → VlanMap
entered vlans vlan m =
    insert m.vid (record vlan { ports = insert m.port m.membership vlan.ports }) vlans

entered-is_some :
    (vlans : VlanMap) (vlan : Vlan) (m : Member) (vid : ℕ)
    → lookup m.vid vlans ≡ some vlan
    → is_some (lookup vid (entered vlans vlan m)) ≡ is_some (lookup vid vlans)
entered-is_some vlans vlan m vid h =
    ap is_some (
      lookup-insert vid m.vid (record vlan { ports = insert m.port m.membership vlan.ports }) vlans)
    ∙ elim (Bool-cases (m.vid == vid)) [
      | inl same ↦
          let there = subst (λ v. lookup v vlans ≡ some vlan) ((==_iff m.vid vid).0 same) h in
          rw (same, there) refl
      | inr more ↦ rw more refl
    ]

entered-membership_in :
    (vlans : VlanMap) (vlan : Vlan) (m : Member) (vid port : ℕ)
    → lookup m.vid vlans ≡ some vlan
    → membership_in (entered vlans vlan m) vid port
      ≡ (if m.vid == vid && m.port == port then some m.membership else membership_in vlans vid port)
unfolding membership_in
entered-membership_in vlans vlan m vid port h = elim (Bool-cases (m.vid == vid)) [
  | inl same ↦
      let new = record vlan { ports = insert m.port m.membership vlan.ports } in
      let there = subst (λ v. lookup v vlans ≡ some vlan) ((==_iff m.vid vid).0 same) h in
      let found : lookup vid (entered vlans vlan m) ≡ some new =
        lookup-insert vid m.vid new vlans ∙ rw same refl in
      rw (membership_in, found, there, same) (lookup-insert port m.port m.membership vlan.ports)
  | inr more ↦
      let found : lookup vid (entered vlans vlan m) ≡ lookup vid vlans =
        lookup-insert vid m.vid (record vlan { ports = insert m.port m.membership vlan.ports })
          vlans
        ∙ rw more refl in
      rw (membership_in, found, more) refl
]

-- What entering memberships does to a map that has their VLANs: no issue, the same VLANs, and
-- for each port the latest membership.
pub record IsRealized (vlans : VlanMap) (issues : List Issue) (members : List Member) : Type 0 where
  pub no_issue : (realize vlans issues members).1 ≡ issues
  pub same_vlans :
      (vid : ℕ) → is_some (lookup vid (realize vlans issues members).0) ≡ is_some (lookup vid vlans)
  pub memberships :
      (vid port : ℕ)
      → membership_in (realize vlans issues members).0 vid port
        ≡ latest vid port members (membership_in vlans vid port)

pub realize-IsRealized :
    (vlans : VlanMap) (issues : List Issue) (members : List Member)
    → All (λ m. is_some (lookup m.vid vlans) ≡ true) members
    → IsRealized vlans issues members
unfolding realize latest
realize-IsRealized vlans issues [] h = record {
  no_issue = refl;
  same_vlans = λ vid. refl;
  memberships = λ vid port. refl;
}
realize-IsRealized vlans issues (m ∷ members) h = elim (Option-cases (lookup m.vid vlans)) [
  | inl absent ↦ cc (rw absent at h.0)
  | inr (vlan, found) ↦
      let later =
        realize-IsRealized (entered vlans vlan m) issues members (there vlan found members h.1) in
      let step : realize vlans issues (m ∷ members)
          ≡ realize (entered vlans vlan m) issues members =
        rw (realize, found) refl in
      record {
        no_issue = ap (λ r. r.1) step ∙ later.no_issue;
        same_vlans = λ vid.
            ap (λ r. is_some (lookup vid r.0)) step
            ∙ later.same_vlans vid
            ∙ entered-is_some vlans vlan m vid found;
        memberships = λ vid port.
            ap (λ r. membership_in r.0 vid port) step
            ∙ later.memberships vid port
            ∙ ap (latest vid port members) (entered-membership_in vlans vlan m vid port found);
      }
]
  where
    there :
        (vlan : Vlan)
        → lookup m.vid vlans ≡ some vlan
        → (ms : List Member) → All (λ x. is_some (lookup x.vid vlans) ≡ true) ms
        → All (λ x. is_some (lookup x.vid (entered vlans vlan m)) ≡ true) ms
    there vlan found [] k = tt
    there vlan found (x ∷ ms) k =
        (entered-is_some vlans vlan m x.vid found ∙ k.0, there vlan found ms k.1)
