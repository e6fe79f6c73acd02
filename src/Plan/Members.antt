-- ===== src/Plan/Members.antt =====
-- The ports of normalized and of widened VLANs (internal/model/vlan_state.go, vlan_plan.go).
use mathlib.Core.Option
use terraform_provider_netge.Base.{
  ℕ, zero, suc, ◌+◌, ◌≡◌, refl, sym, ap, ◌∙◌, inl, inr, true, false, some, List, [], ◌∷◌, arith,
  Bool-cases, Option-cases, elem, lookup, keys, length, Distinct, range_from, elem_of_subset,
  length-keys, elem-lookup,
}
use terraform_provider_netge.Model.{
  PortMembership, ignored, untagged, tagged, other, is_ignored, Ports, Vlan, VlanState, get, fill,
  port_range, normalize_ports, normalize_vlans, normalize,
}
use terraform_provider_netge.Model.Shape.{
  elem-range_from, lookup-fill, covered, lookup-normalize_vlans,
}
use terraform_provider_netge.Model.Valid.{IsValid}
use terraform_provider_netge.Model.Same.{ports_at}
use terraform_provider_netge.Plan.{min_membership, merged_membership, widened, ports_of}

fill_cong :
    (f g : ℕ → PortMembership) (ps : List ℕ)
    → ((p : ℕ) → elem p ps ≡ true → f p ≡ g p)
    → fill f ps ≡ fill g ps
unfolding fill elem
fill_cong f g [] h = refl
fill_cong f g (p ∷ ps) h =
    let rest = fill_cong f g ps (λ q m. h q (ground arith)) in rw (h p (ground arith), rest) refl

normalize_ports_idem :
    (n : ℕ) (ports : Ports) → normalize_ports n (normalize_ports n ports) ≡ normalize_ports n ports
unfolding normalize_ports
normalize_ports_idem n ports =
    fill_cong (covered (fill (covered ports) (port_range n))) (covered ports) (port_range n) (λ p m.
      ap (λ o. Option.get_or o ignored) {y = some (covered ports p)}
        (lookup-fill (covered ports) p (port_range n) ∙ rw m refl))

-- Normalizing twice shows the same ports.
pub ports_at-normalize :
    (s : VlanState) (vid : ℕ) → ports_at (normalize (normalize s)) vid ≡ ports_at (normalize s) vid
unfolding normalize
ports_at-normalize s vid =
    let n = s.port_count in
    rw
      (
        lookup-normalize_vlans n vid (normalize_vlans n s.vlans),
        lookup-normalize_vlans n vid s.vlans,
      )
      (elim (Option-cases (lookup vid s.vlans)) [
        | inl gone ↦ rw gone refl
        | inr (v, e) ↦ rw e (ap some (normalize_ports_idem n v.ports))
      ])

pub min_membership_active :
    (left right : PortMembership)
    → is_ignored right ≡ false
    → is_ignored (min_membership left right) ≡ false
unfolding min_membership
min_membership_active untagged right h = ground arith
min_membership_active tagged right h = ground arith
min_membership_active (other s) right h = ground arith
min_membership_active ignored untagged h = refl
min_membership_active ignored tagged h = refl
min_membership_active ignored (other s) h = refl
min_membership_active ignored ignored h = cc

Distinct-range_from : (start n : ℕ) → Distinct (range_from start n)
unfolding range_from elem
Distinct-range_from start zero = tt
Distinct-range_from start (suc n) =
    (elem-range_from start (start + 1) n ∙ ground arith, Distinct-range_from (start + 1) n)

length-range_from : (start n : ℕ) → length (range_from start n) ≡ n
unfolding range_from
length-range_from start zero = refl
length-range_from start (suc n) = ap suc (length-range_from (start + 1) n)

-- The ports with a PVID are the ports of the switch.
pub pvid_in_range :
    (s : VlanState) (port : ℕ) {pvid : ℕ}
    → IsValid s
    → Distinct (keys s.pvids)
    → lookup port s.pvids ≡ some pvid
    → elem port (port_range s.port_count) ≡ true
unfolding port_range
pvid_in_range s port v d h = elim (Bool-cases (elem port (port_range s.port_count))) [
  | inl inside ↦ inside
  | inr out ↦
      let absent : elem port (keys s.pvids) ≡ false =
        elem_of_subset (port_range s.port_count) (keys s.pvids) port
          (Distinct-range_from 1 s.port_count)
          (λ k m. elem-lookup k s.pvids (v.pvids_ok k m).assigned)
          (length-range_from 1 s.port_count ∙ sym (length-keys s.pvids ∙ v.pvid_count)) out in
      cc (absent, elem-lookup port s.pvids h)
]

-- A port that the desired VLAN does not ignore stays a member of the widened one.
pub widened_member :
    (c d : VlanState) (vid port : ℕ) (v : Vlan)
    → lookup vid d.vlans ≡ some v
    → elem port (port_range d.port_count) ≡ true
    → is_ignored (get v.ports port) ≡ false
    → is_ignored (get (widened c d vid).ports port) ≡ false
unfolding ports_of merged_membership get
widened_member c d vid port v found k member =
    let cur = ports_of c.vlans vid in
    let des = ports_of d.vlans vid in
    let same : des ≡ v.ports = rw (found, ports_of) refl in
    rw (lookup-fill (λ p. min_membership (get cur p) (get des p)) port (port_range d.port_count))
      (rw k (min_membership_active (get cur port) (get des port) (rw same member)))
