-- ===== src/Model/Shape.antt =====
-- Normalize (internal/model/vlan_state.go): which entries a normalized state has.
use mathlib.Core.Option
use terraform_provider_netge.Base.{
  ℕ, zero, suc, ◌+◌, ◌≡◌, refl, ap, inl, inr, ◌&&◌, none, some, List, [], ◌∷◌, arith, ltb, leb,
  ◌==◌, ==_iff, if◌then◌else◌, Bool-cases, elem, lookup, keys, range_from,
}
use terraform_provider_netge.Model.{
  PortMembership, ignored, Ports, Vlan, port_range, fill, normalize_ports, normalize_vlans,
}

pub elem-range_from :
    (p start n : ℕ) → elem p (range_from start n) ≡ (leb start p && ltb p (start + n))
unfolding elem range_from
elem-range_from p start zero = ground arith
elem-range_from p start (suc n) = ground (arith, elem-range_from p (start + 1) n)

pub elem-port_range : (p n : ℕ) → elem p (port_range n) ≡ (leb 1 p && leb p n)
unfolding port_range
elem-port_range p n = ground (arith, elem-range_from p 1 n)

pub lookup-fill :
    (f : ℕ → PortMembership) (p : ℕ) (ps : List ℕ)
    → lookup p (fill f ps) ≡ (if elem p ps then some (f p) else none)
unfolding lookup fill elem
lookup-fill f p [] = refl
lookup-fill f p (q ∷ ps) = ground (arith, lookup-fill f p ps)

-- The membership of a port in a normalized map: ignored where the map does not name it.
abbrev pub covered : Ports → ℕ → PortMembership
covered ports port = Option.get_or (lookup port ports) ignored

pub lookup-normalize_ports :
    (n p : ℕ) (ports : Ports)
    → lookup p (normalize_ports n ports)
      ≡ (if elem p (port_range n) then some (covered ports p) else none)
unfolding normalize_ports
lookup-normalize_ports n p ports = lookup-fill (covered ports) p (port_range n)

abbrev pub normalize_vlan : ℕ → ℕ → Vlan → Vlan
normalize_vlan n vid v = record { id = vid; ports = normalize_ports n v.ports }

pub lookup-normalize_vlans :
    (n vid : ℕ) (vlans : List (ℕ × Vlan))
    → lookup vid (normalize_vlans n vlans)
      ≡ Option.map (λ v. normalize_vlan n vid v) (lookup vid vlans)
unfolding lookup normalize_vlans
lookup-normalize_vlans n vid [] = refl
lookup-normalize_vlans n vid ((k, v) ∷ vlans) = elim (Bool-cases (k == vid)) [
  | inl e ↦ rw e (rw ((==_iff k vid).0 e))
  | inr ne ↦ rw ne (lookup-normalize_vlans n vid vlans)
]

pub keys-normalize_vlans :
    (n : ℕ) (vlans : List (ℕ × Vlan)) → keys (normalize_vlans n vlans) ≡ keys vlans
unfolding normalize_vlans
keys-normalize_vlans n [] = refl
keys-normalize_vlans n ((k, v) ∷ vlans) = ap (◌∷◌ k) (keys-normalize_vlans n vlans)
