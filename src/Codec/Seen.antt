-- ===== src/Codec/Seen.antt =====
-- What is seen of a state: the VLANs, memberships and PVIDs of the ports
-- (internal/client/gs108tv2/codec.go).
use terraform_provider_netge.Base.{
  ℕ, ◌≡◌, refl, inl, inr, Bool, true, false, ◌&&◌, Option, none, some, List, [], ◌∷◌, ◌==◌, ==_iff,
  All, lookup, lookup-insert, elem, if◌then◌else◌, Bool-cases,
}
use terraform_provider_netge.Model.{PortMembership, Vlan, VlanState}
use terraform_provider_netge.Model.Shape.{covered}
use terraform_provider_netge.Grammar.{default_pvid, pvid_of}
use terraform_provider_netge.Codec.Assemble.{with_vlan1}

-- The membership of a port in a VLAN that is there, ignored where the VLAN lacks the port.
abbrev pub seen_if : Option Vlan → ℕ → Option PortMembership
seen_if none port = none
seen_if (some vlan) port = some (covered vlan.ports port)

unfoldable pub seen : VlanState → ℕ → ℕ → Option PortMembership
seen state v port = seen_if (lookup v state.vlans) port

pub skip : (b : Bool) (o found : Option Vlan) → (if b && false then o else found) ≡ found
skip true o found = refl
skip false o found = refl

pub All-elem :
    {P : ℕ → Type 0} (ports : List ℕ) → ((p : ℕ) → elem p ports ≡ true → P p) → All P ports
unfolding elem
All-elem [] h = tt
All-elem (port ∷ ports) h = (
  h port (rw ((==_iff port port).1 refl) refl),
  All-elem ports (λ p e.
      h p (elim (Bool-cases (port == p)) [ inl here ↦ rw here refl | inr past ↦ rw past e ])),
)

-- VLAN 1 is entered if it is kept, and the PVIDs stay.
pub lookup-with_vlan1 :
    (vlan : Vlan) (keep : Bool) (s : VlanState) (v : ℕ)
    → lookup v (with_vlan1 (vlan, keep) s).vlans
      ≡ (if keep && default_pvid == v then some vlan else lookup v s.vlans)
lookup-with_vlan1 vlan true s v = lookup-insert v default_pvid vlan s.vlans
lookup-with_vlan1 vlan false s v = refl

pub pvid_of-with_vlan1 :
    (vlan : Vlan) (keep : Bool) (s : VlanState) (port : ℕ)
    → pvid_of (with_vlan1 (vlan, keep) s) port ≡ pvid_of s port
unfolding pvid_of
pvid_of-with_vlan1 vlan true s port = refl
pvid_of-with_vlan1 vlan false s port = refl
