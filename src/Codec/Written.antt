-- ===== src/Codec/Written.antt =====
-- The memberships that the driver writes for a state (internal/client/gs108tv2/codec.go).
use terraform_provider_netge.Base.{
  ℕ, ◌≡◌, refl, ap, ◌∙◌, inl, inr, Bool, true, false, ◌&&◌, Option, none, some, List, [], ◌∷◌, ◌++◌,
  arith, ◌==◌, ==_iff, lookup, elem, if◌then◌else◌, Bool-cases,
}
use terraform_provider_netge.Model.{PortMembership, Vlan, VlanState, port_range}
use terraform_provider_netge.Codec.Scan.{Member}
use terraform_provider_netge.Codec.Realized.{latest}
use terraform_provider_netge.Codec.Rendered.{
  members_if, vlan_members, is_written, written_ports, members_of,
}

-- The first of two values that is there.
abbrev pub override : Option PortMembership → Option PortMembership → Option PortMembership
override none found = found
override (some m) found = some m

-- The membership that is written for a port of a VLAN.
abbrev pub written_if : ℕ → Option PortMembership → Option PortMembership
written_if vid none = none
written_if vid (some m) = if is_written vid m then some m else none

abbrev written : Vlan → ℕ → ℕ → Option PortMembership
written vlan vid port = written_if vid (lookup port vlan.ports)

override-override :
    (w found : Option PortMembership) → override w (override w found) ≡ override w found
override-override none found = refl
override-override (some m) found = refl

pub latest-append :
    (v p : ℕ) (xs ys : List Member) (found : Option PortMembership)
    → latest v p (xs ++ ys) found ≡ latest v p ys (latest v p xs found)
unfolding latest
latest-append v p [] ys found = refl
latest-append v p (x ∷ xs) ys found = latest-append v p xs ys _

latest-members_if :
    (v p vid port : ℕ) (o found : Option PortMembership)
    → latest v p (members_if vid port o) found
      ≡ (if vid == v && port == p then override (written_if vid o) found else found)
unfolding latest
latest-members_if v p vid port none found = ground arith
latest-members_if v p vid port (some m) found = elim (Bool-cases (is_written vid m)) [
  | inl kept ↦ rw kept refl
  | inr skipped ↦ rw skipped (same (vid == v && port == p))
]
  where
    same : (b : Bool) → found ≡ (if b then found else found)
    same true = refl
    same false = refl

twice :
    (b : Bool) (found w w' : Option PortMembership)
    → w' ≡ w
    → (if b then override w (override w' found) else override w' found) ≡ override w found
twice true found w w' e = rw e (override-override w found)
twice false found w w' e = rw e refl

latest-written_ports :
    (v p : ℕ) (vlan : Vlan) (vid : ℕ) (ports : List ℕ) (found : Option PortMembership)
    → latest v p (written_ports vlan vid ports) found
      ≡ (if vid == v && elem p ports then override (written vlan vid p) found else found)
unfolding latest written_ports elem
latest-written_ports v p vlan vid [] found = ground arith
latest-written_ports v p vlan vid (port ∷ ports) found =
    latest-append v p (members_if vid port (lookup port vlan.ports)) (written_ports vlan vid ports)
      found
    ∙ ap (latest v p (written_ports vlan vid ports))
        (latest-members_if v p vid port (lookup port vlan.ports) found)
    ∙ latest-written_ports v p vlan vid ports _
    ∙ elim (Bool-cases (vid == v)) [
      | inr away ↦ rw away refl
      | inl here ↦ elim (Bool-cases (port == p)) [
        | inr past ↦ rw (here, past) refl
        | inl at_p ↦
            let one : port ≡ p = (==_iff port p).0 at_p in
            rw (here, at_p)
              (twice (elem p ports) found (written vlan vid p) (written vlan vid port)
                (ap (written vlan vid) one))
      ]
    ]

-- What is written for a port of a VLAN that a state may have.
abbrev pub written_in : ℕ → ℕ → Option Vlan → Option PortMembership
written_in vid port none = none
written_in vid port (some vlan) = written vlan vid port

latest-vlan_members :
    (v p count vid : ℕ) (o : Option Vlan) (found : Option PortMembership)
    → elem p (port_range count) ≡ true
    → latest v p (vlan_members count vid o) found
      ≡ (if vid == v then override (written_in vid p o) found else found)
unfolding latest
latest-vlan_members v p count vid none found h = ground arith
latest-vlan_members v p count vid (some vlan) found h =
    latest-written_ports v p vlan vid (port_range count) found ∙ both (vid == v)
  where
    both :
        (b : Bool)
        → (if b && elem p (port_range count) then override (written vlan vid p) found else found)
          ≡ (if b then override (written vlan vid p) found else found)
    both true = rw h refl
    both false = refl

pub latest-members_of :
    (state : VlanState) (v p : ℕ) (vids : List ℕ) (found : Option PortMembership)
    → elem p (port_range state.port_count) ≡ true
    → latest v p (members_of state vids) found
      ≡ (if elem v vids then override (written_in v p (lookup v state.vlans)) found else found)
unfolding latest members_of elem
latest-members_of state v p [] found h = refl
latest-members_of state v p (vid ∷ vids) found h =
    latest-append v p (vlan_members state.port_count vid (lookup vid state.vlans))
      (members_of state vids) found
    ∙ ap (latest v p (members_of state vids))
        (latest-vlan_members v p state.port_count vid (lookup vid state.vlans) found h)
    ∙ latest-members_of state v p vids _ h
    ∙ elim (Bool-cases (vid == v)) [
      | inr away ↦ rw away refl
      | inl here ↦ rw here (
          twice (elem v vids) found (written_in v p (lookup v state.vlans))
            (written_in vid p (lookup vid state.vlans))
            (ap (λ x. written_in x p (lookup x state.vlans)) ((==_iff vid v).0 here)))
    ]
