-- ===== src/Codec/Entered.antt =====
-- The VLANs that the written declarations and memberships give
-- (internal/client/gs108tv2/codec.go).
use terraform_provider_netge.Base.{
  ℕ, ◌≡◌, refl, ap, ◌∙◌, inl, inr, Bool, true, false, not, ◌&&◌, Option, none, some, List, [], ◌∷◌,
  ◌==◌, All, lookup, lookup-insert_all, insert_all, is_some, elem, elem-sort, elem-keys, sort, keys,
  if◌then◌else◌, Bool-cases,
}
use terraform_provider_netge.Model.{PortMembership, Vlan, VlanState, port_range}
use terraform_provider_netge.Grammar.{default_pvid, default_port_count}
use terraform_provider_netge.Codec.Scan.{Member}
use terraform_provider_netge.Codec.Assemble.{VlanMap, empty_vlan, realize}
use terraform_provider_netge.Codec.Rendered.{declared_of, members_of}
use terraform_provider_netge.Codec.Realized.{membership_in, latest, IsRealized, realize-IsRealized}
use terraform_provider_netge.Codec.Written.{override, written_in, latest-members_of}
use terraform_provider_netge.Codec.Members.{IsExpressible, IsOf, elem-declared, members_of-IsOf}

abbrev pub all_vids : VlanState → List ℕ
all_vids state = sort (keys state.vlans)

abbrev pub start : VlanState → VlanMap
start state = insert_all empty_vlan (sort (declared_of state (all_vids state))) []

abbrev pub members : VlanState → List Member
members state = members_of state (all_vids state)

-- The VLANs that are there once the memberships are entered.
abbrev pub entered : VlanState → VlanMap
entered state = (realize (start state) [] (members state)).0

lookup-start :
    (state : VlanState) (v : ℕ)
    → lookup v (start state) ≡ (
        if is_some (lookup v state.vlans) && not (v == default_pvid)
        then some (empty_vlan v)
        else none)
unfolding lookup
lookup-start state v =
    lookup-insert_all empty_vlan v (sort (declared_of state (all_vids state))) []
    ∙ ap (λ b. if b then some (empty_vlan v) else none)
        (elem-sort v (declared_of state (all_vids state)) ∙ elem-declared state v)

is_some-start :
    (state : VlanState) (v : ℕ)
    → is_some (lookup v (start state)) ≡ (is_some (lookup v state.vlans) && not (v == default_pvid))
is_some-start state v =
    ap is_some (lookup-start state v)
    ∙ both (is_some (lookup v state.vlans) && not (v == default_pvid))
  where
    both : (b : Bool) → is_some (if b then some (empty_vlan v) else none) ≡ b
    both true = refl
    both false = refl

membership_in-start : (state : VlanState) (v port : ℕ) → membership_in (start state) v port ≡ none
unfolding membership_in lookup
membership_in-start state v port =
    elim (Bool-cases (is_some (lookup v state.vlans) && not (v == default_pvid))) [
      | inl there ↦ rw (membership_in, lookup-start state v, there) refl
      | inr absent ↦ rw (membership_in, lookup-start state v, absent) refl
    ]

override-none : (o : Option PortMembership) → override o none ≡ o
override-none none = refl
override-none (some m) = refl

declared-IsOf :
    (state : VlanState) (m : Member) → IsOf state m → is_some (lookup m.vid (start state)) ≡ true
declared-IsOf state m h =
    let (vlan, there, found) = h.1 in is_some-start state m.vid ∙ rw (there, h.0) refl

all_declared :
    (state : VlanState) (ms : List Member)
    → All (IsOf state) ms
    → All (λ m. is_some (lookup m.vid (start state)) ≡ true) ms
all_declared state [] h = tt
all_declared state (m ∷ ms) h = (declared-IsOf state m h.0, all_declared state ms h.1)

module _ (state : VlanState) (x : IsExpressible state) where
  pub entered-IsRealized : IsRealized (start state) [] (members state)
  entered-IsRealized =
      realize-IsRealized (start state) [] (members state)
        (all_declared state (members state) (members_of-IsOf state x (all_vids state)))

  -- The VLANs of the state but VLAN 1.
  pub is_some-entered :
      (v : ℕ)
      → is_some (lookup v (entered state))
        ≡ (is_some (lookup v state.vlans) && not (v == default_pvid))
  is_some-entered v = entered-IsRealized.same_vlans v ∙ is_some-start state v

  -- Each with the memberships that are written.
  pub membership_in-entered :
      (v port : ℕ)
      → elem port (port_range default_port_count) ≡ true
      → membership_in (entered state) v port ≡ written_in v port (lookup v state.vlans)
  membership_in-entered v port range =
      entered-IsRealized.memberships v port
      ∙ ap (latest v port (members state)) (membership_in-start state v port)
      ∙ latest-members_of state v port (all_vids state) none
          (ap (λ n. elem port (port_range n)) x.writable.eight_ports ∙ range)
      ∙ ap (λ b. if b then override (written_in v port (lookup v state.vlans)) none else none)
          (elem-sort v (keys state.vlans) ∙ elem-keys v state.vlans)
      ∙ both (lookup v state.vlans)
    where
      both :
          (o : Option Vlan)
          → (if is_some o then override (written_in v port o) none else none) ≡ written_in v port o
      both none = refl
      both (some vlan) = override-none (written_in v port (some vlan))
