-- ===== src/Codec/Members.antt =====
-- The written memberships are those of the state (internal/client/gs108tv2/codec.go).
use mathlib.Core.Path.{subst}
use terraform_provider_netge.Base.{
  ℕ, ◌≡◌, ◌≢◌, refl, sym, ap, ◌∙◌, inl, inr, Bool, true, false, not, ◌&&◌, ◌||◌, Option, none, some,
  List, [], ◌∷◌, arith, ◌==◌, ==_iff, All, All-append, lookup, is_some, elem, elem-append,
  elem-sort, elem-keys, sort, keys, insert, if◌then◌else◌, Bool-cases,
}
use terraform_provider_netge.Model.{
  PortMembership, ignored, untagged, tagged, other, Ports, Vlan, VlanState, get, is_known,
  port_range,
}
use terraform_provider_netge.Grammar.{
  default_pvid, default_port_count, is_untagged, pvid_of, validate_renderable,
}
use terraform_provider_netge.Grammar.Renderable.{validate_renderable-untagged}
use terraform_provider_netge.Codec.Scan.{Member}
use terraform_provider_netge.Codec.Assemble.{explicit_ports, untagged_elsewhere}
use terraform_provider_netge.Codec.Rendered.{
  is_written, members_if, written_ports, declared_if, declared_of, vlan_members, members_of,
  IsWritable,
}

-- A desired state that a file can hold: it passes the guard, VLAN 1 has no tagged port, and has an
-- untagged one if it is there.
pub record IsExpressible (state : VlanState) : Type 0 where
  pub checked : validate_renderable state ≡ none
  pub writable : IsWritable state
  pub no_tagged :
      (vlan : Vlan) (port : ℕ)
      → lookup default_pvid state.vlans ≡ some vlan
      → lookup port vlan.ports ≢ some tagged
  pub in_use :
      (vlan : Vlan)
      → lookup default_pvid state.vlans ≡ some vlan
      → (port : ℕ) × (elem port (port_range default_port_count) ≡ true)
        × (is_untagged (get vlan.ports port) ≡ true)

elem-declared_if :
    (v vid : ℕ) (o : Option Vlan)
    → elem v (declared_if vid o) ≡ (vid == v && (is_some o && not (vid == default_pvid)))
unfolding elem
elem-declared_if v vid none = ground arith
elem-declared_if v vid (some vlan) = ground arith

elem-declared_of :
    (state : VlanState) (v : ℕ) (vids : List ℕ)
    → elem v (declared_of state vids)
      ≡ (elem v vids && (is_some (lookup v state.vlans) && not (v == default_pvid)))
unfolding declared_of elem
elem-declared_of state v [] = refl
elem-declared_of state v (vid ∷ vids) =
    elem-append v (declared_if vid (lookup vid state.vlans)) (declared_of state vids)
    ∙ ap (λ b. b || elem v (declared_of state vids))
        (elem-declared_if v vid (lookup vid state.vlans))
    ∙ ap (λ b. vid == v && (is_some (lookup vid state.vlans) && not (vid == default_pvid)) || b)
        (elem-declared_of state v vids)
    ∙ elim (Bool-cases (vid == v)) [
      | inr away ↦ rw away refl
      | inl here ↦
          rw ((==_iff vid v).0 here)
            (same (is_some (lookup v state.vlans) && not (v == default_pvid)) (elem v vids))
    ]
  where
    same : (b e : Bool) → (v == v && b || e && b) ≡ ((if v == v then true else e) && b)
    same b e = ground arith

-- The declared VLANs are those of the state but VLAN 1.
pub elem-declared :
    (state : VlanState) (v : ℕ)
    → elem v (declared_of state (sort (keys state.vlans)))
      ≡ (is_some (lookup v state.vlans) && not (v == default_pvid))
elem-declared state v =
    elem-declared_of state v (sort (keys state.vlans))
    ∙ ap (λ b. b && (is_some (lookup v state.vlans) && not (v == default_pvid)))
        (elem-sort v (keys state.vlans) ∙ elem-keys v state.vlans)
    ∙ both (is_some (lookup v state.vlans)) (not (v == default_pvid))
  where
    both : (a b : Bool) → (a && (a && b)) ≡ (a && b)
    both true b = refl
    both false b = refl

-- A membership of the state in another VLAN than 1.
abbrev pub IsOf : VlanState → Member → Type 0
IsOf state m =
    ((m.vid == default_pvid) ≡ false)
    × ((vlan : Vlan) × (lookup m.vid state.vlans ≡ some vlan)
        × (lookup m.port vlan.ports ≡ some m.membership))

unwritten :
    (m : PortMembership) → is_known m ≡ true → m ≢ tagged → is_written default_pvid m ≡ false
unwritten ignored k h = refl
unwritten untagged k h = refl
unwritten tagged k h = absurd (h refl)
unwritten (other s) k h = cc k

pub get-lookup :
    (ports : Ports) (port : ℕ) (m : PortMembership)
    → lookup port ports ≡ some m
    → get ports port ≡ m
unfolding get
get-lookup ports port m h = rw (get, h) refl

contradictory : false ≡ true → ⊥
contradictory h = cc h

module _ (state : VlanState) (x : IsExpressible state) where
  members_if-IsOf :
      (vid port : ℕ) (vlan : Vlan) (o : Option PortMembership)
      → lookup vid state.vlans ≡ some vlan
      → lookup port vlan.ports ≡ o
      → All (IsOf state) (members_if vid port o)
  members_if-IsOf vid port vlan none h e = tt
  members_if-IsOf vid port vlan (some m) h e = elim (Bool-cases (vid == default_pvid)) [
    | inl one ↦
        let there =
          subst (λ v. lookup v state.vlans ≡ some vlan) ((==_iff vid default_pvid).0 one) h in
        let silent : is_written default_pvid m ≡ false =
          unwritten m (x.writable.known vid vlan h port m e)
            (λ t. x.no_tagged vlan port there (e ∙ ap some t)) in
        rw ((==_iff vid default_pvid).0 one) (rw silent tt)
    | inr more ↦ elim (Bool-cases (is_written vid m)) [
      | inl kept ↦ rw kept ((more, (vlan, h, e)), tt)
      | inr skipped ↦ rw skipped tt
    ]
  ]

  written_ports-IsOf :
      (vid : ℕ) (vlan : Vlan) (ports : List ℕ)
      → lookup vid state.vlans ≡ some vlan
      → All (IsOf state) (written_ports vlan vid ports)
  unfolding written_ports
  written_ports-IsOf vid vlan [] h = tt
  written_ports-IsOf vid vlan (port ∷ ports) h =
      All-append (IsOf state) (members_if vid port (lookup port vlan.ports))
        (written_ports vlan vid ports)
        (members_if-IsOf vid port vlan (lookup port vlan.ports) h refl)
        (written_ports-IsOf vid vlan ports h)

  vlan_members-IsOf :
      (count vid : ℕ) (o : Option Vlan)
      → lookup vid state.vlans ≡ o
      → All (IsOf state) (vlan_members count vid o)
  vlan_members-IsOf count vid none h = tt
  vlan_members-IsOf count vid (some vlan) h = written_ports-IsOf vid vlan (port_range count) h

  pub members_of-IsOf : (vids : List ℕ) → All (IsOf state) (members_of state vids)
  unfolding members_of
  members_of-IsOf [] = tt
  members_of-IsOf (vid ∷ vids) =
      All-append (IsOf state) (vlan_members state.port_count vid (lookup vid state.vlans))
        (members_of state vids)
        (vlan_members-IsOf state.port_count vid (lookup vid state.vlans) refl)
        (members_of-IsOf vids)

  -- None of them is in VLAN 1.
  pub explicit_ports-IsOf :
      (ports : Ports) (members : List Member)
      → All (IsOf state) members
      → explicit_ports ports members ≡ ports
  unfolding explicit_ports
  explicit_ports-IsOf ports [] h = refl
  explicit_ports-IsOf ports (m ∷ members) h =
      ap (λ b. explicit_ports (if b then insert m.port m.membership ports else ports) members) h.0.0
      ∙ explicit_ports-IsOf ports members h.1

  -- A port with PVID 1 is untagged nowhere else.
  pub untagged_elsewhere-IsOf :
      (port : ℕ) (members : List Member)
      → elem port (port_range default_port_count) ≡ true
      → pvid_of state port ≡ default_pvid
      → All (IsOf state) members
      → untagged_elsewhere port members ≡ false
  unfolding untagged_elsewhere
  untagged_elsewhere-IsOf port [] range one h = refl
  untagged_elsewhere-IsOf port (m ∷ members) range one h =
      let later = untagged_elsewhere-IsOf port members range one h.1 in
      elim (Bool-cases (is_untagged m.membership && m.port == port)) [
        | inr away ↦ rw (away, h.0.0) later
        | inl here ↦ absurd (elsewhere here)
      ]
    where
      elsewhere : (is_untagged m.membership && m.port == port) ≡ true → ⊥
      elsewhere here =
          let (vlan, there, found) = h.0.1 in
          let at_port : m.port ≡ port = (==_iff m.port port).0 (ground (arith, here)) in
          let bare : is_untagged (get vlan.ports port) ≡ true =
            ap is_untagged (
              get-lookup vlan.ports port m.membership
                (subst (λ p. lookup p vlan.ports ≡ some m.membership) at_port found))
            ∙ ground (arith, here) in
          let pvid : pvid_of state port ≡ m.vid =
            (validate_renderable-untagged state port m.vid vlan x.checked range there).0 bare in
          let same : (m.vid == default_pvid) ≡ true =
            (==_iff m.vid default_pvid).1 (sym pvid ∙ one) in
          contradictory (sym h.0.0 ∙ same)
