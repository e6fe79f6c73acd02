-- ===== src/Codec/Rendered.antt =====
-- The body of the VLAN section that the driver writes, scanned (internal/client/gs108tv2/codec.go).
use mathlib.Core.Path.{subst}
use terraform_provider_netge.Base.{
  ℕ, ◌<◌, ◌≤◌, ◌≡◌, refl, sym, ap, ◌∙◌, inl, inr, Bool, true, false, not, ◌&&◌, ◌||◌, Option, none,
  some, List, [], ◌∷◌, ◌++◌, append-nil, append_assoc, arith, ◌==◌, Bytes, All, All-append,
  is_empty, map, trim_right, carriage_return, lookup, if◌then◌else◌, Bool-cases, Option-cases,
}
use terraform_provider_netge.Model.{
  PortMembership, ignored, untagged, tagged, other, is_ignored, is_known, Vlan, VlanState,
  port_range,
}
use terraform_provider_netge.Grammar.{
  vlan_declare_line, vlan_membership_line, membership_lines, vlan_lines, is_untagged, default_pvid,
  default_port_count,
}
use terraform_provider_netge.Grammar.Lines.{IsInt, joined_as}
use terraform_provider_netge.Codec.Scan.{Member, Database, database_line, scan_database}
use terraform_provider_netge.Codec.Lines.{read-vlan_declare_line, read-vlan_membership_line}

-- Declarations and memberships that are found behind a database.
abbrev pub extend : Database → List ℕ → List Member → Database
extend d vids members = record d {
  declared = d.declared ++ vids;
  members = d.members ++ members;
  saw_vlan_line = d.saw_vlan_line || not (is_empty vids && is_empty members);
}

or_false : (b : Bool) → (b || false) ≡ b
or_false true = refl
or_false false = refl

extend-nil : (d : Database) → extend d [] [] ≡ d
extend-nil d = simp (append-nil, or_false d.saw_vlan_line)

saw-append :
    (vids vids' : List ℕ) (members members' : List Member) (b : Bool)
    → (b || not (is_empty vids && is_empty members) || not (is_empty vids' && is_empty members'))
      ≡ (b || not (is_empty (vids ++ vids') && is_empty (members ++ members')))
saw-append vids vids' members members' true = refl
saw-append [] vids' [] members' false = refl
saw-append [] [] (m ∷ members) members' false = refl
saw-append [] (v ∷ vids') (m ∷ members) members' false = refl
saw-append (v ∷ vids) vids' members members' false = refl

extend-extend :
    (d : Database) (vids vids' : List ℕ) (members members' : List Member)
    → extend (extend d vids members) vids' members' ≡ extend d (vids ++ vids') (members ++ members')
extend-extend d vids vids' members members' =
    simp (append_assoc, saw-append vids vids' members members' d.saw_vlan_line)

-- Whether a membership has a line.
abbrev pub is_written : ℕ → PortMembership → Bool
is_written vid m = not (is_ignored m || vid == default_pvid && is_untagged m)

-- The membership of a port, if there is one with a line.
abbrev pub members_if : ℕ → ℕ → Option PortMembership → List Member
members_if vid port none = []
members_if vid port (some m) =
    if is_written vid m then record { vid = vid; port = port; membership = m } ∷ [] else []

-- The memberships of a VLAN that have lines, for some ports.
unfoldable pub written_ports : Vlan → ℕ → List ℕ → List Member
written_ports vlan vid [] = []
written_ports vlan vid (port ∷ ports) =
    members_if vid port (lookup port vlan.ports) ++ written_ports vlan vid ports

-- Every membership of the VLAN is one of the three.
abbrev pub KnownPorts : Vlan → Type 0
KnownPorts vlan =
    (port : ℕ) (m : PortMembership) → lookup port vlan.ports ≡ some m → is_known m ≡ true

written-joined :
    (vid : ℕ) (m : PortMembership)
    → is_known m ≡ true
    → is_written vid m ≡ true
    → (b : Bool) × (m ≡ joined_as b)
written-joined vid ignored k w = cc w
written-joined vid untagged k w = (false, refl)
written-joined vid tagged k w = (true, refl)
written-joined vid (other s) k w = cc k

-- A membership whose line reads back.
abbrev pub IsReadable : Member → Type 0
IsReadable m =
    IsInt m.vid
    × ((0 < m.port) × (m.port ≤ default_port_count))
    × ((b : Bool) × (m.membership ≡ joined_as b))

abbrev line_of : Member → Bytes
line_of m = vlan_membership_line m.vid m.port m.membership

membership_lines-written :
    (vlan : Vlan) (vid : ℕ) (ports : List ℕ)
    → membership_lines vlan vid ports ≡ map line_of (written_ports vlan vid ports)
unfolding membership_lines written_ports
membership_lines-written vlan vid [] = refl
membership_lines-written vlan vid (port ∷ ports) =
    let later = membership_lines-written vlan vid ports in
    elim (Option-cases (lookup port vlan.ports)) [
      | inl absent ↦ rw (absent, membership_lines) later
      | inr (m, found) ↦ elim (Bool-cases (is_ignored m || vid == default_pvid && is_untagged m)) [
        | inl skipped ↦ rw (found, skipped, membership_lines) later
        | inr kept ↦
            rw (found, kept, membership_lines) (ap (◌∷◌ (vlan_membership_line vid port m)) later)
      ]
    ]

members_if-IsReadable :
    (vid port : ℕ) (o : Option PortMembership)
    → IsInt vid
    → (0 < port) × (port ≤ default_port_count)
    → ((m : PortMembership) → o ≡ some m → is_known m ≡ true)
    → All IsReadable (members_if vid port o)
members_if-IsReadable vid port none h range known = tt
members_if-IsReadable vid port (some m) h range known = elim (Bool-cases (is_written vid m)) [
  | inl kept ↦ rw kept ((h, range, written-joined vid m (known m refl) kept), tt)
  | inr skipped ↦ rw skipped tt
]

written_ports-IsReadable :
    (vlan : Vlan) (vid : ℕ) (ports : List ℕ)
    → IsInt vid
    → KnownPorts vlan
    → All (λ port. (0 < port) × (port ≤ default_port_count)) ports
    → All IsReadable (written_ports vlan vid ports)
unfolding written_ports
written_ports-IsReadable vlan vid [] h known range = tt
written_ports-IsReadable vlan vid (port ∷ ports) h known range =
    All-append IsReadable (members_if vid port (lookup port vlan.ports))
      (written_ports vlan vid ports)
      (members_if-IsReadable vid port (lookup port vlan.ports) h range.0 (known port))
      (written_ports-IsReadable vlan vid ports h known range.1)

or_true : (b : Bool) → (b || true) ≡ true
or_true true = refl
or_true false = refl

scan-line :
    (d : Database) (m : Member)
    → IsReadable m
    → database_line d (trim_right carriage_return (line_of m)) ≡ extend d [] (m ∷ [])
scan-line d m h =
    let (b, joined) = h.2 in
    subst
      (λ x.
        database_line d (trim_right carriage_return (vlan_membership_line m.vid m.port x))
        ≡ extend d [] (record { vid = m.vid; port = m.port; membership = x } ∷ []))
      (sym joined)
      (read-vlan_membership_line d m.vid m.port b h.0 h.1.0 h.1.1
        ∙ simp (append-nil, or_true d.saw_vlan_line))

scan-lines :
    (d : Database) (members : List Member)
    → All IsReadable members
    → scan_database d (map line_of members) ≡ extend d [] members
unfolding scan_database
scan-lines d [] h = sym (extend-nil d)
scan-lines d (m ∷ members) h =
    ap (λ d1. scan_database d1 (map line_of members)) (scan-line d m h.0)
    ∙ scan-lines (extend d [] (m ∷ [])) members h.1
    ∙ extend-extend d [] [] (m ∷ []) members

-- The declarations and memberships of the VLANs of a state.
abbrev pub declared_if : ℕ → Option Vlan → List ℕ
declared_if vid none = []
declared_if vid (some vlan) = if vid == default_pvid then [] else vid ∷ []

unfoldable pub declared_of : VlanState → List ℕ → List ℕ
declared_of state [] = []
declared_of state (vid ∷ vids) = declared_if vid (lookup vid state.vlans) ++ declared_of state vids

abbrev pub vlan_members : ℕ → ℕ → Option Vlan → List Member
vlan_members count vid none = []
vlan_members count vid (some vlan) = written_ports vlan vid (port_range count)

unfoldable pub members_of : VlanState → List ℕ → List Member
members_of state [] = []
members_of state (vid ∷ vids) =
    vlan_members state.port_count vid (lookup vid state.vlans) ++ members_of state vids

-- The VLANs of a state: IDs that an int holds, and the three memberships.
pub record IsWritable (state : VlanState) : Type 0 where
  pub ids : (vid : ℕ) (vlan : Vlan) → lookup vid state.vlans ≡ some vlan → IsInt vid
  pub known : (vid : ℕ) (vlan : Vlan) → lookup vid state.vlans ≡ some vlan → KnownPorts vlan
  pub eight_ports : state.port_count ≡ default_port_count

pub scan_database-append :
    (d : Database) (xs ys : List Bytes)
    → scan_database d (xs ++ ys) ≡ scan_database (scan_database d xs) ys
unfolding scan_database
scan_database-append d [] ys = refl
scan_database-append d (x ∷ xs) ys =
    scan_database-append (database_line d (trim_right carriage_return x)) xs ys

scan-membership_lines :
    (d : Database) (vlan : Vlan) (vid : ℕ) (ports : List ℕ)
    → IsInt vid
    → KnownPorts vlan
    → All (λ port. (0 < port) × (port ≤ default_port_count)) ports
    → scan_database d (membership_lines vlan vid ports) ≡ extend d [] (written_ports vlan vid ports)
scan-membership_lines d vlan vid ports h known range =
    ap (scan_database d) (membership_lines-written vlan vid ports)
    ∙ scan-lines d (written_ports vlan vid ports)
        (written_ports-IsReadable vlan vid ports h known range)

scan-declaration :
    (d : Database) (vid : ℕ)
    → IsInt vid
    → scan_database d (if vid == default_pvid then [] else vlan_declare_line vid ∷ [])
      ≡ extend d (if vid == default_pvid then [] else vid ∷ []) []
unfolding scan_database
scan-declaration d vid h = elim (Bool-cases (vid == default_pvid)) [
  | inl one ↦ rw one (sym (extend-nil d))
  | inr more ↦ rw more (read-vlan_declare_line d vid h ∙ simp (append-nil, or_true d.saw_vlan_line))
]

ports_in_range :
    All (λ port. (0 < port) × (port ≤ default_port_count)) (port_range default_port_count)
unfolding port_range
ports_in_range = omega arith

scan-vlan :
    (state : VlanState) (d : Database) (vid : ℕ) (vlan : Vlan) (vids : List ℕ)
    → IsWritable state
    → lookup vid state.vlans ≡ some vlan
    → ((d1 : Database)
        → scan_database d1 (vlan_lines state vids)
          ≡ extend d1 (declared_of state vids) (members_of state vids))
    → scan_database d (
        (if vid == default_pvid then [] else vlan_declare_line vid ∷ [])
        ++ (membership_lines vlan vid (port_range state.port_count) ++ vlan_lines state vids))
      ≡ extend d
          ((if vid == default_pvid then [] else vid ∷ []) ++ declared_of state vids)
          (written_ports vlan vid (port_range state.port_count) ++ members_of state vids)
scan-vlan state d vid vlan vids w found later =
    let ports = port_range state.port_count in
    let heads : List ℕ = if vid == default_pvid then [] else vid ∷ [] in
    let members = written_ports vlan vid ports in
    let range =
      subst (λ n. All (λ port. (0 < port) × (port ≤ default_port_count)) (port_range n))
        (sym w.eight_ports) ports_in_range in
    scan_database-append d (if vid == default_pvid then [] else vlan_declare_line vid ∷ []) _
    ∙ ap (λ d1. scan_database d1 (membership_lines vlan vid ports ++ vlan_lines state vids))
        (scan-declaration d vid (w.ids vid vlan found))
    ∙ scan_database-append (extend d heads []) (membership_lines vlan vid ports)
        (vlan_lines state vids)
    ∙ ap (λ d1. scan_database d1 (vlan_lines state vids))
        (scan-membership_lines (extend d heads []) vlan vid ports (w.ids vid vlan found)
            (w.known vid vlan found) range
          ∙ extend-extend d heads [] [] members)
    ∙ later (extend d (heads ++ []) members)
    ∙ extend-extend d (heads ++ []) (declared_of state vids) members (members_of state vids)
    ∙ ap (λ hs. extend d (hs ++ declared_of state vids) (members ++ members_of state vids))
        (append-nil heads)

-- The whole generated body, behind what was scanned before.
pub scan-vlan_lines :
    (state : VlanState) (d : Database) (vids : List ℕ)
    → IsWritable state
    → scan_database d (vlan_lines state vids)
      ≡ extend d (declared_of state vids) (members_of state vids)
unfolding vlan_lines declared_of members_of scan_database
scan-vlan_lines state d [] w = sym (extend-nil d)
scan-vlan_lines state d (vid ∷ vids) w = elim (Option-cases (lookup vid state.vlans)) [
  | inl absent ↦ rw (absent, vlan_lines) (scan-vlan_lines state d vids w)
  | inr (vlan, found) ↦
      rw (found, vlan_lines)
        (scan-vlan state d vid vlan vids w found (λ d1. scan-vlan_lines state d1 vids w))
]
