-- ===== src/Model/Valid.antt =====
-- Validate (internal/model/vlan_state.go) against what a valid state is.
use terraform_provider_netge.Base.{
  ℕ, ◌≤◌, ◌≡◌, ◌≢◌, ◌↔◌, refl, sym, ap, ◌∙◌, inl, inr, Bool, true, false, not, Option, none, some,
  List, [], ◌∷◌, arith, ◌==◌, ==_iff, if◌then◌else◌, Bool-cases, Option-cases, length, elem, lookup,
  keep, All,
}
use terraform_provider_netge.Model.{
  PortMembership, is_ignored, is_known, Ports, Vlan, VlanState, Invalid, get, port_range,
  check_ports, or_else, check_vlans, check_pvid, check_pvids, validate, pvid_ignored, active,
  active_in, preserved_ports, normalize, normalize_vlans, normalize_ports,
}
use terraform_provider_netge.Model.Shape.{
  lookup-normalize_ports, lookup-normalize_vlans, normalize_vlan, covered,
}

-- One entry of a port map: a port of the switch with one of the three memberships.
abbrev pub IsEntry : ℕ → ℕ × PortMembership → Type 0
IsEntry n e = (1 ≤ e.0) × (e.0 ≤ n) × (is_known e.1 ≡ true)

abbrev pub IsVlan : ℕ → ℕ × Vlan → Type 0
IsVlan n e = (e.0 ≢ 0) × All (IsEntry n) e.1.ports

-- The port has a PVID, whose VLAN exists and does not ignore the port.
pub record HasPvid (s : VlanState) (port : ℕ) : Type 0 where
  pub pvid : ℕ
  pub vlan : Vlan
  pub assigned : lookup port s.pvids ≡ some pvid
  pub exists : lookup pvid s.vlans ≡ some vlan
  pub member : is_ignored (get vlan.ports port) ≡ false

pub record IsValid (s : VlanState) : Type 0 where
  pub some_ports : s.port_count ≢ 0
  pub pvid_count : length s.pvids ≡ s.port_count
  pub vlans_ok : All (IsVlan s.port_count) s.vlans
  pub pvids_ok : (port : ℕ) → elem port (port_range s.port_count) ≡ true → HasPvid s port

check_ports_iff :
    (n vid : ℕ) (ports : Ports) → (check_ports n vid ports ≡ none) ↔ All (IsEntry n) ports
unfolding check_ports
check_ports_iff n vid [] = (λ _. tt, λ _. refl)
check_ports_iff n vid ((p, m) ∷ ports) = (
  λ h. ((ground arith, ground arith, ground arith), (check_ports_iff n vid ports).0 (ground arith)),
  λ h. ground (arith, (check_ports_iff n vid ports).1 h.1),
)

or_else_iff : (a b : Option Invalid) → (or_else a b ≡ none) ↔ ((a ≡ none) × (b ≡ none))
unfolding or_else
or_else_iff none b = ground arith
or_else_iff (some e) b = ground arith

check_vlans_iff :
    (n : ℕ) (vlans : List (ℕ × Vlan)) → (check_vlans n vlans ≡ none) ↔ All (IsVlan n) vlans
unfolding check_vlans
check_vlans_iff n [] = (λ _. tt, λ _. refl)
check_vlans_iff n ((vid, v) ∷ vlans) =
    let here = or_else_iff (check_ports n vid v.ports) (check_vlans n vlans) in
    (
      λ h.
          let parts = here.0 (ground arith) in
          (
            (ground arith, (check_ports_iff n vid v.ports).0 parts.0),
            (check_vlans_iff n vlans).0 parts.1,
          ),
      λ h.
          let parts =
            here.1 ((check_ports_iff n vid v.ports).1 h.0.1, (check_vlans_iff n vlans).1 h.1) in
          ground (arith, parts, h.0.0),
    )

passes : (b : Bool) (e : Invalid) → (if b then some e else none) ≡ none → b ≡ false
passes true e h = cc
passes false e h = refl

check_pvid-HasPvid : (s : VlanState) (port : ℕ) → check_pvid s port ≡ none → HasPvid s port
unfolding check_pvid
check_pvid-HasPvid s port h = elim (Option-cases (lookup port s.pvids)) [
  | inl missing ↦ cc (rw (missing, check_pvid) at h)
  | inr (pvid, assigned) ↦ elim (Option-cases (lookup pvid s.vlans)) [
    | inl missing ↦ cc (rw missing at (rw (assigned, check_pvid) at h))
    | inr (vlan, exists) ↦ record {
      pvid = pvid;
      vlan = vlan;
      assigned = assigned;
      exists = exists;
      member =
          passes (is_ignored (get vlan.ports port)) (pvid_ignored pvid port)
            (rw exists at (rw (assigned, check_pvid) at h));
    }
  ]
]

HasPvid-check_pvid : (s : VlanState) (port : ℕ) → HasPvid s port → check_pvid s port ≡ none
unfolding check_pvid
HasPvid-check_pvid s port h = rw (h.assigned, check_pvid) (rw h.exists (rw h.member))

check_pvids_iff :
    (s : VlanState) (ports : List ℕ)
    → (check_pvids s ports ≡ none)
      ↔ ((port : ℕ) → elem port ports ≡ true → check_pvid s port ≡ none)
unfolding check_pvids elem
check_pvids_iff s [] = (λ _ port h. cc, λ _. refl)
check_pvids_iff s (p ∷ ports) =
    let here = or_else_iff (check_pvid s p) (check_pvids s ports) in
    (
      λ h port k. elim (Bool-cases (p == port)) [
        | inl e ↦ rw (← (==_iff p port).0 e) (here.0 h).0
        | inr n ↦ (check_pvids_iff s ports).0 (here.0 h).1 port (ground arith)
      ],
      λ h.
          here.1
            (h p (ground arith), (check_pvids_iff s ports).1 (λ port k. h port (ground arith))),
    )

-- Validate accepts exactly the valid states: at least one port, as many PVIDs as ports, VLAN IDs
-- above 0 with known memberships of ports in range, and for every port a PVID whose VLAN exists
-- and does not ignore the port.
pub validate_iff : (s : VlanState) → (validate s ≡ none) ↔ IsValid s
unfolding validate
validate_iff s =
    let n = s.port_count in
    let here = or_else_iff (check_vlans n s.vlans) (check_pvids s (port_range n)) in
    (
      λ h.
          let parts = here.0 (ground arith) in
          record {
            some_ports = ground arith;
            pvid_count = ground arith;
            vlans_ok = (check_vlans_iff n s.vlans).0 parts.0;
            pvids_ok = λ port k.
                check_pvid-HasPvid s port ((check_pvids_iff s (port_range n)).0 parts.1 port k);
          },
      λ h.
          let parts = here.1 (
            (check_vlans_iff n s.vlans).1 h.vlans_ok,
            (check_pvids_iff s (port_range n)).1
                (λ port k. HasPvid-check_pvid s port (h.pvids_ok port k)),
          ) in
          ground (arith, parts, h.some_ports, h.pvid_count),
    )

active_in-lookup :
    (port : ℕ) (ports : Ports) (m : PortMembership)
    → lookup port ports ≡ some m
    → is_ignored m ≡ false
    → active_in port ports ≡ true
unfolding active_in lookup
active_in-lookup port [] m h k = cc
active_in-lookup port ((p, x) ∷ ports) m h k = ground (arith, active_in-lookup port ports m)

active-lookup :
    (port vid : ℕ) (vlans : List (ℕ × Vlan)) (v : Vlan)
    → lookup vid vlans ≡ some v
    → active_in port v.ports ≡ true
    → active port vlans ≡ true
unfolding active lookup
active-lookup port vid [] v h k = cc
active-lookup port vid ((j, x) ∷ vlans) v h k = elim (Bool-cases (j == vid)) [
  | inl e ↦ let same : x ≡ v = cc (rw e at h) in rw same (rw k)
  | inr n ↦ ground (arith, active-lookup port vid vlans v)
]

keep_nothing :
    (test : ℕ → Bool) (ks : List ℕ)
    → ((k : ℕ) → elem k ks ≡ true → test k ≡ false)
    → keep test ks ≡ []
unfolding keep elem
keep_nothing test [] h = refl
keep_nothing test (k ∷ ks) h =
    let first : test k ≡ false = h k (ground arith) in
    rw first (keep_nothing test ks (λ j e. h j (ground arith)))

get-normalize_ports :
    (n port : ℕ) (ports : Ports)
    → elem port (port_range n) ≡ true
    → (lookup port (normalize_ports n ports) ≡ some (covered ports port))
      × (get (normalize_ports n ports) port ≡ covered ports port)
unfolding get
get-normalize_ports n port ports k =
    let e : lookup port (normalize_ports n ports) ≡ some (covered ports port) =
      lookup-normalize_ports n port ports ∙ rw k in
    (e, rw e)

-- A port with a PVID in a normalized state is an entry of that VLAN's map.
HasPvid-active :
    (s : VlanState) (port : ℕ)
    → elem port (port_range s.port_count) ≡ true
    → HasPvid (normalize s) port
    → active port (normalize s).vlans ≡ true
unfolding normalize
HasPvid-active s port k h = elim (Option-cases (lookup h.pvid s.vlans)) [
  | inl missing ↦ cc (lookup-normalize_vlans n h.pvid s.vlans, h.exists, missing)
  | inr (v, found) ↦
      let shape : normalize_vlan n h.pvid v ≡ h.vlan =
        cc (lookup-normalize_vlans n h.pvid s.vlans, h.exists, found) in
      let entry = get-normalize_ports n port v.ports k in
      let ignores : is_ignored (covered v.ports port) ≡ false =
        ap is_ignored (sym entry.1) ∙ rw (← shape) at h.member in
      active-lookup port h.pvid (normalize_vlans n s.vlans) h.vlan h.exists (
        rw (← shape) (
          active_in-lookup port (normalize_ports n v.ports) (covered v.ports port) entry.0 ignores))
]
  where
    n : ℕ
    n = s.port_count

-- No port of a valid normalized state is preserved: Validate forces every port to be an active
-- member of its PVID's VLAN, so the splice of preserved ports in Plan never acts.
pub preserved_ports-normalize :
    (s : VlanState) → validate (normalize s) ≡ none → preserved_ports (normalize s) ≡ []
unfolding preserved_ports normalize
preserved_ports-normalize s h =
    keep_nothing (λ port. not (active port (normalize s).vlans)) (port_range s.port_count)
      (λ port k.
        ap not (HasPvid-active s port k (((validate_iff (normalize s)).0 h).pvids_ok port k)))
