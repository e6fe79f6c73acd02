-- ===== src/Model.antt =====
-- internal/model/vlan_state.go: the canonical VLAN state of a switch.
-- A map is an association list with distinct keys, ranged over in the order of the list, and an
-- int is a number: a negative VLAN ID or port fails the same tests as 0. `none` is a nil error.
pub mod Shape
pub mod Valid
pub mod Same
mod Tests
use Prim.Native.String.{String}
use text.Mathlib.Text.{◌==◌ as str_eq}
use mathlib.Core.Option
use terraform_provider_netge.Base.{
  ℕ, zero, suc, ◌+◌, Bool, true, false, not, ◌&&◌, ◌||◌, Option, none, some, List, [], ◌∷◌, ◌++◌,
  map, length, ltb, leb, ◌==◌, if◌then◌else◌, elem, lookup, insert, keys, is_some, sort, keep,
  range_from,
}

-- PortMembership is a string: `other` holds the values that have no constant.
pub data PortMembership : Type 0 where
  ignored untagged tagged : PortMembership
  other : String → PortMembership

-- The zero value, which a missing key reads as.
abbrev pub zero_membership : PortMembership
zero_membership = other ""

unfoldable pub eq_membership : PortMembership → PortMembership → Bool
eq_membership ignored ignored = true
eq_membership untagged untagged = true
eq_membership tagged tagged = true
eq_membership (other s) (other t) = str_eq s t
eq_membership _ _ = false

abbrev pub is_ignored : PortMembership → Bool
is_ignored ignored = true
is_ignored _ = false

abbrev pub is_known : PortMembership → Bool
is_known (other s) = false
is_known _ = true

abbrev pub Ports : Type 0
Ports = List (ℕ × PortMembership)

pub record Vlan : Type 0 where
  pub id : ℕ
  pub ports : Ports

pub record VlanState : Type 0 where
  pub port_count : ℕ
  pub vlans : List (ℕ × Vlan)
  pub pvids : List (ℕ × ℕ)

-- ports[port], the zero value where it is missing.
unfoldable pub get : Ports → ℕ → PortMembership
unfolding lookup
get ports port = Option.get_or (lookup port ports) zero_membership

-- The ports 1 to port_count; also SortedPorts.
unfoldable pub port_range : ℕ → List ℕ
unfolding range_from
port_range n = range_from 1 n

-- A map that the loop over the ports 1 to n fills.
unfoldable pub fill : (ℕ → PortMembership) → List ℕ → Ports
fill f [] = []
fill f (p ∷ ps) = (p, f p) ∷ fill f ps

unfoldable pub normalize_ports : ℕ → Ports → Ports
unfolding port_range fill lookup
normalize_ports n ports = fill (λ port. Option.get_or (lookup port ports) ignored) (port_range n)

unfoldable pub normalize_vlans : ℕ → List (ℕ × Vlan) → List (ℕ × Vlan)
unfolding normalize_ports
normalize_vlans n [] = []
normalize_vlans n ((vid, v) ∷ vlans) =
    (vid, record { id = vid; ports = normalize_ports n v.ports }) ∷ normalize_vlans n vlans

unfoldable pub normalize : VlanState → VlanState
unfolding normalize_vlans
normalize s = record s { vlans = normalize_vlans s.port_count s.vlans }

-- The errors of Validate.
pub data Invalid : Type 0 where
  no_ports pvids_incomplete zero_vlan_id : Invalid
  port_out_of_range : ℕ → Invalid
  invalid_membership missing_pvid no_such_vlan pvid_ignored : ℕ → ℕ → Invalid

-- The inner loop over the ports of one VLAN.
unfoldable pub check_ports : ℕ → ℕ → Ports → Option Invalid
check_ports n vid [] = none
check_ports n vid ((port, m) ∷ ports) =
    let rest = check_ports n vid ports in
    if ltb port 1 || ltb n port
    then some (port_out_of_range port)
    else if not (is_known m)
    then some (invalid_membership port vid)
    else rest

unfoldable pub or_else : Option Invalid → Option Invalid → Option Invalid
or_else (some e) later = some e
or_else none later = later

unfoldable pub check_vlans : ℕ → List (ℕ × Vlan) → Option Invalid
unfolding check_ports or_else
check_vlans n [] = none
check_vlans n ((vid, v) ∷ vlans) =
    let rest = check_vlans n vlans in
    if vid == 0 then some zero_vlan_id else or_else (check_ports n vid v.ports) rest

-- One round of the last loop.
unfoldable pub check_pvid : VlanState → ℕ → Option Invalid
unfolding lookup get
check_pvid s port = elim (lookup port s.pvids) [
  | none ↦ some (missing_pvid port port)
  | some pvid ↦ elim (lookup pvid s.vlans) [
    | none ↦ some (no_such_vlan pvid port)
    | some v ↦ if is_ignored (get v.ports port) then some (pvid_ignored pvid port) else none
  ]
]

unfoldable pub check_pvids : VlanState → List ℕ → Option Invalid
unfolding check_pvid or_else
check_pvids s [] = none
check_pvids s (port ∷ ports) = or_else (check_pvid s port) (check_pvids s ports)

unfoldable pub validate : VlanState → Option Invalid
unfolding check_vlans check_pvids port_range or_else
validate s =
    if s.port_count == 0
    then some no_ports
    else if not (length s.pvids == s.port_count)
    then some pvids_incomplete
    else or_else (check_vlans s.port_count s.vlans) (check_pvids s (port_range s.port_count))

-- The loop of mapsEqualInt: a key that the right map lacks reads as 0.
unfoldable pub entries_equal_int : List (ℕ × ℕ) → List (ℕ × ℕ) → Bool
unfolding lookup
entries_equal_int [] right = true
entries_equal_int ((k, v) ∷ left) right =
    Option.get_or (lookup k right) 0 == v && entries_equal_int left right

unfoldable pub maps_equal_int : List (ℕ × ℕ) → List (ℕ × ℕ) → Bool
unfolding entries_equal_int
maps_equal_int left right = length left == length right && entries_equal_int left right

unfoldable pub entries_equal_membership : Ports → Ports → Bool
unfolding get eq_membership
entries_equal_membership [] right = true
entries_equal_membership ((k, v) ∷ left) right =
    eq_membership (get right k) v && entries_equal_membership left right

unfoldable pub maps_equal_membership : Ports → Ports → Bool
unfolding entries_equal_membership
maps_equal_membership left right =
    length left == length right && entries_equal_membership left right

unfoldable pub equal_ports_at : Ports → Option Vlan → Bool
unfolding maps_equal_membership
equal_ports_at ports none = false
equal_ports_at ports (some v) = maps_equal_membership ports v.ports

-- The last loop of Equal, over the VLANs of the left state.
unfoldable pub equal_vlans : List (ℕ × Vlan) → List (ℕ × Vlan) → Bool
unfolding equal_ports_at lookup
equal_vlans [] right = true
equal_vlans ((vid, v) ∷ left) right =
    equal_ports_at v.ports (lookup vid right) && equal_vlans left right

unfoldable pub equal_normalized : VlanState → VlanState → Bool
unfolding maps_equal_int equal_vlans
equal_normalized left right =
    if not (left.port_count == right.port_count)
    then false
    else if not (maps_equal_int left.pvids right.pvids)
    then false
    else if not (length left.vlans == length right.vlans)
    then false
    else equal_vlans left.vlans right.vlans

unfoldable pub equal_states : VlanState → VlanState → Bool
unfolding equal_normalized normalize
equal_states s s' = equal_normalized (normalize s) (normalize s')

unfoldable pub vlan_ids : VlanState → List ℕ
unfolding sort
vlan_ids s = sort (keys s.vlans)

unfoldable pub added_vlans : VlanState → VlanState → List ℕ
unfolding vlan_ids keep lookup
added_vlans current desired =
    keep (λ vid. not (is_some (lookup vid current.vlans))) (vlan_ids desired)

unfoldable pub removed_vlans : VlanState → VlanState → List ℕ
unfolding vlan_ids keep lookup
removed_vlans current desired =
    keep (λ vid. not (is_some (lookup vid desired.vlans))) (vlan_ids current)

-- The PVIDs of the preserved ports, 0 for a port that has none.
unfoldable pub blocked_vlans : VlanState → List ℕ → List ℕ
unfolding lookup
blocked_vlans current preserved =
    map (λ port. Option.get_or (lookup port current.pvids) 0) preserved

unfoldable pub preserve_removed_vlans : List ℕ → VlanState → List ℕ → List ℕ
unfolding keep elem blocked_vlans
preserve_removed_vlans removed current preserved =
    keep (λ vid. not (elem vid (blocked_vlans current preserved))) removed

-- Whether the loops of PreservedPorts put the port into `active`.
active_in : ℕ → Ports → Bool
active_in port [] = false
active_in port ((p, m) ∷ ports) = (p == port && not (is_ignored m)) || active_in port ports

unfoldable pub active : ℕ → List (ℕ × Vlan) → Bool
unfolding active_in
active port [] = false
active port ((vid, v) ∷ vlans) = active_in port v.ports || active port vlans

unfoldable pub preserved_ports : VlanState → List ℕ
unfolding keep active port_range
preserved_ports desired =
    keep (λ port. not (active port desired.vlans)) (port_range desired.port_count)

-- grouped[vid] = append(grouped[vid], port)
unfoldable pub group_pvids : List (ℕ × List ℕ) → List (ℕ × ℕ) → List (ℕ × List ℕ)
unfolding lookup insert
group_pvids grouped [] = grouped
group_pvids grouped ((port, vid) ∷ pvids) =
    group_pvids (insert vid (Option.get_or (lookup vid grouped) [] ++ (port ∷ [])) grouped) pvids

unfoldable pub sort_each : List (ℕ × List ℕ) → List (ℕ × List ℕ)
unfolding sort
sort_each [] = []
sort_each ((vid, ports) ∷ grouped) = (vid, sort ports) ∷ sort_each grouped

unfoldable pub batch_pvids : VlanState → List (ℕ × List ℕ)
unfolding group_pvids sort_each
batch_pvids s = sort_each (group_pvids [] s.pvids)
