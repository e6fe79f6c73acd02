-- ===== src/Model/Same.antt =====
-- Equal (internal/model/vlan_state.go): the comparison by length and by the left map's entries.
use mathlib.Core.Option
use text.Mathlib.TextEquality.{eq_iff}
use terraform_provider_netge.Base.{
  ℕ, ◌≡◌, ◌≢◌, refl, sym, ap, ◌∙◌, inl, inr, Bool, true, ◌&&◌, Option, none, some, List, [], ◌∷◌,
  arith, ◌==◌, ==_iff, Bool-cases, Option-cases, length, elem, lookup, keys, Distinct, elem-lookup,
  lookup-elem, lookup_of_subset,
}
use terraform_provider_netge.Model.{
  PortMembership, ignored, untagged, tagged, other, Ports, Vlan, VlanState, get, eq_membership,
  fill, port_range, normalize, normalize_ports, entries_equal_int, maps_equal_int,
  entries_equal_membership, maps_equal_membership, equal_ports_at, equal_vlans, equal_normalized,
  equal_states,
}
use terraform_provider_netge.Model.Shape.{
  lookup-fill, lookup-normalize_vlans, normalize_vlan, covered, keys-normalize_vlans,
}

get_or_nonzero : (o : Option ℕ) (v : ℕ) → (Option.get_or o 0 == v) ≡ true → v ≢ 0 → o ≡ some v
get_or_nonzero none v h ne = absurd (ne (sym ((==_iff 0 v).0 h)))
get_or_nonzero (some w) v h ne = ap some ((==_iff w v).0 h)

entries_equal_int-lookup :
    (left right : List (ℕ × ℕ)) (k v : ℕ)
    → entries_equal_int left right ≡ true
    → lookup k left ≡ some v
    → v ≢ 0
    → lookup k right ≡ some v
unfolding entries_equal_int lookup
entries_equal_int-lookup [] right k v h e ne = cc
entries_equal_int-lookup ((j, w) ∷ left) right k v h e ne = elim (Bool-cases (j == k)) [
  | inl here ↦
      let at_k : w ≡ v = cc (rw here at e) in
      rw (← (==_iff j k).0 here, ← at_k)
        (get_or_nonzero (lookup j right) w (ground arith) (rw (← at_k) at ne))
  | inr more ↦ entries_equal_int-lookup left right k v (ground arith) (rw more at e) ne
]

eq_membership-eq : (a b : PortMembership) → eq_membership a b ≡ true → a ≡ b
unfolding eq_membership
eq_membership-eq ignored ignored h = refl
eq_membership-eq untagged untagged h = refl
eq_membership-eq tagged tagged h = refl
eq_membership-eq (other s) (other t) h = ap other ((eq_iff s t).0 h)
eq_membership-eq a b h = cc

and_parts : (a b : Bool) → (a && b) ≡ true → (a ≡ true) × (b ≡ true)
and_parts a b h = (ground arith, ground arith)

-- Two maps filled over the same ports are equal if the comparison finds no difference.
entries_equal-fill :
    (f g : ℕ → PortMembership) (ps range : List ℕ)
    → ((p : ℕ) → elem p ps ≡ true → elem p range ≡ true)
    → entries_equal_membership (fill f ps) (fill g range) ≡ true
    → fill f ps ≡ fill g ps
unfolding entries_equal_membership fill elem get
entries_equal-fill f g [] range sub h = refl
entries_equal-fill f g (p ∷ ps) range sub h =
    let there : elem p range ≡ true = sub p (ground arith) in
    let value : lookup p (fill g range) ≡ some (g p) = lookup-fill g p range ∙ rw there in
    let parts = and_parts (eq_membership (get (fill g range) p) (f p)) _ h in
    let read : get (fill g range) p ≡ g p = rw (value, get) in
    let same : f p ≡ g p = sym (eq_membership-eq (g p) (f p) (rw read at parts.0)) in
    rw same
      (ap (◌∷◌ (p, g p)) (entries_equal-fill f g ps range (λ q m. sub q (ground arith)) parts.1))

equal_vlans-lookup :
    (left right : List (ℕ × Vlan)) (vid : ℕ) (v : Vlan)
    → equal_vlans left right ≡ true
    → lookup vid left ≡ some v
    → equal_ports_at v.ports (lookup vid right) ≡ true
unfolding equal_vlans lookup
equal_vlans-lookup [] right vid v h e = cc
equal_vlans-lookup ((j, w) ∷ left) right vid v h e = elim (Bool-cases (j == vid)) [
  | inl here ↦
      let at_vid : w ≡ v = cc (rw here at e) in
      rw (← (==_iff j vid).0 here, ← at_vid) (ground arith)
  | inr more ↦ equal_vlans-lookup left right vid v (ground arith) (rw more at e)
]

-- The ports of a VLAN in a state.
abbrev pub ports_at : VlanState → ℕ → Option Ports
ports_at s vid = Option.map (λ v. v.ports) (lookup vid s.vlans)

-- What makes the association lists of a state maps, with a PVID other than 0 for each key.
pub record IsState (s : VlanState) : Type 0 where
  pub vlan_keys : Distinct (keys s.vlans)
  pub pvid_keys : Distinct (keys s.pvids)
  pub pvid_nonzero : (port pvid : ℕ) → lookup port s.pvids ≡ some pvid → pvid ≢ 0

pub record SameState (s s' : VlanState) : Type 0 where
  pub same_count : s.port_count ≡ s'.port_count
  pub same_pvids : (port : ℕ) → lookup port s.pvids ≡ lookup port s'.pvids
  pub same_ports : (vid : ℕ) → ports_at s vid ≡ ports_at s' vid

record Parts (l r : VlanState) : Type 0 where
  count : l.port_count ≡ r.port_count
  pvid_size : length l.pvids ≡ length r.pvids
  pvid_entries : entries_equal_int l.pvids r.pvids ≡ true
  vlan_size : length l.vlans ≡ length r.vlans
  vlan_entries : equal_vlans l.vlans r.vlans ≡ true

equal_normalized-Parts : (l r : VlanState) → equal_normalized l r ≡ true → Parts l r
unfolding equal_normalized maps_equal_int
equal_normalized-Parts l r h = record {
  count = ground arith;
  pvid_size = ground arith;
  pvid_entries = ground arith;
  vlan_size = ground arith;
  vlan_entries = ground arith;
}

equal_ports_at-lookup :
    (ports : Ports) (o : Option Vlan)
    → equal_ports_at ports o ≡ true
    → (v : Vlan) × (o ≡ some v) × (entries_equal_membership ports v.ports ≡ true)
unfolding equal_ports_at maps_equal_membership
equal_ports_at-lookup ports none h = cc
equal_ports_at-lookup ports (some v) h = (v, refl, ground arith)

normalized-ports :
    (s : VlanState) (vid : ℕ) (v : Vlan)
    → lookup vid (normalize s).vlans ≡ some v
    → (w : Vlan) × (v.ports ≡ fill (covered w.ports) (port_range s.port_count))
unfolding normalize normalize_ports
normalized-ports s vid v h = elim (Option-cases (lookup vid s.vlans)) [
  | inl e ↦ cc (lookup-normalize_vlans s.port_count vid s.vlans, e, h)
  | inr (w, e) ↦
      let same : normalize_vlan s.port_count vid w ≡ v =
        cc (lookup-normalize_vlans s.port_count vid s.vlans, e, h) in
      (w, rw (← same))
]

-- Two states that Equal finds equal, the left one with distinct keys and no PVID 0, have the
-- same port count, the same PVIDs and, once normalized, the same VLANs with the same
-- memberships.
pub equal_states-SameState :
    (s s' : VlanState)
    → IsState s
    → equal_states s s' ≡ true
    → SameState (normalize s) (normalize s')
unfolding equal_states normalize
equal_states-SameState s s' k h = record {
  same_count = p.count;
  same_pvids = λ port. elim (Option-cases (lookup port s.pvids)) [
    | inl absent ↦
        absent
        ∙ sym (lookup_of_subset s.pvids s'.pvids port k.pvid_keys p.pvid_size pvid_within absent)
    | inr (pvid, found) ↦
        found
        ∙ sym (
            entries_equal_int-lookup s.pvids s'.pvids port pvid p.pvid_entries found
              (k.pvid_nonzero port pvid found))
  ];
  same_ports = λ vid. elim (Option-cases (lookup vid l.vlans)) [
    | inl absent ↦
        let gone = lookup_of_subset l.vlans r.vlans vid vlan_keys p.vlan_size vlan_within absent in
        rw (absent, gone)
    | inr (v, found) ↦
        let (w, there, same) =
          equal_ports_at-lookup v.ports (lookup vid r.vlans)
            (equal_vlans-lookup l.vlans r.vlans vid v p.vlan_entries found) in
        let (x, from) = normalized-ports s vid v found in
        let (y, into) = normalized-ports s' vid w there in
        rw (found, there) (ap some (filled v.ports w.ports x.ports y.ports from into same))
  ];
}
  where
    l : VlanState
    l = normalize s

    r : VlanState
    r = normalize s'

    p : Parts l r
    p = equal_normalized-Parts l r h

    pvid_within : (j : ℕ) → elem j (keys s.pvids) ≡ true → elem j (keys s'.pvids) ≡ true
    pvid_within j m =
        let (pvid, found) = lookup-elem j s.pvids m in
        elem-lookup j s'.pvids (
          entries_equal_int-lookup s.pvids s'.pvids j pvid p.pvid_entries found
            (k.pvid_nonzero j pvid found))

    vlan_keys : Distinct (keys l.vlans)
    vlan_keys = rw keys-normalize_vlans k.vlan_keys

    vlan_within : (j : ℕ) → elem j (keys l.vlans) ≡ true → elem j (keys r.vlans) ≡ true
    vlan_within j m =
        let (v, found) = lookup-elem j l.vlans m in
        let (w, there, same) =
          equal_ports_at-lookup v.ports (lookup j r.vlans)
            (equal_vlans-lookup l.vlans r.vlans j v p.vlan_entries found) in
        elem-lookup j r.vlans there

    filled :
        (a b x y : Ports)
        → a ≡ fill (covered x) (port_range s.port_count)
        → b ≡ fill (covered y) (port_range s'.port_count)
        → entries_equal_membership a b ≡ true
        → a ≡ b
    filled a b x y from into same =
        let into' : b ≡ fill (covered y) (port_range s.port_count) =
          into ∙ ap (λ (n : ℕ). fill (covered y) (port_range n)) (sym p.count) in
        from
        ∙ entries_equal-fill (covered x) (covered y) (port_range s.port_count)
            (port_range s.port_count) (λ q m. m) (rw (from, into') at same)
        ∙ sym into'
