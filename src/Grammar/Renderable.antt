-- ===== src/Grammar/Renderable.antt =====
-- The states that the codec renders (internal/client/gs108tv2/codec.go).
use terraform_provider_netge.Base.{
  ℕ, ◌≤◌, ◌≡◌, ◌↔◌, refl, sym, ap, ◌∙◌, inl, inr, true, none, some, List, [], ◌∷◌, arith, ◌==◌,
  ==_iff, Bool-cases, Option-cases, some_inj, elem, lookup,
}
use terraform_provider_netge.Model.{Vlan, VlanState, get, port_range, validate}
use terraform_provider_netge.Grammar.{
  is_untagged, count_untagged, pvid_of, ports_of, check_port, check_each_port, validate_renderable,
  default_port_count,
}

count_untagged-lookup :
    (port vid : ℕ) (vlan : Vlan) (vlans : List (ℕ × Vlan))
    → lookup vid vlans ≡ some vlan
    → is_untagged (get vlan.ports port) ≡ true
    → 1 ≤ count_untagged port vlans
unfolding count_untagged lookup
count_untagged-lookup port vid vlan [] h u = cc
count_untagged-lookup port vid vlan ((k, x) ∷ vlans) h u = elim (Bool-cases (k == vid)) [
  | inl here ↦
      let same : x ≡ vlan = some_inj (rw here at h) in
      let mine : is_untagged (get x.ports port) ≡ true = rw same u in rw mine (omega arith)
  | inr there ↦
      let later = count_untagged-lookup port vid vlan vlans (rw there at h) u in
      ground (arith, later)
]

-- Two VLANs that carry a port untagged are one, where the port is counted once.
untagged-once :
    (port a b : ℕ) (v w : Vlan) (vlans : List (ℕ × Vlan))
    → count_untagged port vlans ≤ 1
    → lookup a vlans ≡ some v
    → is_untagged (get v.ports port) ≡ true
    → lookup b vlans ≡ some w
    → is_untagged (get w.ports port) ≡ true
    → a ≡ b
unfolding count_untagged lookup
untagged-once port a b v w [] c h u k t = cc
untagged-once port a b v w ((j, x) ∷ vlans) c h u k t = elim (Bool-cases (j == a)) [
  | inl at_a ↦ elim (Bool-cases (j == b)) [
    | inl at_b ↦ sym ((==_iff j a).0 at_a) ∙ (==_iff j b).0 at_b
    | inr not_b ↦
        let mine : is_untagged (get x.ports port) ≡ true =
          ap (λ y. is_untagged (get y.ports port)) (some_inj (rw at_a at h)) ∙ u in
        let later = count_untagged-lookup port b w vlans (rw not_b at k) t in
        ground (arith, later, mine, c)
  ]
  | inr not_a ↦ elim (Bool-cases (j == b)) [
    | inl at_b ↦
        let mine : is_untagged (get x.ports port) ≡ true =
          ap (λ y. is_untagged (get y.ports port)) (some_inj (rw at_b at k)) ∙ t in
        let later = count_untagged-lookup port a v vlans (rw not_a at h) u in
        ground (arith, later, mine, c)
    | inr not_b ↦
        untagged-once port a b v w vlans (ground (arith, c)) (rw not_a at h) u (rw not_b at k) t
  ]
]

-- What a port that passes the check has.
check_port-passed :
    (state : VlanState) (port : ℕ)
    → check_port state port ≡ none
    → (count_untagged port state.vlans ≤ 1)
      × (is_untagged (get (ports_of state (pvid_of state port)) port) ≡ true)
unfolding check_port
check_port-passed state port h = (ground (arith, h), ground (arith, h))

check_each_port-elem :
    (state : VlanState) (ports : List ℕ) (port : ℕ)
    → check_each_port state ports ≡ none
    → elem port ports ≡ true
    → check_port state port ≡ none
unfolding check_each_port elem
check_each_port-elem state [] port h e = cc
check_each_port-elem state (p ∷ ports) port h e = elim (Option-cases (check_port state p)) [
  | inl passed ↦ elim (Bool-cases (p == port)) [
    | inl here ↦ rw (← (==_iff p port).0 here) passed
    | inr there ↦
        check_each_port-elem state ports port (rw (passed, check_each_port) at h) (rw there at e)
  ]
  | inr (e, refused) ↦ cc (rw (refused, check_each_port) at h)
]

ports_of-lookup :
    (state : VlanState) (vid : ℕ) (vlan : Vlan)
    → lookup vid state.vlans ≡ some vlan
    → ports_of state vid ≡ vlan.ports
unfolding ports_of
ports_of-lookup state vid vlan h = rw (ports_of, h) refl

ports_of-missing :
    (state : VlanState) (vid : ℕ) → lookup vid state.vlans ≡ none → ports_of state vid ≡ []
unfolding ports_of
ports_of-missing state vid h = rw (ports_of, h) refl

-- A port that is untagged where its PVID points has that VLAN.
pvid_vlan :
    (state : VlanState) (vid port : ℕ)
    → is_untagged (get (ports_of state vid) port) ≡ true
    → (vlan : Vlan) × (lookup vid state.vlans ≡ some vlan)
unfolding get lookup
pvid_vlan state vid port h = elim (Option-cases (lookup vid state.vlans)) [
  | inl missing ↦ cc (rw (ports_of-missing state vid missing) at h)
  | inr found ↦ found
]

passed_port :
    (state : VlanState) (port : ℕ)
    → validate_renderable state ≡ none
    → elem port (port_range default_port_count) ≡ true
    → check_port state port ≡ none
unfolding validate_renderable
passed_port state port h e = elim (Bool-cases (state.port_count == default_port_count)) [
  | inr n ↦ cc (rw n at h)
  | inl k ↦ elim (Option-cases (validate state)) [
    | inr (e, refused) ↦ cc (rw refused at (rw k at h))
    | inl valid ↦
        let count : state.port_count ≡ default_port_count = (==_iff state.port_count 8).0 k in
        check_each_port-elem state (port_range state.port_count) port (rw valid at (rw k at h))
          (rw count e)
  ]
]

-- In a desired state that validateRenderable accepts, a VLAN of the state carries a port from
-- 1 to 8 untagged if and only if it is the one that the PVID of the port names: no port has a
-- second untagged VLAN.
pub validate_renderable-untagged :
    (state : VlanState) (port vid : ℕ) (vlan : Vlan)
    → validate_renderable state ≡ none
    → elem port (port_range default_port_count) ≡ true
    → lookup vid state.vlans ≡ some vlan
    → (is_untagged (get vlan.ports port) ≡ true) ↔ (pvid_of state port ≡ vid)
validate_renderable-untagged state port vid vlan h e found =
    let passed = check_port-passed state port (passed_port state port h e) in
    let home = pvid_vlan state (pvid_of state port) port passed.1 in
    let there : is_untagged (get home.0.ports port) ≡ true =
      ap (λ ports. is_untagged (get ports port))
        (sym (ports_of-lookup state (pvid_of state port) home.0 home.1))
      ∙ passed.1 in
    (
      λ u.
          untagged-once port (pvid_of state port) vid home.0 vlan state.vlans passed.0 home.1 there
            found u,
      λ same.
          ap (λ ports. is_untagged (get ports port))
            (sym (ports_of-lookup state vid vlan found) ∙ ap (ports_of state) (sym same))
          ∙ passed.1,
    )

-- The VLAN that the PVID of a port names is there.
pub pvid_vlan-there :
    (state : VlanState) (port : ℕ)
    → validate_renderable state ≡ none
    → elem port (port_range default_port_count) ≡ true
    → (vlan : Vlan) × (lookup (pvid_of state port) state.vlans ≡ some vlan)
pvid_vlan-there state port h e =
    pvid_vlan state (pvid_of state port) port
      (check_port-passed state port (passed_port state port h e)).1
