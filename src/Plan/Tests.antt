-- ===== src/Plan/Tests.antt =====
-- A concrete switch behind VLANApplier, and the convergence theorem on it.
use terraform_provider_netge.Base.{
  ℕ, ◌≡◌, refl, ap, inl, inr, Bool, true, false, not, ◌&&◌, Option, none, some, List, [], ◌∷◌,
  arith, ◌==◌, ==_iff, if◌then◌else◌, Bool-cases, elem, lookup, insert, insert_all, is_some,
  lookup-insert, lookup-insert_all, ok, Distinct, keys,
}
use terraform_provider_netge.Model.{
  ignored, untagged, tagged, is_ignored, Ports, VlanState, get, normalize, validate,
}
use terraform_provider_netge.Model.Valid.{validate_iff}
use terraform_provider_netge.Model.Same.{IsState}
use terraform_provider_netge.Plan.{
  VlanOp, add_vlan, set_membership, set_pvids, delete_vlans, VlanApplier, run, plan,
}
use terraform_provider_netge.Plan.Switch.{IsSwitch, Shown}
use terraform_provider_netge.Plan.Stages.{Shows}
use terraform_provider_netge.Plan.Converge.{run-plan}

data Refused : Type 0 where
  unknown_vlan not_a_member : ℕ → Refused

record Device : Type 0 where
  vlans : List (ℕ × Ports)
  pvids : List (ℕ × ℕ)

unfoldable members : Option Ports → List ℕ → Bool
unfolding get
members o [] = true
members none (p ∷ ps) = false
members (some ports) (p ∷ ps) = not (is_ignored (get ports p)) && members (some ports) ps

unfoldable remove : List ℕ → List (ℕ × Ports) → List (ℕ × Ports)
unfolding elem
remove vids [] = []
remove vids ((vid, ports) ∷ vlans) =
    let rest = remove vids vlans in if elem vid vids then rest else (vid, ports) ∷ rest

lookup-remove :
    (vids : List ℕ) (j : ℕ) (vlans : List (ℕ × Ports))
    → lookup j (remove vids vlans) ≡ (if elem j vids then none else lookup j vlans)
unfolding lookup remove
lookup-remove vids j [] = ground arith
lookup-remove vids j ((vid, ports) ∷ vlans) = elim (Bool-cases (vid == j)) [
  | inl e ↦
      let same : elem vid vids ≡ elem j vids = ap (λ v. elem v vids) ((==_iff vid j).0 e) in
      ground (arith, lookup-remove vids j vlans, e, same)
  | inr n ↦ rw n (ground (arith, lookup-remove vids j vlans))
]

added : ℕ → List (ℕ × Ports) → List (ℕ × Ports)
unfolding lookup insert
added vid vlans = if is_some (lookup vid vlans) then vlans else insert vid [] vlans

is_some_at :
    (vid j : ℕ) (vlans : List (ℕ × Ports))
    → (vid == j) ≡ true
    → is_some (lookup vid vlans) ≡ is_some (lookup j vlans)
is_some_at vid j vlans e = ap (λ v. is_some (lookup v vlans)) ((==_iff vid j).0 e)

added_known :
    (vid j : ℕ) (vlans : List (ℕ × Ports))
    → is_some (lookup j (added vid vlans)) ≡ (if vid == j then true else is_some (lookup j vlans))
unfolding added
added_known vid j vlans = elim (Bool-cases (is_some (lookup vid vlans))) [
  | inl k ↦ rw k (ground (arith, k, is_some_at vid j vlans))
  | inr k ↦ rw (k, lookup-insert j vid [] vlans) (ground arith)
]

added_other :
    (vid j : ℕ) (vlans : List (ℕ × Ports))
    → (vid == j) ≡ false
    → lookup j (added vid vlans) ≡ lookup j vlans
unfolding added
added_other vid j vlans n = elim (Bool-cases (is_some (lookup vid vlans))) [
  | inl k ↦ rw k refl
  | inr k ↦ rw (k, lookup-insert j vid [] vlans, n) refl
]

insert_known :
    (vid j : ℕ) (ports : Ports) (vlans : List (ℕ × Ports))
    → is_some (lookup vid vlans) ≡ true
    → is_some (lookup j (insert vid ports vlans)) ≡ is_some (lookup j vlans)
insert_known vid j ports vlans h =
    rw (lookup-insert j vid ports vlans) (ground (arith, h, is_some_at vid j vlans))

-- It knows a VLAN once it is added, and refuses a PVID for a port that is not a member.
abbrev device : VlanApplier Device Refused
device = record {
  add = λ vid d. (record d { vlans = added vid d.vlans }, none);
  set_ports = λ vid ports d.
      if is_some (lookup vid d.vlans)
      then (record d { vlans = insert vid ports d.vlans }, none)
      else (d, some (unknown_vlan vid));
  assign = λ vid ports d.
      if members (lookup vid d.vlans) ports
      then (record d { pvids = insert_all (λ p. vid) ports d.pvids }, none)
      else (d, some (not_a_member vid));
  delete = λ vids d. (record d { vlans = remove vids d.vlans }, none);
}

members_all :
    (o : Option Ports) (ps : List ℕ)
    → ((p : ℕ) → elem p ps ≡ true → Shown o p)
    → members o ps ≡ true
unfolding members elem
members_all o [] h = refl
members_all none (p ∷ ps) h = let (ports, e, m) = h p (ground arith) in cc
members_all (some q) (p ∷ ps) h =
    let (ports, e, m) = h p (ground arith) in
    let rest = members_all (some q) ps (λ j k. h j (ground arith)) in
    let same : q ≡ ports = cc in
    let member : is_ignored (get q p) ≡ false = rw (← same) at m in rw (member, rest) refl

abbrev device-IsSwitch : IsSwitch device
device-IsSwitch = record {
  vlan = λ d vid. lookup vid d.vlans;
  pvid = λ d port. lookup port d.pvids;
  known = λ d vid. is_some (lookup vid d.vlans);
  shown_known = λ d vid ports h. ap is_some h;
  add_ok = λ vid d. refl;
  add_known = λ vid j d. added_known vid j d.vlans;
  add_vlan = λ vid j d n. added_other vid j d.vlans n;
  add_pvid = λ vid port d. refl;
  set_ok = λ vid ports d h. rw h refl;
  set_known = λ vid j ports d h. rw h (insert_known vid j ports d.vlans h);
  set_vlan = λ vid j ports d h. rw h (lookup-insert j vid ports d.vlans);
  set_pvid = λ vid port ports d h. rw h refl;
  assign_ok = λ vid ports d h. rw (members_all (lookup vid d.vlans) ports h) refl;
  assign_known = λ vid j ports d h. rw (members_all (lookup vid d.vlans) ports h) refl;
  assign_vlan = λ vid j ports d h. rw (members_all (lookup vid d.vlans) ports h) refl;
  assign_pvid = λ vid port ports d h.
      rw (members_all (lookup vid d.vlans) ports h)
        (lookup-insert_all (λ p. vid) port ports d.pvids);
  delete_ok = λ vids d h. refl;
  delete_vlan = λ vids j d h. lookup-remove vids j d.vlans;
  delete_pvid = λ vids port d h. refl;
}

abbrev before : VlanState
before = record {
  port_count = 2;
  vlans =
      (1, record { id = 1; ports = (1, untagged) ∷ (2, untagged) ∷ [] })
      ∷ (5, record { id = 5; ports = (2, tagged) ∷ [] })
      ∷ [];
  pvids = (1, 1) ∷ (2, 1) ∷ [];
}

abbrev after : VlanState
after = record {
  port_count = 2;
  vlans =
      (1, record { id = 1; ports = (1, untagged) ∷ [] })
      ∷ (20, record { id = 20; ports = (2, untagged) ∷ (1, tagged) ∷ [] })
      ∷ [];
  pvids = (1, 1) ∷ (2, 20) ∷ [];
}

abbrev started : Device
started = record {
  vlans = (1, (1, untagged) ∷ (2, untagged) ∷ []) ∷ (5, (1, ignored) ∷ (2, tagged) ∷ []) ∷ [];
  pvids = (1, 1) ∷ (2, 1) ∷ [];
}

after_valid : validate (normalize after) ≡ none
unfolding validate normalize
after_valid = refl

before-IsState : IsState before
unfolding lookup elem
before-IsState = record {
  vlan_keys = (refl, (refl, tt));
  pvid_keys = (refl, (refl, tt));
  pvid_nonzero = λ port pvid h e. elim (Bool-cases (1 == port)) [
    | inl k ↦ cc (rw k at h, e)
    | inr n ↦ elim (Bool-cases (2 == port)) [
      | inl k ↦ cc (rw (n, k) at h, e)
      | inr m ↦ cc (rw (n, m) at h)
    ]
  ];
}

after-Distinct : Distinct (keys after.pvids)
unfolding elem
after-Distinct = (refl, (refl, tt))

same_ports : (port : ℕ) → lookup port after.pvids ≡ none → lookup port before.pvids ≡ none
unfolding lookup
same_ports port h = elim (Bool-cases (1 == port)) [
  | inl k ↦ cc (rw k at h)
  | inr n ↦ elim (Bool-cases (2 == port)) [ inl k ↦ cc (rw (n, k) at h) | inr m ↦ rw (n, m) refl ]
]

started-Shows : Shows device device-IsSwitch (normalize before) started
unfolding normalize lookup
started-Shows = record {
  vlan_shown = λ vid. elim (Bool-cases (1 == vid)) [
    | inl k ↦ rw k refl
    | inr n ↦ elim (Bool-cases (5 == vid)) [ inl k ↦ rw (n, k) refl | inr m ↦ rw (n, m) refl ]
  ];
  pvid_shown = λ port. refl;
}

run-plan_example :
    (ops : List VlanOp) × (plan before after ≡ ok ops)
    × ((run device ops started).1 ≡ none)
    × Shows device device-IsSwitch (normalize after) (run device ops started).0
run-plan_example =
    run-plan device device-IsSwitch before after started before-IsState after-Distinct
      ((validate_iff (normalize after)).0 after_valid) same_ports started-Shows

-- The plan of the example: VLAN 20 is new, VLAN 1 is widened and then exact, VLAN 5 is deleted.
plan_test :
    plan before after
    ≡ ok (
        add_vlan 20
        ∷ set_membership 1 ((1, untagged) ∷ (2, untagged) ∷ [])
        ∷ set_membership 20 ((1, tagged) ∷ (2, untagged) ∷ [])
        ∷ set_pvids 1 (1 ∷ [])
        ∷ set_pvids 20 (2 ∷ [])
        ∷ set_membership 1 ((1, untagged) ∷ (2, ignored) ∷ [])
        ∷ set_membership 5 ((1, ignored) ∷ (2, ignored) ∷ [])
        ∷ delete_vlans (5 ∷ [])
        ∷ [])
unfolding plan
plan_test = refl
