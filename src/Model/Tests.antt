-- ===== src/Model/Tests.antt =====
-- The properties of VLAN states on concrete states.
use terraform_provider_netge.Base.{
  ◌≡◌, ◌↔◌, refl, inl, inr, true, none, some, [], ◌∷◌, ◌==◌, Bool-cases, lookup, elem,
}
use terraform_provider_netge.Model.{
  ignored, untagged, tagged, VlanState, validate, normalize, preserved_ports, equal_states,
  pvid_ignored,
}
use terraform_provider_netge.Model.Valid.{IsValid, validate_iff, preserved_ports-normalize}
use terraform_provider_netge.Model.Same.{IsState, SameState, equal_states-SameState}

abbrev two_vlans : VlanState
two_vlans = record {
  port_count = 3;
  vlans =
      (1, record { id = 1; ports = (1, untagged) ∷ (2, untagged) ∷ [] })
      ∷ (10, record { id = 10; ports = (3, untagged) ∷ (1, tagged) ∷ [] })
      ∷ [];
  pvids = (1, 1) ∷ (2, 1) ∷ (3, 10) ∷ [];
}

-- The same state with its maps in another order, and an ignored port written out.
abbrev reordered : VlanState
reordered = record {
  port_count = 3;
  vlans =
      (10, record { id = 10; ports = (1, tagged) ∷ (2, ignored) ∷ (3, untagged) ∷ [] })
      ∷ (1, record { id = 1; ports = (2, untagged) ∷ (1, untagged) ∷ [] })
      ∷ [];
  pvids = (3, 10) ∷ (1, 1) ∷ (2, 1) ∷ [];
}

pvid_ignored_test :
    validate (normalize (record two_vlans { pvids = (1, 1) ∷ (2, 10) ∷ (3, 10) ∷ [] }))
    ≡ some (pvid_ignored 10 2)
unfolding validate normalize
pvid_ignored_test = refl

validate_iff_example : (validate two_vlans ≡ none) ↔ IsValid two_vlans
validate_iff_example = validate_iff two_vlans

two_vlans_valid : validate (normalize two_vlans) ≡ none
unfolding validate normalize
two_vlans_valid = refl

preserved_ports-normalize_example : preserved_ports (normalize two_vlans) ≡ []
preserved_ports-normalize_example = preserved_ports-normalize two_vlans two_vlans_valid

two_vlans-IsState : IsState two_vlans
unfolding lookup elem
two_vlans-IsState = record {
  vlan_keys = (refl, (refl, tt));
  pvid_keys = (refl, (refl, (refl, tt)));
  pvid_nonzero = λ port pvid h e. elim (Bool-cases (1 == port)) [
    | inl k ↦ cc (rw k at h, e)
    | inr n ↦ elim (Bool-cases (2 == port)) [
      | inl k ↦ cc (rw (n, k) at h, e)
      | inr m ↦ elim (Bool-cases (3 == port)) [
        | inl k ↦ cc (rw (n, m, k) at h, e)
        | inr l ↦ cc (rw (n, m, l) at h)
      ]
    ]
  ];
}

found_equal : equal_states two_vlans reordered ≡ true
unfolding equal_states
found_equal = refl

equal_states-SameState_example : SameState (normalize two_vlans) (normalize reordered)
equal_states-SameState_example =
    equal_states-SameState two_vlans reordered two_vlans-IsState found_equal
