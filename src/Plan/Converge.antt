-- ===== src/Plan/Converge.antt =====
-- Convergence (internal/model/vlan_plan.go): the plan between two states takes a switch from the
-- one to the other without an error.
use terraform_provider_netge.Base.{
  ℕ, ◌≡◌, refl, sym, ◌∙◌, inl, inr, true, false, none, List, [], ◌++◌, map, Bool-cases, lookup,
  keys, Distinct, ok,
}
use terraform_provider_netge.Model.{
  VlanState, normalize, validate, equal_states, added_vlans, batch_pvids, preserved_ports,
}
use terraform_provider_netge.Model.Shape.{keys-normalize_vlans}
use terraform_provider_netge.Model.Valid.{IsValid, validate_iff, preserved_ports-normalize}
use terraform_provider_netge.Model.Same.{ports_at, IsState, equal_states-SameState}
use terraform_provider_netge.Plan.{
  VlanOp, add_vlan, step1_vlans, step2_vlans, deleted_vlans, membership_ops, pvid_ops, delete_ops,
  plan_ops, plan, VlanApplier, run,
}
use terraform_provider_netge.Plan.Switch.{IsSwitch}
use terraform_provider_netge.Plan.Members.{ports_at-normalize}
use terraform_provider_netge.Plan.Phases.{Runs, Runs-append, Added, run-add}
use terraform_provider_netge.Plan.Stages.{Shows, Widened, Moved, Exact, finish, exact, move, widen}

module _ (current desired : VlanState) (accepted : validate (normalize desired) ≡ none) where
  plan-same :
      equal_states (normalize current) (normalize desired) ≡ true → plan current desired ≡ ok []
  unfolding plan
  plan-same same = rw (accepted, same, plan) refl

  plan-differs :
      equal_states (normalize current) (normalize desired) ≡ false
      → plan current desired ≡ ok (plan_ops (normalize current) (normalize desired))
  unfolding plan
  plan-differs differs = rw (accepted, differs, plan) refl

IsState-normalize : (s : VlanState) → IsState s → IsState (normalize s)
unfolding normalize
IsState-normalize s h = record {
  vlan_keys = rw (keys-normalize_vlans s.port_count s.vlans) h.vlan_keys;
  pvid_keys = h.pvid_keys;
  pvid_nonzero = h.pvid_nonzero;
}

module _ {S E : Type 0} (applier : VlanApplier S E) (sw : IsSwitch applier) where
  -- Equal states show the same.
  unchanged :
      (current desired : VlanState) (s : S)
      → IsState current
      → Shows applier sw (normalize current) s
      → equal_states (normalize current) (normalize desired) ≡ true
      → Shows applier sw (normalize desired) s
  unfolding normalize
  unchanged current desired s state shows h =
      let same =
        equal_states-SameState (normalize current) (normalize desired)
          (IsState-normalize current state) h in
      record {
        vlan_shown = λ vid.
            shows.vlan_shown vid
            ∙ sym (ports_at-normalize current vid)
            ∙ same.same_ports vid
            ∙ ports_at-normalize desired vid;
        pvid_shown = λ p. shows.pvid_shown p ∙ same.same_pvids p;
      }

  module _ (c d : VlanState) where
    module _ (valid : IsValid d) (unpreserved : preserved_ports d ≡ [])
        (distinct : Distinct (keys d.pvids)) where
      run-plan_ops :
          (s : S)
          → ((j : ℕ) → sw.vlan s j ≡ ports_at c j)
          → ((p : ℕ) → lookup p d.pvids ≡ none → sw.pvid s p ≡ none)
          → Runs applier sw (plan_ops c d) s (Shows applier sw d)
      unfolding plan_ops
      run-plan_ops s shown out =
          Runs-append applier sw (map add_vlan (added_vlans c d))
            (membership_ops (step1_vlans c d)
              ++ (pvid_ops (batch_pvids d)
                  ++ (membership_ops (step2_vlans c d) ++ delete_ops (deleted_vlans c d))))
            s (Added applier sw (added_vlans c d) s) (Shows applier sw d)
            (run-add applier sw (added_vlans c d) s)
            (λ s1 added.
              Runs-append applier sw (membership_ops (step1_vlans c d))
                (pvid_ops (batch_pvids d)
                  ++ (membership_ops (step2_vlans c d) ++ delete_ops (deleted_vlans c d)))
                s1 (Widened applier sw c d) (Shows applier sw d)
                ((widen applier sw c d valid unpreserved distinct) s shown out s1 added)
                (λ s2 widened_now.
                  Runs-append applier sw (pvid_ops (batch_pvids d))
                    (membership_ops (step2_vlans c d) ++ delete_ops (deleted_vlans c d)) s2
                    (Moved applier sw c d) (Shows applier sw d)
                    ((move applier sw c d valid unpreserved distinct) s2 widened_now)
                    (λ s3 moved.
                      Runs-append applier sw (membership_ops (step2_vlans c d))
                        (delete_ops (deleted_vlans c d)) s3 (Exact applier sw c d)
                        (Shows applier sw d)
                        ((exact applier sw c d valid unpreserved distinct) s3 moved)
                        (finish applier sw c d valid unpreserved distinct))))

  -- For every valid desired state Plan succeeds, and its operations, replayed by Run on a switch
  -- that shows the current state, run without an error and leave the switch showing the desired
  -- state: its VLANs with exactly its memberships, and its PVIDs. Two conditions: keys of the maps
  -- are distinct with no PVID 0 in the current state, and the current state gives no PVID to a port
  -- that the desired state does not have.
  pub run-plan :
      (current desired : VlanState) (s : S)
      → IsState current
      → Distinct (keys desired.pvids)
      → IsValid (normalize desired)
      → ((p : ℕ) → lookup p desired.pvids ≡ none → lookup p current.pvids ≡ none)
      → Shows applier sw (normalize current) s
      → (ops : List VlanOp) × (plan current desired ≡ ok ops)
        × ((run applier ops s).1 ≡ none)
        × Shows applier sw (normalize desired) (run applier ops s).0
  unfolding plan normalize run
  run-plan current desired s state distinct valid covers shows =
      let c = normalize current in
      let d = normalize desired in
      let accepted : validate d ≡ none = (validate_iff d).1 valid in
      elim (Bool-cases (equal_states c d)) [
        | inl same ↦ (
          [],
          plan-same current desired accepted same,
          refl,
          unchanged current desired s state shows same,
        )
        | inr differs ↦
            let after =
              run-plan_ops c d valid (preserved_ports-normalize desired accepted) distinct s
                shows.vlan_shown (λ p e. shows.pvid_shown p ∙ covers p e) in
            (plan_ops c d, plan-differs current desired accepted differs, after.0, after.1)
      ]
