-- ===== src/Plan/Stages.antt =====
-- The states of a switch between the phases of a plan (internal/model/vlan_plan.go).
use terraform_provider_netge.Base.{
  ℕ, ◌≡◌, refl, sym, ap, ◌∙◌, inl, inr, true, false, not, ◌&&◌, Option, none, some, [], arith,
  ==_iff, if◌then◌else◌, Bool-cases, Option-cases, elem, lookup, keys, is_some, Distinct,
}
use terraform_provider_netge.Model.{VlanState, get, added_vlans, batch_pvids, preserved_ports}
use terraform_provider_netge.Model.Valid.{IsValid}
use terraform_provider_netge.Model.Same.{ports_at}
use terraform_provider_netge.Plan.{
  ports_of, vlan_of, ports_in, step1_vlans, step2_vlans, deleted_vlans, membership_ops, pvid_ops,
  delete_ops, sorted_vlan_keys, VlanApplier,
}
use terraform_provider_netge.Plan.Switch.{IsSwitch, Shown}
use terraform_provider_netge.Plan.Steps.{
  has, elem-sorted_vlan_keys, elem-added_vlans, elem-deleted_vlans, owns, elem-batch_pvids,
  batch_pvids-some,
}
use terraform_provider_netge.Plan.Members.{widened_member, pvid_in_range}
use terraform_provider_netge.Plan.Phases.{
  Runs, Runs-weaken, Added, Placed, run-set, Assigned, run-assign, Deleted, run-delete,
}
use terraform_provider_netge.Plan.Placed.{
  ports_at-none, ports_at-some, ports_of-some, placed, placed-some, placed-none, step1-added,
  step1-shared, step1-none, step1-some, step1-known, step2-shared, step2-none, step2-known,
}

module _ {S E : Type 0} (applier : VlanApplier S E) (sw : IsSwitch applier) where
  -- What reading the switch back shows.
  pub record Shows (state : VlanState) (s : S) : Type 0 where
    pub vlan_shown : (vid : ℕ) → sw.vlan s vid ≡ ports_at state vid
    pub pvid_shown : (port : ℕ) → sw.pvid s port ≡ lookup port state.pvids

  module _ (c d : VlanState) where
    -- After the first two phases: the VLANs of the desired state, the shared ones widened.
    pub record Widened (s : S) : Type 0 where
      known_kept : (j : ℕ) → has c j ≡ true → sw.known s j ≡ true
      vlan_there : (j : ℕ) → has d j ≡ true → sw.vlan s j ≡ some (ports_of (step1_vlans c d) j)
      vlan_other : (j : ℕ) → has d j ≡ false → sw.vlan s j ≡ ports_at c j
      pvid_out : (p : ℕ) → lookup p d.pvids ≡ none → sw.pvid s p ≡ none

    -- After the PVIDs.
    pub record Moved (s : S) : Type 0 where
      known_kept : (j : ℕ) → has c j ≡ true → sw.known s j ≡ true
      vlan_there : (j : ℕ) → has d j ≡ true → sw.vlan s j ≡ some (ports_of (step1_vlans c d) j)
      vlan_other : (j : ℕ) → has d j ≡ false → sw.vlan s j ≡ ports_at c j
      pvid_now : (p : ℕ) → sw.pvid s p ≡ lookup p d.pvids

    -- After the second memberships: exact, but for the VLANs that are yet to be deleted.
    pub record Exact (s : S) : Type 0 where
      vlan_there : (j : ℕ) → has d j ≡ true → sw.vlan s j ≡ ports_at d j
      vlan_gone : (j : ℕ) → has d j ≡ false → has c j ≡ false → sw.vlan s j ≡ none
      pvid_now : (p : ℕ) → sw.pvid s p ≡ lookup p d.pvids

    module _ (valid : IsValid d) (unpreserved : preserved_ports d ≡ [])
        (distinct : Distinct (keys d.pvids)) where
      pub finish : (s : S) → Exact s → Runs applier sw (delete_ops (deleted_vlans c d)) s (Shows d)
      finish s at =
          Runs-weaken applier sw (delete_ops (deleted_vlans c d)) s
            (Deleted applier sw (deleted_vlans c d) s) (Shows d)
            (run-delete applier sw (deleted_vlans c d) s kept)
            (λ s' after. record {
              vlan_shown =
                  λ j. after.vlan_after j ∙ rw (elem-deleted_vlans c d j unpreserved) (shown j);
              pvid_shown = λ p. after.pvid_after p ∙ at.pvid_now p;
            })
        where
          kept : (p vid : ℕ) → sw.pvid s p ≡ some vid → elem vid (deleted_vlans c d) ≡ false
          kept p vid e =
              let own : lookup p d.pvids ≡ some vid = sym (at.pvid_now p) ∙ e in
              let target = valid.pvids_ok p (pvid_in_range d p valid distinct own) in
              let same : target.pvid ≡ vid = cc (target.assigned, own) in
              elem-deleted_vlans c d vid unpreserved ∙ rw (rw same at target.exists) (ground arith)

          shown : (j : ℕ) → (if has c j && not (has d j) then none else sw.vlan s j) ≡ ports_at d j
          shown j = elim (Bool-cases (has d j)) [
            | inl there ↦ ground (arith, at.vlan_there j there)
            | inr gone ↦
                let empty : ports_at d j ≡ none = ports_at-none d j gone in
                rw empty (ground (arith, at.vlan_gone j gone))
          ]

      pub exact : (s : S) → Moved s → Runs applier sw (membership_ops (step2_vlans c d)) s Exact
      unfolding membership_ops
      exact s at =
          let step = step2_vlans c d in
          Runs-weaken applier sw (membership_ops step) s
            (Placed applier sw (ports_of step) (sorted_vlan_keys step) s) Exact
            (run-set applier sw (ports_of step) (sorted_vlan_keys step) s known)
            (λ s' after. record {
              vlan_there =
                  λ j h. after.vlan_after j ∙ rw (elem-sorted_vlan_keys step j) (there j h);
              vlan_gone =
                  λ j h k. after.vlan_after j ∙ rw (elem-sorted_vlan_keys step j) (gone j h k);
              pvid_now = λ p. after.pvid_after p ∙ at.pvid_now p;
            })
        where
          known : (j : ℕ) → elem j (sorted_vlan_keys (step2_vlans c d)) ≡ true → sw.known s j ≡ true
          known j m =
              at.known_kept j (
                step2-known c d unpreserved j (sym (elem-sorted_vlan_keys (step2_vlans c d) j) ∙ m))

          there : (j : ℕ) → has d j ≡ true → placed (step2_vlans c d) j (sw.vlan s j) ≡ ports_at d j
          there j h = elim (Bool-cases (has c j)) [
            | inl k ↦
                placed-some (step2_vlans c d) j (sw.vlan s j) (vlan_of d.vlans j)
                  (step2-shared c d unpreserved j h k)
                ∙ sym (ports_at-some d j h)
            | inr k ↦
                placed-none (step2_vlans c d) j (sw.vlan s j) (step2-none c d unpreserved j k)
                ∙ at.vlan_there j h
                ∙ ap some (ports_of-some (step1_vlans c d) j (step1-added c d unpreserved j h k))
                ∙ sym (ports_at-some d j h)
          ]

          gone :
              (j : ℕ)
              → has d j ≡ false
              → has c j ≡ false
              → placed (step2_vlans c d) j (sw.vlan s j) ≡ none
          gone j h k =
              placed-none (step2_vlans c d) j (sw.vlan s j) (step2-none c d unpreserved j k)
              ∙ at.vlan_other j h
              ∙ ports_at-none c j k

      pub move : (s : S) → Widened s → Runs applier sw (pvid_ops (batch_pvids d)) s Moved
      unfolding pvid_ops vlan_of get
      move s at =
          let batches = batch_pvids d in
          Runs-weaken applier sw (pvid_ops batches) s
            (Assigned applier sw (λ p. lookup p d.pvids) (sorted_vlan_keys batches) s) Moved
            (run-assign applier sw (λ p. lookup p d.pvids) (ports_in batches)
              (sorted_vlan_keys batches) s (λ p vid. elem-batch_pvids d p vid distinct)
              (λ vid m p e. member vid p e))
            (λ s' after. record {
              known_kept = λ j h. after.known_after j ∙ at.known_kept j h;
              vlan_there = λ j h. after.vlan_after j ∙ at.vlan_there j h;
              vlan_other = λ j h. after.vlan_after j ∙ at.vlan_other j h;
              pvid_now = λ p. elim (Option-cases (lookup p d.pvids)) [
                | inl e ↦ after.pvid_none p e ∙ at.pvid_out p e ∙ sym e
                | inr (vid, e) ↦
                    after.pvid_some p vid e ∙ rw (batch_pvids-some d p vid distinct e) (sym e)
              ];
            })
        where
          owned : (o : Option ℕ) (vid : ℕ) → owns o vid ≡ true → o ≡ some vid
          owned none vid h = cc
          owned (some pvid) vid h = ap some ((==_iff pvid vid).0 h)

          member :
              (vid p : ℕ) → elem p (ports_in (batch_pvids d) vid) ≡ true → Shown (sw.vlan s vid) p
          member vid p e =
              let own =
                owned (lookup p d.pvids) vid (sym (elem-batch_pvids d p vid distinct) ∙ e) in
              let inside = pvid_in_range d p valid distinct own in
              let target = valid.pvids_ok p inside in
              let same : target.pvid ≡ vid = cc (target.assigned, own) in
              let found : lookup vid d.vlans ≡ some target.vlan = rw same at target.exists in
              (
                ports_of (step1_vlans c d) vid,
                at.vlan_there vid (ap is_some found),
                elim (Bool-cases (has c vid)) [
                  | inl k ↦
                      rw
                        (ports_of-some (step1_vlans c d) vid
                          (step1-shared c d unpreserved vid (ap is_some found) k))
                        (widened_member c d vid p target.vlan found inside target.member)
                  | inr k ↦
                      rw
                        (
                          ports_of-some (step1_vlans c d) vid
                              (step1-added c d unpreserved vid (ap is_some found) k),
                          vlan_of,
                          found,
                        )
                        target.member
                ],
              )

      pub widen :
          (s : S)
          → ((j : ℕ) → sw.vlan s j ≡ ports_at c j)
          → ((p : ℕ) → lookup p d.pvids ≡ none → sw.pvid s p ≡ none)
          → (s' : S) → Added applier sw (added_vlans c d) s s'
          → Runs applier sw (membership_ops (step1_vlans c d)) s' Widened
      unfolding membership_ops
      widen s shown out s' added =
          let step = step1_vlans c d in
          Runs-weaken applier sw (membership_ops step) s'
            (Placed applier sw (ports_of step) (sorted_vlan_keys step) s') Widened
            (run-set applier sw (ports_of step) (sorted_vlan_keys step) s' (λ j m.
              known j (step1-known c d unpreserved j (sym (elem-sorted_vlan_keys step j) ∙ m))))
            (λ t after. record {
              known_kept =
                  λ j h. after.known_after j ∙ added.known_after j ∙ ground (arith, was_known j h);
              vlan_there = λ j h.
                  after.vlan_after j
                  ∙ rw (elem-sorted_vlan_keys step j, step1-some c d unpreserved j h) refl;
              vlan_other = λ j h.
                  after.vlan_after j
                  ∙ rw (elem-sorted_vlan_keys step j)
                      (placed-none step j (sw.vlan s' j) (step1-none c d unpreserved j h))
                  ∙ added.vlan_after j (elem-added_vlans c d j ∙ rw h refl)
                  ∙ shown j;
              pvid_out = λ p e. after.pvid_after p ∙ added.pvid_after p ∙ out p e;
            })
        where
          was_known : (j : ℕ) → has c j ≡ true → sw.known s j ≡ true
          was_known j h =
              sw.shown_known s j (vlan_of c.vlans j).ports (shown j ∙ ports_at-some c j h)

          known : (j : ℕ) → has d j ≡ true → sw.known s' j ≡ true
          known j h =
              added.known_after j
              ∙ rw (elem-added_vlans c d j) (elim (Bool-cases (has c j)) [
                | inl k ↦ ground (arith, was_known j k)
                | inr k ↦ ground (arith, h)
              ])
