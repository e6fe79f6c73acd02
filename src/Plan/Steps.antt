-- ===== src/Plan/Steps.antt =====
-- The VLANs of the two membership steps of Plan, by VLAN ID, and the ports of each PVID batch.
use terraform_provider_netge.Base.{
  ℕ, ◌≡◌, refl, ap, ◌∙◌, inl, inr, Bool, true, false, not, ◌&&◌, ◌||◌, Option, none, some, List, [],
  ◌∷◌, ◌++◌, arith, ◌==◌, ==_iff, if◌then◌else◌, Bool-cases, Option-cases, elem, lookup, insert,
  insert_all, keys, is_some, Distinct, elem-sort, elem-keep, elem-keys, elem-append, lookup-insert,
  lookup-insert_all, lookup-none,
}
use terraform_provider_netge.Model.{
  Vlan, VlanState, vlan_ids, added_vlans, removed_vlans, preserve_removed_vlans, blocked_vlans,
  preserved_ports, group_pvids, sort_each, batch_pvids,
}
use terraform_provider_netge.Plan.{
  intersect_vlan_ids, sorted_vlan_keys, vlan_of, ignored_ports, widened, step1_vlans, step2_vlans,
  deleted_vlans, splice_preserved_ports, ports_in,
}

-- Whether the state has the VLAN.
abbrev pub has : VlanState → ℕ → Bool
has s vid = is_some (lookup vid s.vlans)

elem-vlan_ids : (s : VlanState) (vid : ℕ) → elem vid (vlan_ids s) ≡ has s vid
unfolding vlan_ids
elem-vlan_ids s vid = elem-sort vid (keys s.vlans) ∙ elem-keys vid s.vlans

pub elem-sorted_vlan_keys {ℓ} :
    {V : Type ℓ} (m : List (ℕ × V)) (vid : ℕ)
    → elem vid (sorted_vlan_keys m) ≡ is_some (lookup vid m)
unfolding sorted_vlan_keys
elem-sorted_vlan_keys m vid = elem-sort vid (keys m) ∙ elem-keys vid m

module _ (c d : VlanState) (vid : ℕ) where
  pub elem-added_vlans : elem vid (added_vlans c d) ≡ (has d vid && not (has c vid))
  unfolding added_vlans
  elem-added_vlans =
      elem-keep (λ v. not (is_some (lookup v c.vlans))) vid (vlan_ids d) ∙ rw (elem-vlan_ids d vid)

  pub elem-removed_vlans : elem vid (removed_vlans c d) ≡ (has c vid && not (has d vid))
  unfolding removed_vlans
  elem-removed_vlans =
      elem-keep (λ v. not (is_some (lookup v d.vlans))) vid (vlan_ids c) ∙ rw (elem-vlan_ids c vid)

  elem-intersect :
      elem vid (intersect_vlan_ids (vlan_ids c) (vlan_ids d)) ≡ (has d vid && has c vid)
  unfolding intersect_vlan_ids
  elem-intersect =
      elem-keep (λ v. elem v (vlan_ids c)) vid (vlan_ids d)
      ∙ rw (elem-vlan_ids d vid, elem-vlan_ids c vid)

  -- Step 1 holds the VLANs of the desired state: widened where the current state has them too.
  pub lookup-step1_vlans : lookup vid (step1_vlans c d) ≡ (
      if has d vid && has c vid
      then some (widened c d vid)
      else if has d vid && not (has c vid)
      then some (vlan_of d.vlans vid)
      else none)
  unfolding step1_vlans lookup
  lookup-step1_vlans =
      lookup-insert_all (widened c d) vid (intersect_vlan_ids (vlan_ids c) (vlan_ids d))
        (insert_all (vlan_of d.vlans) (added_vlans c d) [])
      ∙ rw (elem-intersect, lookup-insert_all (vlan_of d.vlans) vid (added_vlans c d) [])
          (rw elem-added_vlans)

  module _ (unpreserved : preserved_ports d ≡ []) where
    -- Step 2 holds the VLANs of the current state: exact where they stay, all-ignored where not.
    pub lookup-step2_vlans : lookup vid (step2_vlans c d) ≡ (
        if has c vid && not (has d vid)
        then some (record { id = vid; ports = ignored_ports d.port_count })
        else if has d vid && has c vid
        then some (vlan_of d.vlans vid)
        else none)
    unfolding step2_vlans splice_preserved_ports lookup
    lookup-step2_vlans = rw unpreserved (
        lookup-insert_all gone vid (removed_vlans c d) both
        ∙ rw
            (
              elem-removed_vlans,
              lookup-insert_all (vlan_of d.vlans) vid (intersect_vlan_ids (vlan_ids c) (vlan_ids d))
                  [],
            )
            (rw elem-intersect))
      where
        gone : ℕ → Vlan
        gone v = record { id = v; ports = ignored_ports d.port_count }

        both : List (ℕ × Vlan)
        both = insert_all (vlan_of d.vlans) (intersect_vlan_ids (vlan_ids c) (vlan_ids d)) []

    pub elem-deleted_vlans : elem vid (deleted_vlans c d) ≡ (has c vid && not (has d vid))
    unfolding deleted_vlans preserve_removed_vlans blocked_vlans elem
    elem-deleted_vlans = rw unpreserved (
        elem-keep (λ v. not (elem v [])) vid (removed_vlans c d)
        ∙ rw elem-removed_vlans (ground arith))

-- Whether a port's PVID is the VLAN.
abbrev pub owns : Option ℕ → ℕ → Bool
owns none vid = false
owns (some pvid) vid = pvid == vid

ports_in-insert :
    (v vid : ℕ) (ports : List ℕ) (grouped : List (ℕ × List ℕ))
    → ports_in (insert vid ports grouped) v ≡ (if vid == v then ports else ports_in grouped v)
unfolding ports_in
ports_in-insert v vid ports grouped = rw (lookup-insert v vid ports grouped) (ground arith)

elem-append_owned :
    (p v port vid : ℕ) (grouped : List (ℕ × List ℕ)) (o : Option ℕ)
    → ((port == p) ≡ true → o ≡ none)
    → (elem p (if vid == v then ports_in grouped vid ++ (port ∷ []) else ports_in grouped v)
        || owns o v)
      ≡ (elem p (ports_in grouped v) || owns (if port == p then some vid else o) v)
unfolding elem
elem-append_owned p v port vid grouped o absent = elim (Bool-cases (vid == v)) [
  | inl same ↦
      let at_vid : ports_in grouped vid ≡ ports_in grouped v =
        ap (ports_in grouped) ((==_iff vid v).0 same) in
      rw (same, elem-append p (ports_in grouped vid) (port ∷ []), at_vid)
        (elim (Bool-cases (port == p)) [
          | inl here ↦ rw (here, absent here) (ground arith)
          | inr more ↦ ground arith
        ])
  | inr other ↦ elim (Bool-cases (port == p)) [
    | inl here ↦ rw (here, absent here) (ground arith)
    | inr more ↦ ground arith
  ]
]

elem-group_pvids :
    (p v : ℕ) (grouped : List (ℕ × List ℕ)) (pvids : List (ℕ × ℕ))
    → Distinct (keys pvids)
    → elem p (ports_in (group_pvids grouped pvids) v)
      ≡ (elem p (ports_in grouped v) || owns (lookup p pvids) v)
unfolding group_pvids lookup ports_in
elem-group_pvids p v grouped [] d = ground arith
elem-group_pvids p v grouped ((port, vid) ∷ pvids) d =
    let ports = ports_in grouped vid ++ (port ∷ []) in
    elem-group_pvids p v (insert vid ports grouped) pvids d.1
    ∙ rw (ports_in-insert v vid ports grouped) (
        elem-append_owned p v port vid grouped (lookup p pvids)
          (λ here. lookup-none p pvids (rw ((==_iff port p).0 here) at d.0)))

elem-sort_each :
    (p v : ℕ) (grouped : List (ℕ × List ℕ))
    → elem p (ports_in (sort_each grouped) v) ≡ elem p (ports_in grouped v)
unfolding sort_each ports_in lookup
elem-sort_each p v [] = refl
elem-sort_each p v ((vid, ports) ∷ grouped) = elim (Bool-cases (vid == v)) [
  | inl e ↦ rw e (elem-sort p ports)
  | inr n ↦ rw n (elem-sort_each p v grouped)
]

-- The batch of a VLAN holds the ports whose PVID it is.
pub elem-batch_pvids :
    (s : VlanState) (p v : ℕ)
    → Distinct (keys s.pvids)
    → elem p (ports_in (batch_pvids s) v) ≡ owns (lookup p s.pvids) v
unfolding batch_pvids ports_in lookup elem
elem-batch_pvids s p v d =
    elem-sort_each p v (group_pvids [] s.pvids) ∙ elem-group_pvids p v [] s.pvids d

pub ports_in-elem :
    (batches : List (ℕ × List ℕ)) (p vid : ℕ)
    → elem p (ports_in batches vid) ≡ true
    → is_some (lookup vid batches) ≡ true
unfolding ports_in elem
ports_in-elem batches p vid h = elim (Option-cases (lookup vid batches)) [
  | inl e ↦ cc (rw e at h)
  | inr (ports, e) ↦ ap is_some e
]

-- Every PVID has a batch.
pub batch_pvids-some :
    (s : VlanState) (p vid : ℕ)
    → Distinct (keys s.pvids)
    → lookup p s.pvids ≡ some vid
    → elem vid (sorted_vlan_keys (batch_pvids s)) ≡ true
batch_pvids-some s p vid d h =
    elem-sorted_vlan_keys (batch_pvids s) vid
    ∙ ports_in-elem (batch_pvids s) p vid
        (elem-batch_pvids s p vid d ∙ rw h ((==_iff vid vid).1 refl))
