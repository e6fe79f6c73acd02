-- ===== src/Codec/Recovered.antt =====
-- The state that the written lines add up to (internal/client/gs108tv2/codec.go).
use mathlib.Core.Path.{subst}
use mathlib.Core.Option
use terraform_provider_netge.Base.{
  ℕ, ◌≡◌, refl, sym, ap, ◌∙◌, inl, inr, Bool, true, false, not, ◌&&◌, none, some, List, [], arith,
  ◌==◌, ==_iff, lookup, is_some, elem, if◌then◌else◌, Bool-cases, Option-cases,
}
use terraform_provider_netge.Model.{ignored, untagged, Vlan, VlanState, get, port_range}
use terraform_provider_netge.Model.Shape.{covered}
use terraform_provider_netge.Grammar.{default_pvid, default_port_count, is_untagged, pvid_of}
use terraform_provider_netge.Grammar.Renderable.{validate_renderable-untagged, pvid_vlan-there}
use terraform_provider_netge.Codec.Assemble.{state_of, with_vlan1, inferred_membership, infer_vlan1}
use terraform_provider_netge.Codec.Rendered.{declared_of}
use terraform_provider_netge.Codec.Realized.{membership_in}
use terraform_provider_netge.Codec.Written.{written_if, written_in}
use terraform_provider_netge.Codec.Members.{
  IsExpressible, elem-declared, members_of-IsOf, explicit_ports-IsOf, untagged_elsewhere-IsOf,
}
use terraform_provider_netge.Codec.Entered.{
  all_vids, members, entered, is_some-entered, membership_in-entered,
}
use terraform_provider_netge.Codec.Seen.{
  seen_if, skip, All-elem, lookup-with_vlan1, pvid_of-with_vlan1,
}
use terraform_provider_netge.Codec.Inferred.{
  lookup-inferred_ports, some_untagged-here, some_untagged-none, told_by_pvid, covered-written_if,
}

-- The ports of the switch.
abbrev pub InRange : ℕ → Type 0
InRange port = elem port (port_range default_port_count) ≡ true

-- The PVIDs that are read are those of the state.
abbrev pub SamePvids : VlanState → List (ℕ × ℕ) → Type 0
SamePvids state pvids =
    (port : ℕ) → InRange port → pvid_of (state_of (entered state) pvids) port ≡ pvid_of state port

module _ (state : VlanState) (x : IsExpressible state) (pvids : List (ℕ × ℕ))
    (same_pvid : SamePvids state pvids) where
  abbrev pub raw : VlanState
  raw = state_of (entered state) pvids

  abbrev pub vlan1 : Vlan × Bool
  vlan1 = infer_vlan1 (elem default_pvid (declared_of state (all_vids state))) raw (members state)

  abbrev pub inferred : VlanState
  inferred = with_vlan1 vlan1 raw

  inferred_membership-raw :
      (port : ℕ)
      → InRange port
      → inferred_membership raw (members state) port
        ≡ (if pvid_of state port == default_pvid then untagged else ignored)
  unfolding inferred_membership lookup
  inferred_membership-raw port range =
      let all = members_of-IsOf state x (all_vids state) in
      rw
        (
          inferred_membership,
          explicit_ports-IsOf state x [] (members state) all,
          same_pvid port range,
        )
        (elim (Bool-cases (pvid_of state port == default_pvid)) [
          | inr away ↦ rw away refl
          | inl one ↦
              rw
                (
                  one,
                  untagged_elsewhere-IsOf state x port (members state) range
                      ((==_iff (pvid_of state port) default_pvid).0 one) all,
                )
                refl
        ])

  -- In VLAN 1 the PVIDs tell the memberships.
  told :
      (port : ℕ) (vlan : Vlan)
      → InRange port
      → lookup default_pvid state.vlans ≡ some vlan
      → inferred_membership raw (members state) port ≡ covered vlan.ports port
  unfolding get
  told port vlan range there =
      let own = validate_renderable-untagged state port default_pvid vlan x.checked range there in
      inferred_membership-raw port range
      ∙ told_by_pvid (lookup port vlan.ports) (pvid_of state port == default_pvid)
          (x.writable.known default_pvid vlan there port) (x.no_tagged vlan port there)
          (
            λ u. (==_iff (pvid_of state port) default_pvid).1 (own.0 u),
            λ one. own.1 ((==_iff (pvid_of state port) default_pvid).0 one),
          )

  none_untagged :
      lookup default_pvid state.vlans ≡ none
      → (port : ℕ) → InRange port
      → is_untagged (inferred_membership raw (members state) port) ≡ false
  none_untagged absent port range =
      ap is_untagged (inferred_membership-raw port range)
      ∙ elim (Bool-cases (pvid_of state port == default_pvid)) [
        | inr away ↦ rw away refl
        | inl one ↦
            let (vlan, there) = pvid_vlan-there state port x.checked range in
            let home : lookup default_pvid state.vlans ≡ some vlan =
              subst (λ v. lookup v state.vlans ≡ some vlan)
                ((==_iff (pvid_of state port) default_pvid).0 one) there in
            cc
      ]

  -- VLAN 1 is kept if the state has it.
  kept : vlan1.1 ≡ is_some (lookup default_pvid state.vlans)
  unfolding infer_vlan1
  kept =
      rw (elem-declared state default_pvid) (elim (Option-cases (lookup default_pvid state.vlans)) [
        | inl absent ↦ rw absent (
            some_untagged-none raw (members state) (port_range default_port_count)
              (All-elem (port_range default_port_count) (none_untagged absent)))
        | inr (vlan, there) ↦
            let (port, range, bare) = x.in_use vlan there in
            let own =
              validate_renderable-untagged state port default_pvid vlan x.checked range there in
            let found : is_untagged (inferred_membership raw (members state) port) ≡ true =
              ap is_untagged (
                inferred_membership-raw port range
                ∙ ap (λ b. if b then untagged else ignored)
                    ((==_iff (pvid_of state port) default_pvid).1 (own.0 bare))) in
            rw there (
              some_untagged-here raw (members state) port (port_range default_port_count) range
                found)
      ])

  lookup-inferred :
      (v : ℕ)
      → lookup v inferred.vlans ≡ (
          if is_some (lookup default_pvid state.vlans) && default_pvid == v
          then some vlan1.0
          else lookup v (entered state))
  unfolding infer_vlan1
  lookup-inferred v =
      lookup-with_vlan1 vlan1.0 vlan1.1 raw v
      ∙ ap (λ b. if b && default_pvid == v then some vlan1.0 else lookup v (entered state)) kept

  pub pvid_of-inferred : (port : ℕ) → InRange port → pvid_of inferred port ≡ pvid_of state port
  unfolding infer_vlan1
  pvid_of-inferred port range = pvid_of-with_vlan1 vlan1.0 vlan1.1 raw port ∙ same_pvid port range

  absent-entered :
      (v : ℕ)
      → (is_some (lookup v state.vlans) && not (v == default_pvid)) ≡ false
      → lookup v (entered state) ≡ none
  absent-entered v h = elim (Option-cases (lookup v (entered state))) [
    | inl absent ↦ absent
    | inr (w, found) ↦ cc (is_some-entered state x v ∙ h, ap is_some found)
  ]

  -- The memberships of VLAN 1.
  pub lookup-default :
      (vlan : Vlan) (port : ℕ)
      → InRange port
      → lookup default_pvid state.vlans ≡ some vlan
      → lookup default_pvid inferred.vlans ≡ some vlan1.0
        × (lookup port vlan1.0.ports ≡ some (covered vlan.ports port))
  unfolding infer_vlan1
  lookup-default vlan port range there = (
    lookup-inferred default_pvid ∙ rw there refl,
    lookup-inferred_ports raw (members state) port (port_range default_port_count) range
        ∙ ap some (told port vlan range there),
  )

  seen-default :
      (port : ℕ)
      → InRange port
      → seen_if (lookup default_pvid inferred.vlans) port
        ≡ seen_if (lookup default_pvid state.vlans) port
  seen-default port range = elim (Option-cases (lookup default_pvid state.vlans)) [
    | inl absent ↦
        let here : lookup default_pvid inferred.vlans ≡ none =
          lookup-inferred default_pvid ∙ rw absent (absent-entered default_pvid (rw absent refl)) in
        rw (here, absent) refl
    | inr (vlan, there) ↦
        let (here, found) = lookup-default vlan port range there in
        ap (λ o. seen_if o port) here
        ∙ ap (λ o. some (Option.get_or o ignored)) found
        ∙ rw there refl
  ]

  -- The memberships of another VLAN.
  pub lookup-other :
      (v port : ℕ) (vlan : Vlan)
      → InRange port
      → (v == default_pvid) ≡ false
      → lookup v state.vlans ≡ some vlan
      → (w : Vlan) × (lookup v inferred.vlans ≡ some w)
        × (lookup port w.ports ≡ written_if v (lookup port vlan.ports))
  unfolding membership_in
  lookup-other v port vlan range away there = elim (Option-cases (lookup v (entered state))) [
    | inl absent ↦
        let present : is_some (lookup v (entered state)) ≡ true =
          is_some-entered state x v ∙ rw (there, away) refl in
        cc (present, ap is_some absent)
    | inr (w, found) ↦
        let past : (default_pvid == v) ≡ false = ground (arith, away) in
        let read : lookup port w.ports ≡ written_in v port (lookup v state.vlans) =
          rw (membership_in, found) at (membership_in-entered state x v port range) in
        (
          w,
          lookup-inferred v
              ∙ rw past (skip (is_some (lookup default_pvid state.vlans)) (some vlan1.0) _ ∙ found),
          read ∙ ap (written_in v port) there,
        )
  ]

  pub seen-inferred :
      (v port : ℕ)
      → InRange port
      → seen_if (lookup v inferred.vlans) port ≡ seen_if (lookup v state.vlans) port
  seen-inferred v port range = elim (Bool-cases (v == default_pvid)) [
    | inl one ↦
        subst (λ u. seen_if (lookup u inferred.vlans) port ≡ seen_if (lookup u state.vlans) port)
          (sym ((==_iff v default_pvid).0 one)) (seen-default port range)
    | inr away ↦ elim (Option-cases (lookup v state.vlans)) [
      | inl absent ↦
          let past : (default_pvid == v) ≡ false = ground (arith, away) in
          let here : lookup v inferred.vlans ≡ none =
            lookup-inferred v
            ∙ rw past (
                skip (is_some (lookup default_pvid state.vlans)) (some vlan1.0) _
                ∙ absent-entered v (rw absent refl)) in
          rw (here, absent) refl
      | inr (vlan, there) ↦
          let (w, here, found) = lookup-other v port vlan range away there in
          rw (here, there)
            (ap some (
              ap (λ o. Option.get_or o ignored) found
              ∙ covered-written_if v (lookup port vlan.ports) away
                  (x.writable.known v vlan there port)))
    ]
  ]
