-- ===== src/Codec/OnlyDefault.antt =====
-- A state with no VLAN but VLAN 1, for which no VLAN line is written
-- (internal/client/gs108tv2/codec.go).
use mathlib.Core.Path.{subst}
use mathlib.Core.Option
use terraform_provider_netge.Base.{
  ℕ, ◌≡◌, refl, sym, ap, ◌∙◌, inl, inr, true, false, not, ◌&&◌, Option, none, some, List, [], ◌∷◌,
  arith, ◌==◌, ==_iff, Bytes, All, lookup, insert, insert_all, is_some, elem, sort, Bool-cases,
}
use terraform_provider_netge.Model.{untagged, ignored, Ports, Vlan, VlanState, port_range}
use terraform_provider_netge.Grammar.{default_pvid, default_port_count, pvid_of}
use terraform_provider_netge.Grammar.Renderable.{validate_renderable-untagged, pvid_vlan-there}
use terraform_provider_netge.Codec.Scan.{Member, Database, empty_database}
use terraform_provider_netge.Codec.Assemble.{
  state_of, with_default, realized, infer_vlan1, infer_access, assemble,
}
use terraform_provider_netge.Codec.Rendered.{extend, declared_of}
use terraform_provider_netge.Codec.Realized.{membership_in}
use terraform_provider_netge.Codec.Members.{IsExpressible, IsOf, elem-declared, members_of-IsOf}
use terraform_provider_netge.Codec.Entered.{all_vids, members}
use terraform_provider_netge.Codec.Inferred.{lookup-get, infer_access-same}
use terraform_provider_netge.Codec.Seen.{seen_if, All-elem}
use terraform_provider_netge.Codec.Recovered.{InRange}

-- No VLAN but VLAN 1 is there.
abbrev pub OnlyDefault : VlanState → Type 0
OnlyDefault state = (v : ℕ) → (is_some (lookup v state.vlans) && not (v == default_pvid)) ≡ false

no_elements : (vids : List ℕ) → ((v : ℕ) → elem v vids ≡ false) → vids ≡ []
unfolding elem
no_elements [] h = refl
no_elements (v ∷ vids) h =
    let here : elem v (v ∷ vids) ≡ true = rw ((==_iff v v).1 refl) refl in cc (here, h v)

no_declared : (state : VlanState) → OnlyDefault state → declared_of state (all_vids state) ≡ []
no_declared state only =
    no_elements (declared_of state (all_vids state)) (λ v. elem-declared state v ∙ only v)

no_members :
    (state : VlanState) (ms : List Member) → OnlyDefault state → All (IsOf state) ms → ms ≡ []
no_members state [] only h = refl
no_members state (m ∷ ms) only h =
    let (vlan, there, found) = h.0.1 in
    let other : (is_some (lookup m.vid state.vlans) && not (m.vid == default_pvid)) ≡ true =
      rw (there, h.0.0) refl in
    cc (other, only m.vid)

abbrev vlan_with : Ports → Vlan
vlan_with ports = record { id = default_pvid; ports = ports }

abbrev all_untagged : Ports
all_untagged =
    (1, untagged)
    ∷ (2, untagged)
    ∷ (3, untagged)
    ∷ (4, untagged)
    ∷ (5, untagged)
    ∷ (6, untagged)
    ∷ (7, untagged)
    ∷ (8, untagged)
    ∷ []

abbrev pub factory : List (ℕ × ℕ) → VlanState
factory pvids = state_of ((default_pvid, vlan_with all_untagged) ∷ []) pvids

lookup-all_untagged : (port : ℕ) → InRange port → lookup port all_untagged ≡ some untagged
unfolding lookup elem port_range
lookup-all_untagged port range = ground arith

-- What the file without VLAN lines is read as, before access ports are inferred.
abbrev unlisted : List Bytes → Database
unlisted kept = record empty_database { foreign = kept }

assemble-unlisted :
    (kept : List Bytes) (pvids : List (ℕ × ℕ))
    → assemble (with_default (unlisted kept)) pvids
      ≡ (infer_access (factory pvids) (port_range default_port_count), [])
unfolding assemble realized with_default infer_vlan1 insert insert_all sort lookup port_range elem
assemble-unlisted kept pvids = refl

module _ (state : VlanState) (x : IsExpressible state) (only : OnlyDefault state) where
  -- Every port has PVID 1 and is untagged in VLAN 1.
  pvid_one : (port : ℕ) → InRange port → pvid_of state port ≡ default_pvid
  pvid_one port range =
      let (vlan, there) = pvid_vlan-there state port x.checked range in
      elim (Bool-cases (pvid_of state port == default_pvid)) [
        | inl one ↦ (==_iff (pvid_of state port) default_pvid).0 one
        | inr away ↦
            let other : (is_some (lookup (pvid_of state port) state.vlans)
                  && not (pvid_of state port == default_pvid))
                ≡ true =
              rw (there, away) refl in
            cc (other, only (pvid_of state port))
      ]

  untagged_there :
      (port : ℕ) → InRange port → seen_if (lookup default_pvid state.vlans) port ≡ some untagged
  untagged_there port range =
      let (vlan, found) = pvid_vlan-there state port x.checked range in
      let there : lookup default_pvid state.vlans ≡ some vlan =
        subst (λ v. lookup v state.vlans ≡ some vlan) (pvid_one port range) found in
      let own = validate_renderable-untagged state port default_pvid vlan x.checked range there in
      let bare = lookup-get vlan.ports port (own.1 (pvid_one port range)) in
      rw there (ap (λ o. some (Option.get_or o ignored)) bare)

  pub seen-factory :
      (pvids : List (ℕ × ℕ)) (v port : ℕ)
      → InRange port
      → seen_if (lookup v (factory pvids).vlans) port ≡ seen_if (lookup v state.vlans) port
  unfolding lookup
  seen-factory pvids v port range = elim (Bool-cases (v == default_pvid)) [
    | inl one ↦
        subst
          (λ u. seen_if (lookup u (factory pvids).vlans) port ≡ seen_if (lookup u state.vlans) port)
          (sym ((==_iff v default_pvid).0 one))
          (ap (λ o. some (Option.get_or o ignored)) (lookup-all_untagged port range)
            ∙ sym (untagged_there port range))
    | inr away ↦
        let past : (default_pvid == v) ≡ false = ground (arith, away) in
        let absent : lookup v state.vlans ≡ none =
          no_vlan (lookup v state.vlans)
            (ap (λ b. is_some (lookup v state.vlans) && not b) (sym away) ∙ only v) in
        rw (past, absent) refl
  ]
    where
      no_vlan : (o : Option Vlan) → (is_some o && true) ≡ false → o ≡ none
      no_vlan none h = refl
      no_vlan (some vlan) h = cc h

  pub assemble-factory :
      (kept : List Bytes) (pvids : List (ℕ × ℕ))
      → ((port : ℕ) → InRange port → pvid_of (factory pvids) port ≡ pvid_of state port)
      → assemble
          (with_default (
            extend
              (record empty_database { foreign = kept })
              (declared_of state (all_vids state))
              (members state)))
          pvids
        ≡ (factory pvids, [])
  unfolding membership_in lookup
  assemble-factory kept pvids same =
      ap (λ vids. assemble (with_default (extend (unlisted kept) vids (members state))) pvids)
        (no_declared state only)
      ∙ ap (λ ms. assemble (with_default (extend (unlisted kept) [] ms)) pvids)
          (no_members state (members state) only (members_of-IsOf state x (all_vids state)))
      ∙ assemble-unlisted kept pvids
      ∙ ap (λ s. (s, []))
          (infer_access-same (factory pvids) (port_range default_port_count) (
            All-elem (port_range default_port_count) (λ port range.
              ap (λ v. is_some (membership_in (factory pvids).vlans v port))
                (same port range ∙ pvid_one port range)
              ∙ ap is_some (lookup-all_untagged port range))))
