-- ===== src/Codec/RoundTrip.antt =====
-- The bodies that the driver writes for a state, read back (internal/client/gs108tv2/codec.go).
use mathlib.Core.Path.{subst}
use mathlib.Core.Option
use terraform_provider_netge.Base.{
  ℕ, ◌≡◌, refl, sym, ap, ◌∙◌, ◌⊎◌, inl, inr, true, not, ◌&&◌, none, some, List, [], ◌∷◌, ◌++◌, ◌==◌,
  ==_iff, Bytes, All, lookup, is_some, is_empty, elem, Bool-cases,
}
use terraform_provider_netge.Model.{untagged, VlanState, port_range}
use terraform_provider_netge.Grammar.{
  default_pvid, default_port_count, pvid_of, generate_vlan_database_body,
}
use terraform_provider_netge.Grammar.Renderable.{validate_renderable-untagged, pvid_vlan-there}
use terraform_provider_netge.Codec.{Decoded, first, decode_bodies}
use terraform_provider_netge.Codec.Scan.{
  vlan_database_label, Database, empty_database, scan_database, database_of, Bodies, scan_ports,
  column, interface_issues,
}
use terraform_provider_netge.Codec.Assemble.{with_default, realized, infer_access, assemble}
use terraform_provider_netge.Codec.Render.{Foreign, database_body}
use terraform_provider_netge.Codec.Rendered.{
  extend, declared_of, scan-vlan_lines, scan_database-append,
}
use terraform_provider_netge.Codec.Kept.{IsForeign, scan_database-foreign}
use terraform_provider_netge.Codec.Sections.{
  IsRendered, interface_issues-IsRendered, lookup-IsRendered,
}
use terraform_provider_netge.Codec.Realized.{membership_in}
use terraform_provider_netge.Codec.Members.{IsExpressible, elem-declared}
use terraform_provider_netge.Codec.Entered.{all_vids, members, entered-IsRealized}
use terraform_provider_netge.Codec.Inferred.{lookup-get, infer_access-same}
use terraform_provider_netge.Codec.Seen.{seen, All-elem}
use terraform_provider_netge.Codec.OnlyDefault.{
  OnlyDefault, factory, seen-factory, assemble-factory,
}
use terraform_provider_netge.Codec.Recovered.{
  InRange, SamePvids, inferred, lookup-default, lookup-other, pvid_of-inferred, seen-inferred,
}

-- What the written VLAN section scans to.
abbrev scanned : VlanState → List Bytes → Database
scanned state kept =
    extend (record empty_database { foreign = kept }) (declared_of state (all_vids state))
      (members state)

module _ (state : VlanState) (x : IsExpressible state) (pvids : List (ℕ × ℕ))
    (same_pvid : SamePvids state pvids) where
  -- The VLAN that the PVID of a port names has the port.
  at_home :
      (port : ℕ)
      → InRange port
      → is_some (membership_in (inferred state x pvids same_pvid).vlans (pvid_of state port) port)
        ≡ true
  unfolding membership_in
  at_home port range =
      let (vlan, there) = pvid_vlan-there state port x.checked range in
      let own =
        validate_renderable-untagged state port (pvid_of state port) vlan x.checked range there in
      let bare : lookup port vlan.ports ≡ some untagged = lookup-get vlan.ports port (own.1 refl) in
      elim (Bool-cases (pvid_of state port == default_pvid)) [
        | inl one ↦
            let same : pvid_of state port ≡ default_pvid =
              (==_iff (pvid_of state port) default_pvid).0 one in
            let (here, found) =
              lookup-default state x pvids same_pvid vlan port range
                (subst (λ v. lookup v state.vlans ≡ some vlan) same there) in
            rw (membership_in, same, here, found) refl
        | inr away ↦
            let (w, here, found) =
              lookup-other state x pvids same_pvid (pvid_of state port) port vlan range away
                there in
            rw (membership_in, here, found, bare, away) refl
      ]

  access_kept :
      infer_access (inferred state x pvids same_pvid) (port_range default_port_count)
      ≡ inferred state x pvids same_pvid
  access_kept =
      infer_access-same (inferred state x pvids same_pvid) (port_range default_port_count) (
        All-elem (port_range default_port_count) (λ port range.
          ap (λ v. is_some (membership_in (inferred state x pvids same_pvid).vlans v port))
            (pvid_of-inferred state x pvids same_pvid port range)
          ∙ at_home port range))

  assemble-scanned :
      (kept : List Bytes)
      → assemble (scanned state kept) pvids ≡ (inferred state x pvids same_pvid, [])
  unfolding assemble realized
  assemble-scanned kept =
      ap (λ s. (s, (realized (scanned state kept)).1)) access_kept
      ∙ ap (λ issues. (inferred state x pvids same_pvid, issues))
          (entered-IsRealized state x).no_issue

-- The state and the PVIDs are those of the other state, and nothing was refused.
pub record Recovers (state : VlanState) (d : Decoded) : Type 0 where
  pub no_error : d.error ≡ none
  pub same_vlans : (v port : ℕ) → InRange port → seen d.state v port ≡ seen state v port
  pub same_pvids : (port : ℕ) → InRange port → pvid_of d.state port ≡ pvid_of state port

-- There is a VLAN but VLAN 1.
abbrev HasOther : VlanState → Type 0
HasOther state = (v : ℕ) × ((is_some (lookup v state.vlans) && not (v == default_pvid)) ≡ true)

saw-declared :
    (state : VlanState)
    → HasOther state
    → not (is_empty (declared_of state (all_vids state)) && is_empty (members state)) ≡ true
unfolding elem
saw-declared state (v, h) =
    nonempty (declared_of state (all_vids state)) (elem-declared state v ∙ h)
  where
    nonempty :
        (vids : List ℕ)
        → elem v vids ≡ true
        → not (is_empty vids && is_empty (members state)) ≡ true
    nonempty [] e = cc e
    nonempty (u ∷ vids) e = refl

with_default-scanned :
    (state : VlanState) (kept : List Bytes)
    → HasOther state
    → with_default (scanned state kept) ≡ scanned state kept
unfolding with_default
with_default-scanned state kept other = rw (with_default, saw-declared state other) refl

scan-database_body :
    (state : VlanState) (foreign : Foreign)
    → IsExpressible state
    → All IsForeign foreign.database
    → (kept : List Bytes) × (scan_database empty_database (database_body state foreign)
        ≡ scanned state kept)
unfolding database_body generate_vlan_database_body
scan-database_body state foreign x h =
    let (kept, e) = scan_database-foreign empty_database foreign.database h in
    (
      kept,
      scan_database-append empty_database foreign.database (generate_vlan_database_body state)
          ∙ ap (λ d. scan_database d (generate_vlan_database_body state)) e
          ∙ scan-vlan_lines state (record empty_database { foreign = kept }) (all_vids state)
              x.writable,
    )

read_pvids : Bodies → List (ℕ × ℕ)
unfolding column scan_ports
read_pvids bodies = column (λ p. p.pvid) (scan_ports bodies (port_range default_port_count))

read_pvids-SamePvids :
    (state : VlanState) (foreign : Foreign) (bodies : Bodies)
    → All (IsRendered state foreign bodies) (port_range default_port_count)
    → SamePvids state (read_pvids bodies)
unfolding pvid_of read_pvids
read_pvids-SamePvids state foreign bodies h port range =
    ap (λ o. Option.get_or o 0)
      (lookup-IsRendered state foreign bodies port (port_range default_port_count) h range)

-- What the scanned lines add up to, and that it is what is seen of the state.
record Assembled (state : VlanState) (kept : List Bytes) (pvids : List (ℕ × ℕ)) : Type 0 where
  final : VlanState
  total : assemble (with_default (scanned state kept)) pvids ≡ (final, [])
  same_seen : (v port : ℕ) → InRange port → seen final v port ≡ seen state v port
  same_port : (port : ℕ) → InRange port → pvid_of final port ≡ pvid_of state port

other_or_only : (state : VlanState) → HasOther state ⊎ OnlyDefault state
unfolding elem
other_or_only state = first_of (declared_of state (all_vids state)) (elem-declared state)
  where
    first_of :
        (vids : List ℕ)
        → ((v : ℕ) → elem v vids ≡ (is_some (lookup v state.vlans) && not (v == default_pvid)))
        → HasOther state ⊎ OnlyDefault state
    first_of [] h = inr (λ v. sym (h v))
    first_of (v ∷ vids) h = inl (v, sym (h v) ∙ rw ((==_iff v v).1 refl) refl)

assembled :
    (state : VlanState) (kept : List Bytes) (pvids : List (ℕ × ℕ))
    → IsExpressible state
    → SamePvids state pvids
    → Assembled state kept pvids
unfolding seen pvid_of
assembled state kept pvids x same = elim (other_or_only state) [
  | inl other ↦ record {
    final = inferred state x pvids same;
    total =
        ap (λ d. assemble d pvids) (with_default-scanned state kept other)
        ∙ assemble-scanned state x pvids same kept;
    same_seen = seen-inferred state x pvids same;
    same_port = pvid_of-inferred state x pvids same;
  }
  | inr only ↦ record {
    final = factory pvids;
    total = assemble-factory state x only kept pvids same;
    same_seen = seen-factory state x only pvids;
    same_port = same;
  }
]

-- For a desired state that validateRenderable accepts, with VLAN IDs that an int holds and
-- known memberships, in which VLAN 1, if it is there, has no tagged port and an untagged one:
-- if the VLAN section and the eight port sections of a file have the bodies that
-- renderVLANState writes for the state, with any kept lines that are not of the VLAN grammar
-- in front, then decodeTextConfig finds no error and reads back, for every VLAN and the ports
-- 1 to 8, the same VLANs, the same memberships (a port that a VLAN lacks counts as ignored)
-- and the same PVIDs.
pub decode_bodies-Recovers :
    (state : VlanState) (foreign : Foreign) (bodies : Bodies)
    → IsExpressible state
    → bodies vlan_database_label ≡ some (database_body state foreign)
    → All IsForeign foreign.database
    → All (IsRendered state foreign bodies) (port_range default_port_count)
    → Recovers state (decode_bodies bodies)
unfolding decode_bodies seen read_pvids
decode_bodies-Recovers state foreign bodies x body foreign_lines rendered =
    let pvids = read_pvids bodies in
    let same = read_pvids-SamePvids state foreign bodies rendered in
    let (kept, e) = scan-database_body state foreign x foreign_lines in
    let found = ap database_of body ∙ e in
    let done = assembled state kept pvids x same in
    let read : assemble (with_default (database_of (bodies vlan_database_label))) pvids
        ≡ (done.final, []) =
      ap (λ d. assemble (with_default d) pvids) found ∙ done.total in
    let ports = scan_ports bodies (port_range default_port_count) in
    record {
      no_error =
          ap
            (λ d. first (
              d.issues
              ++ (interface_issues ports
                  ++ (assemble (with_default (database_of (bodies vlan_database_label))) pvids).1)))
            found
          ∙ ap
              (λ is. first (
                is ++ (assemble (with_default (database_of (bodies vlan_database_label))) pvids).1))
              (interface_issues-IsRendered state foreign bodies (port_range default_port_count)
                rendered)
          ∙ ap (λ r. first r.1) read;
      same_vlans = λ v port range. ap (λ r. seen r.0 v port) read ∙ done.same_seen v port range;
      same_pvids = λ port range. ap (λ r. pvid_of r.0 port) read ∙ done.same_port port range;
    }
