-- ===== src/Codec/Kept.antt =====
-- Sections with foreign lines, scanned (internal/client/gs108tv2/codec.go).
use terraform_provider_netge.Base.{
  ℕ, ◌≡◌, refl, sym, ap, ◌∙◌, inl, inr, false, some, List, [], ◌∷◌, ◌++◌, ◌==◌, ==_iff, Bytes, All,
  trim_right, carriage_return, Bool-cases, Option-cases,
}
use terraform_provider_netge.Model.{VlanState}
use terraform_provider_netge.Grammar.{fields, default_pvid, pvid_of}
use terraform_provider_netge.Grammar.Lines.{IsInt}
use terraform_provider_netge.Settings.{parse_shutdown_line, parse_flow_control_line}
use terraform_provider_netge.Codec.Scan.{
  is_vlan_line, Database, database_line, scan_database, Interface, settings_line, interface_line,
  scan_interface, interface_of, factory_interface, Issue,
}
use terraform_provider_netge.Codec.Render.{Foreign, kept_lines, interface_body}
use terraform_provider_netge.Codec.Lines.{read-vlan_pvid_line}

-- A line that the VLAN grammar leaves alone.
abbrev pub IsForeign : Bytes → Type 0
IsForeign line = is_vlan_line (trim_right carriage_return line) ≡ false

pub scan_database-foreign :
    (d : Database) (lines : List Bytes)
    → All IsForeign lines
    → (kept : List Bytes) × (scan_database d lines ≡ record d { foreign = kept })
unfolding scan_database
scan_database-foreign d [] h = (d.foreign, refl)
scan_database-foreign d (l ∷ lines) h =
    let line = trim_right carriage_return l in
    let d1 = record d { foreign = d.foreign ++ (line ∷ []) } in
    let (kept, e) = scan_database-foreign d1 lines h.1 in
    (kept, ap (λ x. scan_database x lines) (skipped d line h.0) ∙ e)
  where
    skipped :
        (d : Database) (line : Bytes)
        → is_vlan_line line ≡ false
        → database_line d line ≡ record d { foreign = d.foreign ++ (line ∷ []) }
    skipped d line h = rw (database_line, h) refl

-- The VLAN side of an interface.
abbrev vlan_side : Interface → ℕ × List Issue
vlan_side p = (p.pvid, p.issues)

settings_line-vlan : (p : Interface) (line : Bytes) → vlan_side (settings_line p line) ≡ vlan_side p
unfolding settings_line
settings_line-vlan p line = elim (Bool-cases (parse_shutdown_line (fields line))) [
  | inl down ↦ rw (down, settings_line) refl
  | inr up ↦ elim (Option-cases (parse_flow_control_line (fields line))) [
    | inl absent ↦ rw (up, absent, settings_line) refl
    | inr (on, found) ↦ rw (up, found, settings_line) refl
  ]
]

interface_line-foreign :
    (port : ℕ) (p : Interface) (line : Bytes)
    → is_vlan_line line ≡ false
    → vlan_side (interface_line port p line) ≡ vlan_side p
unfolding interface_line
interface_line-foreign port p line h =
    rw (interface_line, h)
      (settings_line-vlan (record p { foreign = p.foreign ++ (line ∷ []) }) line)

scan_interface-foreign :
    (port : ℕ) (p : Interface) (lines : List Bytes)
    → All IsForeign lines
    → vlan_side (scan_interface port p lines) ≡ vlan_side p
unfolding scan_interface
scan_interface-foreign port p [] h = refl
scan_interface-foreign port p (l ∷ lines) h =
    scan_interface-foreign port (interface_line port p (trim_right carriage_return l)) lines h.1
    ∙ interface_line-foreign port p (trim_right carriage_return l) h.0

scan_interface-append :
    (port : ℕ) (p : Interface) (xs ys : List Bytes)
    → scan_interface port p (xs ++ ys) ≡ scan_interface port (scan_interface port p xs) ys
unfolding scan_interface
scan_interface-append port p [] ys = refl
scan_interface-append port p (x ∷ xs) ys =
    scan_interface-append port (interface_line port p (trim_right carriage_return x)) xs ys

-- The section that is written for a port reads back as its PVID.
pub interface_of-interface_body :
    (state : VlanState) (foreign : Foreign) (port : ℕ)
    → IsInt (pvid_of state port)
    → All IsForeign (kept_lines foreign.interfaces port)
    → vlan_side (interface_of port (some (interface_body state foreign port)))
      ≡ (pvid_of state port, [])
unfolding interface_of interface_body
interface_of-interface_body state foreign port h k =
    let kept = kept_lines foreign.interfaces port in
    let before = scan_interface port factory_interface kept in
    let old : vlan_side before ≡ (default_pvid, []) =
      scan_interface-foreign port factory_interface kept k in
    ap vlan_side (scan_interface-append port factory_interface kept _)
    ∙ elim (Bool-cases (pvid_of state port == default_pvid)) [
      | inl one ↦
          rw one (old ∙ ap (λ v. (v, [])) (sym ((==_iff (pvid_of state port) default_pvid).0 one)))
      | inr more ↦ rw more (
          ap vlan_side (read-vlan_pvid_line port (pvid_of state port) before h)
          ∙ ap (λ s. (pvid_of state port, s.1)) old)
    ]
