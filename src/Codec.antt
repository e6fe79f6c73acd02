-- ===== src/Codec.antt =====
-- internal/client/gs108tv2/codec.go, portcodec.go: the states that a text configuration holds.
-- What the source keeps in a map by label is the lines of the VLAN section and those of each port.
pub mod Scan
pub mod Assemble
pub mod Render
pub mod Lines
pub mod Rendered
pub mod Kept
pub mod Realized
pub mod Written
pub mod Members
pub mod Sections
pub mod Entered
pub mod Inferred
pub mod Seen
pub mod Recovered
pub mod OnlyDefault
pub mod RoundTrip
mod Tests
use mathlib.Core.Option
use terraform_provider_netge.Base.{
  ℕ, ◌+◌, Bool, true, false, not, ◌&&◌, ◌||◌, Option, none, some, List, [], ◌∷◌, ◌++◌, ltb, ◌==◌,
  if◌then◌else◌, Bytes, Result, err, ok, ascii, has_prefix, trim_right, trim_space, carriage_return,
  lookup, insert, insert_all, ◌>>=◌, is_some, sort, elem,
}
use terraform_provider_netge.Model.{
  PortMembership, ignored, untagged, Ports, Vlan, VlanState, port_range,
}
use terraform_provider_netge.Textcfg.{TextConfig, TextError, Outcome, section_body}
use terraform_provider_netge.Textcfg.Editor.{Editor, replace_section_body, render}
use terraform_provider_netge.Grammar.{
  fields, decimal, parse_vlan_declares, parse_vlan_membership, parse_vlan_pvid, vlan_pvid_line,
  default_pvid, default_port_count, is_untagged, pvid_of, generate_vlan_database_body,
}
use terraform_provider_netge.Settings.{
  PortSettings, SettingsMap, default_port_settings, default_port_settings_map, parse_shutdown_line,
  parse_flow_control_line, port_lines,
}
use terraform_provider_netge.Codec.Scan.{
  vlan_database_label, interface_label, Member, Issue, never_declared, is_vlan_line, Database,
  database_of, scan_database, Interface, Bodies, scan_ports, column, interface_issues,
}
use terraform_provider_netge.Codec.Assemble.{with_default, assemble}

-- decodedConfig, with the error: the first issue.
pub record Decoded : Type 0 where
  pub state : VlanState
  pub ports : SettingsMap
  pub foreign_database : List Bytes
  pub foreign_ports : List (ℕ × List Bytes)
  pub port_pass : List (ℕ × List Bytes)
  pub error : Option Issue

abbrev pub first {ℓ} : {A : Type ℓ} → List A → Option A
first [] = none
first (x ∷ xs) = some x

unfoldable pub decode_bodies : Bodies → Decoded
unfolding scan_database scan_ports with_default assemble column interface_issues
decode_bodies bodies =
    let scanned = database_of (bodies vlan_database_label) in
    let ports = scan_ports bodies (port_range default_port_count) in
    let read = assemble (with_default scanned) (column (λ p. p.pvid) ports) in
    record {
      state = read.0;
      ports = column (λ p. p.settings) ports;
      foreign_database = scanned.foreign;
      foreign_ports = column (λ p. p.foreign) ports;
      port_pass = column (λ p. p.pass) ports;
      error = first (scanned.issues ++ (interface_issues ports ++ read.1));
    }

unfoldable pub decode_text_config : TextConfig → Decoded
unfolding decode_bodies section_body lookup insert insert_all sort elem port_range pvid_of
decode_text_config tc = decode_bodies (section_body tc)
