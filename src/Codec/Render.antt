-- ===== src/Codec/Render.antt =====
-- internal/client/gs108tv2/codec.go, portcodec.go: the files that the driver writes for a state.
use mathlib.Core.Option
use terraform_provider_netge.Base.{
  ℕ, false, Option, none, some, List, [], ◌∷◌, ◌++◌, ◌==◌, if◌then◌else◌, Bytes, Result, err, ok,
  trim_right, carriage_return, lookup, ◌>>=◌, is_some,
}
use terraform_provider_netge.Model.{VlanState, port_range}
use terraform_provider_netge.Textcfg.{TextConfig, TextError, Outcome, section_body}
use terraform_provider_netge.Textcfg.Editor.{Editor, replace_section_body, render}
use terraform_provider_netge.Grammar.{
  vlan_pvid_line, default_pvid, default_port_count, pvid_of, generate_vlan_database_body,
}
use terraform_provider_netge.Settings.{PortSettings, SettingsMap, port_lines}
use terraform_provider_netge.Codec.Scan.{vlan_database_label, interface_label, is_vlan_line, Bodies}

-- The lines of a section that are not of the VLAN grammar.
unfoldable pub foreign_lines : List Bytes → List Bytes
foreign_lines [] = []
foreign_lines (raw ∷ rest) =
    let later = foreign_lines rest in
    let line = trim_right carriage_return raw in if is_vlan_line line then later else line ∷ later

abbrev pub foreign_of : Option (List Bytes) → List Bytes
foreign_of none = []
foreign_of (some body) = foreign_lines body

-- What the driver keeps of the managed sections.
pub record Foreign : Type 0 where
  pub database : List Bytes
  pub interfaces : List (ℕ × List Bytes)

unfoldable pub collect_ports : Bodies → List ℕ → List (ℕ × List Bytes)
unfolding foreign_lines interface_label
collect_ports bodies [] = []
collect_ports bodies (port ∷ ports) =
    (port, foreign_of (bodies (interface_label port))) ∷ collect_ports bodies ports

unfoldable pub capture_bodies : Bodies → Foreign
unfolding foreign_lines collect_ports port_range
capture_bodies bodies = record {
  database = foreign_of (bodies vlan_database_label);
  interfaces = collect_ports bodies (port_range default_port_count);
}

unfoldable pub capture_foreign : TextConfig → Foreign
unfolding capture_bodies section_body
capture_foreign tc = capture_bodies (section_body tc)

-- The lines kept of a port, none where the map has none.
unfoldable pub kept_lines : List (ℕ × List Bytes) → ℕ → List Bytes
unfolding lookup
kept_lines kept port = Option.get_or (lookup port kept) []

-- The bodies that are written for a state.
unfoldable pub database_body : VlanState → Foreign → List Bytes
unfolding generate_vlan_database_body
database_body state foreign = foreign.database ++ generate_vlan_database_body state

unfoldable pub interface_body : VlanState → Foreign → ℕ → List Bytes
unfolding pvid_of vlan_pvid_line kept_lines
interface_body state foreign port =
    kept_lines foreign.interfaces port
    ++ (if pvid_of state port == default_pvid then [] else vlan_pvid_line (pvid_of state port) ∷ [])

-- The editor behind an operation, or its error.
abbrev pub after_edit : Outcome × Editor → Result TextError Editor
after_edit (err why, e) = err why
after_edit (ok _, e) = ok e

-- ReplaceSectionBody for each port; the first error ends the loop.
unfoldable pub replace_interfaces : (ℕ → List Bytes) → List ℕ → Editor → Result TextError Editor
unfolding replace_section_body interface_label
replace_interfaces body [] e = ok e
replace_interfaces body (port ∷ ports) e =
    after_edit (replace_section_body e (interface_label port) (body port))
    >>= replace_interfaces body ports

unfoldable pub render_vlan_state : Editor → VlanState → Foreign → Result TextError Bytes
unfolding replace_section_body database_body interface_body replace_interfaces render port_range
render_vlan_state e state foreign =
    after_edit (replace_section_body e vlan_database_label (database_body state foreign))
    >>= replace_interfaces (interface_body state foreign) (port_range default_port_count)
    >>= render

-- The ports that have a section in the file that was read.
unfoldable pub ports_with_section : Bodies → List ℕ → List ℕ
unfolding interface_label
ports_with_section bodies [] = []
ports_with_section bodies (port ∷ ports) =
    let later = ports_with_section bodies ports in
    if is_some (bodies (interface_label port)) then port ∷ later else later

-- A port that the desired map lacks reads as the zero value of its settings.
abbrev pub zero_settings : PortSettings
zero_settings = record {
  enabled = false;
  flow_control = false;
  qos_priority = [];
  ingress_rate = [];
  egress_rate = [];
}

unfoldable pub settings_body : SettingsMap → List (ℕ × List Bytes) → ℕ → List Bytes
unfolding lookup kept_lines port_lines
settings_body desired pass port =
    kept_lines pass port ++ port_lines (Option.get_or (lookup port desired) zero_settings)

unfoldable pub render_port_settings :
    Editor → TextConfig → SettingsMap → List (ℕ × List Bytes) → Result TextError Bytes
unfolding replace_interfaces ports_with_section settings_body render section_body port_range
render_port_settings e tc desired pass =
    replace_interfaces (settings_body desired pass)
      (ports_with_section (section_body tc) (port_range default_port_count)) e
    >>= render
