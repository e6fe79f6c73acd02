-- ===== src/Codec/Scan.antt =====
-- internal/client/gs108tv2/codec.go: the lines of the managed sections, one after the other.
use terraform_provider_netge.Base.{
  ℕ, Bool, true, false, not, ◌||◌, Option, none, some, List, [], ◌∷◌, ◌++◌, ltb, if◌then◌else◌,
  Bytes, ascii, has_prefix, trim_right, trim_space, carriage_return,
}
use terraform_provider_netge.Model.{PortMembership}
use terraform_provider_netge.Grammar.{
  fields, decimal, parse_vlan_declares, parse_vlan_membership, parse_vlan_pvid, default_pvid,
  default_port_count,
}
use terraform_provider_netge.Settings.{
  PortSettings, default_port_settings, parse_shutdown_line, parse_flow_control_line,
}

abbrev pub vlan_database_label : Bytes
vlan_database_label = ascii "vlan database"

unfoldable pub interface_label : ℕ → Bytes
unfolding decimal
interface_label port = ascii "interface 0/" ++ decimal port

-- vlanMember
pub record Member : Type 0 where
  pub vid : ℕ
  pub port : ℕ
  pub membership : PortMembership

-- ErrMissingSection and ErrGrammarLine, whose section and reason are the constructor's.
pub data Issue : Type 0 where
  missing_section : Issue
  port_outside no_template : Bytes → Issue
  no_pvid_template : ℕ → Bytes → Issue
  never_declared : Member → Issue

-- A line of the VLAN grammar.
unfoldable pub is_vlan_line : Bytes → Bool
unfolding has_prefix trim_space
is_vlan_line line = has_prefix (trim_space line) (ascii "vlan ")

-- What the loop over the VLAN section keeps.
pub record Database : Type 0 where
  pub declared : List ℕ
  pub members : List Member
  pub saw_vlan_line : Bool
  pub foreign : List Bytes
  pub issues : List Issue

unfoldable pub database_member : Database → Bytes → ℕ × ℕ × PortMembership → Database
database_member d line (vid, port, m) =
    if ltb port 1 || ltb default_port_count port
    then record d { issues = d.issues ++ (port_outside (trim_space line) ∷ []) }
    else record d {
      members = d.members ++ (record { vid = vid; port = port; membership = m } ∷ []);
      saw_vlan_line = true;
    }

-- One line, without its carriage return.
unfoldable pub database_line : Database → Bytes → Database
unfolding database_member
database_line d line =
    if not (is_vlan_line line)
    then record d { foreign = d.foreign ++ (line ∷ []) }
    else elim (parse_vlan_declares (fields line)) [
      | some vids ↦ record d { declared = d.declared ++ vids; saw_vlan_line = true }
      | none ↦ elim (parse_vlan_membership (fields line)) [
        | some member ↦ database_member d line member
        | none ↦ record d { issues = d.issues ++ (no_template (trim_space line) ∷ []) }
      ]
    ]

unfoldable pub scan_database : Database → List Bytes → Database
unfolding database_line
scan_database d [] = d
scan_database d (raw ∷ rest) = scan_database (database_line d (trim_right carriage_return raw)) rest

abbrev pub empty_database : Database
empty_database = record {
  declared = [];
  members = [];
  saw_vlan_line = false;
  foreign = [];
  issues = [];
}

abbrev pub database_of : Option (List Bytes) → Database
database_of none = record empty_database { issues = missing_section ∷ [] }
database_of (some body) = scan_database empty_database body

-- What the loop over the section of a port keeps.
pub record Interface : Type 0 where
  pub pvid : ℕ
  pub settings : PortSettings
  pub foreign : List Bytes
  pub pass : List Bytes
  pub issues : List Issue

-- A line that is not one of the VLAN grammar.
unfoldable pub settings_line : Interface → Bytes → Interface
settings_line p line =
    if parse_shutdown_line (fields line)
    then record p { settings = record p.settings { enabled = false } }
    else elim (parse_flow_control_line (fields line)) [
      | some on ↦ record p { settings = record p.settings { flow_control = on } }
      | none ↦ record p { pass = p.pass ++ (line ∷ []) }
    ]

unfoldable pub interface_line : ℕ → Interface → Bytes → Interface
unfolding settings_line
interface_line port p line =
    if is_vlan_line line
    then elim (parse_vlan_pvid (fields line)) [
      | none ↦ record p {
        pass = p.pass ++ (line ∷ []);
        issues = p.issues ++ (no_pvid_template port (trim_space line) ∷ []);
      }
      | some vid ↦ record p { pvid = vid; pass = p.pass ++ (line ∷ []) }
    ]
    else settings_line (record p { foreign = p.foreign ++ (line ∷ []) }) line

unfoldable pub scan_interface : ℕ → Interface → List Bytes → Interface
unfolding interface_line
scan_interface port p [] = p
scan_interface port p (raw ∷ rest) =
    scan_interface port (interface_line port p (trim_right carriage_return raw)) rest

abbrev pub factory_interface : Interface
factory_interface = record {
  pvid = default_pvid;
  settings = default_port_settings;
  foreign = [];
  pass = [];
  issues = [];
}

-- A port without a section stays at the factory defaults.
unfoldable pub interface_of : ℕ → Option (List Bytes) → Interface
unfolding scan_interface
interface_of port none = factory_interface
interface_of port (some body) = scan_interface port factory_interface body

-- The sections of a file by label.
abbrev pub Bodies : Type 0
Bodies = Bytes → Option (List Bytes)

unfoldable pub scan_ports : Bodies → List ℕ → List (ℕ × Interface)
unfolding interface_of interface_label
scan_ports bodies [] = []
scan_ports bodies (port ∷ ports) =
    (port, interface_of port (bodies (interface_label port))) ∷ scan_ports bodies ports

-- A field of what the loop keeps of each port.
unfoldable pub column {ℓ} : {A : Type ℓ} → (Interface → A) → List (ℕ × Interface) → List (ℕ × A)
column f [] = []
column f ((port, p) ∷ ports) = (port, f p) ∷ column f ports

unfoldable pub interface_issues : List (ℕ × Interface) → List Issue
interface_issues [] = []
interface_issues ((port, p) ∷ ports) = p.issues ++ interface_issues ports
