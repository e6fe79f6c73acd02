-- ===== src/Settings.antt =====
-- internal/client/gs108tv2/portcodec.go, grammar.go: the settings of a port and their lines.
-- A map of settings is an association list with distinct keys.
use terraform_provider_netge.Base.{
  ℕ, Bool, true, false, not, ◌&&◌, ◌||◌, Option, none, some, List, [], ◌∷◌, ◌++◌, length, ltb, ◌==◌,
  if◌then◌else◌, Bytes, equal, ascii, lookup, insert,
}
use terraform_provider_netge.Model.{port_range}
use terraform_provider_netge.Grammar.{default_port_count}

pub record PortSettings : Type 0 where
  pub enabled : Bool
  pub flow_control : Bool
  pub qos_priority : Bytes
  pub ingress_rate : Bytes
  pub egress_rate : Bytes

abbrev pub SettingsMap : Type 0
SettingsMap = List (ℕ × PortSettings)

abbrev pub default_qos_priority : Bytes
default_qos_priority = ascii "low"

abbrev pub default_rate : Bytes
default_rate = ascii "none"

abbrev pub default_port_settings : PortSettings
default_port_settings = record {
  enabled = true;
  flow_control = false;
  qos_priority = default_qos_priority;
  ingress_rate = default_rate;
  egress_rate = default_rate;
}

-- Default settings for some ports.
unfoldable pub default_settings : List ℕ → SettingsMap
default_settings [] = []
default_settings (port ∷ ports) = (port, default_port_settings) ∷ default_settings ports

unfoldable pub default_port_settings_map : SettingsMap
unfolding default_settings port_range
default_port_settings_map = default_settings (port_range default_port_count)

-- AttributeStatus
pub data AttributeStatus : Type 0 where
  supported provisional unsupported : AttributeStatus

-- The keys of the capability table.
pub data Attribute : Type 0 where
  enabled_key flow_control_key qos_priority_key ingress_rate_key egress_rate_key : Attribute

-- PortSettingCapabilities, without the texts of its reasons.
unfoldable pub port_setting_capabilities : Attribute → AttributeStatus
port_setting_capabilities enabled_key = provisional
port_setting_capabilities flow_control_key = provisional
port_setting_capabilities qos_priority_key = unsupported
port_setting_capabilities ingress_rate_key = unsupported
port_setting_capabilities egress_rate_key = unsupported

-- ErrUnsupportedAttribute: the port, the attribute and the requested value; a port that the map
-- lacks is refused on the attribute "enabled".
pub data Refused : Type 0 where
  missing_port : ℕ → Refused
  unsupported_attribute : ℕ → Attribute → Bytes → Refused

abbrev pub is_unsupported : AttributeStatus → Bool
is_unsupported unsupported = true
is_unsupported _ = false

-- An attribute without a grammar takes its default value only.
unfoldable pub refuse : ℕ → Attribute → Bytes → Bytes → Option Refused → Option Refused
unfolding port_setting_capabilities equal
refuse port key value default later =
    if is_unsupported (port_setting_capabilities key) && not (equal value default)
    then some (unsupported_attribute port key value)
    else later

unfoldable pub validate_port : SettingsMap → ℕ → Option Refused
unfolding lookup refuse
validate_port desired port = elim (lookup port desired) [
  | none ↦ some (missing_port port)
  | some ps ↦ refuse port qos_priority_key ps.qos_priority default_qos_priority (
      refuse port ingress_rate_key ps.ingress_rate default_rate
        (refuse port egress_rate_key ps.egress_rate default_rate none))
]

unfoldable pub validate_ports : SettingsMap → List ℕ → Option Refused
unfolding validate_port
validate_ports desired [] = none
validate_ports desired (port ∷ ports) = elim (validate_port desired port) [
  | some e ↦ some e
  | none ↦ validate_ports desired ports
]

unfoldable pub validate_port_settings : SettingsMap → Option Refused
unfolding validate_ports port_range
validate_port_settings desired = validate_ports desired (port_range default_port_count)

unfoldable pub override_settings : SettingsMap → SettingsMap → SettingsMap
unfolding insert
override_settings norm [] = norm
override_settings norm ((port, ps) ∷ desired) =
    override_settings
      (if ltb port 1 || ltb default_port_count port then norm else insert port ps norm) desired

unfoldable pub normalize_port_settings : SettingsMap → SettingsMap
unfolding override_settings default_port_settings_map
normalize_port_settings desired = override_settings default_port_settings_map desired

abbrev pub bool_eq : Bool → Bool → Bool
bool_eq true b = b
bool_eq false b = not b

-- The comparison of two structs.
unfoldable pub eq_settings : PortSettings → PortSettings → Bool
unfolding equal
eq_settings a b =
    bool_eq a.enabled b.enabled
    && (bool_eq a.flow_control b.flow_control
        && (equal a.qos_priority b.qos_priority
            && (equal a.ingress_rate b.ingress_rate && equal a.egress_rate b.egress_rate)))

unfoldable pub entries_equal_settings : SettingsMap → SettingsMap → Bool
unfolding lookup eq_settings
entries_equal_settings [] b = true
entries_equal_settings ((port, sa) ∷ a) b =
    let rest = entries_equal_settings a b in
    elim (lookup port b) [ none ↦ false | some sb ↦ eq_settings sa sb && rest ]

unfoldable pub equal_port_settings : SettingsMap → SettingsMap → Bool
unfolding entries_equal_settings
equal_port_settings a b = if not (length a == length b) then false else entries_equal_settings a b

-- Whether the words of a line disable the port.
unfoldable pub parse_shutdown_line : List Bytes → Bool
unfolding equal
parse_shutdown_line (a ∷ []) = equal a (ascii "shutdown")
parse_shutdown_line _ = false

-- The flow control that the words of a line set, if they are such a line.
unfoldable pub parse_flow_control_line : List Bytes → Option Bool
unfolding equal
parse_flow_control_line (a ∷ b ∷ []) =
    if equal a (ascii "flow") && equal b (ascii "control") then some true else none
parse_flow_control_line (a ∷ b ∷ c ∷ []) =
    if equal a (ascii "no") && (equal b (ascii "flow") && equal c (ascii "control"))
    then some false
    else none
parse_flow_control_line _ = none

abbrev pub shutdown_line : Bytes
shutdown_line = ascii "shutdown"

abbrev pub flow_control_line : Bytes
flow_control_line = ascii "flow control"

-- The lines that the port codec writes for a port.
unfoldable pub port_lines : PortSettings → List Bytes
port_lines ps =
    (if not ps.enabled then shutdown_line ∷ [] else [])
    ++ (if ps.flow_control then flow_control_line ∷ [] else [])
