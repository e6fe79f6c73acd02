-- ===== src/Driver/Tests.antt =====
-- The driver against a switch that refuses a login and then serves a staged file.
use terraform_provider_netge.Base.{
  ◌≡◌, ◌≢◌, refl, ap, true, false, not, none, some, List, [], ◌∷◌, ◌++◌, arith, ltb, ◌==◌,
  if◌then◌else◌, Bytes, equal, err, ok, ascii, join_lines, trim_right, trim_space, lookup, sort,
}
use terraform_provider_netge.Model.{
  VlanState, untagged, tagged, normalize, equal_states, port_range,
}
use terraform_provider_netge.Textcfg.{
  parse_text_config, read_config, validate_text_config_header, canonical_bytes,
}
use terraform_provider_netge.Textcfg.Editor.{new_editor}
use terraform_provider_netge.Codec.Scan.{is_vlan_line}
use terraform_provider_netge.Grammar.{
  vlan_declare_line, vlan_membership_line, vlan_pvid_line, fields, parse_vlan_declares,
  parse_vlan_membership, parse_vlan_pvid, validate_renderable,
}
use terraform_provider_netge.Settings.{
  SettingsMap, default_port_settings, equal_port_settings, normalize_port_settings,
  validate_port_settings, parse_shutdown_line, parse_flow_control_line,
}
use terraform_provider_netge.Codec.{decode_text_config}
use terraform_provider_netge.Codec.Render.{capture_foreign, render_vlan_state, render_port_settings}
use terraform_provider_netge.Driver.{Environment, restore_done, Driver, out_of_fuel}
use terraform_provider_netge.Driver.Apply.{
  Config, with_defaults, ApplyOutcome, vlan_upload, ports_upload, apply_vlan_state,
  apply_port_settings,
}
use terraform_provider_netge.Driver.Staged.{
  StagedVlan, StagedPorts, apply_vlan_state-StagedVlan, apply_port_settings-StagedPorts,
}
use terraform_provider_netge.Driver.Sends.{Sent, VlanFile, apply_vlan_state-Sent}
use terraform_provider_netge.Driver.Deadline.{IsClock}
use terraform_provider_netge.Driver.Ends.{apply_vlan_state-InTime}

abbrev block : Bytes → List Bytes → List Bytes
block label body = label ∷ (body ++ (ascii "exit" ∷ []))

abbrev file : List Bytes → List Bytes → Bytes
file vlans last = join_lines (
    ascii "0x4e470x01"
    ∷ (block (ascii "vlan database") vlans
        ++ (block (ascii "interface 0/1") []
            ++ (block (ascii "interface 0/2") []
                ++ (block (ascii "interface 0/3") []
                    ++ (block (ascii "interface 0/4") []
                        ++ (block (ascii "interface 0/5") []
                            ++ (block (ascii "interface 0/6") []
                                ++ (block (ascii "interface 0/7") []
                                    ++ block (ascii "interface 0/8") last)))))))))

abbrev factory_file : Bytes
factory_file = file [] (ascii "shutdown" ∷ [])

abbrev staged_file : Bytes
staged_file =
    file
      (ascii "vlan 42" ∷ ascii "vlan 42 port 0/1 tagged" ∷ ascii "vlan 42 port 0/8 untagged" ∷ [])
      (ascii "shutdown" ∷ ascii "vlan pvid 42" ∷ [])

-- Call 4 is the upload; call 9 is the first login behind it.
abbrev switch : Environment
switch = record {
  cancelled = λ k. false;
  aborted = λ k dur. ltb 2 dur;
  logged_in = λ k. not (k == 9);
  saved = λ k. if ltb k 5 then some factory_file else some staged_file;
  restored = λ k upload. restore_done;
  now = λ k. k;
}

abbrev times : Config
times = record {
  timeout = 1;
  restore_wait_timeout = 20;
  restore_poll_interval = 1;
  restore_first_delay = 1;
  reboot_wait_timeout = 1;
  reboot_poll_interval = 1;
}

abbrev at_rest : Driver
at_rest = record { session = false; calls = 0; uploads = [] }

abbrev wanted : VlanState
wanted = record {
  port_count = 8;
  vlans =
      (
        1,
        record {
          id = 1;
          ports =
              (1, untagged)
              ∷ (2, untagged)
              ∷ (3, untagged)
              ∷ (4, untagged)
              ∷ (5, untagged)
              ∷ (6, untagged)
              ∷ (7, untagged)
              ∷ [];
        },
      )
      ∷ (42, record { id = 42; ports = (8, untagged) ∷ (1, tagged) ∷ [] })
      ∷ [];
  pvids = (1, 1) ∷ (2, 1) ∷ (3, 1) ∷ (4, 1) ∷ (5, 1) ∷ (6, 1) ∷ (7, 1) ∷ (8, 42) ∷ [];
}

staged_test : (decode_text_config (read_config staged_file)).error ≡ none
unfolding decode_text_config join_lines read_config is_vlan_line fields parse_vlan_declares
    parse_vlan_membership parse_vlan_pvid parse_shutdown_line parse_flow_control_line trim_right
staged_test = refl

applied :
    (apply_vlan_state switch times wanted at_rest).0
    ≡ ok (record { staged = true; canonical_diverged = true })
unfolding apply_vlan_state join_lines parse_text_config decode_text_config normalize equal_states
    validate_renderable capture_foreign render_vlan_state new_editor validate_text_config_header
    vlan_upload equal_port_settings canonical_bytes equal is_vlan_line fields parse_vlan_declares
    parse_vlan_membership parse_vlan_pvid parse_shutdown_line parse_flow_control_line trim_right
    trim_space vlan_declare_line vlan_membership_line vlan_pvid_line lookup sort port_range
applied = refl

abbrev staged_out : ApplyOutcome
staged_out = record { staged = true; canonical_diverged = true }

applied_whole :
    apply_vlan_state switch times wanted at_rest
    ≡ (ok staged_out, (apply_vlan_state switch times wanted at_rest).1)
applied_whole = ap (λ r. (r, (apply_vlan_state switch times wanted at_rest).1)) applied

apply_vlan_state-StagedVlan_example :
    StagedVlan switch at_rest (normalize wanted) × (staged_out.staged ≡ true)
apply_vlan_state-StagedVlan_example =
    apply_vlan_state-StagedVlan switch times wanted at_rest applied_whole

apply_vlan_state-Sent_example :
    Sent (VlanFile switch (normalize wanted)) at_rest (apply_vlan_state switch times wanted at_rest)
apply_vlan_state-Sent_example = apply_vlan_state-Sent switch times wanted at_rest

switch-IsClock : IsClock switch
switch-IsClock = record {
  forward = λ k. omega arith;
  sleeps = λ k dur whole. ground (arith, whole);
}

apply_vlan_state-InTime_example :
    (apply_vlan_state switch (with_defaults times) wanted at_rest).0 ≢ err out_of_fuel
apply_vlan_state-InTime_example = apply_vlan_state-InTime switch times switch-IsClock wanted at_rest

-- Port 8 gets its flow control; the VLANs of the file stay.
abbrev ports_switch : Environment
ports_switch = record switch {
  saved = λ k.
      if ltb k 5
      then some staged_file
      else some (
          file
            (ascii "vlan 42"
              ∷ ascii "vlan 42 port 0/1 tagged"
              ∷ ascii "vlan 42 port 0/8 untagged"
              ∷ [])
            (ascii "vlan pvid 42" ∷ ascii "flow control" ∷ []));
}

abbrev flowing : SettingsMap
flowing = (8, record default_port_settings { flow_control = true }) ∷ []

ports_applied : (apply_port_settings ports_switch times flowing at_rest).0 ≡ ok staged_out
unfolding apply_port_settings join_lines parse_text_config decode_text_config equal_states
    normalize_port_settings validate_port_settings render_port_settings new_editor
    validate_text_config_header ports_upload equal_port_settings canonical_bytes equal is_vlan_line
    fields parse_vlan_declares parse_vlan_membership parse_vlan_pvid parse_shutdown_line
    parse_flow_control_line trim_right trim_space lookup sort port_range vlan_declare_line
    vlan_membership_line vlan_pvid_line
ports_applied = refl

apply_port_settings-StagedPorts_example :
    StagedPorts ports_switch at_rest (normalize_port_settings flowing) × (staged_out.staged ≡ true)
apply_port_settings-StagedPorts_example =
    apply_port_settings-StagedPorts ports_switch times flowing at_rest
      (ap (λ r. (r, (apply_port_settings ports_switch times flowing at_rest).1)) ports_applied)
