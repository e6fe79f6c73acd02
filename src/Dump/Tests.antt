-- ===== src/Dump/Tests.antt =====
-- The properties of the reads on concrete values.
use terraform_provider_netge.Base.{◌≡◌, refl, true, false, some, [], ◌∷◌, arith, ascii, ascii_trim}
use terraform_provider_netge.Client.{Client}
use terraform_provider_netge.Client.Budget.{Sends}
use terraform_provider_netge.Entries.{set_pvid, set_port_config, set_port_based_vlan, port_bitmap}
use terraform_provider_netge.Entries.Methods.{
  set_qos_priority, set_bandwidth, set_port_mirroring, set_igmp_snooping,
}
use terraform_provider_netge.Dump.{
  PortTrafficStats, pvid_table, admin_table, qos_table, bandwidth, mirroring, igmp, port_based,
  traffic, decode_tlv,
}
use terraform_provider_netge.Dump.Reads.{dump}
use terraform_provider_netge.Dump.Budget.{Sends-dump}
use terraform_provider_netge.Dump.Identity.{serial_from_blob, active_firmware}
use terraform_provider_netge.Dump.Typed.{
  sent_value, decode_tlv-typed_sets, table, traffic_bytes, decode_tlv-traffic,
}

abbrev manager : Client
manager = record {
  mac = 2 ∷ 0 ∷ 0 ∷ 0 ∷ 0 ∷ 1 ∷ [];
  agent_mac = 0x8c ∷ 0x3b ∷ 0xad ∷ 0x25 ∷ 0x1b ∷ 0x88 ∷ [];
  password = [];
  v1 = false;
  write_fails = λ n. false;
  deadline_fails = λ n. false;
}

Sends-dump_example : Sends 84 0 (dump manager)
Sends-dump_example = Sends-dump manager refl

decode_tlv-typed_sets_example :
    (sent_value (set_pvid 3 999) ≡ some (pvid_table (record { port = 3; vlan_id = 999 } ∷ [])))
    × (sent_value (set_port_config 3 true false)
        ≡ some (admin_table (record { port = 3; admin = 1; flow = 0 } ∷ [])))
    × (sent_value (set_qos_priority 3 2)
        ≡ some (qos_table (record { port = 3; priority = 2 } ∷ [])))
    × (sent_value (set_bandwidth 0x4c00 3 11) ≡ some (bandwidth (record { port = 3; limit = 11 })))
    × (sent_value (set_port_mirroring 3 (1 ∷ 8 ∷ []))
        ≡ some (
            mirroring
              (record { dst_port = 3; reserved = 0; src_ports = port_bitmap (1 ∷ 8 ∷ []) })))
    × (sent_value (set_port_based_vlan 999 (1 ∷ 8 ∷ []))
        ≡ some (port_based (record { vlan_id = 999; ports = port_bitmap (1 ∷ 8 ∷ []) } ∷ [])))
    × (decode_tlv (set_igmp_snooping true 999)
        ≡ some (igmp (record { enabled = 1; vlan_id = 999 })))
decode_tlv-typed_sets_example =
    decode_tlv-typed_sets 3 999 (omega arith) (omega arith) (omega arith) true false 2 11
      (1 ∷ 8 ∷ []) (omega arith)

abbrev stats : PortTrafficStats
stats = record {
  port = 1;
  received = 5000000000;
  sent = 7;
  packets = 6;
  broadcast = 0;
  multicast = 1;
  errors = 0;
}

traffic_test :
    decode_tlv (record { tag = 0x1000; value = table traffic_bytes (stats ∷ stats ∷ []) })
    ≡ some (traffic (stats ∷ stats ∷ []))
traffic_test = decode_tlv-traffic stats (stats ∷ []) (
  (omega arith, omega arith, omega arith, omega arith, omega arith, omega arith),
  ((omega arith, omega arith, omega arith, omega arith, omega arith, omega arith), tt),
)

-- The layout of a live blob: two bytes, the serial number, and garbage.
serial :
    serial_from_blob (
      1 ∷ 0x33 ∷ 0x34 ∷ 0x4b ∷ 0x31 ∷ 0x32 ∷ 0x33 ∷ 0x34 ∷ 0x35 ∷ 0x36 ∷ 0x37 ∷ 0x38 ∷ 0x39 ∷ 0 ∷ 0
      ∷ 0xfe ∷ [])
    ≡ ascii "4K123456789"
unfolding serial_from_blob
serial = refl

-- A name that ends with a Latin-1 letter loses it, like its padding.
latin : ascii_trim (0x43 ∷ 0x61 ∷ 0x66 ∷ 0xe9 ∷ 0 ∷ 0xff ∷ []) ≡ ascii "Caf"
unfolding ascii_trim
latin = refl

-- The second bank runs.
second_bank :
    active_firmware (ascii "5.4.2.30") (ascii "5.4.2.36") (some (2 ∷ [])) ≡ ascii "5.4.2.36"
unfolding active_firmware
second_bank = refl
