-- ===== src/Cfg/Tests.antt =====
-- A small backup, and the theorems of the parser at it.
use terraform_provider_netge.Base.{
  ℕ, ◌%◌, ◌≡◌, refl, not, ◌&&◌, List, [], ◌∷◌, ◌++◌, arith, Bytes, high, low, elem, ok,
}
use terraform_provider_netge.Cfg.{
  Section, Config, section, section_pvid, section_vlan, checksum, checksum_mod, parse_config, pvids,
  Vlan, vlan_entry, vlans,
}
use terraform_provider_netge.Cfg.Sum.{word_sum, checksum-word_sum}
use terraform_provider_netge.Cfg.Sections.{sections_bytes}
use terraform_provider_netge.Cfg.RoundTrip.{
  payload_checksum, encode_config, IsConfig, parse_config-encode_config, Accepts,
  parse_config-Accepts,
}
use terraform_provider_netge.Cfg.Tables.{
  le_bytes, pvids-le_bytes, port_bit, vlan_entry_ports, entry_bytes, AreVlansOf, vlans-entry_bytes,
}

abbrev pvid_words : List ℕ
pvid_words = 1 ∷ 1 ∷ 10 ∷ 10 ∷ 1 ∷ 1 ∷ 1 ∷ 4094 ∷ []

abbrev named : Bytes → Bytes → Section
named name contents = record { name = name; contents = contents; raw = name ++ (0 ∷ contents) }

abbrev pvid_table : Section
pvid_table = named section_pvid (le_bytes pvid_words)

-- VLAN 10: members 3, 4 and 8, of which 8 is tagged.
abbrev vlan_entry_list : List (ℕ × ℕ)
vlan_entry_list = (10, 0x808c) ∷ []

abbrev vlan_table : Section
vlan_table = named section_vlan (1 ∷ 0 ∷ 1 ∷ 0 ∷ (entry_bytes vlan_entry_list ++ (0 ∷ 0 ∷ [])))

abbrev tables : List Section
tables = pvid_table ∷ vlan_table ∷ []

abbrev backup : Config
backup = record { checksum = 0; sections = tables; raw = [] }

tables-IsConfig : IsConfig tables
unfolding sections_bytes
tables-IsConfig = record {
  each = (
    record { body = refl; name_no_nul = omega arith; length_u16 = omega arith },
    (record { body = refl; name_no_nul = omega arith; length_u16 = omega arith }, tt),
  );
  payload_bytes = omega arith;
  payload_even = omega arith;
  payload_u16 = omega arith;
}

parse_config-encode_config_example :
    parse_config (encode_config tables)
    ≡ ok (record {
      checksum = payload_checksum tables;
      sections = tables;
      raw = encode_config tables;
    })
parse_config-encode_config_example = parse_config-encode_config tables tables-IsConfig

parse_config-Accepts_example :
    Accepts
      (encode_config tables)
      (record { checksum = payload_checksum tables; sections = tables; raw = encode_config tables })
unfolding sections_bytes word_sum
parse_config-Accepts_example =
    parse_config-Accepts (encode_config tables)
      (record { checksum = payload_checksum tables; sections = tables; raw = encode_config tables })
      (omega arith) parse_config-encode_config_example

checksum-word_sum_example :
    checksum (0xff ∷ 0xff ∷ 0x00 ∷ 0x02 ∷ [])
    ≡ ok (word_sum (0xff ∷ 0xff ∷ 0x00 ∷ 0x02 ∷ []) % checksum_mod)
checksum-word_sum_example =
    checksum-word_sum (0xff ∷ 0xff ∷ 0x00 ∷ 0x02 ∷ []) (omega arith) (omega arith) refl

pvid_words_test : pvids backup ≡ ok pvid_words
unfolding section
pvid_words_test = pvids-le_bytes backup pvid_table pvid_words refl refl refl (omega arith)

vlan_entry_test :
    (elem 3 (vlan_entry 10 0x808c).members ≡ port_bit 3 (low 0x808c))
    × (elem 3 (vlan_entry 10 0x808c).tagged ≡ port_bit 3 (high 0x808c))
    × (elem 3 (vlan_entry 10 0x808c).untagged
        ≡ (port_bit 3 (low 0x808c) && not (port_bit 3 (high 0x808c))))
vlan_entry_test = vlan_entry_ports 10 0x808c 3

vlans-entry_bytes_example :
    (vs : List Vlan) × (vlans backup ≡ ok vs) × AreVlansOf vlan_entry_list vs
unfolding section
vlans-entry_bytes_example =
    vlans-entry_bytes backup vlan_table 1 0 vlan_entry_list (0 ∷ 0 ∷ []) refl refl (omega arith)
      (omega arith)
