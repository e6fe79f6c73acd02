-- ===== src/Cfg.antt =====
-- internal/cfg/config.go: the parser of the FMv2 configuration backup. A string is its bytes.
-- A slice that the section loop advances is the rest of the payload.
pub mod Sum
pub mod Sections
pub mod RoundTrip
pub mod Tables
mod Tests
use terraform_provider_netge.Base.{
  ℕ, zero, suc, ◌+◌, ◌*◌, ◌%◌, ◌-◌, ◌/◌, ◌^◌, Bool, true, false, not, ◌&&◌, Option, none, some,
  List, [], ◌∷◌, ◌++◌, map, length, get_or, take, drop, ltb, ◌==◌, if◌then◌else◌, Bytes, high, low,
  be16, le16, equal, elem, Result, ok, err, ◌>>=◌,
}
use mathlib.Core.Option
use Prim.Native.Nat.{bit_and}

-- "FMv2"
abbrev pub magic : Bytes
magic = 0x46 ∷ 0x4d ∷ 0x76 ∷ 0x32 ∷ []

abbrev pub header_size : ℕ
header_size = 8

abbrev pub section_header : ℕ
section_header = 4

abbrev pub section_tag : ℕ
section_tag = 1

abbrev pub checksum_mod : ℕ
checksum_mod = 65535

-- `raw` is the whole name, NUL, data payload.
pub record Section : Type 0 where
  pub name : Bytes
  pub contents : Bytes
  pub raw : Bytes

pub record Config : Type 0 where
  pub checksum : ℕ
  pub sections : List Section
  pub raw : Bytes

-- One constructor for each error of the package; `stuck` is a section loop without fuel.
pub data Error : Type 0 where
  truncated_file bad_magic length_mismatch odd_payload checksum_mismatch : Error
  trailing_garbage bad_tag section_overrun no_name stuck : Error
  no_section bad_data_length : Error

-- The loop of Checksum: the sum is a uint32.
unfoldable pub add_words : ℕ → Bytes → ℕ
add_words acc (a ∷ b ∷ rest) = add_words ((acc + be16 a b) % 4294967296) rest
add_words acc _ = acc

unfoldable pub checksum : Bytes → Result Error ℕ
unfolding add_words
checksum payload =
    if not (length payload % 2 == 0)
    then err odd_payload
    else ok (add_words 0 payload % checksum_mod % 65536)

-- The loop of splitSectionBody: the bytes in front of the first NUL, and those behind it.
unfoldable pub split_section_body : Bytes → Result Error (Bytes × Bytes)
split_section_body [] = err no_name
split_section_body (b ∷ body) =
    let later = split_section_body body in
    if b == 0 then ok ([], body) else later >>= λ p. ok (b ∷ p.0, p.1)

-- The loop of parseSections on what is left of the payload.
unfoldable pub parse_sections : ℕ → Bytes → Result Error (List Section)
unfolding split_section_body
parse_sections fuel [] = ok []
parse_sections zero (a ∷ payload) = err stuck
parse_sections (suc fuel) (a ∷ b ∷ c ∷ d ∷ rest) =
    let body = take (be16 c d) rest in
    let later = parse_sections fuel (drop (be16 c d) rest) in
    if not (be16 a b == section_tag)
    then err bad_tag
    else if ltb (length rest) (be16 c d)
    then err section_overrun
    else split_section_body body >>= λ p.
        later >>= λ sections. ok (record { name = p.0; contents = p.1; raw = body } ∷ sections)
parse_sections (suc fuel) payload = err trailing_garbage

-- The checks in front of the checksum, in their order; `none` is a file that passes them.
unfoldable pub check_header : Bytes → Option Error
check_header input =
    if ltb (length input) header_size
    then some truncated_file
    else if not (equal (take 4 input) magic)
    then some bad_magic
    else if not (be16 (get_or input 4 0) (get_or input 5 0) == length input - header_size)
    then some length_mismatch
    else if not (length (drop header_size input) % 2 == 0)
    then some odd_payload
    else none

unfoldable pub parse_payload : Bytes → Result Error Config
unfolding checksum
parse_payload input =
    let payload = drop header_size input in
    let stored = be16 (get_or input 6 0) (get_or input 7 0) in
    checksum payload >>= λ computed.
    if not (computed == stored)
    then err checksum_mismatch
    else parse_sections (length payload) payload >>= λ sections.
        ok (record { checksum = stored; sections = sections; raw = input })

unfoldable pub parse_config : Bytes → Result Error Config
parse_config input = elim (check_header input) [ some e ↦ err e | none ↦ parse_payload input ]

-- Config.Section: the first section with the name.
unfoldable pub section : Bytes → List Section → Option Section
unfolding equal
section name [] = none
section name (s ∷ sections) = if equal s.name name then some s else section name sections

-- Config.RawSection
unfoldable pub raw_section : Bytes → List Section → Option Bytes
unfolding section
raw_section name sections = Option.map (λ s. s.raw) (section name sections)

-- "pvid", "vlan" and "ethconfig"
abbrev pub section_pvid : Bytes
section_pvid = b'p' ∷ b'v' ∷ b'i' ∷ b'd' ∷ []

abbrev pub section_vlan : Bytes
section_vlan = b'v' ∷ b'l' ∷ b'a' ∷ b'n' ∷ []

abbrev pub section_eth_config : Bytes
section_eth_config = b'e' ∷ b't' ∷ b'h' ∷ b'c' ∷ b'o' ∷ b'n' ∷ b'f' ∷ b'i' ∷ b'g' ∷ []

-- binary.LittleEndian.Uint16 at each even offset.
unfoldable pub le_words : Bytes → List ℕ
le_words (a ∷ b ∷ rest) = le16 a b ∷ le_words rest
le_words _ = []

-- Config.PVIDs: 16 bytes are the eight words of the loop.
unfoldable pub pvids : Config → Result Error (List ℕ)
unfolding section le_words
pvids c = elim (section section_pvid c.sections) [
  | none ↦ err no_section
  | some s ↦ if not (length s.contents == 16) then err bad_data_length else ok (le_words s.contents)
]

pub record EthernetConfig : Type 0 where
  pub mode : ℕ
  pub ip : Bytes
  pub netmask : Bytes
  pub gateway : Bytes

-- Config.EthernetConfig: an absent section is no error.
unfoldable pub ethernet_config : Config → Result Error (Option EthernetConfig)
unfolding section
ethernet_config c = elim (section section_eth_config c.sections) [
  | none ↦ ok none
  | some s ↦
      if not (length s.contents == 13)
      then err bad_data_length
      else ok (
          some (record {
            mode = get_or s.contents 0 0;
            ip = take 4 (drop 1 s.contents);
            netmask = take 4 (drop 5 s.contents);
            gateway = take 4 (drop 9 s.contents);
          }))
]

pub record Vlan : Type 0 where
  pub id : ℕ
  pub members : List ℕ
  pub untagged : List ℕ
  pub tagged : List ℕ

-- The loop of portsFromBitmap over the bits from `bit` on, `rounds` of them left.
ports_from : ℕ → ℕ → ℕ → List ℕ
ports_from zero bit bitmap = []
ports_from (suc rounds) bit bitmap =
    let later = ports_from rounds (bit + 1) bitmap in
    if bit_and bitmap (2 ^ bit) == 0 then later else (bit + 1) ∷ later

unfoldable pub ports_from_bitmap : ℕ → List ℕ
unfolding ports_from
ports_from_bitmap bitmap = ports_from 8 0 bitmap

-- The members that are not in the set of tagged ports.
unfoldable pub without : List ℕ → List ℕ → List ℕ
unfolding elem
without tagged [] = []
without tagged (p ∷ members) =
    let later = without tagged members in if elem p tagged then later else p ∷ later

unfoldable pub vlan_entry : ℕ → ℕ → Vlan
unfolding ports_from_bitmap without
vlan_entry vid mask =
    let members = ports_from_bitmap (mask % 256) in
    let tagged = ports_from_bitmap (mask / 256 % 256) in
    record { id = vid; members = members; untagged = without tagged members; tagged = tagged }

-- The loop of VLANs over `count` entries.
unfoldable pub vlan_entries : ℕ → Bytes → List Vlan
unfolding vlan_entry
vlan_entries (suc count) (a ∷ b ∷ c ∷ d ∷ rest) =
    vlan_entry (le16 a b) (le16 c d) ∷ vlan_entries count rest
vlan_entries _ _ = []

unfoldable pub vlans : Config → Result Error (List Vlan)
unfolding section vlan_entries
vlans c = elim (section section_vlan c.sections) [
  | none ↦ err no_section
  | some s ↦
      let count = le16 (get_or s.contents 2 0) (get_or s.contents 3 0) in
      if ltb (length s.contents) 4
      then err bad_data_length
      else if ltb (length s.contents) (4 + count * 4)
      then err bad_data_length
      else ok (vlan_entries count (drop 4 s.contents))
]
