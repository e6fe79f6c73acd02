-- ===== src/Grammar.antt =====
-- internal/client/gs108tv2/codec.go: the grammar of the VLAN lines of a text configuration.
-- Lines are byte strings. A number that fmt prints is not negative.
pub mod Numbers
pub mod Words
pub mod Lines
pub mod Trimmed
pub mod Renderable
mod Tests
use mathlib.Core.Option
use terraform_provider_netge.Base.{
  ℕ, zero, suc, ◌+◌, ◌*◌, ◌/◌, ◌%◌, ◌-◌, Bool, true, false, not, ◌&&◌, ◌||◌, Option, none, some,
  List, [], ◌∷◌, ◌++◌, ltb, leb, ◌==◌, if◌then◌else◌, Bytes, equal, ascii, has_prefix, drop,
  is_empty, reverse_onto, space_in_front, trim_space, lookup, keys, sort,
}
use terraform_provider_netge.Model.{
  PortMembership, ignored, untagged, tagged, other, is_ignored, Vlan, VlanState, port_range, Ports,
  Invalid, get, validate,
}

-- A word under way, reversed, in front of the words behind it.
abbrev pub flush : Bytes → List Bytes → List Bytes
flush [] rest = rest
flush (c ∷ word) rest = reverse_onto (c ∷ word) [] ∷ rest

-- strings.Fields, with the bytes left of a white space character and the word under way.
unfoldable pub fields_from : ℕ → Bytes → Bytes → List Bytes
unfolding space_in_front reverse_onto
fields_from left word [] = flush word []
fields_from (suc left) word (c ∷ cs) = fields_from left word cs
fields_from zero word (c ∷ cs) = elim (space_in_front (c ∷ cs)) [
  | zero ↦ fields_from zero (c ∷ word) cs
  | suc left ↦ flush word (fields_from left [] cs)
]

unfoldable pub fields : Bytes → List Bytes
unfolding fields_from
fields line = fields_from 0 [] line

-- The decimal digits of a number in front of others, on fuel.
unfoldable pub digits_onto : ℕ → ℕ → Bytes → Bytes
digits_onto zero n rest = (48 + n % 10) ∷ rest
digits_onto (suc fuel) n rest = elim (ltb n 10) [
  | true ↦ (48 + n) ∷ rest
  | false ↦ digits_onto fuel (n / 10) ((48 + n % 10) ∷ rest)
]

-- %d
unfoldable pub decimal : ℕ → Bytes
unfolding digits_onto
decimal n = digits_onto n n []

unfoldable pub number_from : ℕ → Bytes → Option ℕ
number_from n [] = some n
number_from n (c ∷ cs) =
    let later = number_from (n * 10 + (c - 48)) cs in if leb 48 c && leb c 57 then later else none

abbrev pub without_plus : Bytes → Bytes
without_plus [] = []
without_plus (c ∷ cs) = if c == 43 then cs else c ∷ cs

-- strconv.Atoi with the check of a positive result: a minus sign is refused either way.
unfoldable pub positive_number : Bytes → Option ℕ
unfolding number_from
positive_number text =
    let ds = without_plus text in
    if is_empty ds then none else elim (number_from 0 ds) [
      | none ↦ none
      | some n ↦ if ltb 0 n && ltb n 9223372036854775808 then some n else none
    ]

-- strings.Split(text, ",") with the part under way, reversed.
unfoldable pub split_commas : Bytes → Bytes → List Bytes
unfolding reverse_onto
split_commas part [] = reverse_onto part [] ∷ []
split_commas part (c ∷ cs) = elim (c == 44) [
  | true ↦ reverse_onto part [] ∷ split_commas [] cs
  | false ↦ split_commas (c ∷ part) cs
]

unfoldable pub positive_numbers : List Bytes → Option (List ℕ)
unfolding positive_number trim_space
positive_numbers [] = some []
positive_numbers (part ∷ parts) = elim (positive_number (trim_space part)) [
  | none ↦ none
  | some n ↦ elim (positive_numbers parts) [ none ↦ none | some ns ↦ some (n ∷ ns) ]
]

abbrev pub vlan_word : Bytes
vlan_word = ascii "vlan"

unfoldable pub parse_vlan_declares : List Bytes → Option (List ℕ)
unfolding equal split_commas positive_numbers
parse_vlan_declares (a ∷ b ∷ []) =
    if equal a vlan_word then positive_numbers (split_commas [] b) else none
parse_vlan_declares _ = none

unfoldable pub parse_membership_word : Bytes → Option PortMembership
unfolding equal
parse_membership_word word =
    if equal word (ascii "untagged")
    then some untagged
    else if equal word (ascii "tagged")
    then some tagged
    else none

unfoldable pub parse_vlan_membership : List Bytes → Option (ℕ × ℕ × PortMembership)
unfolding equal has_prefix positive_number parse_membership_word
parse_vlan_membership (a ∷ b ∷ c ∷ d ∷ e ∷ []) =
    if equal a vlan_word && (equal c (ascii "port") && has_prefix d (ascii "0/"))
    then elim (positive_number b) [
      | none ↦ none
      | some vid ↦ elim (positive_number (drop 2 d)) [
        | none ↦ none
        | some port ↦ elim (parse_membership_word e) [ none ↦ none | some m ↦ some (vid, port, m) ]
      ]
    ]
    else none
parse_vlan_membership _ = none

unfoldable pub parse_vlan_pvid : List Bytes → Option ℕ
unfolding equal positive_number
parse_vlan_pvid (a ∷ b ∷ c ∷ []) =
    if equal a vlan_word && equal b (ascii "pvid") then positive_number c else none
parse_vlan_pvid _ = none

unfoldable pub vlan_declare_line : ℕ → Bytes
unfolding decimal
vlan_declare_line vid = ascii "vlan " ++ decimal vid

abbrev pub membership_word : PortMembership → Bytes
membership_word ignored = ascii "ignored"
membership_word untagged = ascii "untagged"
membership_word tagged = ascii "tagged"
membership_word (other s) = ascii s

unfoldable pub vlan_membership_line : ℕ → ℕ → PortMembership → Bytes
unfolding decimal
vlan_membership_line vid port m =
    ascii "vlan "
    ++ (decimal vid ++ (ascii " port 0/" ++ (decimal port ++ (ascii " " ++ membership_word m))))

unfoldable pub vlan_pvid_line : ℕ → Bytes
unfolding decimal
vlan_pvid_line vid = ascii "vlan pvid " ++ decimal vid

abbrev pub default_pvid : ℕ
default_pvid = 1

abbrev pub is_untagged : PortMembership → Bool
is_untagged untagged = true
is_untagged _ = false

-- The membership lines of a VLAN for some ports.
unfoldable pub membership_lines : Vlan → ℕ → List ℕ → List Bytes
membership_lines vlan vid [] = []
membership_lines vlan vid (port ∷ ports) =
    let later = membership_lines vlan vid ports in
    elim (lookup port vlan.ports) [
      | none ↦ later
      | some m ↦
          if is_ignored m || vid == default_pvid && is_untagged m
          then later
          else vlan_membership_line vid port m ∷ later
    ]

unfoldable pub vlan_lines : VlanState → List ℕ → List Bytes
unfolding membership_lines
vlan_lines state [] = []
vlan_lines state (vid ∷ vids) =
    let later = vlan_lines state vids in
    elim (lookup vid state.vlans) [
      | none ↦ later
      | some vlan ↦
          (if vid == default_pvid then [] else vlan_declare_line vid ∷ [])
          ++ (membership_lines vlan vid (port_range state.port_count) ++ later)
    ]

unfoldable pub generate_vlan_database_body : VlanState → List Bytes
unfolding vlan_lines
generate_vlan_database_body state = vlan_lines state (sort (keys state.vlans))

abbrev pub default_port_count : ℕ
default_port_count = 8

-- ErrInvalidDesiredState with the reasons that validateRenderable gives.
pub data InvalidDesired : Type 0 where
  unsupported_port_count : ℕ → InvalidDesired
  not_valid : Invalid → InvalidDesired
  many_untagged pvid_not_untagged : ℕ → ℕ → InvalidDesired

unfoldable pub count_untagged : ℕ → List (ℕ × Vlan) → ℕ
unfolding get
count_untagged port [] = 0
count_untagged port ((vid, vlan) ∷ vlans) =
    let later = count_untagged port vlans in
    if is_untagged (get vlan.ports port) then later + 1 else later

-- state.PVIDs[port]
unfoldable pub pvid_of : VlanState → ℕ → ℕ
unfolding lookup
pvid_of state port = Option.get_or (lookup port state.pvids) 0

-- state.VLANs[vid].Ports
unfoldable pub ports_of : VlanState → ℕ → Ports
unfolding lookup
ports_of state vid = elim (lookup vid state.vlans) [ none ↦ [] | some vlan ↦ vlan.ports ]

unfoldable pub check_port : VlanState → ℕ → Option InvalidDesired
unfolding get count_untagged pvid_of ports_of
check_port state port =
    let count = count_untagged port state.vlans in
    let vid = pvid_of state port in
    if ltb 1 count
    then some (many_untagged port count)
    else if not (is_untagged (get (ports_of state vid) port))
    then some (pvid_not_untagged vid port)
    else none

unfoldable pub check_each_port : VlanState → List ℕ → Option InvalidDesired
unfolding check_port
check_each_port state [] = none
check_each_port state (port ∷ ports) = elim (check_port state port) [
  | some e ↦ some e
  | none ↦ check_each_port state ports
]

unfoldable pub validate_renderable : VlanState → Option InvalidDesired
unfolding validate check_each_port port_range
validate_renderable state =
    if not (state.port_count == default_port_count)
    then some (unsupported_port_count state.port_count)
    else elim (validate state) [
      | some e ↦ some (not_valid e)
      | none ↦ check_each_port state (port_range state.port_count)
    ]
