-- ===== src/Grammar/Lines.antt =====
-- The lines that the codec writes, read back (internal/client/gs108tv2/codec.go).
use terraform_provider_netge.Base.{
  ℕ, ◌<◌, ◌≡◌, refl, ap, ◌∙◌, Bool, true, false, some, List, [], ◌∷◌, arith, ◌==◌, Bytes, All,
  ascii, trim_space, reverse_onto,
}
use terraform_provider_netge.Model.{PortMembership, untagged, tagged}
use terraform_provider_netge.Grammar.{
  fields, decimal, positive_number, positive_numbers, split_commas, parse_vlan_declares,
  parse_vlan_membership, parse_vlan_pvid, vlan_word, vlan_declare_line, vlan_membership_line,
  vlan_pvid_line, membership_word,
}
use terraform_provider_netge.Grammar.Numbers.{IsDigit, decimal-IsDigit, positive_number-decimal}
use terraform_provider_netge.Grammar.Words.{IsPlain, IsWord, fields-unwords, trim_space-IsPlain}

-- The numbers that an int holds, without 0.
abbrev pub IsInt : ℕ → Type 0
IsInt n = (0 < n) × (n < 9223372036854775808)

pub decimal-IsWord : (n : ℕ) → IsWord (decimal n)
decimal-IsWord n = (plain (decimal n) (decimal-IsDigit n).0, (decimal-IsDigit n).1)
  where
    plain : (ds : Bytes) → All IsDigit ds → All IsPlain ds
    plain [] h = tt
    plain (d ∷ ds) h = ((omega (arith, h.0), omega (arith, h.0)), plain ds h.1)

pub vlan_word-IsWord : IsWord vlan_word
vlan_word-IsWord = (
  (
    (omega arith, omega arith),
    ((omega arith, omega arith), ((omega arith, omega arith), ((omega arith, omega arith), tt))),
  ),
  refl,
)

four_letters :
    (a b c d : ℕ) → IsPlain a → IsPlain b → IsPlain c → IsPlain d → IsWord (a ∷ b ∷ c ∷ d ∷ [])
four_letters a b c d ha hb hc hd = ((ha, (hb, (hc, (hd, tt)))), refl)

pub parse_vlan_pvid-vlan_pvid_line :
    (vid : ℕ) → IsInt vid → parse_vlan_pvid (fields (vlan_pvid_line vid)) ≡ some vid
unfolding parse_vlan_pvid vlan_pvid_line
parse_vlan_pvid-vlan_pvid_line vid h =
    let pvid : IsWord (ascii "pvid") =
      four_letters 112 118 105 100 (omega arith, omega arith) (omega arith, omega arith)
        (omega arith, omega arith) (omega arith, omega arith) in
    ap parse_vlan_pvid (
      fields-unwords (vlan_word ∷ ascii "pvid" ∷ decimal vid ∷ [])
        (vlan_word-IsWord, (pvid, (decimal-IsWord vid, tt))))
    ∙ positive_number-decimal vid h.0 h.1

abbrev pub joined_as : Bool → PortMembership
joined_as true = tagged
joined_as false = untagged

joined_as-IsWord : (b : Bool) → IsWord (membership_word (joined_as b))
joined_as-IsWord true = (
  (
    (omega arith, omega arith),
    (
      (omega arith, omega arith),
      (
        (omega arith, omega arith),
        (
          (omega arith, omega arith),
          ((omega arith, omega arith), ((omega arith, omega arith), tt)),
        ),
      ),
    ),
  ),
  refl,
)
joined_as-IsWord false = (
  (
    (omega arith, omega arith),
    (
      (omega arith, omega arith),
      (
        (omega arith, omega arith),
        (
          (omega arith, omega arith),
          (
            (omega arith, omega arith),
            (
              (omega arith, omega arith),
              ((omega arith, omega arith), ((omega arith, omega arith), tt)),
            ),
          ),
        ),
      ),
    ),
  ),
  refl,
)

parse_vlan_membership-step :
    (vid port : Bytes) (v p : ℕ) (b : Bool)
    → positive_number vid ≡ some v
    → positive_number port ≡ some p
    → parse_vlan_membership
        (vlan_word ∷ vid ∷ ascii "port" ∷ (48 ∷ 47 ∷ port) ∷ membership_word (joined_as b) ∷ [])
      ≡ some (v, p, joined_as b)
unfolding parse_vlan_membership
parse_vlan_membership-step vid port v p true hv hp = rw (hv, hp) refl
parse_vlan_membership-step vid port v p false hv hp = rw (hv, hp) refl

abbrev pub membership_words : ℕ → ℕ → Bool → List Bytes
membership_words vid port b =
    vlan_word
    ∷ decimal vid
    ∷ ascii "port"
    ∷ (48 ∷ 47 ∷ decimal port)
    ∷ membership_word (joined_as b)
    ∷ []

pub membership_words-IsWord : (vid port : ℕ) (b : Bool) → All IsWord (membership_words vid port b)
membership_words-IsWord vid port b =
    let word : IsWord (ascii "port") =
      four_letters 112 111 114 116 (omega arith, omega arith) (omega arith, omega arith)
        (omega arith, omega arith) (omega arith, omega arith) in
    let place : IsWord (48 ∷ 47 ∷ decimal port) =
      (((omega arith, omega arith), ((omega arith, omega arith), (decimal-IsWord port).0)), refl) in
    (vlan_word-IsWord, (decimal-IsWord vid, (word, (place, (joined_as-IsWord b, tt)))))

abbrev pub pvid_words : ℕ → List Bytes
pvid_words vid = vlan_word ∷ ascii "pvid" ∷ decimal vid ∷ []

pub pvid_words-IsWord : (vid : ℕ) → All IsWord (pvid_words vid)
pvid_words-IsWord vid =
    let pvid : IsWord (ascii "pvid") =
      four_letters 112 118 105 100 (omega arith, omega arith) (omega arith, omega arith)
        (omega arith, omega arith) (omega arith, omega arith) in
    (vlan_word-IsWord, (pvid, (decimal-IsWord vid, tt)))

pub parse_vlan_membership-vlan_membership_line :
    (vid port : ℕ) (b : Bool)
    → IsInt vid
    → IsInt port
    → parse_vlan_membership (fields (vlan_membership_line vid port (joined_as b)))
      ≡ some (vid, port, joined_as b)
unfolding parse_vlan_membership vlan_membership_line
parse_vlan_membership-vlan_membership_line vid port b hv hp =
    ap parse_vlan_membership
      (fields-unwords (membership_words vid port b) (membership_words-IsWord vid port b))
    ∙ parse_vlan_membership-step (decimal vid) (decimal port) vid port b
        (positive_number-decimal vid hv.0 hv.1) (positive_number-decimal port hp.0 hp.1)

split_commas-digits :
    (part ds : Bytes) → All IsDigit ds → split_commas part ds ≡ reverse_onto part ds ∷ []
unfolding split_commas reverse_onto
split_commas-digits part [] h = refl
split_commas-digits part (d ∷ ds) h =
    let no_comma : (d == 44) ≡ false = ground (arith, h.0) in
    rw (split_commas, no_comma) (split_commas-digits (d ∷ part) ds h.1)

positive_numbers-one :
    (part : Bytes) (n : ℕ)
    → positive_number (trim_space part) ≡ some n
    → positive_numbers (part ∷ []) ≡ some (n ∷ [])
unfolding positive_numbers
positive_numbers-one part n h = rw (positive_numbers, h) refl

positive_numbers-decimal :
    (vid : ℕ) → IsInt vid → positive_numbers (decimal vid ∷ []) ≡ some (vid ∷ [])
positive_numbers-decimal vid h = positive_numbers-one (decimal vid) vid (
    ap positive_number (trim_space-IsPlain (decimal vid) (decimal-IsWord vid).0)
    ∙ positive_number-decimal vid h.0 h.1)

parse_vlan_declares-step :
    (ids : Bytes)
    → parse_vlan_declares (vlan_word ∷ ids ∷ []) ≡ positive_numbers (split_commas [] ids)
unfolding parse_vlan_declares
parse_vlan_declares-step ids = refl

pub parse_vlan_declares-vlan_declare_line :
    (vid : ℕ) → IsInt vid → parse_vlan_declares (fields (vlan_declare_line vid)) ≡ some (vid ∷ [])
unfolding vlan_declare_line reverse_onto
parse_vlan_declares-vlan_declare_line vid h =
    ap parse_vlan_declares
      (fields-unwords (vlan_word ∷ decimal vid ∷ []) (vlan_word-IsWord, (decimal-IsWord vid, tt)))
    ∙ parse_vlan_declares-step (decimal vid)
    ∙ ap positive_numbers (split_commas-digits [] (decimal vid) (decimal-IsDigit vid).0)
    ∙ positive_numbers-decimal vid h

-- For a VLAN ID and a port above 0 that an int holds: the declaration, the PVID line and the
-- tagged or untagged membership line that the codec writes for them are read back as exactly
-- that VLAN ID, port and membership.
pub parse-vlan_lines :
    (vid port : ℕ) (b : Bool)
    → IsInt vid
    → IsInt port
    → (parse_vlan_declares (fields (vlan_declare_line vid)) ≡ some (vid ∷ []))
      × (parse_vlan_pvid (fields (vlan_pvid_line vid)) ≡ some vid)
      × (parse_vlan_membership (fields (vlan_membership_line vid port (joined_as b)))
          ≡ some (vid, port, joined_as b))
parse-vlan_lines vid port b hv hp = (
  parse_vlan_declares-vlan_declare_line vid hv,
  parse_vlan_pvid-vlan_pvid_line vid hv,
  parse_vlan_membership-vlan_membership_line vid port b hv hp,
)
