-- ===== src/Dump/Identity.antt =====
-- internal/nsdp/identity.go: the identity of a switch.
use Prim.Native.Nat.{bit_and}
use terraform_provider_netge.Base.{
  ℕ, Bool, true, not, ◌&&◌, ◌||◌, Option, none, some, List, [], ◌∷◌, ◌++◌, length, get_or, take,
  drop, ltb, leb, ◌==◌, if◌then◌else◌, Bytes, lookup, is_empty, reverse_onto, ascii_trim, be16,
}
use terraform_provider_netge.Client.{Client, Action, pure, ◌>>=◌, get_attrs}
use terraform_provider_netge.Dump.{Attr}
use terraform_provider_netge.Dump.Reads.{get_block}

pub record SwitchIdentity : Type 0 where
  pub product_name : Bytes
  pub model_code : ℕ
  pub firmware_version : Bytes
  pub serial_number : Bytes
  pub system_name : Bytes

abbrev pub is_printable : ℕ → Bool
is_printable b = leb 0x20 b && leb b 0x7e

unfoldable pub is_printable_ascii : Bytes → Bool
is_printable_ascii [] = true
is_printable_ascii (b ∷ v) = is_printable b && is_printable_ascii v

abbrev pub is_nul_or_space : ℕ → Bool
is_nul_or_space b = b == 0 || b == 0x20

-- strings.TrimRight with the cutset of NUL and the space.
unfoldable pub trim_serial : Bytes → Bytes
trim_serial [] = []
trim_serial (b ∷ v) =
    let rest = trim_serial v in if is_empty rest && is_nul_or_space b then [] else b ∷ rest

-- The run of printable bytes that ends here, reversed, and the longest run so far, reversed: a run
-- replaces the best one as soon as it is longer.
unfoldable pub longest_run : Bytes → Bytes → Bytes → Bytes
longest_run run best [] = best
longest_run run best (b ∷ v) =
    let run' = if is_printable b then b ∷ run else [] in
    longest_run run' (if ltb (length best) (length run') then run' else best) v

unfoldable pub serial_from_run : Bytes → Bytes
unfolding longest_run reverse_onto trim_serial
serial_from_run v =
    let best = longest_run [] [] v in
    if ltb (length best) 8 then [] else trim_serial (reverse_onto best [])

unfoldable pub serial_from_blob : Bytes → Bytes
unfolding serial_from_run is_printable_ascii trim_serial
serial_from_blob v =
    let s = trim_serial (take 12 (drop 2 v)) in
    if leb 14 (length v) && (not (is_empty s) && is_printable_ascii s) then s else serial_from_run v

abbrev pub or_empty : Option Bytes → Bytes
or_empty none = []
or_empty (some value) = ascii_trim value

abbrev pub first_non_empty : Bytes → Bytes → Bytes
first_non_empty a b = if is_empty a then b else a

-- The firmware of the bank that the switch says is active, or of the first bank that has one.
unfoldable pub active_firmware : Bytes → Bytes → Option Bytes → Bytes
active_firmware bank1 bank2 none = first_non_empty bank1 bank2
active_firmware bank1 bank2 (some []) = first_non_empty bank1 bank2
active_firmware bank1 bank2 (some (b ∷ v)) =
    if bit_and b 0x0f == 1 && not (is_empty bank1)
    then bank1
    else if bit_and b 0x0f == 2 && not (is_empty bank2)
    then bank2
    else first_non_empty bank1 bank2

abbrev pub model_code_of : Option Bytes → ℕ
model_code_of none = 0
model_code_of (some value) =
    if length value == 2 then be16 (get_or value 0 0) (get_or value 1 0) else 0

-- The facts of the small tags.
unfoldable pub identity_of : List (ℕ × Bytes) → Bytes → Bytes → SwitchIdentity
unfolding lookup ascii_trim
identity_of m firmware serial = record {
  product_name = or_empty (lookup 0x01 m);
  model_code = model_code_of (lookup 0x02 m);
  firmware_version = firmware;
  serial_number = serial;
  system_name = or_empty (lookup 0x03 m);
}

-- The last serial number of a block.
unfoldable pub serial_of : Bytes → List Attr → Bytes
unfolding serial_from_blob
serial_of found [] = found
serial_of found (a ∷ attrs) =
    serial_of (if a.tag == 0x7800 then serial_from_blob a.value else found) attrs

abbrev pub identity_tags : List ℕ
identity_tags = 0x01 ∷ 0x02 ∷ 0x03 ∷ 0x0d ∷ 0x0e ∷ []

-- The flat tags of the v1 dialect, and the tags and the serial block of the v2 dialect.
unfoldable pub identity_v1 : Client → Action SwitchIdentity
unfolding ◌>>=◌ get_attrs pure identity_of active_firmware lookup ascii_trim
identity_v1 c = get_attrs c (identity_tags ++ (0x0f ∷ 0x19 ∷ [])) >>= λ m. pure (
    identity_of m
      (active_firmware (or_empty (lookup 0x0d m)) (or_empty (lookup 0x0e m)) (lookup 0x0f m))
      (or_empty (lookup 0x19 m)))

unfoldable pub identity_v2 : Client → Action SwitchIdentity
unfolding ◌>>=◌ get_attrs get_block pure identity_of serial_of lookup ascii_trim
identity_v2 c = get_attrs c identity_tags >>= λ m. get_block c 0x78 [] >>= λ attrs. pure (
    identity_of m (first_non_empty (or_empty (lookup 0x0d m)) (or_empty (lookup 0x0e m)))
      (serial_of [] attrs))

unfoldable pub get_identity : Client → Action SwitchIdentity
unfolding identity_v1 identity_v2
get_identity c = if c.v1 then identity_v1 c else identity_v2 c
