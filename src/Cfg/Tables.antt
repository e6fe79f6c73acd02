-- ===== src/Cfg/Tables.antt =====
-- The decoded tables (internal/cfg/config.go): PVIDs and VLANs against the bytes of their sections.
use terraform_provider_netge.Base.{
  ℕ, zero, suc, ◌+◌, ◌*◌, ◌%◌, ◌/◌, ◌-◌, ◌^◌, ◌<◌, ◌≡◌, refl, ap, ◌∙◌, inl, inr, Bool, true, false,
  not, ◌&&◌, some, List, [], ◌∷◌, ◌++◌, map, arith, ltb, leb, ◌==◌, ltb→lt, Bool-cases,
  if◌then◌else◌, length, length-append, All, Bytes, IsByte, IsU16, high, low, le16, elem, ok,
  all_below, all_below_sound,
}
use terraform_provider_netge.Cfg.{
  Section, Config, section, section_pvid, section_vlan, le_words, pvids, ports_from,
  ports_from_bitmap, without, Vlan, vlan_entry, vlan_entries, vlans,
}

-- Little-endian words.
abbrev pub le_bytes : List ℕ → Bytes
le_bytes [] = []
le_bytes (w ∷ ws) = low w ∷ high w ∷ le_bytes ws

le_words-le_bytes : (ws : List ℕ) → All IsU16 ws → le_words (le_bytes ws) ≡ ws
unfolding le_words
le_words-le_bytes [] h = refl
le_words-le_bytes (w ∷ ws) h = ground (arith, le_words-le_bytes ws h.1)

length-le_bytes : (ws : List ℕ) → length (le_bytes ws) ≡ 2 * length ws
length-le_bytes [] = omega arith
length-le_bytes (w ∷ ws) = omega (arith, length-le_bytes ws)

-- Where the pvid section holds eight little-endian 16-bit words, PVIDs reads them, ports 1 to
-- 8 in order.
pub pvids-le_bytes :
    (c : Config) (s : Section) (ws : List ℕ)
    → section section_pvid c.sections ≡ some s
    → s.contents ≡ le_bytes ws
    → length ws ≡ 8
    → All IsU16 ws
    → pvids c ≡ ok ws
unfolding pvids
pvids-le_bytes c s ws found written n h =
    rw (found, pvids)
      (rw written (rw (le_words-le_bytes ws h) (ground (arith, length-le_bytes ws))))

-- Whether port `p` is in a bitmap, bit n for port n + 1.
abbrev pub port_bit : ℕ → ℕ → Bool
port_bit p bitmap = leb 1 p && leb p 8 && bitmap / 2 ^ (p - 1) % 2 == 1

abbrev same : Bool → Bool → Bool
same a b = if a then b else not b

same→eq : (a b : Bool) → same a b ≡ true → a ≡ b
same→eq a b h = ground arith

port_table :
    all_below 9 (λ p. all_below 256 (λ b. same (elem p (ports_from_bitmap b)) (port_bit p b)))
    ≡ true
unfolding ports_from_bitmap elem all_below
port_table = refl

elem-ports_from_above :
    (rounds bit bitmap p : ℕ) → bit + rounds < p → elem p (ports_from rounds bit bitmap) ≡ false
unfolding ports_from elem
elem-ports_from_above zero bit bitmap p h = refl
elem-ports_from_above (suc rounds) bit bitmap p h =
    ground (arith, elem-ports_from_above rounds (bit + 1) bitmap p)

elem-ports_above : (p bitmap : ℕ) → 8 < p → elem p (ports_from_bitmap bitmap) ≡ false
unfolding ports_from_bitmap
elem-ports_above p bitmap h = elem-ports_from_above 8 0 bitmap p h

-- portsFromBitmap of a byte holds exactly the ports 1 to 8 whose bit is set.
pub elem-ports_from_bitmap :
    (p bitmap : ℕ) → IsByte bitmap → elem p (ports_from_bitmap bitmap) ≡ port_bit p bitmap
elem-ports_from_bitmap p bitmap h = elim (Bool-cases (ltb p 9)) [
  | inl below ↦ same→eq (elem p (ports_from_bitmap bitmap)) (port_bit p bitmap) (
      all_below_sound 256 (λ b. same (elem p (ports_from_bitmap b)) (port_bit p b)) bitmap
        (all_below_sound 9
          (λ q. all_below 256 (λ b. same (elem q (ports_from_bitmap b)) (port_bit q b))) p
          port_table (ltb→lt p 9 below))
        h)
  | inr above ↦
      let big : 8 < p = ground arith in
      let out : leb p 8 ≡ false = ground arith in
      rw (elem-ports_above p bitmap big) (ground (arith, out))
]

elem-without :
    (p : ℕ) (tagged members : List ℕ)
    → elem p (without tagged members) ≡ (elem p members && not (elem p tagged))
unfolding without elem
elem-without p tagged [] = refl
elem-without p tagged (q ∷ members) = ground (arith, elem-without p tagged members)

-- One decoded VLAN: the members are the ports of the mask's low byte, the tagged ports those of
-- its high byte, and the untagged ports exactly the members that are not tagged.
pub vlan_entry_ports :
    (vid mask p : ℕ)
    → (elem p (vlan_entry vid mask).members ≡ port_bit p (low mask))
      × (elem p (vlan_entry vid mask).tagged ≡ port_bit p (high mask))
      × (elem p (vlan_entry vid mask).untagged
          ≡ (port_bit p (low mask) && not (port_bit p (high mask))))
unfolding vlan_entry
vlan_entry_ports vid mask p =
    let m = elem-ports_from_bitmap p (low mask) (omega arith) in
    let t = elem-ports_from_bitmap p (high mask) (omega arith) in
    (
      m,
      t,
      elem-without p (ports_from_bitmap (high mask)) (ports_from_bitmap (low mask)) ∙ rw (m, t),
    )

-- The little-endian words of the entries, a VLAN ID and a mask each.
abbrev pub entry_bytes : List (ℕ × ℕ) → Bytes
entry_bytes [] = []
entry_bytes (e ∷ es) = low e.0 ∷ high e.0 ∷ low e.1 ∷ high e.1 ∷ entry_bytes es

abbrev pub IsEntry : ℕ × ℕ → Type 0
IsEntry e = IsU16 e.0 × IsU16 e.1

vlan_entries-entry_bytes :
    (es : List (ℕ × ℕ)) (padding : Bytes)
    → All IsEntry es
    → vlan_entries (length es) (entry_bytes es ++ padding) ≡ map (λ e. vlan_entry e.0 e.1) es
unfolding vlan_entries
vlan_entries-entry_bytes [] [] h = refl
vlan_entries-entry_bytes [] (x ∷ padding) h = refl
vlan_entries-entry_bytes (e ∷ es) padding h =
    let id : le16 (low e.0) (high e.0) ≡ e.0 = omega arith in
    let mask : le16 (low e.1) (high e.1) ≡ e.1 = omega arith in
    rw (id, mask) (ap (◌∷◌ (vlan_entry e.0 e.1)) (vlan_entries-entry_bytes es padding h.1))

length-entry_bytes : (es : List (ℕ × ℕ)) → length (entry_bytes es) ≡ 4 * length es
length-entry_bytes [] = omega arith
length-entry_bytes (e ∷ es) = omega (arith, length-entry_bytes es)

-- The decoded VLAN of an entry: its ID, as members the ports whose bit is set in the low byte of
-- the mask, as tagged ports those of the high byte, and as untagged ones the other members.
pub record IsVlanOf (e : ℕ × ℕ) (v : Vlan) : Type 0 where
  pub same_id : v.id ≡ e.0
  pub members_read : (p : ℕ) → elem p v.members ≡ port_bit p (low e.1)
  pub tagged_read : (p : ℕ) → elem p v.tagged ≡ port_bit p (high e.1)
  pub untagged_read :
      (p : ℕ) → elem p v.untagged ≡ (port_bit p (low e.1) && not (port_bit p (high e.1)))

abbrev pub AreVlansOf : List (ℕ × ℕ) → List Vlan → Type 0
AreVlansOf [] [] = Unit
AreVlansOf (e ∷ es) (v ∷ vs) = IsVlanOf e v × AreVlansOf es vs
AreVlansOf _ _ = ⊥

vlan_entry-IsVlanOf : (e : ℕ × ℕ) → IsVlanOf e (vlan_entry e.0 e.1)
unfolding vlan_entry
vlan_entry-IsVlanOf e = record {
  same_id = refl;
  members_read = λ p. (vlan_entry_ports e.0 e.1 p).0;
  tagged_read = λ p. (vlan_entry_ports e.0 e.1 p).1;
  untagged_read = λ p. (vlan_entry_ports e.0 e.1 p).2;
}

map-AreVlansOf : (es : List (ℕ × ℕ)) → AreVlansOf es (map (λ e. vlan_entry e.0 e.1) es)
map-AreVlansOf [] = tt
map-AreVlansOf (e ∷ es) = (vlan_entry-IsVlanOf e, map-AreVlansOf es)

-- Where the vlan section counts its entries in 16 bits, and they are in range, VLANs gives one
-- VLAN for each entry, in order, and ignores the padding behind the last: its ID is that of
-- the entry, its members are the ports 1 to 8 whose bit is set in the low byte of the mask,
-- its tagged ports those of the high byte, and its untagged ports the members that are not
-- tagged.
pub vlans-entry_bytes :
    (c : Config) (s : Section) (m n : ℕ) (es : List (ℕ × ℕ)) (padding : Bytes)
    → section section_vlan c.sections ≡ some s
    → s.contents ≡ m ∷ n ∷ low (length es) ∷ high (length es) ∷ (entry_bytes es ++ padding)
    → IsU16 (length es)
    → All IsEntry es
    → (vs : List Vlan) × (vlans c ≡ ok vs) × AreVlansOf es vs
unfolding vlans
vlans-entry_bytes c s m n es padding found written u16 h =
    let count : le16 (low (length es)) (high (length es)) ≡ length es = omega arith in
    let body : Bytes = entry_bytes es ++ padding in
    let short : ltb (length (m ∷ n ∷ 0 ∷ 0 ∷ body)) 4 ≡ false = ground arith in
    let long : ltb (length (m ∷ n ∷ 0 ∷ 0 ∷ body)) (4 + length es * 4) ≡ false =
      ground (arith, length-append (entry_bytes es) padding, length-entry_bytes es) in
    (
      map (λ e. vlan_entry e.0 e.1) es,
      rw (found, vlans)
          (rw written (rw (count, short, long, vlan_entries-entry_bytes es padding h))),
      map-AreVlansOf es,
    )
