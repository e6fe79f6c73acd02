-- ===== src/Entries/Bitmaps.antt =====
-- The port bitmaps of the 802.1Q table (internal/nsdp/methods.go, vlan.go).
use Prim.Native.Nat.{bit_and, bit_or}
use terraform_provider_netge.Base.{
  ℕ, zero, suc, ◌+◌, ◌<◌, ◌≤◌, ◌≡◌, refl, ◌∙◌, inl, inr, Bool, true, false, not, ◌&&◌, ◌||◌, List,
  [], ◌∷◌, arith, ltb, leb, ltb→lt, ◌==◌, ==_iff, if◌then◌else◌, Bool-cases, elem, high, low, be16,
  IsByte, IsU16, all_below, all_below_sound,
}
use terraform_provider_netge.Entries.{
  bit, add_ports, port_bitmap, ports_from, ports_from_bitmap, and_not, decode_entry, decode_entries,
  vlan_payload,
}

abbrev same : Bool → Bool → Bool
same a b = if a then b else not b

abbrev in_map : ℕ → ℕ → Bool
in_map p b = elem p (ports_from_bitmap b)

pair_ok : ℕ → ℕ → Bool
pair_ok t u = bit_and t (bit_or t u) == t && and_not (bit_or t u) t == and_not u t

pair_table : all_below 256 (λ t. all_below 256 (pair_ok t)) ≡ true
unfolding all_below pair_ok
pair_table = refl

set_bit : ℕ → ℕ → ℕ → Bool
unfolding ports_from_bitmap elem
set_bit b q p =
    same (in_map p (bit_or b (bit (suc q)))) (in_map p b || suc q == p)
    && ltb (bit_or b (bit (suc q))) 256

bit_table : all_below 256 (λ b. all_below 8 (λ q. all_below 9 (set_bit b q))) ≡ true
unfolding all_below set_bit
bit_table = refl

same→eq : (a b c : Bool) → (same a b && c) ≡ true → (a ≡ b) × (c ≡ true)
same→eq a b c h = (ground arith, ground arith)

in_map-bit :
    (b q p : ℕ)
    → IsByte b
    → q < 8
    → p < 9
    → (in_map p (bit_or b (bit (suc q))) ≡ (in_map p b || suc q == p))
      × (ltb (bit_or b (bit (suc q))) 256 ≡ true)
unfolding set_bit
in_map-bit b q p hb hq hp =
    same→eq (in_map p (bit_or b (bit (suc q)))) (in_map p b || suc q == p)
      (ltb (bit_or b (bit (suc q))) 256)
      (all_below_sound 9 (set_bit b q) p
        (all_below_sound 8 (λ k. all_below 9 (set_bit b k)) q
          (all_below_sound 256 (λ c. all_below 8 (λ k. all_below 9 (set_bit c k))) b bit_table hb)
          hq)
        hp)

both→eq : (a b c d : ℕ) → (a == b && c == d) ≡ true → (a ≡ b) × (c ≡ d)
both→eq a b c d h = (ground (arith, h), ground (arith, h))

pair_table_at :
    (t u : ℕ)
    → IsByte t
    → IsByte u
    → (bit_and t (bit_or t u) ≡ t) × (and_not (bit_or t u) t ≡ and_not u t)
unfolding pair_ok
pair_table_at t u ht hu =
    both→eq (bit_and t (bit_or t u)) t (and_not (bit_or t u) t) (and_not u t) (
      all_below_sound 256 (pair_ok t) u
        (all_below_sound 256 (λ t'. all_below 256 (pair_ok t')) t pair_table ht) hu)

-- The next value of the loop of PortBitmap: a byte with one more port.
abbrev next_map : ℕ → ℕ → ℕ
next_map b q = if leb 1 q && leb q 8 then bit_or b (bit q) else b

and_true : (a b : Bool) → (a || b) ≡ (a || (b && true))
and_true a b = ground arith

in_map_next :
    (b q p : ℕ)
    → IsByte b
    → p < 9
    → (in_map p (next_map b q) ≡ (in_map p b || (q == p && (leb 1 q && leb q 8))))
      × (IsByte (next_map b q))
in_map_next b zero p hb hp = (ground arith, hb)
in_map_next b (suc q) p hb hp = elim (Bool-cases (ltb q 8)) [
  | inl inside ↦
      let (e, byte) = in_map-bit b q p hb (ltb→lt q 8 inside) hp in
      let range : (leb 1 (suc q) && leb (suc q) 8) ≡ true = ground (arith, inside) in
      rw range (e ∙ and_true (in_map p b) (suc q == p), ltb→lt (bit_or b (bit (suc q))) 256 byte)
  | inr outside ↦
      let range : (leb 1 (suc q) && leb (suc q) 8) ≡ false = ground (arith, outside) in
      rw range (ground arith, hb)
]

abbrev ranged : ℕ → List ℕ → Bool
ranged p ports = elem p ports && (leb 1 p && leb p 8)

one_more :
    (seen : Bool) (p q : ℕ) (ports : List ℕ)
    → ((seen || (q == p && (leb 1 q && leb q 8))) || ranged p ports)
      ≡ (seen || ranged p (q ∷ ports))
unfolding elem
one_more seen p q ports = elim (Bool-cases (q == p)) [
  | inl e ↦ let at_p : q ≡ p = (==_iff q p).0 e in rw (e, at_p) (ground arith)
  | inr n ↦ ground (arith, n)
]

add_ports-ranged :
    (b p : ℕ) (ports : List ℕ)
    → IsByte b
    → p < 9
    → (in_map p (add_ports b ports) ≡ (in_map p b || ranged p ports)) × IsByte (add_ports b ports)
unfolding add_ports elem
add_ports-ranged b p [] hb hp = (ground arith, hb)
add_ports-ranged b p (q ∷ ports) hb hp =
    let (e, byte) = in_map_next b q p hb hp in
    let (rest, bound) = add_ports-ranged (next_map b q) p ports byte hp in
    (rest ∙ rw e (one_more (in_map p b) p q ports), bound)

in_map_above :
    (rounds start p b : ℕ) → start + rounds ≤ p → elem p (ports_from rounds start b) ≡ false
unfolding ports_from elem
in_map_above zero start p b h = refl
in_map_above (suc rounds) start p b h = ground (arith, in_map_above rounds (start + 1) p b)

in_map_9 : (p b : ℕ) → ltb p 9 ≡ false → in_map p b ≡ false
unfolding ports_from_bitmap
in_map_9 p b h = in_map_above 8 1 p b (ground (arith, h))

port_bitmap-IsByte : (ports : List ℕ) → IsByte (port_bitmap ports)
unfolding port_bitmap
port_bitmap-IsByte ports = (add_ports-ranged 0 0 ports (omega arith) (omega arith)).1

empty_table : all_below 9 (λ p. not (in_map p 0)) ≡ true
unfolding all_below ports_from_bitmap elem
empty_table = refl

no_bits : (p : ℕ) → p < 9 → (ports : List ℕ) → (in_map p 0 || ranged p ports) ≡ ranged p ports
no_bits p h ports =
    let none_there : not (in_map p 0) ≡ true =
      all_below_sound 9 (λ q. not (in_map q 0)) p empty_table h in
    ground (arith, none_there)

-- PortsFromBitmap of PortBitmap: exactly the ports of the list that lie between 1 and 8.
pub ports_from_bitmap-port_bitmap :
    (p : ℕ) (ports : List ℕ)
    → elem p (ports_from_bitmap (port_bitmap ports)) ≡ (elem p ports && (leb 1 p && leb p 8))
unfolding port_bitmap
ports_from_bitmap-port_bitmap p ports = elim (Bool-cases (ltb p 9)) [
  | inl below ↦
      (add_ports-ranged 0 p ports (omega arith) (ltb→lt p 9 below)).0
      ∙ no_bits p (ltb→lt p 9 below) ports
  | inr above ↦ rw (in_map_9 p (add_ports 0 ports) above) (ground (arith, above))
]

-- A VLAN entry with a 16-bit ID that Set8021QVLAN sends reads back, as Get8021QVLANs reads
-- it, with its ID, the bitmap of the tagged ports, and that of the untagged ports less the
-- tagged ones.
pub decode_entries-vlan_payload :
    (vid : ℕ) (tagged untagged : List ℕ)
    → IsU16 vid
    → decode_entries (vlan_payload vid tagged untagged)
      ≡ record {
        vlan_id = vid;
        tagged = port_bitmap tagged;
        untagged = and_not (port_bitmap untagged) (port_bitmap tagged);
      }
        ∷ []
unfolding decode_entries decode_entry vlan_payload
decode_entries-vlan_payload vid tagged untagged u16 =
    let (t, u) =
      pair_table_at (port_bitmap tagged) (port_bitmap untagged) (port_bitmap-IsByte tagged)
        (port_bitmap-IsByte untagged) in
    let id : be16 (high vid) (low vid) ≡ vid = omega arith in rw (id, t, u) refl
