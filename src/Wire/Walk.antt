-- ===== src/Wire/Walk.antt =====
-- WalkTLVs (internal/nsdp/wire.go): what it reads from any packet, and from a region of entries.
use terraform_provider_netge.Base.{
  ℕ, zero, suc, ◌+◌, ◌-◌, ◌≤◌, ◌<◌, ◌≡◌, ◌≢◌, refl, sym, ap, ◌∙◌, inl, inr, Bool, true, false, List,
  [], ◌∷◌, ◌++◌, append_assoc, append-nil, arith, ltb, ◌==◌, ==_iff, ltb→lt, Bool-cases, length,
  take, drop, length-append, length-drop, length-take, take_of_append, drop_of_append,
  take-append-drop, All, All-drop, Bytes, IsByte, IsU16, be16,
}
use native.Mathlib.Nat.{zero-add, suc-add}
use terraform_provider_netge.Wire.{
  Tlv, tlv_term_tag, terminator, tlv_bytes, region, walk, walk_tlvs,
}

-- An entry that the wire format can carry.
pub record IsTlv (t : Tlv) : Type 0 where
  pub tag_u16 : IsU16 t.tag
  pub tag_ne_term : t.tag ≢ tlv_term_tag
  pub length_u16 : IsU16 (length t.value)

-- Where the walk stops, with its flag: at the terminator, with fewer than four bytes left, or
-- at an entry that promises more bytes than the packet has.
abbrev pub StopsAt : Bool → Bytes → Type 0
StopsAt true (a ∷ b ∷ c ∷ d ∷ rest) = (be16 a b ≢ tlv_term_tag) × (length rest < be16 c d)
StopsAt false (a ∷ b ∷ c ∷ d ∷ rest) = be16 a b ≡ tlv_term_tag
StopsAt truncated rest = truncated ≡ false

-- One round of the walk on an entry.
walk-tlv_bytes :
    (fuel : ℕ) (t : Tlv) (rest : Bytes)
    → IsTlv t
    → walk (suc fuel) (tlv_bytes t ++ rest) ≡ (t ∷ (walk fuel rest).0, (walk fuel rest).1)
unfolding walk
walk-tlv_bytes fuel t rest h =
    ground
      (arith, length-append t.value rest, take_of_append t.value rest, drop_of_append t.value rest)

pub walk-region :
    (ts : List Tlv) (fuel : ℕ) (rest : Bytes)
    → All IsTlv ts
    → walk (length ts + fuel) (region ts ++ rest) ≡ (ts ++ (walk fuel rest).0, (walk fuel rest).1)
unfolding region
walk-region [] fuel rest h = rw zero-add
walk-region (t ∷ ts) fuel rest h = rw suc-add (
    rw (append_assoc (tlv_bytes t) (region ts) rest) (
      walk-tlv_bytes (length ts + fuel) t (region ts ++ rest) h.0
      ∙ ap (λ (p : List Tlv × Bool). (t ∷ p.0, p.1)) (walk-region ts fuel rest h.1)))

-- A region reads back as its entries, whatever follows the terminator.
pub walk-region_terminated :
    (ts : List Tlv) (fuel : ℕ) (rest : Bytes)
    → All IsTlv ts
    → length ts < fuel
    → walk fuel (region ts ++ (terminator ++ rest)) ≡ (ts, false)
unfolding walk
walk-region_terminated ts fuel rest h lt =
    let k = fuel - length ts - 1 in
    let e : fuel ≡ length ts + suc k = omega arith in
    rw e (walk-region ts (suc k) (terminator ++ rest) h ∙ rw append-nil)

-- What the walk reads off the bytes `pkt`: the entries `w.0` and the flag `w.1`.
pub record Splits (pkt : Bytes) (w : List Tlv × Bool) : Type 0 where
  pub rest : Bytes
  pub splits : pkt ≡ region w.0 ++ rest
  pub entries : All IsTlv w.0
  pub stops : StopsAt w.1 rest

tlv_bytes_of_wire :
    (a b c d : ℕ) (rest : Bytes)
    → IsByte a
    → IsByte b
    → IsByte c
    → IsByte d
    → be16 c d ≤ length rest
    → a ∷ b ∷ c ∷ d ∷ rest
      ≡ tlv_bytes (record { tag = be16 a b; value = take (be16 c d) rest }) ++ drop (be16 c d) rest
tlv_bytes_of_wire a b c d rest ha hb hc hd h =
    ground (arith, length-take (be16 c d) rest, take-append-drop (be16 c d) rest)

-- The entry that the walk reads in front of a packet that splits.
Splits-cons :
    (a b c d : ℕ) (rest : Bytes) (w : List Tlv × Bool)
    → All IsByte (a ∷ b ∷ c ∷ d ∷ rest)
    → (be16 a b == tlv_term_tag) ≡ false
    → ltb (length rest) (be16 c d) ≡ false
    → Splits (drop (be16 c d) rest) w
    → Splits
        (a ∷ b ∷ c ∷ d ∷ rest)
        (record { tag = be16 a b; value = take (be16 c d) rest } ∷ w.0, w.1)
unfolding region
Splits-cons a b c d rest w (ha, (hb, (hc, (hd, hr)))) more fits s =
    let t : Tlv = record { tag = be16 a b; value = take (be16 c d) rest } in
    record {
      rest = s.rest;
      splits =
          tlv_bytes_of_wire a b c d rest ha hb hc hd (ground arith)
          ∙ ap (λ (r : Bytes). tlv_bytes t ++ r) s.splits
          ∙ sym (append_assoc (tlv_bytes t) (region w.0) s.rest);
      entries = (
        record {
          tag_u16 = omega arith;
          tag_ne_term = ground arith;
          length_u16 = omega (arith, length-take (be16 c d) rest);
        },
        s.entries,
      );
      stops = s.stops;
    }

walk-Splits :
    (fuel : ℕ) (pkt : Bytes) → All IsByte pkt → length pkt ≤ fuel → Splits pkt (walk fuel pkt)
unfolding walk region
walk-Splits zero [] h lt = record { rest = []; splits = refl; entries = tt; stops = refl }
walk-Splits zero (a ∷ r) h lt = absurd (omega arith)
walk-Splits (suc fuel) (a ∷ b ∷ c ∷ d ∷ rest) h lt = elim (Bool-cases (be16 a b == tlv_term_tag)) [
  | inl term ↦ rw term (record {
    rest = a ∷ b ∷ c ∷ d ∷ rest;
    splits = refl;
    entries = tt;
    stops = (==_iff (be16 a b) tlv_term_tag).0 term;
  })
  | inr more ↦ elim (Bool-cases (ltb (length rest) (be16 c d))) [
    | inl short ↦
        rw (more, short)
          (record {
            rest = a ∷ b ∷ c ∷ d ∷ rest;
            splits = refl;
            entries = tt;
            stops = (ground arith, ltb→lt _ _ short);
          })
    | inr fits ↦
        let later =
          walk-Splits fuel (drop (be16 c d) rest) (All-drop IsByte _ rest h.1.1.1.1)
            (omega (arith, length-drop (be16 c d) rest)) in
        rw (more, fits) (Splits-cons a b c d rest _ h more fits later)
  ]
]
walk-Splits (suc fuel) rest h lt = record { rest = rest; splits = refl; entries = tt; stops = refl }

-- WalkTLVs of any packet of bytes: those behind the header are exactly the entries that it
-- returns, each of them well formed, and a rest at which the flag says why the walk stopped.
pub walk_tlvs-Splits : (pkt : Bytes) → All IsByte pkt → Splits (drop 32 pkt) (walk_tlvs pkt)
unfolding walk_tlvs
walk_tlvs-Splits pkt h =
    walk-Splits (length pkt) (drop 32 pkt) (All-drop IsByte 32 pkt h)
      (omega (arith, length-drop 32 pkt))
