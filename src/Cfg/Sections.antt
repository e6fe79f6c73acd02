-- ===== src/Cfg/Sections.antt =====
-- parseSections and splitSectionBody (internal/cfg/config.go), against the plain encoding of a
-- list of sections.
use terraform_provider_netge.Base.{
  ℕ, zero, suc, ◌≤◌, ◌<◌, ◌≡◌, ◌≢◌, refl, ap, ◌∙◌, inl, inr, false, List, [], ◌∷◌, ◌++◌, arith, ltb,
  ◌==◌, ==_iff, Bool-cases, length, take, drop, length-append, length-take, length-drop,
  take_of_append, drop_of_append, take-append-drop, All, All-drop, Bytes, IsByte, high, low, be16,
  Result, ok, err, ◌>>=◌,
}
use terraform_provider_netge.Cfg.{
  Section, Error, stuck, section_tag, split_section_body, parse_sections,
}

-- One record of the payload: tag 1, the length, the name, NUL and data.
abbrev pub section_bytes : Section → Bytes
section_bytes s = 0 ∷ 1 ∷ high (length s.raw) ∷ low (length s.raw) ∷ s.raw

unfoldable pub sections_bytes : List Section → Bytes
sections_bytes [] = []
sections_bytes (s ∷ sections) = section_bytes s ++ sections_bytes sections

-- A section that the format can carry.
pub record IsSection (s : Section) : Type 0 where
  pub body : s.raw ≡ s.name ++ (0 ∷ s.contents)
  pub name_no_nul : All (λ b. b ≢ 0) s.name
  pub length_u16 : length s.raw < 65536

-- What a result of splitSectionBody says of the body.
abbrev SplitsBody : Bytes → Result Error (Bytes × Bytes) → Type 0
SplitsBody body (ok p) = (body ≡ p.0 ++ (0 ∷ p.1)) × All (λ b. b ≢ 0) p.0
SplitsBody body (err e) = e ≢ stuck

SplitsBody-cons :
    (b : ℕ) (body : Bytes) (r : Result Error (Bytes × Bytes))
    → b ≢ 0
    → SplitsBody body r
    → SplitsBody (b ∷ body) (r >>= λ p. ok (b ∷ p.0, p.1))
SplitsBody-cons b body (ok p) ne h = (ap (◌∷◌ b) h.0, (ne, h.1))
SplitsBody-cons b body (err e) ne h = h

split_section_body-SplitsBody : (body : Bytes) → SplitsBody body (split_section_body body)
unfolding split_section_body
split_section_body-SplitsBody [] = λ e. cc
split_section_body-SplitsBody (b ∷ body) = elim (Bool-cases (b == 0)) [
  | inl nul ↦ rw nul (ap (λ (x : ℕ). x ∷ body) ((==_iff b 0).0 nul), tt)
  | inr more ↦ rw more (
      SplitsBody-cons b body (split_section_body body) (ground arith)
        (split_section_body-SplitsBody body))
]

split_section_body_complete :
    (name contents : Bytes)
    → All (λ b. b ≢ 0) name
    → split_section_body (name ++ (0 ∷ contents)) ≡ ok (name, contents)
unfolding split_section_body
split_section_body_complete [] contents h = refl
split_section_body_complete (b ∷ name) contents h =
    ground (arith, split_section_body_complete name contents h.1)

-- What a result of parseSections says of the payload.
abbrev pub Reads : Bytes → Result Error (List Section) → Type 0
Reads payload (ok sections) = (payload ≡ sections_bytes sections) × All IsSection sections
Reads payload (err e) = e ≢ stuck

section_bytes_of_wire :
    (a b c d : ℕ) (rest : Bytes) (n m : Bytes)
    → All IsByte (a ∷ b ∷ c ∷ d ∷ [])
    → be16 a b ≡ section_tag
    → be16 c d ≤ length rest
    → a ∷ b ∷ c ∷ d ∷ rest
      ≡ section_bytes (record { name = n; contents = m; raw = take (be16 c d) rest })
        ++ drop (be16 c d) rest
section_bytes_of_wire a b c d rest n m h tag fits =
    ground (arith, length-take (be16 c d) rest, take-append-drop (be16 c d) rest)

Reads-cons :
    (a b c d : ℕ) (rest : Bytes) (r : Result Error (Bytes × Bytes))
    (later : Result Error (List Section))
    → All IsByte (a ∷ b ∷ c ∷ d ∷ [])
    → be16 a b ≡ section_tag
    → be16 c d ≤ length rest
    → SplitsBody (take (be16 c d) rest) r
    → Reads (drop (be16 c d) rest) later
    → Reads (a ∷ b ∷ c ∷ d ∷ rest) (
        r >>= λ p. later >>= λ sections.
        ok (record { name = p.0; contents = p.1; raw = take (be16 c d) rest } ∷ sections))
unfolding sections_bytes
Reads-cons a b c d rest (err e) later h tag fits s l = s
Reads-cons a b c d rest (ok p) (err e) h tag fits s l = l
Reads-cons a b c d rest (ok p) (ok sections) h tag fits s l =
    let t : Section = record { name = p.0; contents = p.1; raw = take (be16 c d) rest } in
    (
      section_bytes_of_wire a b c d rest p.0 p.1 h tag fits
          ∙ ap (λ (r : Bytes). section_bytes t ++ r) l.0,
      (
        record {
          body = s.0;
          name_no_nul = s.1;
          length_u16 = omega (arith, length-take (be16 c d) rest);
        },
        l.1,
      ),
    )

-- A payload that parses is exactly the encoding of the sections returned: nothing is skipped,
-- nothing is left over, and every name ends at its first NUL. With fuel for the payload no loop
-- runs out of it.
pub parse_sections-Reads :
    (fuel : ℕ) (payload : Bytes)
    → All IsByte payload
    → length payload ≤ fuel
    → Reads payload (parse_sections fuel payload)
unfolding parse_sections sections_bytes
parse_sections-Reads fuel [] h lt = (refl, tt)
parse_sections-Reads zero (a ∷ payload) h lt = absurd (omega arith)
parse_sections-Reads (suc fuel) (a ∷ b ∷ c ∷ d ∷ rest) h lt =
    elim (Bool-cases (be16 a b == section_tag)) [
      | inr bad ↦ rw bad (λ e. cc)
      | inl tag ↦ elim (Bool-cases (ltb (length rest) (be16 c d))) [
        | inl over ↦ rw (tag, over) (λ e. cc)
        | inr fits ↦
            let later =
              parse_sections-Reads fuel (drop (be16 c d) rest) (All-drop IsByte _ rest h.1.1.1.1)
                (omega (arith, length-drop (be16 c d) rest)) in
            rw (tag, fits)
              (Reads-cons a b c d rest (split_section_body (take (be16 c d) rest))
                (parse_sections fuel (drop (be16 c d) rest)) (omega arith)
                ((==_iff (be16 a b) section_tag).0 tag) (ground arith)
                (split_section_body-SplitsBody (take (be16 c d) rest)) later)
      ]
    ]
parse_sections-Reads (suc fuel) payload h lt = λ e. cc

-- Every list of well-formed sections reads back, given fuel for the length of the payload.
pub parse_sections_complete :
    (sections : List Section) (fuel : ℕ)
    → All IsSection sections
    → length (sections_bytes sections) ≤ fuel
    → parse_sections fuel (sections_bytes sections) ≡ ok sections
unfolding parse_sections sections_bytes
parse_sections_complete [] fuel h lt = refl
parse_sections_complete (s ∷ sections) zero h lt = absurd (omega arith)
parse_sections_complete (s ∷ sections) (suc fuel) h lt =
    let n : be16 (high (length s.raw)) (low (length s.raw)) ≡ length s.raw =
      omega (arith, h.0.length_u16) in
    let fits : ltb (length (s.raw ++ sections_bytes sections)) (length s.raw) ≡ false =
      ground (arith, length-append s.raw (sections_bytes sections)) in
    let read : split_section_body s.raw ≡ ok (s.name, s.contents) =
      ap split_section_body h.0.body
      ∙ split_section_body_complete s.name s.contents h.0.name_no_nul in
    let later : parse_sections fuel (sections_bytes sections) ≡ ok sections =
      parse_sections_complete sections fuel h.1
        (omega (arith, length-append s.raw (sections_bytes sections))) in
    rw (n, fits, take_of_append, drop_of_append) (rw (read, later))
