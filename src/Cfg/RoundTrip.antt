-- ===== src/Cfg/RoundTrip.antt =====
-- ParseConfig (internal/cfg/config.go) is the inverse of the plain encoding of a backup.
use terraform_provider_netge.Base.{
  ℕ, ◌%◌, ◌<◌, ◌≡◌, refl, sym, inl, inr, true, List, [], ◌∷◌, ◌++◌, arith, ◌==◌, ==_iff, Bool-cases,
  length, All, Bytes, IsByte, high, low, be16, equal, equal_iff, none, Option-cases, ok, >>=-eq-ok,
}
use terraform_provider_netge.Cfg.{
  Section, Config, magic, checksum, checksum_mod, parse_sections, check_header, parse_payload,
  parse_config,
}
use terraform_provider_netge.Cfg.Sum.{word_sum, checksum-word_sum}
use terraform_provider_netge.Cfg.Sections.{
  IsSection, Reads, sections_bytes, parse_sections-Reads, parse_sections_complete,
}

abbrev pub payload_checksum : List Section → ℕ
payload_checksum sections = word_sum (sections_bytes sections) % checksum_mod

-- The backup that holds the sections.
abbrev pub encode_config : List Section → Bytes
encode_config sections =
    let payload = sections_bytes sections in
    let sum = payload_checksum sections in
    magic ++ (high (length payload) ∷ low (length payload) ∷ high sum ∷ low sum ∷ payload)

-- What a backup can hold.
pub record IsConfig (sections : List Section) : Type 0 where
  pub each : All IsSection sections
  pub payload_bytes : All IsByte (sections_bytes sections)
  pub payload_even : length (sections_bytes sections) % 2 ≡ 0
  pub payload_u16 : length (sections_bytes sections) < 65536

encode_config-check_header :
    (sections : List Section) → IsConfig sections → check_header (encode_config sections) ≡ none
unfolding check_header equal
encode_config-check_header sections h =
    let e : be16 (high (length (sections_bytes sections))) (low (length (sections_bytes sections)))
        ≡ length (sections_bytes sections) =
      omega (arith, h.payload_u16) in
    ground (arith, e, h.payload_even)

-- ParseConfig reads every well-formed backup back.
pub parse_config-encode_config :
    (sections : List Section)
    → IsConfig sections
    → parse_config (encode_config sections)
      ≡ ok (record {
        checksum = payload_checksum sections;
        sections = sections;
        raw = encode_config sections;
      })
unfolding parse_config parse_payload
parse_config-encode_config sections h =
    let payload : Bytes = sections_bytes sections in
    let sum : ℕ = payload_checksum sections in
    let m : be16 (high sum) (low sum) ≡ sum = omega arith in
    let same : (sum == sum) ≡ true = ground arith in
    let read : parse_sections (length payload) payload ≡ ok sections =
      parse_sections_complete sections (length payload) h.each (omega arith) in
    rw (encode_config-check_header sections h, parse_config)
      (rw (checksum-word_sum payload h.payload_bytes h.payload_u16 h.payload_even)
        (rw (m, same, read)))

-- What an accepted backup is.
pub record Accepts (input : Bytes) (c : Config) : Type 0 where
  pub canonical : input ≡ encode_config c.sections
  pub well_formed : IsConfig c.sections
  pub raw_kept : c.raw ≡ input
  pub checksum_kept : c.checksum ≡ payload_checksum c.sections

record Checked (a b c d e f : ℕ) (payload : Bytes) : Type 0 where
  signature : a ∷ b ∷ c ∷ d ∷ [] ≡ magic
  length_field : be16 e f ≡ length payload
  even : length payload % 2 ≡ 0

check_header-Checked :
    (a b c d e f g h : ℕ) (payload : Bytes)
    → check_header (a ∷ b ∷ c ∷ d ∷ e ∷ f ∷ g ∷ h ∷ payload) ≡ none
    → Checked a b c d e f payload
unfolding check_header
check_header-Checked a b c d e f g h payload r = record {
  signature = ground (arith, equal_iff (a ∷ b ∷ c ∷ d ∷ []) magic);
  length_field = ground arith;
  even = ground arith;
}

module _ (a b c d e f g h : ℕ) (payload : Bytes) where
  accepted : List Section → Config
  accepted sections = record {
    checksum = be16 g h;
    sections = sections;
    raw = a ∷ b ∷ c ∷ d ∷ e ∷ f ∷ g ∷ h ∷ payload;
  }

  -- The file behind the checks, once its checksum and its sections are known.
  accepted-Accepts :
      (sections : List Section)
      → All IsByte (a ∷ b ∷ c ∷ d ∷ e ∷ f ∷ g ∷ h ∷ payload)
      → Checked a b c d e f payload
      → word_sum payload % checksum_mod ≡ be16 g h
      → Reads payload (ok sections)
      → Accepts (a ∷ b ∷ c ∷ d ∷ e ∷ f ∷ g ∷ h ∷ payload) (accepted sections)
  unfolding accepted
  accepted-Accepts sections bytes k sum r = record {
    canonical = rw (← r.0) (ground (arith, sum, k.signature, k.length_field));
    well_formed = record {
      each = r.1;
      payload_bytes = rw r.0 at bytes.1.1.1.1.1.1.1.1;
      payload_even = rw r.0 at k.even;
      payload_u16 = rw r.0 at short;
    };
    raw_kept = refl;
    checksum_kept = rw r.0 at (sym sum);
  }
    where
      short : length payload < 65536
      short = omega (arith, k.length_field)

  parse_payload-Accepts :
      (x : Config)
      → All IsByte (a ∷ b ∷ c ∷ d ∷ e ∷ f ∷ g ∷ h ∷ payload)
      → Checked a b c d e f payload
      → parse_payload (a ∷ b ∷ c ∷ d ∷ e ∷ f ∷ g ∷ h ∷ payload) ≡ ok x
      → Accepts (a ∷ b ∷ c ∷ d ∷ e ∷ f ∷ g ∷ h ∷ payload) x
  unfolding parse_payload accepted
  parse_payload-Accepts x bytes k p = elim (Bool-cases (sum == be16 g h)) [
    | inr bad ↦ cc (rw (summed, bad) at p)
    | inl same ↦
        let (sections, read, made) =
          >>=-eq-ok (parse_sections (length payload) payload) (λ sections. ok (accepted sections))
            (rw (summed, same) at p) in
        let found : accepted sections ≡ x = cc made in
        rw (← found) (
          accepted-Accepts sections bytes k ((==_iff sum (be16 g h)).0 same) (
            rw read at
              (parse_sections-Reads (length payload) payload bytes.1.1.1.1.1.1.1.1 (omega arith))))
  ]
    where
      sum : ℕ
      sum = word_sum payload % checksum_mod

      summed : checksum payload ≡ ok sum
      summed =
          checksum-word_sum payload bytes.1.1.1.1.1.1.1.1 (omega (arith, k.length_field)) k.even

-- Whatever ParseConfig accepts of a string of bytes is exactly the encoding of the sections
-- that it returns.
pub parse_config-Accepts :
    (input : Bytes) (c : Config) → All IsByte input → parse_config input ≡ ok c → Accepts input c
unfolding parse_config check_header
parse_config-Accepts (a ∷ b ∷ c ∷ d ∷ e ∷ f ∷ g ∷ h ∷ payload) x bytes p =
    elim (Option-cases (check_header (a ∷ b ∷ c ∷ d ∷ e ∷ f ∷ g ∷ h ∷ payload))) [
      | inl n ↦
          parse_payload-Accepts a b c d e f g h payload x bytes
            (check_header-Checked a b c d e f g h payload n) (rw (n, parse_config) at p)
      | inr (y, n) ↦ cc (rw (n, parse_config) at p)
    ]
parse_config-Accepts input c bytes p = cc
