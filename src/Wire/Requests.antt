-- ===== src/Wire/Requests.antt =====
-- The request builders (internal/nsdp/wire.go), and the tag byte at wire offset 32.
use terraform_provider_netge.Base.{
  ℕ, suc, ◌≤◌, ◌≡◌, ◌==◌, refl, ap, ◌∙◌, sym, some, List, [], ◌∷◌, ◌++◌, append_assoc, append-nil,
  arith, length, drop, Bytes, IsByte, length-append, drop_of_append, All, false,
}
use terraform_provider_netge.Wire.{
  Tlv, cmd_get, cmd_set, terminator, proto_version, magic, agent_id, be32_bytes, encode_header,
  get_entries, encode_get_request, tlv_bytes, append_tlvs, encode_set_tlvs, region, walk_tlvs,
}
use terraform_provider_netge.Wire.Walk.{IsTlv, walk-region_terminated}
use mathlib.Core.Option
use native.Mathlib.Numerals.{add-one}

-- The 32 bytes of a request header.
abbrev pub header : ℕ → Bytes → Bytes → ℕ → Bytes
header cmd mac agent seq =
    (proto_version ∷ cmd ∷ 0 ∷ 0 ∷ 0 ∷ 0 ∷ 0 ∷ 0 ∷ [])
    ++ (mac ++ (agent_id agent ++ (be32_bytes seq ++ (magic ++ (0 ∷ 0 ∷ 0 ∷ 0 ∷ [])))))

pub six_bytes : (m : Bytes) → length m ≡ 6 → (a b c d e f : ℕ) × (m ≡ a ∷ b ∷ c ∷ d ∷ e ∷ f ∷ [])
six_bytes (a ∷ b ∷ c ∷ d ∷ e ∷ f ∷ []) h = (a, b, c, d, e, f, refl)
six_bytes (a ∷ b ∷ c ∷ d ∷ e ∷ f ∷ g ∷ r) h = absurd (omega arith)
six_bytes m h = absurd (omega arith)

pub length-agent_id : (agent : Bytes) → length (agent_id agent) ≡ 6
length-agent_id agent = ground arith

-- What EncodeHeader builds from a MAC of six bytes: the header, and the byte at offset 32.
pub encode_header_lem :
    (mac agent : Bytes) (seq : ℕ)
    → length mac ≡ 6
    → encode_header mac agent seq ≡ some (header cmd_get mac agent seq ++ (0 ∷ []))
unfolding encode_header
encode_header_lem mac agent seq h =
    let (a, b, c, d, e, f, m) = six_bytes mac h in
    let (a', b', c', d', e', f', g) = six_bytes (agent_id agent) (length-agent_id agent) in
    rw (m, g)

suc-ne-zero : (i : ℕ) → (suc i == 0) ≡ false
suc-ne-zero i = ground arith

-- Behind the first entry every round appends a full entry.
append_tlvs-region :
    (ts : List Tlv) (req : Bytes) (i : ℕ) → append_tlvs req (suc i) ts ≡ req ++ region ts
unfolding append_tlvs region
append_tlvs-region [] req i = sym (append-nil req)
append_tlvs-region (t ∷ ts) req i =
    rw (add-one, suc-ne-zero i)
      (append_tlvs-region ts (req ++ tlv_bytes t) (suc i)
        ∙ append_assoc req (tlv_bytes t) (region ts))

pub length-header :
    (cmd : ℕ) (mac agent : Bytes) (seq : ℕ)
    → length mac ≡ 6
    → length (header cmd mac agent seq) ≡ 32
length-header cmd mac agent seq h = omega (
  arith,
  length-append mac (agent_id agent ++ (be32_bytes seq ++ (magic ++ (0 ∷ 0 ∷ 0 ∷ 0 ∷ [])))),
  length-append (agent_id agent) (be32_bytes seq ++ (magic ++ (0 ∷ 0 ∷ 0 ∷ 0 ∷ []))),
  length-agent_id agent,
)

drop-header :
    (cmd : ℕ) (mac agent : Bytes) (seq : ℕ) (rest : Bytes)
    → length mac ≡ 6
    → drop 32 (header cmd mac agent seq ++ rest) ≡ rest
drop-header cmd mac agent seq rest h =
    rw (← length-header cmd mac agent seq h) (drop_of_append (header cmd mac agent seq) rest)

-- The tag byte that the first entry writes over offset 32 makes the frame the SET header, the
-- full entries and the terminator.
pub encode_set_tlvs-region :
    (mac agent : Bytes) (seq : ℕ) (t : Tlv) (ts : List Tlv)
    → length mac ≡ 6
    → encode_set_tlvs mac agent seq (t ∷ ts)
      ≡ some (header cmd_set mac agent seq ++ (region (t ∷ ts) ++ terminator))
unfolding encode_set_tlvs region
encode_set_tlvs-region mac agent seq t ts h =
    let (a, b, c, d, e, f, m) = six_bytes mac h in
    let (a', b', c', d', e', f', g) = six_bytes (agent_id agent) (length-agent_id agent) in
    rw (m, g) (rw (append_tlvs-region ts _ 0))

-- The entries that a switch reads off a GET request: one for each tag, and a zero entry.
abbrev pub get_tlvs : Bytes → List Tlv
get_tlvs [] = record { tag = 0; value = [] } ∷ []
get_tlvs (tag ∷ tags) = record { tag = tag; value = [] } ∷ get_tlvs tags

get_entries-region :
    (tags : Bytes)
    → All IsByte tags
    → 0 ∷ (get_entries tags ++ (0 ∷ 0 ∷ 0 ∷ terminator)) ≡ region (get_tlvs tags) ++ terminator
unfolding get_entries region
get_entries-region [] h = refl
get_entries-region (tag ∷ tags) h = ground (arith, get_entries-region tags h.1)

pub encode_get_request-region :
    (mac agent : Bytes) (seq : ℕ) (tags : Bytes)
    → length mac ≡ 6
    → All IsByte tags
    → encode_get_request mac agent seq tags
      ≡ some (header cmd_get mac agent seq ++ (region (get_tlvs tags) ++ terminator))
unfolding encode_get_request
encode_get_request-region mac agent seq tags h k =
    let (a, b, c, d, e, f, m) = six_bytes mac h in
    let (a', b', c', d', e', f', g) = six_bytes (agent_id agent) (length-agent_id agent) in
    rw (← get_entries-region tags k) (rw (m, g))

pub length-region_lt : (ts : List Tlv) (rest : Bytes) → length ts ≤ length (region ts ++ rest)
unfolding region
length-region_lt [] rest = omega arith
length-region_lt (t ∷ ts) rest = omega (
  arith,
  length-region_lt ts rest,
  ap length (append_assoc (tlv_bytes t) (region ts) rest),
  length-append t.value (region ts ++ rest),
)

-- Walking such a frame gives the entries.
pub walk_tlvs-header :
    (cmd : ℕ) (mac agent : Bytes) (seq : ℕ) (ts : List Tlv)
    → length mac ≡ 6
    → All IsTlv ts
    → walk_tlvs (header cmd mac agent seq ++ (region ts ++ terminator)) ≡ (ts, false)
unfolding walk_tlvs
walk_tlvs-header cmd mac agent seq ts h k =
    rw (drop-header cmd mac agent seq (region ts ++ terminator) h) (
      walk-region_terminated ts (length (header cmd mac agent seq ++ (region ts ++ terminator))) []
        k
        (omega (
          arith,
          length-append (header cmd mac agent seq) (region ts ++ terminator),
          length-region_lt ts terminator,
          length-header cmd mac agent seq h,
        )))

-- A SET request of one or more well-formed entries, with a manager MAC of 6 bytes, reads back
-- as its entries, the first of which straddles offset 32.
pub walk_tlvs-encode_set_tlvs :
    (mac agent : Bytes) (seq : ℕ) (t : Tlv) (ts : List Tlv)
    → length mac ≡ 6
    → All IsTlv (t ∷ ts)
    → Option.map walk_tlvs (encode_set_tlvs mac agent seq (t ∷ ts)) ≡ some (t ∷ ts, false)
walk_tlvs-encode_set_tlvs mac agent seq t ts h k =
    rw (encode_set_tlvs-region mac agent seq t ts h)
      (ap some (walk_tlvs-header cmd_set mac agent seq (t ∷ ts) h k))

get_tlvs-IsTlv : (tags : Bytes) → All IsByte tags → All IsTlv (get_tlvs tags)
get_tlvs-IsTlv [] h = omega arith
get_tlvs-IsTlv (tag ∷ tags) h = (omega arith, get_tlvs-IsTlv tags h.1)

-- A GET request, with a manager MAC of 6 bytes and one-byte tags, reads back as one empty
-- entry for each tag and the zero entry of the trailer.
pub walk_tlvs-encode_get_request :
    (mac agent : Bytes) (seq : ℕ) (tags : Bytes)
    → length mac ≡ 6
    → All IsByte tags
    → Option.map walk_tlvs (encode_get_request mac agent seq tags) ≡ some (get_tlvs tags, false)
walk_tlvs-encode_get_request mac agent seq tags h k =
    rw (encode_get_request-region mac agent seq tags h k)
      (ap some (walk_tlvs-header cmd_get mac agent seq (get_tlvs tags) h (get_tlvs-IsTlv tags k)))
