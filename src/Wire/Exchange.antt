-- ===== src/Wire/Exchange.antt =====
-- Whole exchanges (internal/nsdp/wire.go): EncodeReply, read back by ParseReply.
use terraform_provider_netge.Base.{
  ℕ, ◌+◌, ◌%◌, ◌≤◌, ◌<◌, ◌≡◌, refl, ap, ◌∙◌, sym, Bool, false, some, List, [], ◌∷◌, ◌++◌, arith,
  length, drop, ltb, Bytes, high, low, be16, length-append, length-drop, take_of_append, IsByte,
  IsU16, IsU32, All,
}
use mathlib.Core.Option
use terraform_provider_netge.Wire.{
  Tlv, Reply, status_error, reply, agent_id, terminator, proto_version, magic, be32, be32_bytes,
  encode_reply, region, walk_tlvs, expected_auth_payload, parse_reply, read_reply, finish_reply,
}
use terraform_provider_netge.Wire.Walk.{IsTlv, walk-region_terminated}
use terraform_provider_netge.Wire.Requests.{
  header, six_bytes, length-agent_id, length-header, length-region_lt,
}
use terraform_provider_netge.Wire.Requests.{encode_get_request-region, get_tlvs}
use terraform_provider_netge.Wire.Replies.{
  Answers, Answers-check_reply, parse_reply_checked, finish_reply_ok,
}
use terraform_provider_netge.Wire.{encode_get_request, cmd_get}

-- The reply to a request with the given header, in front of its payload and entries.
abbrev pub reply_header : ℕ → ℕ → ℕ → Bytes → Bytes → ℕ → Bytes
reply_header cmd status failing mac agent seq =
    (proto_version ∷ cmd ∷ status ∷ 0 ∷ high failing ∷ low failing ∷ 0 ∷ 0 ∷ [])
    ++ (mac ++ (agent_id agent ++ (be32_bytes seq ++ (magic ++ (0 ∷ 0 ∷ 0 ∷ 0 ∷ [])))))

-- EncodeReply echoes the MACs and the sequence of the request, and answers its command.
pub encode_reply-header :
    (cmd seq status failing : ℕ) (mac agent body payload : Bytes) (ts : List Tlv)
    → length mac ≡ 6
    → encode_reply (header cmd mac agent seq ++ body) status failing payload ts
      ≡ some (
          reply_header ((cmd + 1) % 256) status failing mac agent seq
          ++ (payload ++ (region ts ++ terminator)))
unfolding encode_reply
encode_reply-header cmd seq status failing mac agent body payload ts h =
    let (a, b, c, d, e, f, m) = six_bytes mac h in
    let (a', b', c', d', e', f', g) = six_bytes (agent_id agent) (length-agent_id agent) in
    rw (long, m, g)
  where
    long : ltb (length (header cmd mac agent seq ++ body)) 24 ≡ false
    long =
        ground
          (arith, length-append (header cmd mac agent seq) body, length-header cmd mac agent seq h)

read_be32 : (seq : ℕ) → IsU32 seq → be32 (be32_bytes seq) ≡ seq
read_be32 seq h = omega arith

read_be16 : (n : ℕ) → IsU16 n → be16 (high n) (low n) ≡ n
read_be16 n h = omega arith

agent_id_self : (agent : Bytes) → length agent ≡ 6 → agent_id agent ≡ agent
agent_id_self agent h = ground arith

length-region-terminator : (ts : List Tlv) → 4 ≤ length (region ts ++ terminator)
length-region-terminator ts = omega (arith, length-append (region ts) terminator)

-- The reply that the client reads off an answer.
abbrev pub echoed : ℕ → ℕ → Bytes → Bytes → ℕ → List Tlv × Bool → Reply
echoed status failing mac agent seq w = record {
  status = status;
  failing_tag = failing;
  seq = seq;
  manager_mac = mac;
  agent_mac = agent_id agent;
  tlvs = w.0;
  truncated = w.1;
}

drop-reply_header :
    (cmd status failing seq : ℕ) (mac agent rest : Bytes)
    → length mac ≡ 6
    → drop 32 (reply_header cmd status failing mac agent seq ++ rest) ≡ rest
drop-reply_header cmd status failing seq mac agent rest six =
    let (a, b, c, d, e, f, m) = six_bytes mac six in
    let (a', b', c', d', e', f', g) = six_bytes (agent_id agent) (length-agent_id agent) in
    rw (m, g)

module _ (cmd status failing seq : ℕ) (mac agent rest : Bytes) (six : length mac ≡ 6)
    (u32 : IsU32 seq) (u16 : IsU16 failing) where
  read_reply-reply_header :
      read_reply (reply_header cmd status failing mac agent seq ++ rest)
      ≡ echoed status failing mac agent seq
          (walk_tlvs (reply_header cmd status failing mac agent seq ++ rest))
  unfolding read_reply
  read_reply-reply_header =
      let (a, b, c, d, e, f, m) = six_bytes mac six in
      let (a', b', c', d', e', f', g) = six_bytes (agent_id agent) (length-agent_id agent) in
      rw (m, g) (rw (read_be32 seq u32, read_be16 failing u16))

  reply_header-Answers :
      4 ≤ length rest
      → Answers (reply_header cmd status failing mac agent seq ++ rest) cmd seq mac agent
  reply_header-Answers long =
      let (a, b, c, d, e, f, m) = six_bytes mac six in
      let (a', b', c', d', e', f', g) = six_bytes (agent_id agent) (length-agent_id agent) in
      rw (m, g)
        (record {
          long_enough = omega arith;
          version = refl;
          command = refl;
          signature = refl;
          sequence = read_be32 seq u32;
          manager_echoed = λ _. refl;
          agent_echoed = λ h. sym g ∙ agent_id_self agent h;
        })

  parse_reply-reply_header :
      4 ≤ length rest
      → parse_reply (reply_header cmd status failing mac agent seq ++ rest) cmd seq mac agent
        ≡ finish_reply (reply_header cmd status failing mac agent seq ++ rest) (
            echoed status failing mac agent seq
              (walk_tlvs (reply_header cmd status failing mac agent seq ++ rest)))
  parse_reply-reply_header long =
      let pkt : Bytes = reply_header cmd status failing mac agent seq ++ rest in
      parse_reply_checked pkt cmd seq mac agent
        (Answers-check_reply pkt cmd seq mac agent (reply_header-Answers long))
      ∙ ap (finish_reply pkt) read_reply-reply_header

-- A reply header in front of entries and the terminator.
walk_tlvs-reply_header :
    (cmd status failing seq : ℕ) (mac agent : Bytes) (ts : List Tlv)
    → length mac ≡ 6
    → All IsTlv ts
    → walk_tlvs (reply_header cmd status failing mac agent seq ++ (region ts ++ terminator))
      ≡ (ts, false)
unfolding walk_tlvs
walk_tlvs-reply_header cmd status failing seq mac agent ts six h =
    let pkt : Bytes = reply_header cmd status failing mac agent seq ++ (region ts ++ terminator) in
    let dropped : drop 32 pkt ≡ region ts ++ terminator =
      drop-reply_header cmd status failing seq mac agent (region ts ++ terminator) six in
    rw dropped (
      walk-region_terminated ts (length pkt) [] h (
        omega (
          arith,
          length-region_lt ts terminator,
          length-region-terminator ts,
          length-drop 32 pkt,
          ap length dropped,
        )))

-- The client reads back what the agent answers with status 0: the echoed header fields and
-- exactly the agent's entries, with no truncation.
pub parse_reply-encode_reply :
    (cmd failing seq : ℕ) (mac agent body : Bytes) (ts : List Tlv)
    → length mac ≡ 6
    → IsU32 seq
    → IsU16 failing
    → All IsTlv ts
    → Option.map
        (λ pkt. parse_reply pkt ((cmd + 1) % 256) seq mac agent)
        (encode_reply (header cmd mac agent seq ++ body) 0 failing [] ts)
      ≡ some (reply (echoed 0 failing mac agent seq (ts, false)))
parse_reply-encode_reply cmd failing seq mac agent body ts six u32 u16 h =
    rw (encode_reply-header cmd seq 0 failing mac agent body [] ts six) (
      ap some (
        parse_reply-reply_header cmd' 0 failing seq mac agent (region ts ++ terminator) six u32 u16
          (length-region-terminator ts)
        ∙ finish_reply_ok pkt (echoed 0 failing mac agent seq (walk_tlvs pkt)) refl
        ∙ ap (λ w. reply (echoed 0 failing mac agent seq w))
            (walk_tlvs-reply_header cmd' 0 failing seq mac agent ts six h)))
  where
    cmd' : ℕ
    cmd' = (cmd + 1) % 256

    pkt : Bytes
    pkt = reply_header cmd' 0 failing mac agent seq ++ (region ts ++ terminator)

-- A GET request for the tags, with a manager MAC of 6 bytes and a 32-bit sequence number,
-- answered with status 0 and well-formed entries: the client sends it, the agent's reply to
-- it is accepted as an answer to it, and carries exactly the agent's entries.
pub get_exchange :
    (seq : ℕ) (mac agent tags : Bytes) (ts : List Tlv)
    → length mac ≡ 6
    → IsU32 seq
    → All IsByte tags
    → All IsTlv ts
    → Option.bind
        (encode_get_request mac agent seq tags)
        (λ req. Option.map (λ pkt. parse_reply pkt 0x02 seq mac agent) (encode_reply req 0 0 [] ts))
      ≡ some (reply (echoed 0 0 mac agent seq (ts, false)))
unfolding Option.bind
get_exchange seq mac agent tags ts six u32 ht h =
    rw (encode_get_request-region mac agent seq tags six ht) (
      parse_reply-encode_reply cmd_get 0 seq mac agent (region (get_tlvs tags) ++ terminator) ts six
        u32 (omega arith) h)

-- The payload of an auth-mismatch reply.
abbrev pub token_payload : Bytes → Bytes
token_payload token = high (length token) ∷ low (length token) ∷ token

expected_auth_payload_lem :
    (cmd status failing seq : ℕ) (mac agent token rest : Bytes)
    → length mac ≡ 6
    → 0 < length token
    → IsU16 (length token)
    → expected_auth_payload
        (reply_header cmd status failing mac agent seq ++ (token_payload token ++ rest))
      ≡ some token
unfolding expected_auth_payload
expected_auth_payload_lem cmd status failing seq mac agent token rest six pos u16 =
    let (a, b, c, d, e, f, m) = six_bytes mac six in
    let (a', b', c', d', e', f', g) = six_bytes (agent_id agent) (length-agent_id agent) in
    rw (m, g)
      (rw (read_be16 (length token) u16)
        (ground (arith, length-append token rest, take_of_append token rest)))

-- An auth-mismatch answer to a manager MAC of 6 bytes, with a nonempty token and fields in
-- their ranges: the client reports the status, the failing tag and exactly the token that the
-- switch expected, whatever entries follow it.
pub parse_reply_auth_mismatch :
    (cmd failing seq : ℕ) (mac agent body token : Bytes) (ts : List Tlv)
    → length mac ≡ 6
    → IsU32 seq
    → IsU16 failing
    → 0 < length token
    → IsU16 (length token)
    → (r : Reply) × (Option.map
          (λ pkt. parse_reply pkt ((cmd + 1) % 256) seq mac agent)
          (encode_reply (header cmd mac agent seq ++ body) 0x0d failing (token_payload token) ts)
        ≡ some (
            status_error r
              (record { status = 0x0d; failing_tag = failing; expected_auth = some token })))
unfolding finish_reply
parse_reply_auth_mismatch cmd failing seq mac agent body token ts six u32 u16 pos len = (
  echoed 0x0d failing mac agent seq (walk_tlvs pkt),
  rw (encode_reply-header cmd seq 0x0d failing mac agent body (token_payload token) ts six) (
      ap some (
        parse_reply-reply_header cmd' 0x0d failing seq mac agent rest six u32 u16 (
          omega (arith, length-append token (region ts ++ terminator), length-region-terminator ts))
        ∙ rw (
            expected_auth_payload_lem cmd' 0x0d failing seq mac agent token
              (region ts ++ terminator) six pos len))),
)
  where
    cmd' : ℕ
    cmd' = (cmd + 1) % 256

    rest : Bytes
    rest = token_payload token ++ (region ts ++ terminator)

    pkt : Bytes
    pkt = reply_header cmd' 0x0d failing mac agent seq ++ rest
