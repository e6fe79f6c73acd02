-- ===== src/Client/Answers/Get.antt =====
-- GetAttr against a switch that answers in time (internal/nsdp/client.go).
use terraform_provider_netge.Base.{
  some_inj, ℕ, suc, false, inl, inr, Bool-cases, ◌==◌, ==_iff, ◌+◌, ◌≤◌, ◌<◌, ◌≡◌, ◌≢◌, refl, sym,
  ap, ◌∙◌, Option, none, some, List, [], ◌∷◌, ◌++◌, arith, length, take, Bytes, ok, err, IsU32,
  IsByte, All,
}
use mathlib.Core.Option
use mathlib.Core.Path.{subst}
use terraform_provider_netge.Wire.{
  Tlv, Reply, reply, parse_reply, encode_get_request, encode_reply, cmd_get, region, terminator,
}
use terraform_provider_netge.Wire.Walk.{IsTlv}
use terraform_provider_netge.Wire.Requests.{header, get_tlvs, encode_get_request-region}
use terraform_provider_netge.Wire.Exchange.{get_exchange, echoed}
use terraform_provider_netge.Client.{
  Client, Session, Event, arrives, retry, get_attr, or_fail, first_value, attempts_for, missing_tlv,
  no_reply, Action, cmd_get_reply, ◌>>=◌,
}
use terraform_provider_netge.Client.Answers.{
  Reliable, arrivals, silence, Ignored, Silent, after, take_all, retry-answer, retry-silence,
}

-- Where a reply is made of a request, and read, the reading is that of the reply.
read_through :
    {A : Type 0} (o : Option Bytes) (f : Bytes → Option Bytes) (g : Bytes → A) (packet : Bytes)
    (z : A)
    → Option.bind o f ≡ some packet
    → Option.bind o (λ req. Option.map g (f req)) ≡ some z
    → g packet ≡ z
unfolding Option.bind
read_through none f g packet z h e = cc
read_through (some req) f g packet z h e = some_inj (sym (ap (Option.map g) h) ∙ e)

-- How a switch answers the GET of a tag that starts under a sequence number: windows without an
-- answer, fewer than the attempts, then the reply to the attempt that is under way.
pub record Answer (c : Client) (tag seq : ℕ) (value : Bytes) : Type 0 where
  pub windows : List (List Bytes)
  pub others : List Bytes
  pub packet : Bytes
  pub tlvs : List Tlv
  pub quiet : Silent c cmd_get_reply seq windows
  pub ignored : All (Ignored c cmd_get_reply (seq + length windows)) others
  pub in_time : length windows < attempts_for tag
  pub replied :
      Option.bind
        (encode_get_request c.mac c.agent_mac (seq + length windows) (tag ∷ []))
        (λ req. encode_reply req 0 0 [] tlvs)
      ≡ some packet
  pub fits : length packet ≤ 4096
  pub formed : All IsTlv tlvs
  pub skipped : List Tlv
  pub entry : Tlv
  pub behind : List Tlv
  pub carried : tlvs ≡ skipped ++ (entry ∷ behind)
  pub of_others : All (λ t. t.tag ≢ tag) skipped
  pub of_tag : entry.tag ≡ tag
  pub of_value : entry.value ≡ value

-- The first entry of a tag behind entries of other tags.
first_value-append :
    (tag : ℕ) (skipped : List Tlv) (entry : Tlv) (behind : List Tlv)
    → All (λ t. t.tag ≢ tag) skipped
    → entry.tag ≡ tag
    → first_value tag (skipped ++ (entry ∷ behind)) ≡ some entry.value
unfolding first_value
first_value-append tag [] entry behind others same = rw ((==_iff entry.tag tag).1 same) refl
first_value-append tag (t ∷ skipped) entry behind others same = elim (Bool-cases (t.tag == tag)) [
  | inl found ↦ absurd (others.0 ((==_iff t.tag tag).0 found))
  | inr past ↦ rw past (first_value-append tag skipped entry behind others.1 same)
]

first_carried :
    (c : Client) {tag seq : ℕ} {value : Bytes} (a : Answer c tag seq value)
    → first_value tag a.tlvs ≡ some value
first_carried c {tag} a =
    ap (first_value tag) a.carried
    ∙ first_value-append tag a.skipped a.entry a.behind a.of_others a.of_tag
    ∙ ap some a.of_value

-- What the client reads until then.
abbrev pub reads :
    {c : Client} {tag seq : ℕ} {value : Bytes} → Answer c tag seq value → List Event → List Event
reads a rest = silence a.windows (arrivals a.others (arrives a.packet ∷ rest))

-- The GET request of a tag.
abbrev pub get_request : Client → ℕ → ℕ → Bytes
get_request c tag seq =
    header cmd_get c.mac c.agent_mac seq ++ (region (get_tlvs (tag ∷ [])) ++ terminator)

module _ (c : Client) (works : Reliable c) (six : length c.mac ≡ 6) (tag : ℕ)
    (byte : IsByte tag) where
  pub encode-get_request :
      (seq : ℕ) → encode_get_request c.mac c.agent_mac seq (tag ∷ []) ≡ some (get_request c tag seq)
  encode-get_request seq = encode_get_request-region c.mac c.agent_mac seq (tag ∷ []) six (byte, tt)

  parse_reply-replied :
      (seq : ℕ) (tlvs : List Tlv) (packet : Bytes)
      → IsU32 seq
      → All IsTlv tlvs
      → Option.bind
          (encode_get_request c.mac c.agent_mac seq (tag ∷ []))
          (λ req. encode_reply req 0 0 [] tlvs)
        ≡ some packet
      → parse_reply packet cmd_get_reply seq c.mac c.agent_mac
        ≡ reply (echoed 0 0 c.mac c.agent_mac seq (tlvs, false))
  parse_reply-replied seq tlvs packet u32 formed replied =
      read_through (encode_get_request c.mac c.agent_mac seq (tag ∷ []))
        (λ req. encode_reply req 0 0 [] tlvs)
        (λ pkt. parse_reply pkt cmd_get_reply seq c.mac c.agent_mac) packet _ replied
        (get_exchange seq c.mac c.agent_mac (tag ∷ []) tlvs six u32 (byte, tt) formed)

  attempts_most : attempts_for tag ≤ 14
  unfolding attempts_for
  attempts_most = ground arith

  -- Over a working connection, with a manager MAC of 6 bytes and a one-byte tag: where the
  -- switch answers the GET within one of its attempts with entries of which the first of the
  -- tag holds a value, behind any of other tags, GetAttr returns that value, after one request
  -- under a fresh number for each window, whatever other datagrams came before.
  pub get_attr-answer :
      (value : Bytes) (rest : List Event) (s : Session) (a : Answer c tag s.seq value)
      → s.incoming ≡ reads a rest
      → s.seq + 14 < 4294967296
      → get_attr c tag s ≡ (ok value, after (get_request c tag) (suc (length a.windows)) rest s)
  unfolding get_attr
  get_attr-answer value rest s a comes low =
      let at : ℕ = s.seq + length a.windows in
      let u32 : IsU32 at = omega (arith, low, a.in_time, attempts_most) in
      let parsed : parse_reply (take 4096 a.packet) cmd_get_reply at c.mac c.agent_mac
          ≡ reply (echoed 0 0 c.mac c.agent_mac at (a.tlvs, false)) =
        rw (take_all 4096 a.packet a.fits)
          (parse_reply-replied at a.tlvs a.packet u32 a.formed a.replied) in
      rw
        (retry-answer c works (λ seq. encode_get_request c.mac c.agent_mac seq (tag ∷ []))
          (get_request c tag) encode-get_request a.others a.packet
          (echoed 0 0 c.mac c.agent_mac at (a.tlvs, false)) rest a.windows (attempts_for tag) at s
          a.in_time refl (omega (arith, low, attempts_most)) comes a.quiet a.ignored parsed)
        (rw (first_carried c a) refl)

  -- Over a working connection, with a manager MAC of 6 bytes and a one-byte tag: where as many
  -- windows as the tag has attempts bring only other datagrams, GetAttr reports ErrNoReply,
  -- after one request under a fresh number in each window.
  pub get_attr-silence :
      (ws : List (List Bytes)) (rest : List Event) (s : Session)
      → length ws ≡ attempts_for tag
      → s.incoming ≡ silence ws rest
      → Silent c cmd_get_reply s.seq ws
      → s.seq + 14 < 4294967296
      → get_attr c tag s ≡ (err no_reply, after (get_request c tag) (attempts_for tag) rest s)
  unfolding get_attr
  get_attr-silence ws rest s all comes quiet low =
      subst (λ n. get_attr_of n s ≡ (err no_reply, after (get_request c tag) n rest s)) all
        (rw
          (retry-silence c works request (get_request c tag) encode-get_request [] [] silent_reply
            rest ws s (omega (arith, low, all, attempts_most)) comes quiet)
          refl)
    where
      request : ℕ → Option Bytes
      request seq = encode_get_request c.mac c.agent_mac seq (tag ∷ [])

      get_attr_of : ℕ → Action Bytes
      get_attr_of n = retry c request n >>= λ r. or_fail missing_tlv (first_value tag r.tlvs)

      silent_reply : Reply
      silent_reply = echoed 0 0 [] [] 0 ([], false)
