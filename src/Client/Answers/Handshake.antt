-- ===== src/Client/Answers/Handshake.antt =====
-- Login against a switch that answers in time (internal/nsdp/client.go).
use terraform_provider_netge.Base.{
  some_inj, ℕ, suc, ◌+◌, ◌≤◌, ◌<◌, ◌≡◌, refl, sym, ap, ◌∙◌, Option, some, true, false, List, [],
  ◌∷◌, ◌++◌, arith, length, Bytes, ok, All,
}
use mathlib.Core.Option
use terraform_provider_netge.Wire.{
  Tlv, be32, parse_reply, encode_reply, cmd_set, region, terminator,
}
use terraform_provider_netge.Wire.Walk.{IsTlv}
use terraform_provider_netge.Wire.Requests.{header, encode_set_tlvs-region}
use terraform_provider_netge.Wire.Exchange.{parse_reply-encode_reply, echoed}
use terraform_provider_netge.Token.{login_token, login_tag_for, encode_set_login_request}
use terraform_provider_netge.Client.{
  Client, Session, Event, arrives, attempt, get_attr, attempts_for, attr_capability, attr_nonce,
  cmd_set_reply, ◌>>=◌,
}
use terraform_provider_netge.Client.Login.{
  login, log_in_with, login_nonce, four_bytes, authenticated,
}
use terraform_provider_netge.Client.Answers.{
  Reliable, arrivals, Ignored, after, take_all, attempt-answer, >>=-ok,
}
use terraform_provider_netge.Client.Answers.Get.{Answer, reads, get_request, get_attr-answer}

-- A SET request of some entries.
abbrev pub set_request : Client → List Tlv → ℕ → Bytes
set_request c ts seq = header cmd_set c.mac c.agent_mac seq ++ (region ts ++ terminator)

-- How a switch accepts a SET within its window, with an answer of status 0.
pub record Accepted (c : Client) (seq : ℕ) (ts : List Tlv) : Type 0 where
  pub others : List Bytes
  pub packet : Bytes
  pub tlvs : List Tlv
  pub ignored : All (Ignored c cmd_set_reply seq) others
  pub replied : encode_reply (set_request c ts seq) 0 0 [] tlvs ≡ some packet
  pub fits : length packet ≤ 4096
  pub formed : All IsTlv tlvs

abbrev pub acceptance :
    {c : Client} {seq : ℕ} {ts : List Tlv} → Accepted c seq ts → List Event → List Event
acceptance z rest = arrivals z.others (arrives z.packet ∷ rest)

abbrev pub auth : Bytes → Bytes → Tlv
auth word token = record { tag = login_tag_for (be32 word); value = token }

-- What Login makes of the two values: the requests sent, and the capability and token cached.
abbrev pub logged_in_by :
    (c : Client) (word token : Bytes) (first second : ℕ) (rest : List Event) (s : Session) → Session
logged_in_by c word token first second rest s =
    let asked_twice : Session =
      after (get_request c attr_nonce) second []
        (after (get_request c attr_capability) first [] s) in
    record (after (set_request c (auth word token ∷ [])) 1 rest asked_twice) {
      capability = be32 word;
      token = token;
      logged_in = true;
    }

four_bytes_lem : (word : Bytes) → length word ≡ 4 → (s : Session) → four_bytes word s ≡ (ok word, s)
unfolding four_bytes
four_bytes_lem word four s = rw four refl

login_nonce_lem :
    (capability : ℕ) (value : Bytes)
    → length value ≡ 4
    → (s : Session) → login_nonce capability value s ≡ (ok value, s)
unfolding login_nonce
login_nonce_lem capability value four s = rw four refl

authenticated_lem :
    (capability : ℕ) (token : Bytes) (s : Session)
    → authenticated capability token s
      ≡ (ok tt, record s { capability = capability; token = token; logged_in = true })
unfolding authenticated
authenticated_lem capability token s = refl

module _ (c : Client) (works : Reliable c) (six : length c.mac ≡ 6) where
  -- The one attempt of an accepted SET.
  pub attempt-accepted :
      (request : ℕ → Option Bytes) (ts : List Tlv) (rest : List Event) (s : Session)
      (z : Accepted c s.seq ts)
      → ((seq : ℕ) → request seq ≡ some (set_request c ts seq))
      → s.incoming ≡ acceptance z rest
      → s.seq + 1 < 4294967296
      → attempt c cmd_set_reply request s ≡ (
        ok (echoed 0 0 c.mac c.agent_mac s.seq (z.tlvs, false)),
        after (set_request c ts) 1 rest s,
      )
  attempt-accepted request ts rest s z total comes low =
      attempt-answer c works cmd_set_reply request (set_request c ts) s z.others z.packet
        (echoed 0 0 c.mac c.agent_mac s.seq (z.tlvs, false)) rest total low comes z.ignored
        (rw (take_all 4096 z.packet z.fits) (
          some_inj (
            sym (
              ap (Option.map λ pkt. parse_reply pkt cmd_set_reply s.seq c.mac c.agent_mac)
                z.replied)
            ∙ parse_reply-encode_reply cmd_set 0 s.seq c.mac c.agent_mac (region ts ++ terminator)
                z.tlvs six (omega (arith, low)) (omega arith) z.formed)))

  module _ (word value token : Bytes) (rest : List Event) (s : Session) where
    encode_set_login_request-auth :
        login_token (be32 word) value c.agent_mac c.password ≡ some token
        → (seq : ℕ)
        → encode_set_login_request c.mac c.agent_mac seq (be32 word) value c.password
          ≡ some (set_request c (auth word token ∷ []) seq)
    unfolding encode_set_login_request region
    encode_set_login_request-auth e seq =
        rw (encode_set_login_request, e)
          (encode_set_tlvs-region c.mac c.agent_mac seq (auth word token) [] six)

    log_in_with-accepted :
        (z : Accepted c s.seq (auth word token ∷ []))
        → login_token (be32 word) value c.agent_mac c.password ≡ some token
        → s.incoming ≡ acceptance z rest
        → s.seq + 1 < 4294967296
        → log_in_with c (be32 word) value s
          ≡ authenticated (be32 word) token (after (set_request c (auth word token ∷ [])) 1 rest s)
    unfolding log_in_with
    log_in_with-accepted z e comes low =
        rw
          (
            e,
            attempt-accepted
                (λ seq. encode_set_login_request c.mac c.agent_mac seq (be32 word) value c.password)
                (auth word token ∷ []) rest s z (encode_set_login_request-auth e) comes low,
          )
          refl

  login_lem :
      length c.agent_mac ≡ 6
      → login c ≡ (
          get_attr c attr_capability >>= four_bytes >>= λ word. get_attr c attr_nonce >>= λ value.
          login_nonce (be32 word) value >>= λ nonce. log_in_with c (be32 word) nonce)
  unfolding login
  login_lem six' = rw six' refl

  -- Over a working connection, with MACs of 6 bytes and a 32-bit counter that does not wrap:
  -- where the switch answers both GETs of Login in time, each with a value of four bytes, and
  -- accepts the SET, whatever other datagrams come before and however many windows below the
  -- attempts stay silent, Login succeeds, has sent the GETs and the one SET, and has cached
  -- the capability word and the token.
  pub login-answer :
      (word value token : Bytes) (rest : List Event) (s : Session)
      (a : Answer c attr_capability s.seq word)
      (b : Answer c attr_nonce (s.seq + suc (length a.windows)) value)
      (z : Accepted c
        (s.seq + suc (length a.windows) + suc (length b.windows))
        (auth word token ∷ []))
      → length c.agent_mac ≡ 6
      → length word ≡ 4
      → length value ≡ 4
      → login_token (be32 word) value c.agent_mac c.password ≡ some token
      → s.incoming ≡ reads a (reads b (acceptance z rest))
      → s.seq + 20 < 4294967296
      → login c s ≡ (
        ok tt,
        logged_in_by c word token (suc (length a.windows)) (suc (length b.windows)) rest s,
      )
  unfolding attempts_for
  login-answer word value token rest s a b z six' four four' e comes low =
      let more : List Event = reads b (acceptance z rest) in
      let s' : Session = after (get_request c attr_capability) (suc (length a.windows)) more s in
      let s'' : Session =
        after (get_request c attr_nonce) (suc (length b.windows)) (acceptance z rest) s' in
      let small : length a.windows < 5 = a.in_time in
      let small' : length b.windows < 14 = b.in_time in
      let word_read : (get_attr c attr_capability >>= four_bytes) s ≡ (ok word, s') =
        >>=-ok (get_attr c attr_capability) four_bytes (
          get_attr-answer c works six attr_capability (omega arith) word more s a comes
            (omega (arith, low)))
        ∙ four_bytes_lem word four s' in
      let value_read : get_attr c attr_nonce s' ≡ (ok value, s'') =
        get_attr-answer c works six attr_nonce (omega arith) value (acceptance z rest) s' b refl
          (omega (arith, low, small)) in
      ap (λ m. m s) (login_lem six')
      ∙ >>=-ok _ _ word_read
      ∙ >>=-ok _ _ value_read
      ∙ >>=-ok (login_nonce (be32 word) value) (log_in_with c (be32 word))
          (login_nonce_lem (be32 word) value four' s'')
      ∙ log_in_with-accepted word value token rest s'' z e refl (omega (arith, low, small, small'))
      ∙ authenticated_lem (be32 word) token _
