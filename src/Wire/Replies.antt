-- ===== src/Wire/Replies.antt =====
-- EncodeReply and ParseReply (internal/nsdp/wire.go): a reply as the client accepts or refuses it.
use terraform_provider_netge.Base.{
  ℕ, ◌≤◌, ◌≡◌, ◌↔◌, Option-cases, ap, ◌∙◌, sym, inl, inr, none, some, arith, length, take, drop,
  get_or, Bytes, equal_iff,
}
use terraform_provider_netge.Wire.{
  Reply, malformed, reply, Malformed, proto_version, magic, be32, parse_reply, check_reply,
  read_reply, finish_reply,
}

-- What the checks guarantee of the packet.
pub record Answers (pkt : Bytes) (cmd seq : ℕ) (manager agent : Bytes) : Type 0 where
  pub long_enough : 36 ≤ length pkt
  pub version : get_or pkt 0 0 ≡ proto_version
  pub command : get_or pkt 1 0 ≡ cmd
  pub signature : take 4 (drop 24 pkt) ≡ magic
  pub sequence : be32 (take 4 (drop 20 pkt)) ≡ seq
  pub manager_echoed : length manager ≡ 6 → take 6 (drop 8 pkt) ≡ manager
  pub agent_echoed : length agent ≡ 6 → take 6 (drop 14 pkt) ≡ agent

module _ (pkt : Bytes) (cmd seq : ℕ) (manager agent : Bytes) where
  pub check_reply-Answers :
      check_reply pkt cmd seq manager agent ≡ none → Answers pkt cmd seq manager agent
  unfolding check_reply
  check_reply-Answers h = record {
    long_enough = ground arith;
    version = ground arith;
    command = ground arith;
    signature = ground (arith, equal_iff (take 4 (drop 24 pkt)) magic);
    sequence = ground arith;
    manager_echoed = λ e. ground (arith, equal_iff (take 6 (drop 8 pkt)) manager);
    agent_echoed = λ e. ground (arith, equal_iff (take 6 (drop 14 pkt)) agent);
  }

  pub Answers-check_reply :
      Answers pkt cmd seq manager agent → check_reply pkt cmd seq manager agent ≡ none
  unfolding check_reply
  Answers-check_reply h = ground (
    arith,
    equal_iff (take 4 (drop 24 pkt)) magic,
    equal_iff (take 6 (drop 8 pkt)) manager,
    equal_iff (take 6 (drop 14 pkt)) agent,
  )

  pub parse_reply_checked :
      check_reply pkt cmd seq manager agent ≡ none
      → parse_reply pkt cmd seq manager agent ≡ finish_reply pkt (read_reply pkt)
  unfolding parse_reply
  parse_reply_checked e = rw (e, parse_reply)

  pub parse_reply_refused :
      (m : Malformed)
      → check_reply pkt cmd seq manager agent ≡ some m
      → parse_reply pkt cmd seq manager agent ≡ malformed m
  unfolding parse_reply
  parse_reply_refused m e = rw (e, parse_reply)

pub finish_reply_ok : (pkt : Bytes) (r : Reply) → r.status ≡ 0 → finish_reply pkt r ≡ reply r
unfolding finish_reply
finish_reply_ok pkt r e = ground arith

finish_reply_inv :
    (pkt : Bytes) (r' r : Reply) → finish_reply pkt r' ≡ reply r → (r'.status ≡ 0) × (r ≡ r')
unfolding finish_reply
finish_reply_inv pkt r' r h = ground arith

-- ParseReply returns a reply with no error exactly on the packets that pass every check with
-- status 0, and that reply is then the one read off the packet.
pub parse_reply_iff :
    (pkt : Bytes) (cmd seq : ℕ) (manager agent : Bytes) (r : Reply)
    → (parse_reply pkt cmd seq manager agent ≡ reply r)
      ↔ (Answers pkt cmd seq manager agent × (get_or pkt 2 0 ≡ 0) × (r ≡ read_reply pkt))
unfolding read_reply
parse_reply_iff pkt cmd seq manager agent r = (there, back)
  where
    there :
        parse_reply pkt cmd seq manager agent ≡ reply r
        → Answers pkt cmd seq manager agent × (get_or pkt 2 0 ≡ 0) × (r ≡ read_reply pkt)
    there h = elim (Option-cases (check_reply pkt cmd seq manager agent)) [
      | inl e ↦
          let (s, same) =
            finish_reply_inv pkt (read_reply pkt) r
              (sym (parse_reply_checked pkt cmd seq manager agent e) ∙ h) in
          (check_reply-Answers pkt cmd seq manager agent e, s, same)
      | inr (m, e) ↦ cc (parse_reply_refused pkt cmd seq manager agent m e)
    ]

    back :
        Answers pkt cmd seq manager agent × (get_or pkt 2 0 ≡ 0) × (r ≡ read_reply pkt)
        → parse_reply pkt cmd seq manager agent ≡ reply r
    back (a, s, e) =
        parse_reply_checked pkt cmd seq manager agent
          (Answers-check_reply pkt cmd seq manager agent a)
        ∙ finish_reply_ok pkt (read_reply pkt) s
        ∙ ap reply (sym e)
