-- ===== src/Client/Tests.antt =====
-- The properties of the client on concrete switches.
use terraform_provider_netge.Base.{
  ℕ, ◌≡◌, refl, false, some, List, [], ◌∷◌, ◌++◌, arith, equal, replicate, Bytes, ok, err,
}
use mathlib.Core.Option
use terraform_provider_netge.Wire.{
  Tlv, magic, terminator, be32_bytes, tlv_bytes, check_reply, encode_get_request, encode_reply,
  region, be32, parse_reply, short_packet, stale_sequence,
}
use terraform_provider_netge.Token.{login_token, login_tag_for}
use terraform_provider_netge.Client.{
  Client, Session, Event, arrives, timeout, get_attr, no_reply, attr_capability, attr_nonce,
  attempts_for, first_value,
}
use terraform_provider_netge.Client.Login.{login, set_raw}
use terraform_provider_netge.Client.Budget.{Sends}
use terraform_provider_netge.Client.Budget.Requests.{Sends-login, Sends-set_raw}
use terraform_provider_netge.Client.Answers.{Reliable, after, silence}
use terraform_provider_netge.Client.Answers.Get.{
  Answer, reads, get_request, get_attr-answer, get_attr-silence,
}
use terraform_provider_netge.Client.Answers.Handshake.{Accepted, logged_in_by, login-answer}

abbrev manager : Client
manager = record {
  mac = 2 ∷ 0 ∷ 0 ∷ 0 ∷ 0 ∷ 1 ∷ [];
  agent_mac = 0x8c ∷ 0x3b ∷ 0xad ∷ 0x25 ∷ 0x1b ∷ 0x88 ∷ [];
  password = 0x70 ∷ 0x77 ∷ [];
  v1 = false;
  write_fails = λ n. false;
  deadline_fails = λ n. false;
}

manager-Reliable : Reliable manager
manager-Reliable = record { writes = λ n. refl; deadlines = λ n. refl }

Sends-login_example : Sends 20 1 (login manager)
Sends-login_example = Sends-login manager refl

Sends-set_raw_example : Sends 35 2 (set_raw manager 0x9400 (1 ∷ 1 ∷ 0 ∷ []))
Sends-set_raw_example = Sends-set_raw manager refl 0x9400 (1 ∷ 1 ∷ 0 ∷ [])

-- A capability word with the bit of the longer token.
abbrev word : Bytes
word = 0 ∷ 0 ∷ 0 ∷ 0x10 ∷ []

abbrev nonce : Bytes
nonce = 1 ∷ 2 ∷ 3 ∷ 4 ∷ []

-- A reply of the switch with one entry.
abbrev answer : ℕ → ℕ → Tlv → Bytes
answer cmd seq t =
    (1 ∷ cmd ∷ 0 ∷ 0 ∷ 0 ∷ 0 ∷ 0 ∷ 0 ∷ [])
    ++ (manager.mac
        ++ (manager.agent_mac
            ++ (be32_bytes seq ++ (magic ++ (0 ∷ 0 ∷ 0 ∷ 0 ∷ (tlv_bytes t ++ terminator))))))

abbrev word_tlv : Tlv
word_tlv = record { tag = attr_capability; value = word }

abbrev nonce_tlv : Tlv
nonce_tlv = record { tag = attr_nonce; value = nonce }

-- A first window with the answer to an earlier request only, then a short datagram and the answer.
word_answer : Answer manager attr_capability 1000 word
unfolding equal parse_reply check_reply encode_get_request encode_reply attempts_for first_value
    Option.bind
word_answer = record {
  windows = (answer 2 999 word_tlv ∷ []) ∷ [];
  others = (1 ∷ 2 ∷ []) ∷ [];
  packet = answer 2 1001 word_tlv;
  tlvs = word_tlv ∷ [];
  quiet = (((stale_sequence, refl), tt), tt);
  ignored = ((short_packet, refl), tt);
  in_time = omega arith;
  replied = refl;
  fits = omega arith;
  formed = (
    record { tag_u16 = omega arith; tag_ne_term = λ e. omega arith; length_u16 = omega arith },
    tt,
  );
  skipped = [];
  entry = word_tlv;
  behind = [];
  carried = refl;
  of_others = tt;
  of_tag = refl;
  of_value = refl;
}

nonce_answer : Answer manager attr_nonce 1002 nonce
unfolding encode_get_request encode_reply attempts_for first_value Option.bind
nonce_answer = record {
  windows = [];
  others = [];
  packet = answer 2 1002 nonce_tlv;
  tlvs = nonce_tlv ∷ [];
  quiet = tt;
  ignored = tt;
  in_time = omega arith;
  replied = refl;
  fits = omega arith;
  formed = (
    record { tag_u16 = omega arith; tag_ne_term = λ e. omega arith; length_u16 = omega arith },
    tt,
  );
  skipped = [];
  entry = nonce_tlv;
  behind = [];
  carried = refl;
  of_others = tt;
  of_tag = refl;
  of_value = refl;
}

abbrev token : Bytes
token = 179 ∷ 145 ∷ 138 ∷ 144 ∷ 180 ∷ 145 ∷ 250 ∷ 231 ∷ []

token_mixed : login_token (be32 word) nonce manager.agent_mac manager.password ≡ some token
unfolding login_token
token_mixed = refl

accepted : Accepted manager 1003 (record { tag = 0x1a; value = token } ∷ [])
unfolding encode_reply region
accepted = record {
  others = [];
  packet = answer 4 1003 word_tlv;
  tlvs = word_tlv ∷ [];
  ignored = tt;
  replied = refl;
  fits = omega arith;
  formed = (
    record { tag_u16 = omega arith; tag_ne_term = λ e. omega arith; length_u16 = omega arith },
    tt,
  );
}

-- The reads of a handshake in which the first request is lost.
abbrev handshake : List Event
handshake =
    arrives (answer 2 999 word_tlv)
    ∷ timeout
    ∷ arrives (1 ∷ 2 ∷ [])
    ∷ arrives (answer 2 1001 word_tlv)
    ∷ arrives (answer 2 1002 nonce_tlv)
    ∷ arrives (answer 4 1003 word_tlv)
    ∷ []

abbrev fresh_session : List Event → Session
fresh_session incoming = record {
  seq = 1000;
  capability = 0;
  token = [];
  logged_in = false;
  incoming = incoming;
  sent = [];
}

get_attr-answer_example :
    get_attr manager attr_capability (fresh_session (reads word_answer [])) ≡ (
      ok word,
      after (get_request manager attr_capability) 2 [] (fresh_session (reads word_answer [])),
    )
unfolding word_answer
get_attr-answer_example =
    get_attr-answer manager manager-Reliable refl attr_capability (omega arith) word []
      (fresh_session (reads word_answer [])) word_answer refl (omega arith)

get_attr-silence_example :
    get_attr manager attr_capability (fresh_session (silence (replicate 5 []) [])) ≡ (
      err no_reply,
      after
          (get_request manager attr_capability)
          5
          []
          (fresh_session (silence (replicate 5 []) [])),
    )
unfolding attempts_for
get_attr-silence_example =
    get_attr-silence manager manager-Reliable refl attr_capability (omega arith) (replicate 5 []) []
      (fresh_session (silence (replicate 5 []) [])) refl refl (tt, (tt, (tt, (tt, (tt, tt)))))
      (omega arith)

login-answer_example :
    login manager (fresh_session handshake)
    ≡ (ok tt, logged_in_by manager word token 2 1 [] (fresh_session handshake))
unfolding word_answer nonce_answer accepted login_tag_for
login-answer_example =
    login-answer manager manager-Reliable refl word nonce token [] (fresh_session handshake)
      word_answer nonce_answer accepted refl refl refl token_mixed refl (omega arith)
