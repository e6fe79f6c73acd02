-- ===== src/Client.antt =====
-- internal/nsdp/client.go: the NSDP client behind its socket.
-- An operation is a function of the session, which holds what the reads will yield and what was
-- written. A nil agent MAC or nonce is the empty list. The texts of errors are not modelled.
pub mod Login
pub mod Budget
pub mod Answers
mod Tests
use mathlib.Core.Option
use Prim.Native.Nat.{bit_and}
use terraform_provider_netge.Base.{
  ℕ, zero, suc, ◌+◌, ◌%◌, Bool, true, false, not, Option, none, some, List, [], ◌∷◌, ◌++◌, length,
  take, ◌==◌, if◌then◌else◌, Bytes, Result, err, ok, elem, insert,
}
use terraform_provider_netge.Wire.{
  Tlv, be32, encode_get_request, encode_set_tlvs, ErrStatus, Reply, malformed, status_error, reply,
  parse_reply,
}

abbrev pub attr_capability : ℕ
attr_capability = 0x14

abbrev pub attr_nonce : ℕ
attr_nonce = 0x17

abbrev pub capability_attempts : ℕ
capability_attempts = 5

abbrev pub default_attempts : ℕ
default_attempts = 14

abbrev pub cmd_get_reply : ℕ
cmd_get_reply = 0x02

abbrev pub cmd_set_reply : ℕ
cmd_set_reply = 0x04

-- The fields of Client that no operation changes, and which calls of the connection fail: the
-- write of the request with a sequence number, and setting the deadline of its reply.
pub record Client : Type 0 where
  pub mac : Bytes
  pub agent_mac : Bytes
  pub password : Bytes
  pub v1 : Bool
  pub write_fails : ℕ → Bool
  pub deadline_fails : ℕ → Bool

-- What a ReadFrom yields: a datagram, the deadline, or another error.
pub data Event : Type 0 where
  arrives : Bytes → Event
  timeout broken : Event

-- The fields of Client that operations change, with the reads to come and the requests written.
pub record Session : Type 0 where
  pub seq : ℕ
  pub capability : ℕ
  pub token : Bytes
  pub logged_in : Bool
  pub incoming : List Event
  pub sent : List Bytes

-- The errors of the operations; `panics` is a run-time panic.
pub data Failure : Type 0 where
  no_reply read_failed send_failed deadline_failed no_agent no_tags missing_tlv : Failure
  bad_length bad_layout panics : Failure
  status : ErrStatus → Failure

abbrev pub Action {ℓ} : Type ℓ → Type ℓ
Action A = Session → Result Failure A × Session

abbrev pub Command : Type 0
Command = Action {0} Unit

module _ {ℓ} {A : Type ℓ} where
  unfoldable pub pure : A → Action A
  pure a s = (ok a, s)

  unfoldable pub fail : Failure → Action A
  fail why s = (err why, s)

module _ {ℓ κ} {A : Type ℓ} {B : Type κ} where
  unfoldable pub continue : Result Failure A → (A → Action B) → Action B
  continue (err why) next s = (err why, s)
  continue (ok a) next s = next a s

  infixl 5 ◌>>=◌
  unfoldable pub ◌>>=◌ : Action A → (A → Action B) → Action B
  unfolding continue
  ◌>>=◌ first next s = continue (first s).0 next (first s).1

-- errors.Is(err, ErrNoReply)
unfoldable pub is_no_reply : Failure → Bool
is_no_reply no_reply = true
is_no_reply why = false

module _ {ℓ κ} {A : Type ℓ} {B : Type κ} where
  unfoldable pub resume : Result Failure A → Action B → (A → Action B) → Action B
  unfolding is_no_reply fail
  resume (err why) silent next = if is_no_reply why then silent else fail why
  resume (ok a) silent next = next a

  -- An action whose silence has a continuation of its own.
  unfoldable pub unless_silent : Action A → Action B → (A → Action B) → Action B
  unfolding resume
  unless_silent first silent next s = resume (first s).0 silent next (first s).1

unfoldable pub with_session {ℓ} : {A : Type ℓ} → (Session → Action A) → Action A
with_session f s = f s s

-- newClientOver, with the base of the sequence numbers that it draws.
unfoldable pub new_session : ℕ → List Event → Session
new_session base incoming = record {
  seq = base;
  capability = 0;
  token = [];
  logged_in = false;
  incoming = incoming;
  sent = [];
}

-- The agent MAC that newClientOver keeps.
unfoldable pub kept_agent : Bytes → Bytes
kept_agent agent = if length agent == 6 then agent else []

-- The uint32 counter wraps.
unfoldable pub next_seq : Action ℕ
next_seq s = (ok s.seq, record s { seq = (s.seq + 1) % 4294967296 })

unfoldable pub heard : List Event → Session → Session
heard incoming s = record s { incoming = incoming }

unfoldable pub wrote : Bytes → Session → Session
wrote req s = record s { sent = s.sent ++ (req ∷ []) }

-- Close marks the session logged out.
unfoldable pub close : Session → Session
close s = record s { logged_in = false }

-- The window of a request number; a request of `none` is one whose encoding panics.
unfoldable pub send : Client → ℕ → Option Bytes → Command
unfolding wrote
send c seq none s = (err panics, s)
send c seq (some req) s = if c.write_fails seq then (err send_failed, s) else (ok tt, wrote req s)

-- The loop of readReply: the answer and the reads that are left. The buffer holds 4096 bytes, and
-- a script of reads that has ended is silence.
unfoldable pub read_loop : Client → ℕ → ℕ → List Event → Result Failure Reply × List Event
read_loop c want_seq cmd [] = (err no_reply, [])
read_loop c want_seq cmd (timeout ∷ events) = (err no_reply, events)
read_loop c want_seq cmd (broken ∷ events) = (err read_failed, events)
read_loop c want_seq cmd (arrives pkt ∷ events) =
    elim (parse_reply (take 4096 pkt) cmd want_seq c.mac c.agent_mac) [
      | malformed reason ↦ read_loop c want_seq cmd events
      | status_error r why ↦ (err (status why), events)
      | reply r ↦ (ok r, events)
    ]

unfoldable pub read_reply : Client → ℕ → ℕ → Action Reply
unfolding read_loop heard
read_reply c want_seq cmd s =
    if c.deadline_fails want_seq
    then (err deadline_failed, s)
    else ((read_loop c want_seq cmd s.incoming).0, heard (read_loop c want_seq cmd s.incoming).1 s)

-- One attempt: a fresh sequence number, the request, and its reply.
unfoldable pub attempt : Client → ℕ → (ℕ → Option Bytes) → Action Reply
unfolding ◌>>=◌ next_seq send read_reply
attempt c cmd request = next_seq >>= λ seq. send c seq (request seq) >>= λ _. read_reply c seq cmd

-- The loop that GetAttr, GetAttrs and GetBlock share: only silence is tried again.
unfoldable pub retry : Client → (ℕ → Option Bytes) → ℕ → Action Reply
unfolding attempt unless_silent pure fail
retry c request zero = fail no_reply
retry c request (suc n) = unless_silent (attempt c cmd_get_reply request) (retry c request n) pure

-- The value of the first entry with the tag.
unfoldable pub first_value : ℕ → List Tlv → Option Bytes
first_value tag [] = none
first_value tag (t ∷ ts) = if t.tag == tag then some t.value else first_value tag ts

unfoldable pub or_fail {ℓ} : {A : Type ℓ} → Failure → Option A → Action A
unfolding pure fail
or_fail why none = fail why
or_fail why (some a) = pure a

unfoldable pub attempts_for : ℕ → ℕ
attempts_for tag = if tag == attr_capability then capability_attempts else default_attempts

unfoldable pub get_attr : Client → ℕ → Action Bytes
unfolding ◌>>=◌ retry encode_get_request first_value or_fail attempts_for
get_attr c tag =
    retry c (λ seq. encode_get_request c.mac c.agent_mac seq (tag ∷ [])) (attempts_for tag) >>= λ r.
    or_fail missing_tlv (first_value tag r.tlvs)

-- The requested entries of a reply: a later one with the same tag wins.
unfoldable pub wanted : List ℕ → List Tlv → List (ℕ × Bytes) → List (ℕ × Bytes)
unfolding elem insert
wanted tags [] m = m
wanted tags (t ∷ ts) m =
    wanted tags ts (if elem t.tag tags then insert (t.tag % 256) t.value m else m)

unfoldable pub non_empty {ℓ} : {A : Type ℓ} → Failure → List A → Action (List A)
unfolding pure fail
non_empty why [] = fail why
non_empty why (a ∷ rest) = pure (a ∷ rest)

-- The sequential GETs of the v1 dialect: silence skips a tag.
unfoldable pub get_each : Client → List ℕ → List (ℕ × Bytes) → Action (List (ℕ × Bytes))
unfolding get_attr insert unless_silent pure
get_each c [] m = pure m
get_each c (tag ∷ tags) m =
    unless_silent (get_attr c tag) (get_each c tags m)
      (λ value. get_each c tags (insert tag value m))

unfoldable pub get_attrs : Client → List ℕ → Action (List (ℕ × Bytes))
unfolding ◌>>=◌ get_each retry encode_get_request wanted non_empty fail
get_attrs c [] = fail no_tags
get_attrs c (tag ∷ tags) =
    if c.v1
    then get_each c (tag ∷ tags) [] >>= non_empty no_reply
    else retry c (λ seq. encode_get_request c.mac c.agent_mac seq (tag ∷ tags)) default_attempts
      >>= λ r. non_empty missing_tlv (wanted (tag ∷ tags) r.tlvs [])
