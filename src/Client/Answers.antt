-- ===== src/Client/Answers.antt =====
-- The client against a switch that answers (internal/nsdp/client.go): datagrams of other exchanges
-- are passed over, silent windows are tried again, and the answer is returned.
pub mod Get
pub mod Handshake
use terraform_provider_netge.Base.{
  ℕ, zero, suc, ◌+◌, ◌%◌, ◌≤◌, ◌<◌, ◌≡◌, refl, sym, ap, ◌∙◌, Bool, true, false, Bool-cases, inl,
  inr, Option-cases, Option, none, some, List, [], ◌∷◌, ◌++◌, append_assoc, append-nil, arith,
  length, take, drop, if◌then◌else◌, Bytes, Result, err, ok, IsU32, IsByte, All,
}
use mathlib.Core.Option
use mathlib.Core.Path.{subst, ap₂}
use native.Mathlib.Numerals.{add-one}
use terraform_provider_netge.Wire.{
  Tlv, Reply, Malformed, malformed, status_error, reply, parse_reply, encode_get_request,
  encode_reply, agent_id,
}
use terraform_provider_netge.Wire.Walk.{IsTlv}
use terraform_provider_netge.Wire.Exchange.{get_exchange, echoed}
use terraform_provider_netge.Client.{
  Client, Session, Event, arrives, timeout, Failure, Action, attempt, retry, read_loop, get_attr,
  first_value, attempts_for, no_reply, cmd_get_reply, ◌>>=◌,
}

-- An action that succeeds hands its value and its session on.
pub >>=-ok :
    {A B : Type 0} (first : Action A) (next : A → Action B) {s s' : Session} {a : A}
    → first s ≡ (ok a, s')
    → (first >>= next) s ≡ next a s'
unfolding ◌>>=◌
>>=-ok first next h = rw h refl

-- The connection works.
pub record Reliable (c : Client) : Type 0 where
  pub writes : (n : ℕ) → c.write_fails n ≡ false
  pub deadlines : (n : ℕ) → c.deadline_fails n ≡ false

-- Some datagrams before other reads.
abbrev pub arrivals : List Bytes → List Event → List Event
arrivals [] rest = rest
arrivals (pkt ∷ pkts) rest = arrives pkt ∷ arrivals pkts rest

-- Windows that end at their deadline, before other reads.
abbrev pub silence : List (List Bytes) → List Event → List Event
silence [] rest = rest
silence (w ∷ ws) rest = arrivals w (timeout ∷ silence ws rest)

-- A datagram that is no answer to the request of a number: malformed, or of another exchange.
abbrev pub Ignored : Client → ℕ → ℕ → Bytes → Type 0
Ignored c cmd seq pkt =
    (reason : Malformed) × (parse_reply (take 4096 pkt) cmd seq c.mac c.agent_mac
      ≡ malformed reason)

abbrev pub Silent : Client → ℕ → ℕ → List (List Bytes) → Type 0
Silent c cmd seq [] = Unit
Silent c cmd seq (w ∷ ws) = All (Ignored c cmd seq) w × Silent c cmd (suc seq) ws

-- The requests under consecutive numbers.
abbrev pub asked : (ℕ → Bytes) → ℕ → ℕ → List Bytes
asked request seq zero = []
asked request seq (suc n) = request seq ∷ asked request (suc seq) n

-- A session after `n` requests, with the reads that are left.
abbrev pub after : (ℕ → Bytes) → ℕ → List Event → Session → Session
after request n incoming s = record s {
  seq = s.seq + n;
  incoming = incoming;
  sent = s.sent ++ asked request s.seq n;
}

pub take_all {ℓ} : {A : Type ℓ} (n : ℕ) (xs : List A) → length xs ≤ n → take n xs ≡ xs
take_all zero [] h = refl
take_all (suc n) [] h = refl
take_all zero (x ∷ xs) h = absurd (omega arith)
take_all (suc n) (x ∷ xs) h = ap (◌∷◌ x) (take_all n xs (omega (arith, h)))

module _ (c : Client) (works : Reliable c) (cmd : ℕ) where
  read_loop-arrivals :
      (seq : ℕ) (w : List Bytes) (rest : List Event)
      → All (Ignored c cmd seq) w
      → read_loop c seq cmd (arrivals w rest) ≡ read_loop c seq cmd rest
  unfolding read_loop
  read_loop-arrivals seq [] rest h = refl
  read_loop-arrivals seq (pkt ∷ pkts) rest h =
      rw (read_loop, h.0.1) (read_loop-arrivals seq pkts rest h.1)

  -- One attempt over a working connection.
  pub attempt_lem :
      (request : ℕ → Option Bytes) (made : ℕ → Bytes) (s : Session)
      → ((n : ℕ) → request n ≡ some (made n))
      → s.seq + 1 < 4294967296
      → attempt c cmd request s ≡ (
        (read_loop c s.seq cmd s.incoming).0,
        after made 1 (read_loop c s.seq cmd s.incoming).1 s,
      )
  unfolding attempt
  attempt_lem request made s total low =
      let fits : (s.seq + 1) % 4294967296 ≡ s.seq + 1 = omega (arith, low) in
      rw (total s.seq, works.writes s.seq, works.deadlines s.seq, fits) refl

  -- Silent windows, and then the answer.
  read_loop-silence :
      (seq : ℕ) (w : List Bytes) (rest : List Event)
      → All (Ignored c cmd seq) w
      → read_loop c seq cmd (arrivals w (timeout ∷ rest)) ≡ (err no_reply, rest)
  unfolding read_loop
  read_loop-silence seq w rest h = read_loop-arrivals seq w (timeout ∷ rest) h

  pub read_loop-answer :
      (seq : ℕ) (w : List Bytes) (pkt : Bytes) (r : Reply) (rest : List Event)
      → All (Ignored c cmd seq) w
      → parse_reply (take 4096 pkt) cmd seq c.mac c.agent_mac ≡ reply r
      → read_loop c seq cmd (arrivals w (arrives pkt ∷ rest)) ≡ (ok r, rest)
  unfolding read_loop
  read_loop-answer seq w pkt r rest h e =
      read_loop-arrivals seq w (arrives pkt ∷ rest) h ∙ rw (read_loop, e) refl

  attempt-silence :
      (request : ℕ → Option Bytes) (made : ℕ → Bytes) (s : Session) (w : List Bytes)
      (rest : List Event)
      → ((n : ℕ) → request n ≡ some (made n))
      → s.seq + 1 < 4294967296
      → s.incoming ≡ arrivals w (timeout ∷ rest)
      → All (Ignored c cmd s.seq) w
      → attempt c cmd request s ≡ (err no_reply, after made 1 rest s)
  attempt-silence request made s w rest total low comes h =
      attempt_lem request made s total low ∙ rw (comes, read_loop-silence s.seq w rest h) refl

  pub attempt-answer :
      (request : ℕ → Option Bytes) (made : ℕ → Bytes) (s : Session) (w : List Bytes) (pkt : Bytes)
      (r : Reply) (rest : List Event)
      → ((n : ℕ) → request n ≡ some (made n))
      → s.seq + 1 < 4294967296
      → s.incoming ≡ arrivals w (arrives pkt ∷ rest)
      → All (Ignored c cmd s.seq) w
      → parse_reply (take 4096 pkt) cmd s.seq c.mac c.agent_mac ≡ reply r
      → attempt c cmd request s ≡ (ok r, after made 1 rest s)
  attempt-answer request made s w pkt r rest total low comes h e =
      attempt_lem request made s total low
      ∙ rw (comes, read_loop-answer s.seq w pkt r rest h e) refl

-- A request that is tried again until the answer comes.
module _ (c : Client) (works : Reliable c) (request : ℕ → Option Bytes) (made : ℕ → Bytes)
    (total : (n : ℕ) → request n ≡ some (made n)) (w : List Bytes) (pkt : Bytes) (r : Reply)
    (rest : List Event) where
  after-after :
      (k : ℕ) (between : List Event) (s : Session)
      → after made k rest (after made 1 between s) ≡ after made (suc k) rest s
  after-after k between s =
      ap₂ (λ n sent. record s { seq = n; incoming = rest; sent = sent }) (omega arith)
        (append_assoc s.sent (made s.seq ∷ []) (asked made (s.seq + 1) k)
          ∙ ap (λ n. s.sent ++ (made s.seq ∷ asked made n k)) (omega arith))

  pub retry-answer :
      (ws : List (List Bytes)) (n last : ℕ) (s : Session)
      → length ws < n
      → last ≡ s.seq + length ws
      → s.seq + n < 4294967296
      → s.incoming ≡ silence ws (arrivals w (arrives pkt ∷ rest))
      → Silent c cmd_get_reply s.seq ws
      → All (Ignored c cmd_get_reply last) w
      → parse_reply (take 4096 pkt) cmd_get_reply last c.mac c.agent_mac ≡ reply r
      → retry c request n s ≡ (ok r, after made (suc (length ws)) rest s)
  unfolding retry
  retry-answer ws zero last s short at low comes quiet junk e = absurd (omega (arith, short))
  retry-answer [] (suc n) last s short at low comes quiet junk e =
      rw
        (attempt-answer c works cmd_get_reply request made s w pkt r rest total (omega (arith, low))
          comes (subst (λ n. All (Ignored c cmd_get_reply n) w) (at ∙ omega arith) junk)
          (subst (λ n. parse_reply (take 4096 pkt) cmd_get_reply n c.mac c.agent_mac ≡ reply r)
            (at ∙ omega arith) e))
        refl
  retry-answer (v ∷ ws) (suc n) last s short at low comes quiet junk e =
      rw
        (attempt-silence c works cmd_get_reply request made s v
          (silence ws (arrivals w (arrives pkt ∷ rest))) total (omega (arith, low)) comes quiet.0)
        (retry-answer ws n last (after made 1 (silence ws (arrivals w (arrives pkt ∷ rest))) s)
            (omega (arith, short)) (omega (arith, at)) (omega (arith, low)) refl
            (rw (add-one) quiet.1) junk e
          ∙ ap (λ s'. (ok r, s'))
              (after-after (suc (length ws)) (silence ws (arrivals w (arrives pkt ∷ rest))) s))

  -- A request that no window answers.
  pub retry-silence :
      (ws : List (List Bytes)) (s : Session)
      → s.seq + length ws < 4294967296
      → s.incoming ≡ silence ws rest
      → Silent c cmd_get_reply s.seq ws
      → retry c request (length ws) s ≡ (err no_reply, after made (length ws) rest s)
  unfolding retry
  retry-silence [] s low comes quiet =
      ap (λ incoming. (err no_reply, record s { incoming = incoming })) comes
      ∙ ap₂ (λ n sent. (err no_reply, record s { seq = n; incoming = rest; sent = sent }))
          (omega arith) (sym (append-nil s.sent))
  retry-silence (v ∷ ws) s low comes quiet =
      rw
        (attempt-silence c works cmd_get_reply request made s v (silence ws rest) total
          (omega (arith, low)) comes quiet.0)
        (retry-silence ws (after made 1 (silence ws rest) s) (omega (arith, low)) refl
            (rw (add-one) quiet.1)
          ∙ ap (λ s'. (err no_reply, s')) (after-after (length ws) (silence ws rest) s))
