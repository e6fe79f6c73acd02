-- ===== src/Client/Budget/Requests.antt =====
-- The requests of each operation of the client (internal/nsdp/client.go), counted.
use terraform_provider_netge.Base.{
  some_inj, ℕ, zero, suc, ◌+◌, ◌*◌, ◌%◌, ◌≤◌, ◌<◌, ◌≡◌, refl, sym, ◌∙◌, Bool-cases, Option-cases,
  inl, inr, Option, some, List, [], ◌∷◌, ◌++◌, append-nil, arith, length, ◌==◌, if◌then◌else◌,
  Bytes, IsU32, insert,
}
use terraform_provider_netge.Wire.{
  Tlv, be32, agent_id, encode_get_request, encode_set_tlvs, system_name_tag,
}
use terraform_provider_netge.Wire.Requests.{
  six_bytes, length-agent_id, encode_set_tlvs-region, encode_header_lem,
}
use terraform_provider_netge.Token.{
  login_token, login_tag_for, encode_set_login_request, encode_set_name_request,
}
use terraform_provider_netge.Client.{
  Client, Session, Failure, pure, fail, ◌>>=◌, or_fail, with_session, attempt, retry, cmd_get_reply,
  cmd_set_reply, no_reply, non_empty, get_attr, get_attrs, attempts_for, first_value, wanted,
  get_each, attr_capability, attr_nonce,
}
use terraform_provider_netge.Client.Login.{
  login, login_nonce, four_bytes, log_in_with, authenticated, refreshed, refresh_token, authorize,
  set_raw, set_system_name, plain,
}
use terraform_provider_netge.Client.Budget.{
  number, sets, Run, Sends, Sends-still, Sends-pure, Sends-fail, Sends-or_fail, Sends-if,
  Sends-with_session, Sends-more, Sends-bind, Sends-unless_silent,
}

-- A request builder whose requests carry their sequence number, and at most `j` SETs.
abbrev pub Numbered : ℕ → (ℕ → Option Bytes) → Type 0
Numbered j request =
    (seq : ℕ) (req : Bytes)
    → IsU32 seq
    → request seq ≡ some req
    → (number req ≡ seq) × (sets (req ∷ []) ≤ j)

module _ (mac : Bytes) (six : length mac ≡ 6) where
  encode_get_request-Numbered :
      (agent tags : Bytes) → Numbered 0 (λ seq. encode_get_request mac agent seq tags)
  unfolding encode_get_request
  encode_get_request-Numbered agent tags seq req u32 =
      let (a, b, c, d, e, f, m) = six_bytes mac six in
      let (a', b', c', d', e', f', g) = six_bytes (agent_id agent) (length-agent_id agent) in
      rw (encode_header_lem mac agent seq six, m, g)
        λ h. rw (← some_inj h) (omega arith, omega arith)

  encode_set_tlvs-Numbered :
      (agent : Bytes) (t : Tlv) (ts : List Tlv)
      → Numbered 1 (λ seq. encode_set_tlvs mac agent seq (t ∷ ts))
  encode_set_tlvs-Numbered agent t ts seq req u32 =
      let (a, b, c, d, e, f, m) = six_bytes mac six in
      let (a', b', c', d', e', f', g) = six_bytes (agent_id agent) (length-agent_id agent) in
      rw (encode_set_tlvs-region mac agent seq t ts six, m, g)
        λ h. rw (← some_inj h) (omega arith, omega arith)

module _ (j : ℕ) (s s' : Session) (low : s.seq + 1 < 4294967296)
    (next : s'.seq ≡ (s.seq + 1) % 4294967296) where
  Run-unsent : s'.sent ≡ s.sent → Run 1 j s s'
  Run-unsent same = record {
    new = [];
    appended = same ∙ sym (append-nil s.sent);
    fresh = omega (arith, low, next);
    requests = omega (arith, low, next);
    settings = omega arith;
  }

  Run-sent :
      (req : Bytes)
      → s'.sent ≡ s.sent ++ (req ∷ [])
      → (number req ≡ s.seq) × (sets (req ∷ []) ≤ j)
      → Run 1 j s s'
  Run-sent req more h = record {
    new = req ∷ [];
    appended = more;
    fresh = (omega (arith, h.0), omega (arith, h.0, low, next));
    requests = omega (arith, low, next);
    settings = h.1;
  }

-- One attempt sends one request at most.
Sends-attempt :
    (c : Client) (cmd j : ℕ) (request : ℕ → Option Bytes)
    → Numbered j request
    → Sends 1 j (attempt c cmd request)
unfolding attempt
Sends-attempt c cmd j request numbered = record {
  at = λ s low. elim (Option-cases (request s.seq)) [
    | inl h ↦ rw h (Run-unsent j s _ low refl refl)
    | inr (req, h) ↦
        let fits : (number req ≡ s.seq) × (sets (req ∷ []) ≤ j) =
          numbered s.seq req (omega (arith, low)) h in
        elim (Bool-cases (c.write_fails s.seq)) [
          | inl w ↦ rw (h, w) (Run-unsent j s _ low refl refl)
          | inr w ↦ elim (Bool-cases (c.deadline_fails s.seq)) [
            | inl d ↦ rw (h, w, d) (Run-sent j s _ low refl req refl fits)
            | inr d ↦ rw (h, w, d) (Run-sent j s _ low refl req refl fits)
          ]
        ]
  ];
}

-- A retried request is sent as often as there are attempts, at most.
pub Sends-retry :
    (c : Client) (n : ℕ) (request : ℕ → Option Bytes)
    → Numbered 0 request
    → Sends n 0 (retry c request n)
unfolding retry
Sends-retry c zero request numbered = Sends-fail 0 0 no_reply
Sends-retry c (suc n) request numbered =
    Sends-more (1 + n) 0 (suc n) 0 (retry c request (suc n)) (omega arith) (omega arith) (
      Sends-unless_silent 1 0 n 0 (attempt c cmd_get_reply request) (retry c request n) pure
        (Sends-attempt c cmd_get_reply 0 request numbered) (Sends-retry c n request numbered)
        (λ r. Sends-more 0 0 n 0 (pure r) (omega arith) (omega arith) (Sends-pure r)))

-- At most this many requests for the value of a tag.
module _ (c : Client) (six : length c.mac ≡ 6) where
  pub Sends-get_attr : (tag : ℕ) → Sends (attempts_for tag) 0 (get_attr c tag)
  unfolding get_attr
  Sends-get_attr tag =
      Sends-more (attempts_for tag + 0) 0 (attempts_for tag) 0 (get_attr c tag) (omega arith)
        (omega arith)
        (Sends-bind (attempts_for tag) 0 0 0
          (retry c (λ seq. encode_get_request c.mac c.agent_mac seq (tag ∷ [])) (attempts_for tag))
          (λ r. or_fail Failure.missing_tlv (first_value tag r.tlvs))
          (Sends-retry c (attempts_for tag) _
            (encode_get_request-Numbered c.mac six c.agent_mac (tag ∷ [])))
          (λ r. Sends-or_fail Failure.missing_tlv (first_value tag r.tlvs)))

  Sends-nonce : Sends 14 0 (get_attr c attr_nonce)
  unfolding attempts_for
  Sends-nonce = Sends-get_attr attr_nonce

  Sends-capability : Sends 5 0 (get_attr c attr_capability)
  unfolding attempts_for
  Sends-capability = Sends-get_attr attr_capability

  Sends-four_bytes : (value : Bytes) → Sends 0 0 (four_bytes value)
  unfolding four_bytes
  Sends-four_bytes value =
      Sends-if 0 0 (length value == 4) (pure value) (fail Failure.bad_length) (Sends-pure value)
        (Sends-fail 0 0 Failure.bad_length)

  Sends-login_nonce : (capability : ℕ) (value : Bytes) → Sends 0 0 (login_nonce capability value)
  unfolding login_nonce
  Sends-login_nonce capability value =
      Sends-if 0 0 (length value == 4) (pure value) _ (Sends-pure value) (
        Sends-if 0 0 (plain capability) (pure []) (fail Failure.bad_length) (Sends-pure [])
          (Sends-fail 0 0 Failure.bad_length))

  Sends-set :
      (request : ℕ → Option Bytes)
      → Numbered 1 request
      → Sends 1 1 (attempt c cmd_set_reply request)
  Sends-set request numbered = Sends-attempt c cmd_set_reply 1 request numbered

  encode_set_login_request-Numbered :
      (capability : ℕ) (nonce : Bytes)
      → Numbered 1
          (λ seq. encode_set_login_request c.mac c.agent_mac seq capability nonce c.password)
  unfolding encode_set_login_request
  encode_set_login_request-Numbered capability nonce seq req u32 =
      elim (Option-cases (login_token capability nonce c.agent_mac c.password)) [
        | inl h ↦ rw (encode_set_login_request, h) (λ e. cc)
        | inr (token, h) ↦
            rw (encode_set_login_request, h)
              (encode_set_tlvs-Numbered c.mac six c.agent_mac
                (record { tag = login_tag_for capability; value = token }) [] seq req u32)
      ]

  Sends-log_in_with : (capability : ℕ) (nonce : Bytes) → Sends 1 1 (log_in_with c capability nonce)
  unfolding log_in_with authenticated
  Sends-log_in_with capability nonce =
      Sends-bind 0 0 1 1 (or_fail Failure.panics token) _ (Sends-or_fail Failure.panics token)
        (λ value.
          Sends-bind 1 1 0 0 (attempt c cmd_set_reply request) _
            (Sends-set request (encode_set_login_request-Numbered capability nonce))
            (λ r. Sends-still 0 0 (authenticated capability value) λ s. (refl, refl)))
    where
      token : Option Bytes
      token = login_token capability nonce c.agent_mac c.password

      request : ℕ → Option Bytes
      request seq = encode_set_login_request c.mac c.agent_mac seq capability nonce c.password

  -- With a manager MAC of 6 bytes, one Login sends at most 20 requests and at most one SET, so
  -- that a refused password is not tried again, under strictly increasing sequence numbers,
  -- unless the 32-bit counter wraps.
  pub Sends-login : Sends 20 1 (login c)
  unfolding login
  Sends-login =
      Sends-if 20 1 (length c.agent_mac == 0) (fail Failure.no_agent) _
        (Sends-fail 20 1 Failure.no_agent)
        (Sends-bind 5 0 15 1 (get_attr c attr_capability >>= four_bytes) _
          (Sends-bind 5 0 0 0 (get_attr c attr_capability) four_bytes Sends-capability
            Sends-four_bytes)
          (λ word. Sends-bind 14 0 1 1 (get_attr c attr_nonce) _ Sends-nonce (λ value.
            Sends-bind 0 0 1 1 (login_nonce (be32 word) value) (log_in_with c (be32 word))
              (Sends-login_nonce (be32 word) value) (Sends-log_in_with (be32 word)))))

  pub Sends-refresh_token : Sends 14 0 (refresh_token c)
  unfolding refresh_token refreshed
  Sends-refresh_token = Sends-with_session 14 0 _ λ s.
      Sends-if 14 0 (plain s.capability) (pure tt) _
        (Sends-more 0 0 14 0 (pure tt) (omega arith) (omega arith) (Sends-pure tt))
        (Sends-bind 14 0 0 0 (get_attr c attr_nonce >>= four_bytes) _
          (Sends-bind 14 0 0 0 (get_attr c attr_nonce) four_bytes Sends-nonce Sends-four_bytes)
          (λ nonce.
            Sends-bind 0 0 0 0 (or_fail Failure.panics (token s nonce)) refreshed
              (Sends-or_fail Failure.panics (token s nonce))
              (λ value. Sends-still 0 0 (refreshed value) λ s'. (refl, refl))))
    where
      token : Session → Bytes → Option Bytes
      token s nonce = login_token s.capability nonce c.agent_mac c.password

  Sends-authorize : Sends 34 1 (authorize c)
  unfolding authorize
  Sends-authorize =
      Sends-bind 20 1 14 0 (with_session λ s. if s.logged_in then pure tt else login c) _
        (Sends-with_session 20 1 _ λ s.
          Sends-if 20 1 s.logged_in (pure tt) (login c)
            (Sends-more 0 0 20 1 (pure tt) (omega arith) (omega arith) (Sends-pure tt)) Sends-login)
        (λ u. Sends-refresh_token)

  -- With a manager MAC of 6 bytes, one SetRaw sends at most 35 requests, at most two of them
  -- SETs, under strictly increasing sequence numbers from the session's counter on that stay
  -- below its new value, unless the 32-bit counter wraps.
  pub Sends-set_raw : (tag : ℕ) (value : Bytes) → Sends 35 2 (set_raw c tag value)
  unfolding set_raw
  Sends-set_raw tag value = Sends-bind 34 1 1 1 (authorize c) _ Sends-authorize λ u.
      Sends-with_session 1 1 _ λ s.
        Sends-bind 1 1 0 0 (attempt c cmd_set_reply (request s)) (λ r. pure tt)
          (Sends-set (request s) (encode_set_tlvs-Numbered c.mac six c.agent_mac _ _))
          (λ r. Sends-pure tt)
    where
      request : Session → ℕ → Option Bytes
      request s seq = encode_set_tlvs c.mac c.agent_mac seq (
          record { tag = login_tag_for s.capability; value = s.token }
          ∷ record { tag = tag; value = value }
          ∷ [])

  pub Sends-set_system_name : (name : Bytes) → Sends 35 2 (set_system_name c name)
  unfolding set_system_name encode_set_name_request
  Sends-set_system_name name = Sends-bind 34 1 1 1 (authorize c) _ Sends-authorize λ u.
      Sends-with_session 1 1 _ λ s.
        Sends-bind 1 1 0 0 (attempt c cmd_set_reply (request s)) (λ r. pure tt)
          (Sends-set (request s) (
            encode_set_tlvs-Numbered c.mac six c.agent_mac
              (record { tag = login_tag_for s.capability; value = s.token })
              (record { tag = system_name_tag; value = name } ∷ [])))
          (λ r. Sends-pure tt)
    where
      request : Session → ℕ → Option Bytes
      request s seq = encode_set_name_request c.mac c.agent_mac seq s.capability s.token name

  Sends-get_attr_most : (tag : ℕ) → Sends 14 0 (get_attr c tag)
  unfolding attempts_for
  Sends-get_attr_most tag =
      Sends-more (attempts_for tag) 0 14 0 (get_attr c tag) (ground arith) (omega arith)
        (Sends-get_attr tag)

  Sends-get_each :
      (tags : List ℕ) (m : List (ℕ × Bytes)) → Sends (14 * length tags) 0 (get_each c tags m)
  unfolding get_each
  Sends-get_each [] m = Sends-pure m
  Sends-get_each (tag ∷ tags) m =
      Sends-more (14 + 14 * length tags) 0 (14 * length (tag ∷ tags)) 0 (get_each c (tag ∷ tags) m)
        (omega arith) (omega arith)
        (Sends-unless_silent 14 0 (14 * length tags) 0 (get_attr c tag) (get_each c tags m) _
          (Sends-get_attr_most tag) (Sends-get_each tags m)
          (λ value. Sends-get_each tags (insert tag value m)))

  Sends-non_empty : {A : Type 0} (why : Failure) (xs : List A) → Sends 0 0 (non_empty why xs)
  unfolding non_empty
  Sends-non_empty why [] = Sends-fail 0 0 why
  Sends-non_empty why (x ∷ xs) = Sends-pure (x ∷ xs)

  -- With a manager MAC of 6 bytes, GetAttrs sends at most 14 requests, or 14 for each tag on a
  -- v1 switch, and no SET, under strictly increasing sequence numbers, unless the 32-bit
  -- counter wraps.
  pub Sends-get_attrs :
      (tags : List ℕ) → Sends (if c.v1 then 14 * length tags else 14) 0 (get_attrs c tags)
  unfolding get_attrs
  Sends-get_attrs [] = Sends-fail (if c.v1 then 0 else 14) 0 Failure.no_tags
  Sends-get_attrs (tag ∷ tags) = elim (Bool-cases c.v1) [
    | inl h ↦
        rw (get_attrs, h)
          (Sends-more (14 * length (tag ∷ tags) + 0) 0 (14 * length (tag ∷ tags)) 0 _ (omega arith)
            (omega arith)
            (Sends-bind (14 * length (tag ∷ tags)) 0 0 0 (get_each c (tag ∷ tags) [])
              (non_empty no_reply) (Sends-get_each (tag ∷ tags) []) (Sends-non_empty no_reply)))
    | inr h ↦
        rw (get_attrs, h)
          (Sends-bind 14 0 0 0 (retry c request 14) _
            (Sends-retry c 14 request
              (encode_get_request-Numbered c.mac six c.agent_mac (tag ∷ tags)))
            (λ r. Sends-non_empty Failure.missing_tlv (wanted (tag ∷ tags) r.tlvs [])))
  ]
    where
      request : ℕ → Option Bytes
      request seq = encode_get_request c.mac c.agent_mac seq (tag ∷ tags)
