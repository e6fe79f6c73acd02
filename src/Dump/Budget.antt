-- ===== src/Dump/Budget.antt =====
-- The requests of the reads (internal/nsdp/dump.go, identity.go), counted.
use terraform_provider_netge.Base.{
  ℕ, ◌+◌, ◌*◌, ◌≡◌, refl, some_inj, List, [], ◌∷◌, ◌++◌, arith, length, of_both, sym, if◌then◌else◌,
  Bytes, Result, err, ok,
}
use mathlib.Core.Option.{Option}
use mathlib.Core.Path.{subst}
use terraform_provider_netge.Wire.{agent_id}
use terraform_provider_netge.Wire.Requests.{six_bytes, length-agent_id, encode_header_lem}
use terraform_provider_netge.Client.{Client, Session, Failure, Action, pure, fail, retry, get_attrs}
use terraform_provider_netge.Client.Budget.{
  Run, Sends, Sends-pure, Sends-if, Sends-more, Sends-bind,
}
use terraform_provider_netge.Client.Budget.Requests.{Numbered, Sends-retry, Sends-get_attrs}
use terraform_provider_netge.Dump.{block_marker_v2, encode_block_get_request, decode_tlvs}
use terraform_provider_netge.Dump.Reads.{
  get_block, recorded, record_outcome, is_panic, dump_blocks, dump, default_dump_small_tags,
  default_dump_block_ids,
}
use terraform_provider_netge.Dump.Identity.{get_identity, identity_v1, identity_v2, identity_tags}

encode_block_get_request-Numbered :
    (mac agent : Bytes) (block marker : ℕ) (selector : Bytes)
    → length mac ≡ 6
    → Numbered 0 (λ seq. encode_block_get_request mac agent seq block marker selector)
unfolding encode_block_get_request
encode_block_get_request-Numbered mac agent block marker selector six seq req u32 =
    let (a, b, c, d, e, f, m) = six_bytes mac six in
    let (a', b', c', d', e', f', g) = six_bytes (agent_id agent) (length-agent_id agent) in
    rw (encode_header_lem mac agent seq six, m, g) λ h. rw (← some_inj h) (omega arith, omega arith)

module _ (c : Client) (six : length c.mac ≡ 6) where
  pub Sends-get_block : (block : ℕ) (selector : Bytes) → Sends 14 0 (get_block c block selector)
  unfolding get_block
  Sends-get_block block selector =
      Sends-bind 14 0 0 0 (retry c request 14) (λ r. pure (decode_tlvs r.tlvs))
        (Sends-retry c 14 request
          (encode_block_get_request-Numbered c.mac c.agent_mac block block_marker_v2 selector six))
        (λ r. Sends-pure (decode_tlvs r.tlvs))
    where
      request : ℕ → Option Bytes
      request seq = encode_block_get_request c.mac c.agent_mac seq block block_marker_v2 selector

  record_outcome-still :
      {A : Type 0} (result : Result Failure A) (s : Session) → (record_outcome result s).1 ≡ s
  unfolding record_outcome
  record_outcome-still (err why) s =
      of_both (λ m. (m s).1 ≡ s) (is_panic why) (fail why) (pure (err why)) refl refl
  record_outcome-still (ok a) s = refl

  Sends-recorded : {A : Type 0} (k j : ℕ) (m : Action A) → Sends k j m → Sends k j (recorded m)
  unfolding recorded
  Sends-recorded k j m h = record {
    at = λ s low. subst (Run k j s) (sym (record_outcome-still (m s).0 (m s).1)) (h.at s low);
  }

  Sends-dump_blocks : (blocks : List ℕ) → Sends (14 * length blocks) 0 (dump_blocks c blocks)
  unfolding dump_blocks
  Sends-dump_blocks [] = Sends-pure []
  Sends-dump_blocks (block ∷ blocks) =
      Sends-more (14 + (14 * length blocks + 0)) 0 (14 * length (block ∷ blocks)) 0 _ (omega arith)
        (omega arith)
        (Sends-bind 14 0 (14 * length blocks + 0) 0 (recorded (get_block c block [])) _
          (Sends-recorded 14 0 (get_block c block []) (Sends-get_block block []))
          (λ outcome.
            Sends-bind (14 * length blocks) 0 0 0 (dump_blocks c blocks) _
              (Sends-dump_blocks blocks)
              (λ later. Sends-pure (record { block_id = block; outcome = outcome } ∷ later))))

  -- With a manager MAC of 6 bytes, a Dump sends at most 84 requests, or 308 on a v1 switch,
  -- and no SET, under strictly increasing sequence numbers, unless the 32-bit counter wraps.
  pub Sends-dump : Sends (if c.v1 then 308 else 84) 0 (dump c)
  unfolding dump
  Sends-dump =
      Sends-more ((if c.v1 then 238 else 14) + 70) 0 (if c.v1 then 308 else 84) 0 (dump c)
        (ground arith) (omega arith)
        (Sends-bind (if c.v1 then 238 else 14) 0 70 0 (get_attrs c default_dump_small_tags) _
          (Sends-get_attrs c six default_dump_small_tags)
          (λ m.
            Sends-bind 70 0 0 0 (dump_blocks c default_dump_block_ids) _
              (Sends-dump_blocks default_dump_block_ids) (λ blocks. Sends-pure _)))

  Sends-identity_v1 : Sends 98 0 (identity_v1 c)
  unfolding identity_v1
  Sends-identity_v1 =
      Sends-bind 98 0 0 0 (get_attrs c (identity_tags ++ (0x0f ∷ 0x19 ∷ []))) _
        (Sends-more (if c.v1 then 98 else 14) 0 98 0 _ (ground arith) (omega arith)
          (Sends-get_attrs c six (identity_tags ++ (0x0f ∷ 0x19 ∷ []))))
        (λ m. Sends-pure _)

  Sends-identity_v2 : Sends 98 0 (identity_v2 c)
  unfolding identity_v2
  Sends-identity_v2 =
      Sends-bind 84 0 14 0 (get_attrs c identity_tags) _
        (Sends-more (if c.v1 then 70 else 14) 0 84 0 _ (ground arith) (omega arith)
          (Sends-get_attrs c six identity_tags))
        (λ m.
          Sends-bind 14 0 0 0 (get_block c 0x78 []) _ (Sends-get_block 0x78 [])
            (λ attrs. Sends-pure _))

  -- The identity of a switch takes at most 98 requests, none of them a SET.
  pub Sends-get_identity : Sends 98 0 (get_identity c)
  unfolding get_identity
  Sends-get_identity =
      Sends-if 98 0 c.v1 (identity_v1 c) (identity_v2 c) Sends-identity_v1 Sends-identity_v2
