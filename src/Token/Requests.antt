-- ===== src/Token/Requests.antt =====
-- The login and name requests (internal/nsdp/wire.go) and the tokens that they carry.
use mathlib.Core.Option
use terraform_provider_netge.Base.{
  ℕ, ◌+◌, ◌≤◌, ◌<◌, ◌≡◌, refl, inl, inr, Bool, false, ◌||◌, none, some, [], ◌∷◌, ◌++◌, arith, ltb,
  ◌==◌, if◌then◌else◌, Bool-cases, length, replicate, length-take, length-append, Bytes, IsU16,
}
use terraform_provider_netge.Wire.{walk_tlvs, system_name_tag}
use terraform_provider_netge.Wire.Walk.{IsTlv}
use terraform_provider_netge.Wire.Requests.{walk_tlvs-encode_set_tlvs}
use terraform_provider_netge.Token.{
  login_tag_v1, login_tag_v2, pad_password, ntgr_rock, v2_login_token, v1_login_token, has_bit,
  login_token, login_tag_for, encode_set_login_request, encode_set_name_request,
}
use terraform_provider_netge.Token.Rock.{length-ntgr_rock}

-- The length that a token has under a tag, for a password of n bytes.
abbrev pub token_length : ℕ → ℕ → ℕ
token_length tag n = if tag == login_tag_v2 then 8 else if tag == login_tag_v1 then 4 else n

length-pad_password : (pw : Bytes) → length (pad_password pw) ≡ 20
unfolding pad_password
length-pad_password pw =
    omega (arith, length-take 20 (pw ++ replicate 20 0), length-append pw (replicate 20 0))

passed : (b : Bool) (t : Bytes) → b ≡ false → (if b then none else some t) ≡ some t
passed b t h = rw h refl

enough : (a b c k : ℕ) → 4 ≤ a → b ≡ 6 → k ≤ c → (ltb a 4 || (ltb b 6 || ltb c k)) ≡ false
enough a b c k ha hb hc = ground (arith, ha, hb, hc)

v2_login_token-some :
    (n m p : Bytes)
    → 4 ≤ length n
    → length m ≡ 6
    → length p ≡ 20
    → (t : Bytes) × (v2_login_token n m p ≡ some t) × (length t ≡ 8)
unfolding v2_login_token
v2_login_token-some n m p hn hm hp =
    (_, passed _ _ (enough (length n) (length m) (length p) 20 hn hm (omega (arith, hp))), refl)

v1_login_token-some :
    (n m p : Bytes)
    → 4 ≤ length n
    → length m ≡ 6
    → length p ≡ 20
    → (t : Bytes) × (v1_login_token n m p ≡ some t) × (length t ≡ 4)
unfolding v1_login_token
v1_login_token-some n m p hn hm hp =
    (_, passed _ _ (enough (length n) (length m) (length p) 16 hn hm (omega (arith, hp))), refl)

module _ (capability : ℕ) (nonce mac password : Bytes) (hn : 4 ≤ length nonce)
    (hm : length mac ≡ 6) where
  mixed : Bytes
  mixed = if has_bit capability 1 then ntgr_rock password else password

  length-mixed : length mixed ≡ length password
  unfolding mixed
  length-mixed = elim (Bool-cases (has_bit capability 1)) [
    | inl b ↦ rw b (length-ntgr_rock password)
    | inr b ↦ rw b refl
  ]

  login_token-some :
      (t : Bytes) × (login_token capability nonce mac password ≡ some t)
      × (length t ≡ token_length (login_tag_for capability) (length password))
  unfolding login_token login_tag_for mixed
  login_token-some = elim (Bool-cases (has_bit capability 0x10)) [
    | inl b ↦
        let (t, e, len) =
          v2_login_token-some nonce mac (pad_password mixed) hn hm (length-pad_password mixed) in
        (t, rw b e, rw b len)
    | inr b ↦ elim (Bool-cases (has_bit capability 8)) [
      | inl b' ↦
          let (t, e, len) =
            v1_login_token-some nonce mac (pad_password mixed) hn hm (length-pad_password mixed) in
          (t, rw (b, b') e, rw (b, b') len)
      | inr b' ↦ (mixed, rw (b, b') refl, rw (b, b') length-mixed)
    ]
  ]

  login_tag_lem :
      (login_tag_for capability < 65535)
      × (token_length (login_tag_for capability) (length password) ≤ 8 + length password)
  unfolding login_tag_for
  login_tag_lem = elim (Bool-cases (has_bit capability 0x10)) [
    | inl b ↦ rw b (omega arith, omega arith)
    | inr b ↦ elim (Bool-cases (has_bit capability 8)) [
      | inl b' ↦ rw (b, b') (omega arith, omega arith)
      | inr b' ↦ rw (b, b') (omega arith, omega arith)
    ]
  ]

  login_IsTlv :
      (t : Bytes)
      → length password < 65000
      → length t ≡ token_length (login_tag_for capability) (length password)
      → IsTlv (record { tag = login_tag_for capability; value = t })
  login_IsTlv t small len = record {
    tag_u16 = omega (arith, login_tag_lem.0);
    tag_ne_term = λ e. absurd (omega (arith, login_tag_lem.0, e));
    length_u16 = omega (arith, login_tag_lem.1, len, small);
  }

-- The login request, for a nonce of 4 bytes or more, MACs of 6 bytes and a password that fits an
-- entry: the token exists, has the length that belongs to the tag of the capability (8 bytes for
-- V2, 4 for V1, else that of the password), and the request reads back as this one entry.
pub encode_set_login_request-walk_tlvs :
    (mac agent nonce password : Bytes) (seq capability : ℕ)
    → length mac ≡ 6
    → length agent ≡ 6
    → 4 ≤ length nonce
    → length password < 65000
    → (t : Bytes) × (login_token capability nonce agent password ≡ some t)
      × (length t ≡ token_length (login_tag_for capability) (length password))
      × (Option.map walk_tlvs (encode_set_login_request mac agent seq capability nonce password)
          ≡ some (record { tag = login_tag_for capability; value = t } ∷ [], false))
unfolding encode_set_login_request
encode_set_login_request-walk_tlvs mac agent nonce password seq capability hm ha hn small =
    let (t, e, len) = login_token-some capability nonce agent password hn ha in
    let entry = login_IsTlv capability nonce agent password hn ha t small len in
    (
      t,
      e,
      len,
      rw (e, encode_set_login_request)
          (walk_tlvs-encode_set_tlvs mac agent seq
            (record { tag = login_tag_for capability; value = t }) [] hm (entry, tt)),
    )

-- The name request, with a manager MAC of 6 bytes and a token and a name that fit an entry,
-- reads back as the login entry with the cached token, and then the name.
pub encode_set_name_request-walk_tlvs :
    (mac agent token name : Bytes) (seq capability : ℕ)
    → length mac ≡ 6
    → IsU16 (length token)
    → IsU16 (length name)
    → Option.map walk_tlvs (encode_set_name_request mac agent seq capability token name)
      ≡ some (
        record { tag = login_tag_for capability; value = token }
            ∷ record { tag = 0x0003; value = name }
            ∷ [],
        false,
      )
unfolding encode_set_name_request
encode_set_name_request-walk_tlvs mac agent token name seq capability hm ht hname =
    let tag : login_tag_for capability < 65535 =
      (login_tag_lem capability (0 ∷ 0 ∷ 0 ∷ 0 ∷ []) (0 ∷ 0 ∷ 0 ∷ 0 ∷ 0 ∷ 0 ∷ []) [] (omega arith)
        refl).0 in
    walk_tlvs-encode_set_tlvs mac agent seq
      (record { tag = login_tag_for capability; value = token })
      (record { tag = system_name_tag; value = name } ∷ []) hm
      (
        record {
          tag_u16 = omega (arith, tag);
          tag_ne_term = λ e. absurd (omega (arith, tag, e));
          length_u16 = ht;
        },
        (
          record {
            tag_u16 = omega arith;
            tag_ne_term = λ e. absurd (omega (arith, e));
            length_u16 = hname;
          },
          tt,
        ),
      )
