-- ===== src/Client/Login.antt =====
-- Login, refreshToken, SetSystemName and SetRaw (internal/nsdp/client.go).
use Prim.Native.Nat.{bit_and}
use terraform_provider_netge.Base.{ℕ, Bool, true, [], ◌∷◌, length, ok, ◌==◌, if◌then◌else◌, Bytes}
use terraform_provider_netge.Wire.{be32, encode_set_tlvs}
use terraform_provider_netge.Token.{
  login_token, login_tag_for, encode_set_login_request, encode_set_name_request,
}
use terraform_provider_netge.Client.{
  Client, Action, Command, pure, fail, ◌>>=◌, or_fail, with_session, attr_capability, attr_nonce,
  cmd_set_reply, bad_length, no_agent, panics, attempt, get_attr,
}

-- What a successful Login caches, and the token that refreshToken caches.
unfoldable pub authenticated : ℕ → Bytes → Command
authenticated capability token s =
    (ok tt, record s { capability = capability; token = token; logged_in = true })

unfoldable pub refreshed : Bytes → Command
refreshed token s = (ok tt, record s { token = token })

unfoldable pub four_bytes : Bytes → Action Bytes
unfolding pure fail
four_bytes value = if length value == 4 then pure value else fail bad_length

-- Neither token bit of the capability word: the auth TLV is the password.
abbrev pub plain : ℕ → Bool
plain capability = bit_and capability 0x18 == 0

-- The nonce that Login uses: one of another length is an error where a token needs it.
unfoldable pub login_nonce : ℕ → Bytes → Action Bytes
unfolding pure fail
login_nonce capability nonce =
    if length nonce == 4 then pure nonce else if plain capability then pure [] else fail bad_length

-- The SET of Login, sent once, and what its acceptance caches.
unfoldable pub log_in_with : Client → ℕ → Bytes → Command
unfolding ◌>>=◌ or_fail attempt authenticated
log_in_with c capability nonce =
    or_fail panics (login_token capability nonce c.agent_mac c.password) >>= λ token.
    attempt c cmd_set_reply
      (λ seq. encode_set_login_request c.mac c.agent_mac seq capability nonce c.password)
    >>= λ _. authenticated capability token

unfoldable pub login : Client → Command
unfolding ◌>>=◌ get_attr four_bytes login_nonce log_in_with fail
login c =
    if length c.agent_mac == 0
    then fail no_agent
    else get_attr c attr_capability >>= four_bytes >>= λ word. get_attr c attr_nonce >>= λ value.
        login_nonce (be32 word) value >>= λ nonce. log_in_with c (be32 word) nonce

unfoldable pub refresh_token : Client → Command
unfolding ◌>>=◌ with_session get_attr four_bytes or_fail refreshed pure
refresh_token c = with_session λ s.
    if plain s.capability
    then pure tt
    else get_attr c attr_nonce >>= four_bytes >>= λ nonce.
        or_fail panics (login_token s.capability nonce c.agent_mac c.password) >>= refreshed

-- A login where the session has none, and a fresh token.
unfoldable pub authorize : Client → Command
unfolding ◌>>=◌ with_session login refresh_token pure
authorize c = (with_session λ s. if s.logged_in then pure tt else login c) >>= λ _. refresh_token c

unfoldable pub set_system_name : Client → Bytes → Command
unfolding ◌>>=◌ authorize with_session attempt pure
set_system_name c name = authorize c >>= λ _. with_session λ s.
    attempt c cmd_set_reply
      (λ seq. encode_set_name_request c.mac c.agent_mac seq s.capability s.token name)
    >>= λ _. pure tt

unfoldable pub set_raw : Client → ℕ → Bytes → Command
unfolding ◌>>=◌ authorize with_session attempt pure
set_raw c tag value = authorize c >>= λ _. with_session λ s.
    attempt c cmd_set_reply (λ seq. encode_set_tlvs c.mac c.agent_mac seq (
      record { tag = login_tag_for s.capability; value = s.token }
      ∷ record { tag = tag; value = value }
      ∷ []))
    >>= λ _. pure tt
