-- ===== src/Driver.antt =====
-- internal/client/gs108tv2/driver.go, read.go: the driver of a GS108Tv2.
-- An operation takes the driver's state and returns its result and the state behind it. What the
-- switch, the clock and the context answer is a record of functions of the number of the call.
pub mod Apply
pub mod Polls
pub mod Staged
pub mod Calm
pub mod Sends
pub mod Deadline
pub mod Ends
mod Tests
use mathlib.Core.Option
use terraform_provider_netge.Base.{
  ℕ, ◌+◌, Bool, true, false, Option, none, some, List, [], ◌∷◌, ◌++◌, if◌then◌else◌, Bytes, Result,
  err, ok,
}
use terraform_provider_netge.Model.{VlanState}
use terraform_provider_netge.Textcfg.{TextConfig, TextError, parse_text_config, canonical_bytes}
use terraform_provider_netge.Grammar.{InvalidDesired}
use terraform_provider_netge.Settings.{SettingsMap, Refused}
use terraform_provider_netge.Codec.Scan.{Issue}
use terraform_provider_netge.Codec.{Decoded, decode_text_config}

-- What the POST of ConfigRestore comes to: no answer, a page that refuses it, or success.
pub data Restored : Type 0 where
  restore_fails restore_refused restore_done : Restored

-- WebLogin, SaveConfig and ConfigRestore, the context and the clock, at each call; `aborted` says
-- whether the context ends a sleep of some length.
pub record Environment : Type 0 where
  pub cancelled : ℕ → Bool
  pub aborted : ℕ → ℕ → Bool
  pub logged_in : ℕ → Bool
  pub saved : ℕ → Option Bytes
  pub restored : ℕ → Bytes → Restored
  pub now : ℕ → ℕ

-- The classes of a failure inside the ingest window.
pub data FailureClass : Type 0 where
  login_class fetch_class parse_class : FailureClass

-- The errors, without their texts; `nil_session` is the panic of a call on no session.
pub data DriverError : Type 0 where
  context_done login_failed save_failed no_session nil_session : DriverError
  restore_failed restore_rejected drift_vlan drift_ports out_of_fuel : DriverError
  bad_text : TextError → DriverError
  bad_grammar : Issue → DriverError
  invalid_desired : InvalidDesired → DriverError
  unsupported_setting : Refused → DriverError
  restore_deadline : FailureClass → DriverError

-- Driver: whether a session is cached; and the calls made and the files sent so far.
pub record Driver : Type 0 where
  pub session : Bool
  pub calls : ℕ
  pub uploads : List Bytes

abbrev pub Op : Type 0 → Type 0
Op A = Driver → Result DriverError A × Driver

abbrev pub return : {A : Type 0} → A → Op A
return a d = (ok a, d)

abbrev pub fail : {A : Type 0} → DriverError → Op A
fail why d = (err why, d)

-- The rest of an operation behind a part of it.
abbrev pub after :
    {A B : Type 0} → (A → Op B) → Result DriverError A × Driver → Result DriverError B × Driver
after f (err why, d) = (err why, d)
after f (ok a, d) = f a d

infixl 5 ◌>>=◌ ◌>>◌
abbrev pub ◌>>=◌ : {A B : Type 0} → Op A → (A → Op B) → Op B
◌>>=◌ m f d = after f (m d)

abbrev pub ◌>>◌ : {A B : Type 0} → Op A → Op B → Op B
m >> k = m >>= λ _. k

abbrev pub lift : {A : Type 0} → Result TextError A → Op A
lift (err why) = fail (bad_text why)
lift (ok a) = return a

-- A call of the environment.
abbrev pub call : {A : Type 0} → (ℕ → A) → Op A
call f d = (ok (f d.calls), record d { calls = d.calls + 1 })

abbrev pub stopped : Bool → Op (Unit {0})
stopped true = fail context_done
stopped false = return tt

abbrev pub or_fail : DriverError → Option Bytes → Op Bytes
or_fail why none = fail why
or_fail why (some raw) = return raw

abbrev pub or_issue : Decoded → Op Decoded
or_issue dec = elim dec.error [ none ↦ return dec | some issue ↦ fail (bad_grammar issue) ]

-- A failed login leaves the session that was there.
abbrev pub admitted : Bool → Op (Unit {0})
admitted true d = (ok tt, record d { session = true })
admitted false d = (err login_failed, d)

module _ (env : Environment) where
  unfoldable pub ctx_err : Op (Unit {0})
  ctx_err = call env.cancelled >>= stopped

  unfoldable pub login : Op (Unit {0})
  unfolding ctx_err
  login = ctx_err >> (call env.logged_in >>= admitted)

  unfoldable pub ensure_session : Op (Unit {0})
  unfolding login ctx_err
  ensure_session d = if d.session then ctx_err d else login d

  -- SaveConfig of the cached session, whose failures are one.
  unfoldable pub save_config : Op (Option Bytes)
  save_config d = if d.session then call env.saved d else (err nil_session, d)

  unfoldable pub save_again : Op Bytes
  unfolding login save_config
  save_again = login >> (save_config >>= or_fail save_failed)

  -- The file, or a second attempt behind a fresh login.
  unfoldable pub or_again : Option Bytes → Op Bytes
  unfolding save_again
  or_again (some raw) = return raw
  or_again none = save_again

  unfoldable pub save_startup_config : Op Bytes
  unfolding ensure_session save_config or_again
  save_startup_config = ensure_session >> (save_config >>= or_again)

  unfoldable pub logout : Op (Unit {0})
  unfolding ctx_err
  logout d = ctx_err (record d { session = false })

  unfoldable pub read_config_file : Op Decoded
  unfolding save_startup_config
  read_config_file = do
    raw ← save_startup_config
    tc ← lift (parse_text_config raw)
    or_issue (decode_text_config tc)

  unfoldable pub read_vlan_state : Op VlanState
  unfolding read_config_file
  read_vlan_state = do dec ← read_config_file; return dec.state

  unfoldable pub read_port_settings : Op SettingsMap
  unfolding read_config_file
  read_port_settings = do dec ← read_config_file; return dec.ports

  -- Fingerprint, with the hash of the standard library as a parameter.
  unfoldable pub fingerprint : (Bytes → Bytes) → Op Bytes
  unfolding save_startup_config
  fingerprint hash = save_startup_config >>= λ raw.
      (lift (parse_text_config raw) >>= λ tc. return (hash (canonical_bytes tc)))
