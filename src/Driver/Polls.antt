-- ===== src/Driver/Polls.antt =====
-- What a fetched file was (internal/client/gs108tv2/apply.go): results of polls, taken apart.
use terraform_provider_netge.Base.{
  ℕ, ◌≡◌, refl, sym, ap, ◌∙◌, ◌⊎◌, inl, inr, Bool, true, false, Option, none, some, arith, Bytes,
  Result, err, ok, if◌then◌else◌,
}
use terraform_provider_netge.Textcfg.{TextConfig, TextError, parse_text_config}
use terraform_provider_netge.Codec.Scan.{Issue}
use terraform_provider_netge.Codec.{Decoded, decode_text_config}
use terraform_provider_netge.Driver.{
  Environment, DriverError, Driver, Op, after, save_config, login, lift, ◌>>=◌, ◌>>◌, ctx_err,
  or_fail, or_again, save_again, save_failed, ensure_session, save_startup_config,
}
use terraform_provider_netge.Driver.Apply.{
  Config, fetched, poll_decoded, poll_parsed, read_poll, poll, polled_save, polled_login,
}

-- A file that the switch served, and that parses.
pub record Served (env : Environment) (tc : TextConfig) : Type 0 where
  pub at_call : ℕ
  pub raw : Bytes
  pub saved : env.saved at_call ≡ some raw
  pub parsed : parse_text_config raw ≡ ok tc

-- A served file that decodes cleanly.
abbrev pub Clean : Environment → TextConfig → Type 0
Clean env tc = Served env tc × ((decode_text_config tc).error ≡ none)

pub after-eq-ok :
    {A B : Type 0} (f : A → Op B) (r : Result DriverError A × Driver) {b : B} {d' : Driver}
    → after f r ≡ (ok b, d')
    → (a : A) × (d : Driver) × (r ≡ (ok a, d)) × (f a d ≡ (ok b, d'))
after-eq-ok f (err why, d) h = cc
after-eq-ok f (ok a, d) h = (a, d, refl, h)

-- A guard that was passed.
pub guard-eq-ok :
    {A : Type 0} (b : Bool) (r : Result DriverError A × Driver) (why : DriverError) (d : Driver)
    {a : A} {d' : Driver}
    → (if b then r else (err why, d)) ≡ (ok a, d')
    → r ≡ (ok a, d')
guard-eq-ok true r why d h = h
guard-eq-ok false r why d h = cc

-- The result of an operation and the state behind it.
pub value_of :
    {A : Type 0} {a a' : A} {d d' : Driver}
    → ◌≡◌ {A = Result DriverError A × Driver} (ok a, d) (ok a', d')
    → (a ≡ a') × (d ≡ d')
value_of h = (cc, cc)

pub save_config-some :
    (env : Environment) (d : Driver) {raw : Bytes} {d' : Driver}
    → save_config env d ≡ (ok (some raw), d')
    → env.saved d.calls ≡ some raw
unfolding save_config
save_config-some env d h = ground (arith, h)

poll_decoded-fetched :
    (e : Option Issue) (tc' : TextConfig) (dec' : Decoded) {tc : TextConfig} {dec : Decoded}
    → poll_decoded e tc' dec' ≡ fetched tc dec
    → (tc' ≡ tc) × (dec ≡ dec') × (e ≡ none)
unfolding poll_decoded
poll_decoded-fetched none tc' dec' h = (cc, cc, refl)
poll_decoded-fetched (some issue) tc' dec' h = cc

poll_parsed-fetched :
    (r : Result TextError TextConfig) {tc : TextConfig} {dec : Decoded}
    → poll_parsed r ≡ fetched tc dec
    → (r ≡ ok tc) × (dec ≡ decode_text_config tc) × (dec.error ≡ none)
unfolding poll_parsed
poll_parsed-fetched (err why) h = cc
poll_parsed-fetched (ok tc') h =
    let (file, facts, clean) =
      poll_decoded-fetched (decode_text_config tc').error tc' (decode_text_config tc') h in
    (ap ok file, facts ∙ ap decode_text_config file, ap (λ x. x.error) facts ∙ clean)

read_poll-fetched :
    (raw : Bytes) {tc : TextConfig} {dec : Decoded}
    → read_poll raw ≡ fetched tc dec
    → (parse_text_config raw ≡ ok tc) × (dec ≡ decode_text_config tc) × (dec.error ≡ none)
unfolding read_poll
read_poll-fetched raw h = poll_parsed-fetched (parse_text_config raw) h

polled_save-fetched :
    (r : Result DriverError (Option Bytes) × Driver) {tc : TextConfig} {dec : Decoded} {d' : Driver}
    → polled_save r ≡ (ok (fetched tc dec), d')
    → (raw : Bytes) × (r ≡ (ok (some raw), d')) × (read_poll raw ≡ fetched tc dec)
polled_save-fetched (err why, d) h = cc
polled_save-fetched (ok none, d) h = cc
polled_save-fetched (ok (some raw), d) h = (raw, cc, cc)

polled_login-fetched :
    (env : Environment) (cfg : Config) (r : Result DriverError (Unit {0}) × Driver)
    {tc : TextConfig} {dec : Decoded} {d' : Driver}
    → polled_login env cfg r ≡ (ok (fetched tc dec), d')
    → Clean env tc × (dec ≡ decode_text_config tc)
polled_login-fetched env cfg (err why, d) h = cc
polled_login-fetched env cfg (ok _, d) {tc} {dec} h =
    let (raw, saved, read) = polled_save-fetched (save_config env d) h in
    let (parsed, facts, clean) = read_poll-fetched raw read in
    (
      (
        record {
          at_call = d.calls;
          raw = raw;
          saved = save_config-some env d saved;
          parsed = parsed;
        },
        ap (λ x. x.error) (sym facts) ∙ clean,
      ),
      facts,
    )

pub poll-fetched :
    (env : Environment) (cfg : Config) (d : Driver) {tc : TextConfig} {dec : Decoded} {d' : Driver}
    → poll env cfg d ≡ (ok (fetched tc dec), d')
    → Clean env tc × (dec ≡ decode_text_config tc)
unfolding poll
poll-fetched env cfg d h = polled_login-fetched env cfg (login env d) h

or_fail-some :
    (why : DriverError) (found : Option Bytes) (d : Driver) {raw : Bytes} {d' : Driver}
    → or_fail why found d ≡ (ok raw, d')
    → (found ≡ some raw) × (d ≡ d')
or_fail-some why none d h = cc
or_fail-some why (some raw) d h = (cc, cc)

-- The file of a save is one that the switch served.
save_again-saved :
    (env : Environment) (d : Driver) {raw : Bytes} {d' : Driver}
    → save_again env d ≡ (ok raw, d')
    → (k : ℕ) × (env.saved k ≡ some raw)
unfolding save_again
save_again-saved env d h =
    let (_, d1, _, rest) =
      after-eq-ok (λ _. save_config env >>= or_fail save_failed) (login env d) h in
    let (found, d2, saved, read) = after-eq-ok (or_fail save_failed) (save_config env d1) rest in
    let there : found ≡ some _ = (or_fail-some save_failed found d2 read).0 in
    (d1.calls, save_config-some env d1 (saved ∙ ap (λ f. (ok f, d2)) there))

or_again-saved :
    (env : Environment) (found : Option Bytes) (k : ℕ) (d : Driver) {raw : Bytes} {d' : Driver}
    → ((raw' : Bytes) → found ≡ some raw' → env.saved k ≡ some raw')
    → or_again env found d ≡ (ok raw, d')
    → (k : ℕ) × (env.saved k ≡ some raw)
unfolding or_again
or_again-saved env none k d h e = save_again-saved env d e
or_again-saved env (some seen) k d {raw} h e = (k, h raw (cc))

pub save_startup_config-saved :
    (env : Environment) (d : Driver) {raw : Bytes} {d' : Driver}
    → save_startup_config env d ≡ (ok raw, d')
    → (k : ℕ) × (env.saved k ≡ some raw)
unfolding save_startup_config
save_startup_config-saved env d h =
    let (_, d1, _, rest) =
      after-eq-ok (λ _. save_config env >>= or_again env) (ensure_session env d) h in
    let (found, d2, saved, read) = after-eq-ok (or_again env) (save_config env d1) rest in
    or_again-saved env found d1.calls d2
      (λ raw' e. save_config-some env d1 (saved ∙ ap (λ f. (ok f, d2)) e)) read

pub lift-ok :
    {A : Type 0} (r : Result TextError A) (d : Driver) {a : A} {d' : Driver}
    → lift r d ≡ (ok a, d')
    → r ≡ ok a
lift-ok (err why) d h = cc
lift-ok (ok a) d h = cc

-- The file that a run from a state of the driver starts from: the one that its own fetch returns,
-- behind the look at the context. It is one that the switch served.
pub record Fetched (env : Environment) (d : Driver) (tc : TextConfig) : Type 0 where
  pub raw : Bytes
  pub started : Driver
  pub behind : Driver
  pub live : ctx_err env d ≡ (ok tt, started)
  pub returned : save_startup_config env started ≡ (ok raw, behind)
  pub parsed : parse_text_config raw ≡ ok tc
  pub served : Served env tc

pub fetch-Fetched :
    {B : Type 0} (env : Environment) (f : TextConfig → Op B) (d : Driver) {b : B} {d' : Driver}
    → (ctx_err env >> (save_startup_config env >>= λ raw. (lift (parse_text_config raw) >>= f))) d
      ≡ (ok b, d')
    → (tc : TextConfig) × Fetched env d tc × (d1 : Driver) × (f tc d1 ≡ (ok b, d'))
fetch-Fetched env f d h =
    let (_, d1, live, fetching) =
      after-eq-ok (λ _. save_startup_config env >>= λ raw. (lift (parse_text_config raw) >>= f))
        (ctx_err env d) h in
    let (raw, d2, saved, parsing) =
      after-eq-ok (λ raw. lift (parse_text_config raw) >>= f) (save_startup_config env d1)
        fetching in
    let (tc, d3, parsed, rest) = after-eq-ok f (lift (parse_text_config raw) d2) parsing in
    let (k, source) = save_startup_config-saved env d1 saved in
    let read : parse_text_config raw ≡ ok tc = lift-ok (parse_text_config raw) d2 parsed in
    (
      tc,
      record {
        raw = raw;
        started = d1;
        behind = d2;
        live = live;
        returned = saved;
        parsed = read;
        served = record { at_call = k; raw = raw; saved = source; parsed = read };
      },
      d3,
      rest,
    )

-- The branch that was taken.
pub branch :
    {A : Type 0} (b : Bool) (f g : Op A) (d : Driver) {r : Result DriverError A × Driver}
    → (if b then f else g) d ≡ r
    → ((b ≡ true) × (f d ≡ r)) ⊎ ((b ≡ false) × (g d ≡ r))
branch true f g d h = inl (refl, h)
branch false f g d h = inr (refl, h)
