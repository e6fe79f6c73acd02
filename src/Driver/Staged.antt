-- ===== src/Driver/Staged.antt =====
-- What a staged outcome rests on (internal/client/gs108tv2/apply.go).
use terraform_provider_netge.Base.{
  ℕ, zero, suc, ◌≡◌, refl, sym, ap, ◌⊎◌, inl, inr, Bool, true, false, not, ◌&&◌, Option, none, some,
  arith, Bytes, Result, ok, Bool-cases,
}
use terraform_provider_netge.Model.{VlanState, normalize, equal_states}
use terraform_provider_netge.Textcfg.{TextConfig, parse_text_config, canonical_bytes}
use terraform_provider_netge.Grammar.{validate_renderable}
use terraform_provider_netge.Settings.{
  SettingsMap, equal_port_settings, normalize_port_settings, validate_port_settings,
}
use terraform_provider_netge.Codec.{Decoded, decode_text_config}
use terraform_provider_netge.Driver.{
  Environment, DriverError, no_session, invalid_desired, unsupported_setting, Driver, Op, ◌>>=◌,
  return, lift, ctx_err,
}
use terraform_provider_netge.Driver.Apply.{
  Config, ApplyOutcome, VerifyPlan, Polled, transient, fetched, settle, wait_from, verify, poll,
  sleep_to_deadline, wait_loop, wait_transient_and_verify, restore_and_verify, config_restore,
  stage_vlan, stage_ports, apply_vlan_state, apply_port_settings, vlan_plan, ports_plan,
  vlan_upload, ports_upload, no_error, already_staged, unless_refused, with_fetched, sleep_ctx,
}
use terraform_provider_netge.Driver.Polls.{
  guard-eq-ok, branch, value_of, fetch-Fetched, Fetched, Clean, after-eq-ok, poll-fetched,
}

-- A file that the switch served, decoded, meets a plan, and the outcome says staged.
pub record Verified (env : Environment) (plan : VerifyPlan) (out : ApplyOutcome) : Type 0 where
  pub file : TextConfig
  pub clean : Clean env file
  pub vlan_as_planned :
      plan.vlan_check ≡ true → equal_states (decode_text_config file).state plan.vlan ≡ true
  pub ports_as_planned :
      plan.ports_check ≡ true
      → equal_port_settings (decode_text_config file).ports plan.ports ≡ true
  pub staged : out.staged ≡ true

checked : (b : Bool) → b ≡ true → (x : Bool) → (b && not x) ≡ false → x ≡ true
checked b hb x h = ground (arith, h)

verify-ok :
    (plan : VerifyPlan) (uploaded : Bytes) (tc : TextConfig) (dec : Decoded) (d : Driver)
    {out : ApplyOutcome} {d' : Driver}
    → verify plan uploaded tc dec d ≡ (ok out, d')
    → (plan.vlan_check ≡ true → equal_states dec.state plan.vlan ≡ true)
      × (plan.ports_check ≡ true → equal_port_settings dec.ports plan.ports ≡ true)
      × (out.staged ≡ true)
unfolding verify
verify-ok plan uploaded tc dec d h =
    elim (Bool-cases (plan.vlan_check && not (equal_states dec.state plan.vlan))) [
      | inl drift ↦ cc (rw drift at h)
      | inr v ↦
          elim (Bool-cases (plan.ports_check && not (equal_port_settings dec.ports plan.ports))) [
            | inl drift ↦ cc (rw drift at (rw v at h))
            | inr p ↦ (
              λ on. checked plan.vlan_check on (equal_states dec.state plan.vlan) v,
              λ on. checked plan.ports_check on (equal_port_settings dec.ports plan.ports) p,
              ground (arith, h, v, p),
            )
          ]
    ]

module _ (env : Environment) (cfg : Config) (plan : VerifyPlan) {out : ApplyOutcome}
    {d' : Driver} where
  settle-Verified :
      (deadline : ℕ) (uploaded : Bytes) (again : Op ApplyOutcome) (found : Polled) (d0 d : Driver)
      → ((d1 : Driver) → again d1 ≡ (ok out, d') → Verified env plan out)
      → poll env cfg d0 ≡ (ok found, d)
      → settle env cfg deadline plan uploaded again found d ≡ (ok out, d')
      → Verified env plan out
  unfolding settle
  settle-Verified deadline uploaded again (fetched tc dec) d0 d later polled h =
      let (clean, facts) = poll-fetched env cfg d0 polled in
      let (vlan, ports, done) = verify-ok plan uploaded tc dec d h in
      record {
        file = tc;
        clean = clean;
        vlan_as_planned = λ on. rw (← facts) (vlan on);
        ports_as_planned = λ on. rw (← facts) (ports on);
        staged = done;
      }
  settle-Verified deadline uploaded again (transient class) d0 d later polled h =
      let (_, d1, _, rest) =
        after-eq-ok (λ _. again) (sleep_to_deadline env cfg deadline class d) h in
      later d1 rest

  wait_loop-Verified :
      (fuel deadline : ℕ) (uploaded : Bytes) (d : Driver)
      → wait_loop env cfg fuel deadline plan uploaded d ≡ (ok out, d')
      → Verified env plan out
  unfolding wait_loop
  wait_loop-Verified zero deadline uploaded d h = cc
  wait_loop-Verified (suc fuel) deadline uploaded d h =
      let again = wait_loop env cfg fuel deadline plan uploaded in
      let (_, d1, _, live) =
        after-eq-ok (λ _. poll env cfg >>= settle env cfg deadline plan uploaded again)
          (ctx_err env d) h in
      let (found, d2, polled, rest) =
        after-eq-ok (settle env cfg deadline plan uploaded again) (poll env cfg d1) live in
      settle-Verified deadline uploaded again found d1 d2
        (λ d3. wait_loop-Verified fuel deadline uploaded d3) polled rest

  wait_transient_and_verify-Verified :
      (upload : Bytes) (d : Driver)
      → wait_transient_and_verify env cfg plan upload d ≡ (ok out, d')
      → Verified env plan out
  unfolding wait_transient_and_verify wait_from
  wait_transient_and_verify-Verified upload d h =
      let (uploaded, d1, _, slept) = after-eq-ok _ (lift (parse_text_config upload) d) h in
      let (_, d2, _, started) =
        after-eq-ok _ (sleep_ctx env cfg cfg.restore_first_delay d1) slept in
      wait_loop-Verified (suc cfg.restore_wait_timeout) _ (canonical_bytes uploaded) _ started

  restore_and_verify-Verified :
      (upload : Bytes) (d : Driver)
      → restore_and_verify env cfg plan upload d ≡ (ok out, d')
      → Verified env plan out
  unfolding restore_and_verify
  restore_and_verify-Verified upload d h =
      let (_, d1, _, waited) =
        after-eq-ok (λ _. wait_transient_and_verify env cfg plan upload)
          (config_restore env cfg upload d) (guard-eq-ok d.session _ no_session d h) in
      wait_transient_and_verify-Verified upload d1 waited

-- A served file whose decoded state is the desired one; its port settings are those of the file
-- that the run fetched at its start, which it may be itself.
pub record StagedVlan (env : Environment) (d : Driver) (desired : VlanState) : Type 0 where
  pub start : TextConfig
  pub start_fetched : Fetched env d start
  pub file : TextConfig
  pub clean : Clean env file
  pub as_desired : equal_states (decode_text_config file).state desired ≡ true
  pub ports_kept :
      (file ≡ start)
      ⊎ (equal_port_settings (decode_text_config file).ports (decode_text_config start).ports
          ≡ true)

-- A served file whose decoded port settings are the desired ones; where the file that the run
-- fetched at its start decodes cleanly, the VLAN state is that of this file.
pub record StagedPorts (env : Environment) (d : Driver) (desired : SettingsMap) : Type 0 where
  pub start : TextConfig
  pub start_fetched : Fetched env d start
  pub file : TextConfig
  pub clean : Clean env file
  pub as_desired : equal_port_settings (decode_text_config file).ports desired ≡ true
  pub vlan_kept :
      (decode_text_config start).error ≡ none
      → (file ≡ start)
        ⊎ (equal_states (decode_text_config file).state (decode_text_config start).state ≡ true)

no_error-none :
    {A : Type 0} (e : Option A) (b : Bool) → (no_error e && b) ≡ true → (e ≡ none) × (b ≡ true)
no_error-none none b h = (refl, h)
no_error-none (some x) b h = cc

no_error-true : {A : Type 0} (e : Option A) → e ≡ none → no_error e ≡ true
no_error-true none h = refl
no_error-true (some x) h = cc

unless_refused-ok :
    {E A : Type 0} (tag : E → DriverError) (o : Option E) (f : Op A) (d : Driver) {a : A}
    {d' : Driver}
    → unless_refused tag o f d ≡ (ok a, d')
    → f d ≡ (ok a, d')
unless_refused-ok tag none f d h = h
unless_refused-ok tag (some why) f d h = cc

staged_of :
    {a b : ApplyOutcome} {d d' : Driver}
    → ◌≡◌ {A = Result DriverError ApplyOutcome × Driver} (ok a, d) (ok b, d')
    → b.staged ≡ a.staged
staged_of e = ap (λ x. x.staged) (sym (value_of e).0)

module _ (env : Environment) (cfg : Config) {out : ApplyOutcome} {d' : Driver} where
  stage_vlan-StagedVlan :
      (d0 : Driver) (tc : TextConfig) (norm : VlanState) (d : Driver)
      → Fetched env d0 tc
      → stage_vlan env cfg tc norm d ≡ (ok out, d')
      → StagedVlan env d0 norm × (out.staged ≡ true)
  unfolding stage_vlan
  stage_vlan-StagedVlan d0 tc norm d begun h =
      let dec = decode_text_config tc in
      let send = vlan_upload tc norm >>= restore_and_verify env cfg (vlan_plan dec norm) in
      elim (branch (no_error dec.error && equal_states dec.state norm) (return already_staged) send
        d h) [
          | inl (same, done) ↦
              let (clean, equal) = no_error-none dec.error (equal_states dec.state norm) same in
              (
                record {
                  start = tc;
                  start_fetched = begun;
                  file = tc;
                  clean = (begun.served, clean);
                  as_desired = equal;
                  ports_kept = inl refl;
                },
                staged_of done,
              )
          | inr (_, sent) ↦
              let (upload, d1, _, verified) =
                after-eq-ok (restore_and_verify env cfg (vlan_plan dec norm))
                  (vlan_upload tc norm d) sent in
              let v = restore_and_verify-Verified env cfg (vlan_plan dec norm) upload d1 verified in
              (
                record {
                  start = tc;
                  start_fetched = begun;
                  file = v.file;
                  clean = v.clean;
                  as_desired = v.vlan_as_planned refl;
                  ports_kept = inr (v.ports_as_planned refl);
                },
                v.staged,
              )
        ]

  -- If ApplyVLANState reports success, the outcome says staged, and the switch served a
  -- startup configuration that parses, decodes without an issue and holds the normalized
  -- desired state; that file is the one that this run fetched at its start, or its port
  -- settings are those of the file that this run fetched at its start.
  pub apply_vlan_state-StagedVlan :
      (desired : VlanState) (d : Driver)
      → apply_vlan_state env cfg desired d ≡ (ok out, d')
      → StagedVlan env d (normalize desired) × (out.staged ≡ true)
  unfolding apply_vlan_state with_fetched
  apply_vlan_state-StagedVlan desired d h =
      let norm = normalize desired in
      let fetching =
        unless_refused-ok invalid_desired (validate_renderable norm)
          (with_fetched env cfg (λ tc. stage_vlan env cfg tc norm)) d h in
      let (tc, begun, d1, rest) = fetch-Fetched env (λ tc. stage_vlan env cfg tc norm) d fetching in
      stage_vlan-StagedVlan d tc norm d1 begun rest

  stage_ports-StagedPorts :
      (d0 : Driver) (tc : TextConfig) (norm : SettingsMap) (d : Driver)
      → Fetched env d0 tc
      → stage_ports env cfg tc norm d ≡ (ok out, d')
      → StagedPorts env d0 norm × (out.staged ≡ true)
  unfolding stage_ports
  stage_ports-StagedPorts d0 tc norm d begun h =
      let dec = decode_text_config tc in
      let send = ports_upload tc dec norm >>= restore_and_verify env cfg (ports_plan dec norm) in
      elim (branch (no_error dec.error && equal_port_settings dec.ports norm)
        (return already_staged) send d h) [
          | inl (same, done) ↦
              let (clean, equal) =
                no_error-none dec.error (equal_port_settings dec.ports norm) same in
              (
                record {
                  start = tc;
                  start_fetched = begun;
                  file = tc;
                  clean = (begun.served, clean);
                  as_desired = equal;
                  vlan_kept = λ _. inl refl;
                },
                staged_of done,
              )
          | inr (_, sent) ↦
              let (upload, d1, _, verified) =
                after-eq-ok (restore_and_verify env cfg (ports_plan dec norm))
                  (ports_upload tc dec norm d) sent in
              let v =
                restore_and_verify-Verified env cfg (ports_plan dec norm) upload d1 verified in
              (
                record {
                  start = tc;
                  start_fetched = begun;
                  file = v.file;
                  clean = v.clean;
                  as_desired = v.ports_as_planned refl;
                  vlan_kept = λ clean. inr (v.vlan_as_planned (no_error-true dec.error clean));
                },
                v.staged,
              )
        ]

  -- If ApplyPortSettings reports success, the outcome says staged, and the switch served a
  -- startup configuration that parses, decodes without an issue and holds the normalized
  -- desired port settings; where the file that this run fetched at its start decodes without
  -- an issue, the served file is that file or has its VLAN state.
  pub apply_port_settings-StagedPorts :
      (desired : SettingsMap) (d : Driver)
      → apply_port_settings env cfg desired d ≡ (ok out, d')
      → StagedPorts env d (normalize_port_settings desired) × (out.staged ≡ true)
  unfolding apply_port_settings with_fetched
  apply_port_settings-StagedPorts desired d h =
      let norm = normalize_port_settings desired in
      let fetching =
        unless_refused-ok unsupported_setting (validate_port_settings norm)
          (with_fetched env cfg (λ tc. stage_ports env cfg tc norm)) d h in
      let (tc, begun, d1, rest) =
        fetch-Fetched env (λ tc. stage_ports env cfg tc norm) d fetching in
      stage_ports-StagedPorts d tc norm d1 begun rest
