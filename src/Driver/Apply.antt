-- ===== src/Driver/Apply.antt =====
-- internal/client/gs108tv2/apply.go: staging a state in the startup configuration.
use terraform_provider_netge.Base.{
  ℕ, zero, suc, ◌+◌, ◌-◌, Bool, true, false, not, ◌&&◌, Option, none, some, [], ◌∷◌, ◌++◌,
  if◌then◌else◌, ltb, leb, ◌==◌, Bytes, equal, Result, err, ok,
}
use terraform_provider_netge.Model.{VlanState, normalize, equal_states}
use terraform_provider_netge.Textcfg.{
  TextConfig, TextError, parse_text_config, canonical_bytes, validate_text_config_header,
}
use terraform_provider_netge.Textcfg.Editor.{new_editor}
use terraform_provider_netge.Grammar.{validate_renderable}
use terraform_provider_netge.Settings.{
  SettingsMap, validate_port_settings, normalize_port_settings, equal_port_settings,
}
use terraform_provider_netge.Codec.Scan.{Issue}
use terraform_provider_netge.Codec.{Decoded, decode_text_config}
use terraform_provider_netge.Codec.Render.{capture_foreign, render_vlan_state, render_port_settings}
use terraform_provider_netge.Driver.{
  Environment, Restored, restore_fails, restore_refused, restore_done, FailureClass, login_class,
  fetch_class, parse_class, DriverError, no_session, restore_failed, restore_rejected, drift_vlan,
  drift_ports, out_of_fuel, invalid_desired, unsupported_setting, restore_deadline, Driver, Op,
  return, fail, ◌>>=◌, ◌>>◌, lift, call, stopped, ctx_err, login, save_config, save_startup_config,
}

-- Config, in milliseconds; a duration below 0 counts as 0.
pub record Config : Type 0 where
  pub timeout : ℕ
  pub restore_wait_timeout : ℕ
  pub restore_poll_interval : ℕ
  pub restore_first_delay : ℕ
  pub reboot_wait_timeout : ℕ
  pub reboot_poll_interval : ℕ

abbrev pub or_default : ℕ → ℕ → ℕ
or_default value default = if value == 0 then default else value

unfoldable pub with_defaults : Config → Config
with_defaults c = record {
  timeout = or_default c.timeout 15000;
  restore_wait_timeout = or_default c.restore_wait_timeout 300000;
  restore_poll_interval = or_default c.restore_poll_interval 15000;
  restore_first_delay = or_default c.restore_first_delay 90000;
  reboot_wait_timeout = or_default c.reboot_wait_timeout 300000;
  reboot_poll_interval = or_default c.reboot_poll_interval 2000;
}

-- ApplyOutcome
pub record ApplyOutcome : Type 0 where
  pub staged : Bool
  pub canonical_diverged : Bool

-- verifyPlan
pub record VerifyPlan : Type 0 where
  pub vlan : VlanState
  pub vlan_check : Bool
  pub ports : SettingsMap
  pub ports_check : Bool

-- What one poll of the window finds.
pub data Polled : Type 0 where
  transient : FailureClass → Polled
  fetched : TextConfig → Decoded → Polled

abbrev pub min : ℕ → ℕ → ℕ
min a b = if ltb b a then b else a

abbrev pub no_error : {A : Type 0} → Option A → Bool
no_error none = true
no_error (some e) = false

-- A file that was decoded, with the error of the decoder.
unfoldable pub poll_decoded : Option Issue → TextConfig → Decoded → Polled
poll_decoded (some issue) tc dec = transient parse_class
poll_decoded none tc dec = fetched tc dec

unfoldable pub poll_parsed : Result TextError TextConfig → Polled
unfolding poll_decoded
poll_parsed (err why) = transient parse_class
poll_parsed (ok tc) = poll_decoded (decode_text_config tc).error tc (decode_text_config tc)

-- A file that was fetched.
unfoldable pub read_poll : Bytes → Polled
unfolding poll_parsed
read_poll raw = poll_parsed (parse_text_config raw)

-- The structural comparison of a fetched file with the plan.
unfoldable pub verify : VerifyPlan → Bytes → TextConfig → Decoded → Op ApplyOutcome
verify plan uploaded tc dec =
    if plan.vlan_check && not (equal_states dec.state plan.vlan)
    then fail drift_vlan
    else if plan.ports_check && not (equal_port_settings dec.ports plan.ports)
    then fail drift_ports
    else return
        (record { staged = true; canonical_diverged = not (equal (canonical_bytes tc) uploaded) })

unfoldable pub past_deadline : ℕ → FailureClass → ℕ → Op (Unit {0})
past_deadline deadline class later =
    if ltb later deadline then return tt else fail (restore_deadline class)

abbrev pub polled_save :
    Result DriverError (Option Bytes) × Driver → Result DriverError Polled × Driver
polled_save (err why, d) = (err why, d)
polled_save (ok none, d) = (ok (transient fetch_class), d)
polled_save (ok (some raw), d) = (ok (read_poll raw), d)

abbrev pub restore_result : Restored → Op (Unit {0})
restore_result restore_fails = fail restore_failed
restore_result restore_refused = fail restore_rejected
restore_result restore_done = return tt

abbrev pub already_staged : ApplyOutcome
already_staged = record { staged = true; canonical_diverged = false }

-- The plan and the file of an apply of VLANs on a fetched file.
abbrev pub vlan_plan : Decoded → VlanState → VerifyPlan
vlan_plan dec norm = record {
  vlan = norm;
  vlan_check = true;
  ports = dec.ports;
  ports_check = true;
}

abbrev pub ports_plan : Decoded → SettingsMap → VerifyPlan
ports_plan dec norm = record {
  vlan = dec.state;
  vlan_check = no_error dec.error;
  ports = norm;
  ports_check = true;
}

unfoldable pub vlan_upload : TextConfig → VlanState → Op Bytes
vlan_upload tc norm = do
  editor ← lift (new_editor tc)
  upload ← lift (render_vlan_state editor norm (capture_foreign tc))
  lift (validate_text_config_header upload tc.system_description tc.system_software_version)
  return upload

unfoldable pub ports_upload : TextConfig → Decoded → SettingsMap → Op Bytes
ports_upload tc dec norm = do
  editor ← lift (new_editor tc)
  upload ← lift (render_port_settings editor tc norm dec.port_pass)
  lift (validate_text_config_header upload tc.system_description tc.system_software_version)
  return upload

-- A refusal of the desired state comes before any call.
abbrev pub unless_refused : {E A : Type 0} → (E → DriverError) → Option E → Op A → Op A
unless_refused tag none f = f
unless_refused tag (some why) f = fail (tag why)

module _ (env : Environment) (cfg : Config) where
  -- sleepCtx: the timer or the context ends it.
  unfoldable pub sleep_ctx : ℕ → Op (Unit {0})
  unfolding ctx_err
  sleep_ctx dur = if dur == 0 then ctx_err env else (call (λ k. env.aborted k dur) >>= stopped)

  unfoldable pub sleep_before : ℕ → FailureClass → ℕ → Op (Unit {0})
  unfolding sleep_ctx past_deadline
  sleep_before deadline class now =
      if leb deadline now
      then fail (restore_deadline class)
      else (sleep_ctx (min cfg.restore_poll_interval (deadline - now))
          >> (call env.now >>= past_deadline deadline class))

  unfoldable pub sleep_to_deadline : ℕ → FailureClass → Op (Unit {0})
  unfolding sleep_before
  sleep_to_deadline deadline class = call env.now >>= sleep_before deadline class

  abbrev pub polled_login :
      Result DriverError (Unit {0}) × Driver → Result DriverError Polled × Driver
  polled_login (err why, d) = (ok (transient login_class), d)
  polled_login (ok _, d) = polled_save (save_config env d)

  -- A fresh login and a fresh file; every failure inside is of a class.
  unfoldable pub poll : Op Polled
  unfolding login save_config read_poll
  poll d = polled_login (login env d)

  -- The end of a round of the loop, with the rounds after it.
  unfoldable pub settle : ℕ → VerifyPlan → Bytes → Op ApplyOutcome → Polled → Op ApplyOutcome
  unfolding verify sleep_to_deadline
  settle deadline plan uploaded again (fetched tc dec) = verify plan uploaded tc dec
  settle deadline plan uploaded again (transient class) = sleep_to_deadline deadline class >> again

  -- The loop of waitTransientAndVerify.
  unfoldable pub wait_loop : ℕ → ℕ → VerifyPlan → Bytes → Op ApplyOutcome
  unfolding ctx_err poll settle
  wait_loop zero deadline plan uploaded = fail out_of_fuel
  wait_loop (suc fuel) deadline plan uploaded =
      ctx_err env
      >> (poll >>= settle deadline plan uploaded (wait_loop fuel deadline plan uploaded))

  -- The loop from a time on, with a round for each moment of the window.
  unfoldable pub wait_from : VerifyPlan → TextConfig → ℕ → Op ApplyOutcome
  unfolding wait_loop
  wait_from plan uploaded start =
      wait_loop (suc cfg.restore_wait_timeout) (start + cfg.restore_wait_timeout) plan
        (canonical_bytes uploaded)

  unfoldable pub wait_transient_and_verify : VerifyPlan → Bytes → Op ApplyOutcome
  unfolding sleep_ctx wait_from
  wait_transient_and_verify plan upload = do
    uploaded ← lift (parse_text_config upload)
    sleep_ctx cfg.restore_first_delay
    start ← call env.now
    wait_loop (suc cfg.restore_wait_timeout) (start + cfg.restore_wait_timeout) plan
        (canonical_bytes uploaded)

  -- ConfigRestore: the file leaves the driver, whatever the answer.
  unfoldable pub config_restore : Bytes → Op (Unit {0})
  config_restore upload d =
      restore_result (env.restored d.calls upload)
        (record d { calls = d.calls + 1; uploads = d.uploads ++ (upload ∷ []) })

  unfoldable pub restore_and_verify : VerifyPlan → Bytes → Op ApplyOutcome
  unfolding config_restore wait_transient_and_verify
  restore_and_verify plan upload d =
      if d.session
      then (config_restore upload >> wait_transient_and_verify plan upload) d
      else (err no_session, d)

  -- A fresh file, parsed, and what is done with it.
  unfoldable pub with_fetched : (TextConfig → Op ApplyOutcome) → Op ApplyOutcome
  unfolding ctx_err save_startup_config
  with_fetched f =
      ctx_err env >> (save_startup_config env >>= λ raw. (lift (parse_text_config raw) >>= f))

  unfoldable pub stage_vlan : TextConfig → VlanState → Op ApplyOutcome
  unfolding restore_and_verify
  stage_vlan tc norm =
      let dec = decode_text_config tc in
      if no_error dec.error && equal_states dec.state norm
      then return already_staged
      else do upload ← vlan_upload tc norm; restore_and_verify (vlan_plan dec norm) upload

  unfoldable pub apply_vlan_state : VlanState → Op ApplyOutcome
  unfolding with_fetched stage_vlan
  apply_vlan_state desired =
      let norm = normalize desired in
      unless_refused invalid_desired (validate_renderable norm)
        (with_fetched (λ tc. stage_vlan tc norm))

  unfoldable pub stage_ports : TextConfig → SettingsMap → Op ApplyOutcome
  unfolding restore_and_verify
  stage_ports tc norm =
      let dec = decode_text_config tc in
      if no_error dec.error && equal_port_settings dec.ports norm
      then return already_staged
      else do upload ← ports_upload tc dec norm; restore_and_verify (ports_plan dec norm) upload

  unfoldable pub apply_port_settings : SettingsMap → Op ApplyOutcome
  unfolding with_fetched stage_ports
  apply_port_settings desired =
      let norm = normalize_port_settings desired in
      unless_refused unsupported_setting (validate_port_settings norm)
        (with_fetched (λ tc. stage_ports tc norm))
