-- ===== src/Driver/Calm.antt =====
-- Operations that send no file and run on no fuel (internal/client/gs108tv2/driver.go, apply.go).
use terraform_provider_netge.Base.{
  ℕ, ◌≤◌, ◌≡◌, ◌≢◌, refl, ◌∙◌, Bool, true, false, Option, none, some, arith, Bytes, Result, err, ok,
  ◌==◌, ltb, leb, ◌-◌, if◌then◌else◌, ltb, leb, ◌==◌, ◌-◌,
}
use terraform_provider_netge.Textcfg.{TextConfig, TextError, validate_text_config_header}
use terraform_provider_netge.Textcfg.Editor.{new_editor}
use terraform_provider_netge.Model.{VlanState}
use terraform_provider_netge.Codec.{Decoded}
use terraform_provider_netge.Codec.Render.{capture_foreign, render_vlan_state}
use terraform_provider_netge.Driver.{
  Environment, FailureClass, DriverError, nil_session, restore_deadline, drift_vlan, drift_ports,
  out_of_fuel, save_failed, Driver, Op, after, return, fail, ◌>>=◌, lift, call, stopped, admitted,
  ctx_err, login, ensure_session, save_config, save_again, or_again, or_fail, save_startup_config,
}
use terraform_provider_netge.Driver.Apply.{
  Config, VerifyPlan, min, sleep_ctx, past_deadline, sleep_before, sleep_to_deadline, polled_save,
  polled_login, poll, verify, vlan_upload,
}

-- What a result of a calm operation is behind a state: the same files sent, no fewer calls.
abbrev pub Quiet : {A : Type 0} → Driver → Result DriverError A × Driver → Type 0
Quiet d r = (r.1.uploads ≡ d.uploads) × (d.calls ≤ r.1.calls) × (r.0 ≢ err out_of_fuel)

abbrev pub Calm : {A : Type 0} → Op A → Type 0
Calm m = (d : Driver) → Quiet d (m d)

pub after-Quiet :
    {A B : Type 0} (f : A → Op B) (d : Driver) (r : Result DriverError A × Driver)
    → Quiet d r
    → ((a : A) → Calm (f a))
    → Quiet d (after f r)
after-Quiet f d (err why, d1) h k = (h.0, h.1, λ e. h.2 (cc))
after-Quiet f d (ok a, d1) h k =
    let rest = k a d1 in (rest.0 ∙ h.0, omega (arith, h.1, rest.1), rest.2)

pub >>=-Calm :
    {A B : Type 0} (m : Op A) (f : A → Op B) → Calm m → ((a : A) → Calm (f a)) → Calm (m >>= f)
>>=-Calm m f h k d = after-Quiet f d (m d) (h d) k

pub return-Calm : {A : Type 0} (a : A) → Calm (return a)
return-Calm a d = (refl, omega arith, λ e. cc)

pub call-Calm : {A : Type 0} (f : ℕ → A) → Calm (call f)
call-Calm f d = (refl, omega arith, λ e. cc)

fail-Calm : {A : Type 0} (why : DriverError) → why ≢ out_of_fuel → Calm (fail {A = A} why)
fail-Calm why h d = (refl, omega arith, λ e. h (cc))

stopped-Calm : (b : Bool) → Calm (stopped b)
stopped-Calm true d = (refl, omega arith, λ e. cc)
stopped-Calm false d = (refl, omega arith, λ e. cc)

pub lift-Calm : {A : Type 0} (r : Result TextError A) → Calm (lift r)
lift-Calm (err why) d = (refl, omega arith, λ e. cc)
lift-Calm (ok a) d = (refl, omega arith, λ e. cc)

branch-Calm : {A : Type 0} (b : Bool) (f g : Op A) → Calm f → Calm g → Calm (if b then f else g)
branch-Calm true f g hf hg = hf
branch-Calm false f g hf hg = hg

pub guard-Quiet :
    {A : Type 0} (b : Bool) (r : Result DriverError A × Driver) (why : DriverError) (d : Driver)
    → Quiet d r
    → why ≢ out_of_fuel
    → Quiet d (if b then r else (err why, d))
guard-Quiet true r why d h ne = h
guard-Quiet false r why d h ne = (refl, omega arith, λ e. ne (cc))

admitted-Calm : (b : Bool) → Calm (admitted b)
admitted-Calm true d = (refl, omega arith, λ e. cc)
admitted-Calm false d = (refl, omega arith, λ e. cc)

either-Quiet :
    {A : Type 0} (b : Bool) (x y : Result DriverError A × Driver) (d : Driver)
    → Quiet d x
    → Quiet d y
    → Quiet d (if b then x else y)
either-Quiet true x y d hx hy = hx
either-Quiet false x y d hx hy = hy

or_fail-Calm : (found : Option Bytes) → Calm (or_fail save_failed found)
or_fail-Calm none = fail-Calm save_failed (λ e. cc)
or_fail-Calm (some raw) = return-Calm raw

module _ (env : Environment) where
  pub ctx_err-Calm : Calm (ctx_err env)
  unfolding ctx_err
  ctx_err-Calm = >>=-Calm (call env.cancelled) stopped (call-Calm env.cancelled) stopped-Calm

  login-Calm : Calm (login env)
  unfolding login
  login-Calm =
      >>=-Calm (ctx_err env) _ ctx_err-Calm
        (λ _. >>=-Calm (call env.logged_in) admitted (call-Calm env.logged_in) admitted-Calm)

  save_config-Calm : Calm (save_config env)
  unfolding save_config
  save_config-Calm d =
      guard-Quiet d.session (call env.saved d) nil_session d (call-Calm env.saved d) (λ e. cc)

  ensure_session-Calm : Calm (ensure_session env)
  unfolding ensure_session
  ensure_session-Calm d =
      either-Quiet d.session (ctx_err env d) (login env d) d (ctx_err-Calm d) (login-Calm d)

  save_again-Calm : Calm (save_again env)
  unfolding save_again
  save_again-Calm =
      >>=-Calm (login env) _ login-Calm
        (λ _. >>=-Calm (save_config env) (or_fail save_failed) save_config-Calm or_fail-Calm)

  or_again-Calm : (found : Option Bytes) → Calm (or_again env found)
  unfolding or_again
  or_again-Calm none = save_again-Calm
  or_again-Calm (some raw) = return-Calm raw

  pub save_startup_config-Calm : Calm (save_startup_config env)
  unfolding save_startup_config
  save_startup_config-Calm =
      >>=-Calm (ensure_session env) _ ensure_session-Calm
        (λ _. >>=-Calm (save_config env) (or_again env) save_config-Calm or_again-Calm)

module _ (env : Environment) (cfg : Config) where
  pub sleep_ctx-Calm : (dur : ℕ) → Calm (sleep_ctx env cfg dur)
  unfolding sleep_ctx
  sleep_ctx-Calm dur = branch-Calm (dur == 0) (ctx_err env) _ (ctx_err-Calm env) (
      >>=-Calm (call (λ k. env.aborted k dur)) stopped (call-Calm (λ k. env.aborted k dur))
        stopped-Calm)

  past_deadline-Calm :
      (deadline : ℕ) (class : FailureClass) (later : ℕ) → Calm (past_deadline deadline class later)
  unfolding past_deadline
  past_deadline-Calm deadline class later =
      branch-Calm (ltb later deadline) (return tt) (fail (restore_deadline class)) (return-Calm tt)
        (fail-Calm (restore_deadline class) (λ e. cc))

  sleep_before-Calm :
      (deadline : ℕ) (class : FailureClass) (now : ℕ)
      → Calm (sleep_before env cfg deadline class now)
  unfolding sleep_before
  sleep_before-Calm deadline class now =
      branch-Calm (leb deadline now) (fail (restore_deadline class)) _
        (fail-Calm (restore_deadline class) (λ e. cc))
        (>>=-Calm (sleep_ctx env cfg (min cfg.restore_poll_interval (deadline - now))) _
          (sleep_ctx-Calm (min cfg.restore_poll_interval (deadline - now)))
          (λ _.
            >>=-Calm (call env.now) (past_deadline deadline class) (call-Calm env.now)
              (past_deadline-Calm deadline class)))

  pub sleep_to_deadline-Calm :
      (deadline : ℕ) (class : FailureClass) → Calm (sleep_to_deadline env cfg deadline class)
  unfolding sleep_to_deadline
  sleep_to_deadline-Calm deadline class =
      >>=-Calm (call env.now) (sleep_before env cfg deadline class) (call-Calm env.now)
        (sleep_before-Calm deadline class)

  polled_save-Quiet :
      (d : Driver) (r : Result DriverError (Option Bytes) × Driver)
      → Quiet d r
      → Quiet d (polled_save r)
  polled_save-Quiet d (err why, d1) h = (h.0, h.1, λ e. h.2 (cc))
  polled_save-Quiet d (ok none, d1) h = (h.0, h.1, λ e. cc)
  polled_save-Quiet d (ok (some raw), d1) h = (h.0, h.1, λ e. cc)

  polled_login-Quiet :
      (d : Driver) (r : Result DriverError (Unit {0}) × Driver)
      → Quiet d r
      → Quiet d (polled_login env cfg r)
  polled_login-Quiet d (err why, d1) h = (h.0, h.1, λ e. cc)
  polled_login-Quiet d (ok _, d1) h =
      let saved = polled_save-Quiet d1 (save_config env d1) (save_config-Calm env d1) in
      (saved.0 ∙ h.0, omega (arith, h.1, saved.1), saved.2)

  pub poll-Calm : Calm (poll env cfg)
  unfolding poll
  poll-Calm d = polled_login-Quiet d (login env d) (login-Calm env d)

pub verify-Calm :
    (plan : VerifyPlan) (uploaded : Bytes) (tc : TextConfig) (dec : Decoded)
    → Calm (verify plan uploaded tc dec)
unfolding verify
verify-Calm plan uploaded tc dec =
    branch-Calm _ (fail drift_vlan) _ (fail-Calm drift_vlan (λ e. cc))
      (branch-Calm _ (fail drift_ports) _ (fail-Calm drift_ports (λ e. cc)) (return-Calm _))

pub vlan_upload-Calm : (tc : TextConfig) (norm : VlanState) → Calm (vlan_upload tc norm)
unfolding vlan_upload
vlan_upload-Calm tc norm = >>=-Calm (lift (new_editor tc)) _ (lift-Calm (new_editor tc)) (λ editor.
    >>=-Calm (lift (render_vlan_state editor norm (capture_foreign tc))) _
      (lift-Calm (render_vlan_state editor norm (capture_foreign tc)))
      (λ upload.
        >>=-Calm
          (lift
            (validate_text_config_header upload tc.system_description tc.system_software_version))
          (λ _. return upload)
          (lift-Calm
            (validate_text_config_header upload tc.system_description tc.system_software_version))
          (λ _. return-Calm upload)))
