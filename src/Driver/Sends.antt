-- ===== src/Driver/Sends.antt =====
-- The files that an apply sends (internal/client/gs108tv2/apply.go).
use terraform_provider_netge.Base.{
  ℕ, zero, suc, ◌+◌, ◌≡◌, refl, ap, ◌∙◌, ◌⊎◌, inl, inr, Bool, true, false, ◌&&◌, Option, none, some,
  [], ◌∷◌, ◌++◌, Bytes, Result, err, ok, if◌then◌else◌,
}
use terraform_provider_netge.Model.{VlanState, normalize, equal_states}
use terraform_provider_netge.Textcfg.{
  TextConfig, parse_text_config, canonical_bytes, validate_text_config_header,
}
use terraform_provider_netge.Textcfg.Editor.{Editor, new_editor}
use terraform_provider_netge.Grammar.{validate_renderable}
use terraform_provider_netge.Codec.{decode_text_config}
use terraform_provider_netge.Codec.Render.{capture_foreign, render_vlan_state}
use terraform_provider_netge.Driver.{
  Environment, Restored, restore_fails, restore_refused, restore_done, DriverError, no_session,
  invalid_desired, Driver, Op, after, return, ◌>>=◌, lift, call, ctx_err, save_startup_config,
}
use terraform_provider_netge.Driver.Apply.{
  Config, VerifyPlan, ApplyOutcome, Polled, transient, fetched, sleep_ctx, sleep_to_deadline,
  settle, poll, wait_loop, wait_from, wait_transient_and_verify, config_restore, restore_result,
  restore_and_verify, vlan_upload, vlan_plan, stage_vlan, already_staged, no_error, unless_refused,
  with_fetched, apply_vlan_state,
}
use terraform_provider_netge.Driver.Polls.{
  Served, after-eq-ok, lift-ok, save_startup_config-saved, value_of,
}
use terraform_provider_netge.Driver.Calm.{
  vlan_upload-Calm, Quiet, ctx_err-Calm, lift-Calm, save_startup_config-Calm, sleep_ctx-Calm,
  sleep_to_deadline-Calm, poll-Calm, verify-Calm,
}

-- No file is sent behind a state, and at most one, which is as it should be.
abbrev Still : {A : Type 0} → Driver → Result DriverError A × Driver → Type 0
Still d r = r.1.uploads ≡ d.uploads

abbrev pub Sent : {A : Type 0} → (Bytes → Type 0) → Driver → Result DriverError A × Driver → Type 0
Sent U d r =
    (r.1.uploads ≡ d.uploads)
    ⊎ ((upload : Bytes) × U upload × (r.1.uploads ≡ d.uploads ++ (upload ∷ [])))

after-Still :
    {A B : Type 0} (f : A → Op B) (d : Driver) (r : Result DriverError A × Driver)
    → Still d r
    → ((a : A) (d1 : Driver) → Still d1 (f a d1))
    → Still d (after f r)
after-Still f d (err why, d1) h k = h
after-Still f d (ok a, d1) h k = k a d1 ∙ h

moved :
    {A : Type 0} (U : Bytes → Type 0) (d d1 : Driver) (r : Result DriverError A × Driver)
    → d1.uploads ≡ d.uploads
    → Sent U d1 r
    → Sent U d r
moved U d d1 r h (inl e) = inl (e ∙ h)
moved U d d1 r h (inr (u, good, e)) = inr (u, good, e ∙ ap (λ us. us ++ (u ∷ [])) h)

after-Sent :
    {A B : Type 0} (U : Bytes → Type 0) (f : A → Op B) (d : Driver)
    (r : Result DriverError A × Driver)
    → Quiet d r
    → ((a : A) (d1 : Driver) → r ≡ (ok a, d1) → Sent U d1 (f a d1))
    → Sent U d (after f r)
after-Sent U f d (err why, d1) h k = inl h.0
after-Sent U f d (ok a, d1) h k = moved U d d1 (f a d1) h.0 (k a d1 refl)

module _ (env : Environment) (cfg : Config) (plan : VerifyPlan) where
  settle-Still :
      (deadline : ℕ) (uploaded : Bytes) (again : Op ApplyOutcome) (found : Polled) (d : Driver)
      → ((d1 : Driver) → Still d1 (again d1))
      → Still d (settle env cfg deadline plan uploaded again found d)
  unfolding settle
  settle-Still deadline uploaded again (fetched tc dec) d later =
      (verify-Calm plan uploaded tc dec d).0
  settle-Still deadline uploaded again (transient class) d later =
      after-Still (λ _. again) d (sleep_to_deadline env cfg deadline class d)
        (sleep_to_deadline-Calm env cfg deadline class d).0 (λ _. later)

  wait_loop-Still :
      (fuel deadline : ℕ) (uploaded : Bytes) (d : Driver)
      → Still d (wait_loop env cfg fuel deadline plan uploaded d)
  unfolding wait_loop
  wait_loop-Still zero deadline uploaded d = refl
  wait_loop-Still (suc fuel) deadline uploaded d =
      let again = wait_loop env cfg fuel deadline plan uploaded in
      after-Still (λ _. poll env cfg >>= settle env cfg deadline plan uploaded again) d
        (ctx_err env d) (ctx_err-Calm env d).0
        (λ _ d1.
          after-Still (settle env cfg deadline plan uploaded again) d1 (poll env cfg d1)
            (poll-Calm env cfg d1).0
            (λ found d2.
              settle-Still deadline uploaded again found d2
                (wait_loop-Still fuel deadline uploaded)))

  wait_transient_and_verify-Still :
      (upload : Bytes) (d : Driver) → Still d (wait_transient_and_verify env cfg plan upload d)
  unfolding wait_transient_and_verify wait_from
  wait_transient_and_verify-Still upload d =
      after-Still _ d (lift (parse_text_config upload) d) (lift-Calm (parse_text_config upload) d).0
        (λ uploaded d1.
          after-Still (λ _. call env.now >>= wait_from env cfg plan uploaded) d1
            (sleep_ctx env cfg cfg.restore_first_delay d1)
            (sleep_ctx-Calm env cfg cfg.restore_first_delay d1).0
            (λ _ d2.
              after-Still (wait_from env cfg plan uploaded) d2 (call env.now d2) refl (λ start d3.
                wait_loop-Still (suc cfg.restore_wait_timeout) (start + cfg.restore_wait_timeout)
                  (canonical_bytes uploaded) d3)))

  restored-Still :
      (upload : Bytes) (answer : Restored) (d : Driver)
      → Still d
          (after (λ _. wait_transient_and_verify env cfg plan upload) (restore_result answer d))
  restored-Still upload restore_fails d = refl
  restored-Still upload restore_refused d = refl
  restored-Still upload restore_done d = wait_transient_and_verify-Still upload d

  restore_and_verify-Sent :
      (U : Bytes → Type 0) (upload : Bytes) (d : Driver)
      → U upload
      → Sent U d (restore_and_verify env cfg plan upload d)
  unfolding restore_and_verify config_restore
  restore_and_verify-Sent U upload d good =
      let sent = record d { calls = d.calls + 1; uploads = d.uploads ++ (upload ∷ []) } in
      either d.session _
        (inr (upload, good, restored-Still upload (env.restored d.calls upload) sent))
    where
      either :
          (b : Bool) (r : Result DriverError ApplyOutcome × Driver)
          → Sent U d r
          → Sent U d (if b then r else (err no_session, d))
      either true r h = h
      either false r h = inl refl

-- A file that an apply of VLANs may send: the desired state passes every check, and the file is
-- the one rendered for it from a file of the switch that does not hold it, with a header that
-- the firmware takes.
pub record VlanFile (env : Environment) (desired : VlanState) (upload : Bytes) : Type 0 where
  pub renderable : validate_renderable desired ≡ none
  pub start : TextConfig
  pub start_served : Served env start
  pub not_staged :
      (no_error (decode_text_config start).error
        && equal_states (decode_text_config start).state desired)
      ≡ false
  pub editor : Editor
  pub opened : new_editor start ≡ ok editor
  pub rendered : render_vlan_state editor desired (capture_foreign start) ≡ ok upload
  pub header :
      validate_text_config_header upload start.system_description start.system_software_version
      ≡ ok tt

vlan_upload-parts :
    (tc : TextConfig) (norm : VlanState) (d : Driver) {upload : Bytes} {d' : Driver}
    → vlan_upload tc norm d ≡ (ok upload, d')
    → (editor : Editor) × (new_editor tc ≡ ok editor)
      × (render_vlan_state editor norm (capture_foreign tc) ≡ ok upload)
      × (validate_text_config_header upload tc.system_description tc.system_software_version
          ≡ ok tt)
unfolding vlan_upload
vlan_upload-parts tc norm d h =
    let (editor, d1, opened, h1) = after-eq-ok _ (lift (new_editor tc) d) h in
    let (text, d2, rendered, h2) =
      after-eq-ok _ (lift (render_vlan_state editor norm (capture_foreign tc)) d1) h1 in
    let (_, d3, valid, h3) =
      after-eq-ok _
        (lift (validate_text_config_header text tc.system_description tc.system_software_version)
          d2)
        h2 in
    let same : text ≡ _ = (value_of h3).0 in
    (
      editor,
      lift-ok (new_editor tc) d opened,
      lift-ok (render_vlan_state editor norm (capture_foreign tc)) d1 rendered ∙ ap ok same,
      rw (← same) (lift-ok _ d2 valid),
    )

unless_refused-Sent :
    {E A : Type 0} (U : Bytes → Type 0) (tag : E → DriverError) (o : Option E) (f : Op A)
    (d : Driver)
    → (o ≡ none → Sent U d (f d))
    → Sent U d (unless_refused tag o f d)
unless_refused-Sent U tag none f d h = h refl
unless_refused-Sent U tag (some why) f d h = inl refl

branch-Sent :
    {A : Type 0} (U : Bytes → Type 0) (b : Bool) (f g : Op A) (d : Driver)
    → Sent U d (f d)
    → (b ≡ false → Sent U d (g d))
    → Sent U d ((if b then f else g) d)
branch-Sent U true f g d h k = h
branch-Sent U false f g d h k = k refl

module _ (env : Environment) (cfg : Config) where
  with_fetched-Sent :
      (U : Bytes → Type 0) (f : TextConfig → Op ApplyOutcome) (d : Driver)
      → ((tc : TextConfig) (d1 : Driver) → Served env tc → Sent U d1 (f tc d1))
      → Sent U d (with_fetched env cfg f d)
  unfolding with_fetched
  with_fetched-Sent U f d h = after-Sent U _ d (ctx_err env d) (ctx_err-Calm env d) (λ _ d1 _.
      after-Sent U _ d1 (save_startup_config env d1) (save_startup_config-Calm env d1)
        (λ raw d2 saved.
          after-Sent U f d2 (lift (parse_text_config raw) d2) (lift-Calm (parse_text_config raw) d2)
            (λ tc d3 parsed.
              let source = save_startup_config-saved env d1 saved in
              h tc d3 (record {
                at_call = source.0;
                raw = raw;
                saved = source.1;
                parsed = lift-ok (parse_text_config raw) d2 parsed;
              }))))

  stage_vlan-Sent :
      (norm : VlanState) (tc : TextConfig) (d : Driver)
      → validate_renderable norm ≡ none
      → Served env tc
      → Sent (VlanFile env norm) d (stage_vlan env cfg tc norm d)
  unfolding stage_vlan
  stage_vlan-Sent norm tc d fine served =
      let dec = decode_text_config tc in
      branch-Sent (VlanFile env norm) (no_error dec.error && equal_states dec.state norm)
        (return already_staged) _ d (inl refl)
        (λ changed.
          after-Sent (VlanFile env norm) (restore_and_verify env cfg (vlan_plan dec norm)) d
            (vlan_upload tc norm d) (vlan_upload-Calm tc norm d)
            (λ upload d1 ready.
              let (editor, opened, rendered, header) = vlan_upload-parts tc norm d ready in
              restore_and_verify-Sent env cfg (vlan_plan dec norm) (VlanFile env norm) upload d1
                (record {
                  renderable = fine;
                  start = tc;
                  start_served = served;
                  not_staged = changed;
                  editor = editor;
                  opened = opened;
                  rendered = rendered;
                  header = header;
                })))

  -- Whatever the switch answers, ApplyVLANState sends no file or exactly one, and one only if
  -- the normalized desired state passes validateRenderable: it is the file rendered for that
  -- state from a file which the switch served and which does not hold it yet, and its header
  -- passes the firmware's checks.
  pub apply_vlan_state-Sent :
      (desired : VlanState) (d : Driver)
      → Sent (VlanFile env (normalize desired)) d (apply_vlan_state env cfg desired d)
  unfolding apply_vlan_state
  apply_vlan_state-Sent desired d =
      let norm = normalize desired in
      unless_refused-Sent (VlanFile env norm) invalid_desired (validate_renderable norm) _ d
        (λ fine.
          with_fetched-Sent (VlanFile env norm) (λ tc. stage_vlan env cfg tc norm) d
            (λ tc d1 served. stage_vlan-Sent norm tc d1 fine served))
