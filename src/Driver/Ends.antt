-- ===== src/Driver/Ends.antt =====
-- An apply ends within its window (internal/client/gs108tv2/apply.go).
use terraform_provider_netge.Base.{
  arith, ◌<◌, ◌≢◌, Bool, true, false, ◌&&◌, Option, none, some, err, if◌then◌else◌,
}
use terraform_provider_netge.Model.{VlanState, normalize, equal_states}
use terraform_provider_netge.Textcfg.{TextConfig, parse_text_config}
use terraform_provider_netge.Grammar.{validate_renderable}
use terraform_provider_netge.Codec.{decode_text_config}
use terraform_provider_netge.Driver.{
  Environment, DriverError, out_of_fuel, invalid_desired, Driver, Op, return, lift, ctx_err,
  save_startup_config,
}
use terraform_provider_netge.Driver.Apply.{
  Config, with_defaults, vlan_upload, vlan_plan, stage_vlan, restore_and_verify, already_staged,
  no_error, unless_refused, with_fetched, apply_vlan_state,
}
use terraform_provider_netge.Driver.Calm.{
  ctx_err-Calm, save_startup_config-Calm, lift-Calm, vlan_upload-Calm,
}
use terraform_provider_netge.Driver.Deadline.{
  InTime, IsClock, after-InTime, restore_and_verify-InTime,
}

unless_refused-InTime :
    {E A : Type 0} (tag : E → DriverError) (o : Option E) (f : Op A) (d : Driver)
    → ((e : E) → tag e ≢ out_of_fuel)
    → InTime (f d)
    → InTime (unless_refused tag o f d)
unless_refused-InTime tag none f d ne h = h
unless_refused-InTime tag (some e) f d ne h = λ x. ne e (cc)

branch-InTime :
    {A : Type 0} (b : Bool) (f g : Op A) (d : Driver)
    → InTime (f d)
    → InTime (g d)
    → InTime ((if b then f else g) d)
branch-InTime true f g d h k = h
branch-InTime false f g d h k = k

module _ (env : Environment) (cfg : Config) (clock : IsClock env)
    (pos : 0 < cfg.restore_poll_interval) where
  stage_vlan-InTime :
      (tc : TextConfig) (norm : VlanState) (d : Driver) → InTime (stage_vlan env cfg tc norm d)
  unfolding stage_vlan
  stage_vlan-InTime tc norm d =
      let dec = decode_text_config tc in
      branch-InTime (no_error dec.error && equal_states dec.state norm) (return already_staged) _ d
        (λ e. cc e)
        (after-InTime (restore_and_verify env cfg (vlan_plan dec norm)) d (vlan_upload tc norm d)
          (vlan_upload-Calm tc norm d)
          (λ upload d1 _ _.
            restore_and_verify-InTime env cfg clock pos (vlan_plan dec norm) upload d1))

  apply_vlan_state-polls :
      (desired : VlanState) (d : Driver) → (apply_vlan_state env cfg desired d).0 ≢ err out_of_fuel
  unfolding apply_vlan_state with_fetched
  apply_vlan_state-polls desired d =
      let norm = normalize desired in
      unless_refused-InTime invalid_desired (validate_renderable norm)
        (with_fetched env cfg (λ tc. stage_vlan env cfg tc norm)) d (λ w e. cc e)
        (after-InTime _ d (ctx_err env d) (ctx_err-Calm env d) (λ _ d1 _ _.
          after-InTime _ d1 (save_startup_config env d1) (save_startup_config-Calm env d1)
            (λ raw d2 _ _.
              after-InTime (λ tc. stage_vlan env cfg tc norm) d2 (lift (parse_text_config raw) d2)
                (lift-Calm (parse_text_config raw) d2)
                (λ tc d3 _ _. stage_vlan-InTime tc norm d3))))

polls_pos : (cfg : Config) → 0 < (with_defaults cfg).restore_poll_interval
unfolding with_defaults
polls_pos cfg = ground arith

-- With a clock that does not go back and sleeps that take their time unless the context ends
-- them, and with the defaults filled in, ApplyVLANState never runs out of the rounds the model
-- grants: one for each moment of the window is enough.
pub apply_vlan_state-InTime :
    (env : Environment) (cfg : Config)
    → IsClock env
    → (desired : VlanState) (d : Driver)
    → (apply_vlan_state env (with_defaults cfg) desired d).0 ≢ err out_of_fuel
apply_vlan_state-InTime env cfg clock =
    apply_vlan_state-polls env (with_defaults cfg) clock (polls_pos cfg)
