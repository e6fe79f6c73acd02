-- ===== src/Driver/Deadline.antt =====
-- The wait for the switch ends (internal/client/gs108tv2/apply.go).
use terraform_provider_netge.Base.{
  ℕ, zero, suc, ◌+◌, ◌-◌, ◌≤◌, ◌<◌, ◌≡◌, ◌≢◌, refl, sym, ap, inl, inr, Bool, true, false, arith,
  Bytes, Result, err, ok, ltb, leb, ◌==◌, if◌then◌else◌,
}
use terraform_provider_netge.Textcfg.{TextConfig, parse_text_config, canonical_bytes}
use terraform_provider_netge.Driver.{
  Environment, Restored, restore_fails, restore_refused, restore_done, FailureClass, DriverError,
  out_of_fuel, no_session, restore_deadline, Driver, Op, after, return, fail, ◌>>=◌, ◌>>◌, lift,
  call, stopped, ctx_err,
}
use terraform_provider_netge.Driver.Apply.{
  Config, VerifyPlan, ApplyOutcome, Polled, transient, fetched, min, sleep_ctx, past_deadline,
  sleep_before, sleep_to_deadline, settle, poll, wait_loop, wait_from, wait_transient_and_verify,
  restore_result, restore_and_verify, config_restore,
}
use terraform_provider_netge.Driver.Polls.{after-eq-ok, branch, value_of}
use terraform_provider_netge.Driver.Calm.{
  Quiet, ctx_err-Calm, lift-Calm, sleep_ctx-Calm, sleep_to_deadline-Calm, poll-Calm, verify-Calm,
}

-- The clock never goes back, and a sleep that is not cut short takes its time: between the
-- readings around it, the clock moves by at least its length.
pub record IsClock (env : Environment) : Type 0 where
  pub forward : (k : ℕ) → env.now k ≤ env.now (k + 1)
  pub sleeps : (k dur : ℕ) → env.aborted (k + 1) dur ≡ false → env.now k + dur ≤ env.now (k + 1 + 1)

abbrev pub InTime : {A : Type 0} → Result DriverError A × Driver → Type 0
InTime r = r.0 ≢ err out_of_fuel

pub after-InTime :
    {A B : Type 0} (f : A → Op B) (d : Driver) (r : Result DriverError A × Driver)
    → Quiet d r
    → ((a : A) (d1 : Driver) → r ≡ (ok a, d1) → d.calls ≤ d1.calls → InTime (f a d1))
    → InTime (after f r)
after-InTime f d (err why, d1) h k = λ e. h.2 (cc)
after-InTime f d (ok a, d1) h k = k a d1 refl h.1

-- A later reading is no smaller.
now_le : (env : Environment) → IsClock env → (i n j : ℕ) → j ≡ i + n → env.now i ≤ env.now j
now_le env c i zero j e = let same : j ≡ i = omega (arith, e) in rw same (omega arith)
now_le env c i (suc n) j e =
    let next : j ≡ i + n + 1 = omega (arith, e) in
    rw next (omega (arith, now_le env c i n (i + n) refl, c.forward (i + n)))

module _ (env : Environment) (cfg : Config) where
  sleep_ctx-slept :
      (dur : ℕ) (d : Driver) {u : Unit {0}} {d' : Driver}
      → 0 < dur
      → sleep_ctx env cfg dur d ≡ (ok u, d')
      → (env.aborted d.calls dur ≡ false) × (d'.calls ≡ d.calls + 1)
  unfolding sleep_ctx
  sleep_ctx-slept dur d pos h =
      let some_time : (dur == 0) ≡ false = ground (arith, pos) in
      not_stopped (env.aborted d.calls dur) (record d { calls = d.calls + 1 }) (rw some_time at h)
    where
      not_stopped :
          (b : Bool) (d1 : Driver) {u : Unit {0}} {d' : Driver}
          → stopped b d1 ≡ (ok u, d')
          → (b ≡ false) × (d'.calls ≡ d1.calls)
      not_stopped true d1 e = cc
      not_stopped false d1 e = (refl, ap (λ x. x.calls) (sym (value_of e).1))

  past_deadline-early :
      (deadline : ℕ) (class : FailureClass) (later : ℕ) (d : Driver) {u : Unit {0}} {d' : Driver}
      → past_deadline deadline class later d ≡ (ok u, d')
      → (later < deadline) × (d'.calls ≡ d.calls)
  unfolding past_deadline
  past_deadline-early deadline class later d h =
      elim (branch (ltb later deadline) (return tt) (fail (restore_deadline class)) d h) [
        | inl (early, e) ↦ (ground (arith, early), ap (λ x. x.calls) (sym (value_of e).1))
        | inr (_, e) ↦ cc e
      ]

  -- A sleep that ends before the deadline moves the clock.
  sleep_to_deadline-later :
      (deadline : ℕ) (class : FailureClass) (d : Driver) {u : Unit {0}} {d' : Driver}
      → IsClock env
      → 0 < cfg.restore_poll_interval
      → sleep_to_deadline env cfg deadline class d ≡ (ok u, d')
      → (n : ℕ) × (env.now d.calls < n) × (n < deadline) × (n ≤ env.now d'.calls)
  unfolding sleep_to_deadline sleep_before
  sleep_to_deadline-later deadline class d clock pos h =
      let t = env.now d.calls in
      let d1 = record d { calls = d.calls + 1 } in
      let dur = min cfg.restore_poll_interval (deadline - t) in
      let go = sleep_ctx env cfg dur >> (call env.now >>= past_deadline deadline class) in
      elim (branch (leb deadline t) (fail (restore_deadline class)) go d1 h) [
        | inl (_, e) ↦ cc e
        | inr (open_window, e) ↦
            let (_, d2, slept, rest) =
              after-eq-ok (λ _. call env.now >>= past_deadline deadline class)
                (sleep_ctx env cfg dur d1) e in
            let long : 0 < dur = ground (arith, open_window, pos) in
            let (whole, two) = sleep_ctx-slept dur d1 long slept in
            let (early, three) =
              past_deadline-early deadline class (env.now d2.calls)
                (record d2 { calls = d2.calls + 1 }) rest in
            let moved : t + dur ≤ env.now d2.calls = rw two (clock.sleeps d.calls dur whole) in
            (
              env.now d2.calls,
              omega (arith, moved, long),
              early,
              now_le env clock d2.calls 1 _ three,
            )
      ]

  module _ (clock : IsClock env) (pos : 0 < cfg.restore_poll_interval) (plan : VerifyPlan) where
    settle-InTime :
        (deadline : ℕ) (uploaded : Bytes) (again : Op ApplyOutcome) (found : Polled) (d : Driver)
        → ((d1 : Driver) (n : ℕ)
            → env.now d.calls < n
            → n < deadline
            → n ≤ env.now d1.calls
            → InTime (again d1))
        → InTime (settle env cfg deadline plan uploaded again found d)
    unfolding settle
    settle-InTime deadline uploaded again (fetched tc dec) d later =
        (verify-Calm plan uploaded tc dec d).2
    settle-InTime deadline uploaded again (transient class) d later =
        after-InTime (λ _. again) d (sleep_to_deadline env cfg deadline class d)
          (sleep_to_deadline-Calm env cfg deadline class d)
          (λ _ d1 slept _.
            let (n, after_start, early, reached) =
              sleep_to_deadline-later deadline class d clock pos slept in
            later d1 n after_start early reached)

    -- A round for each moment up to the deadline is enough.
    wait_loop-InTime :
        (fuel deadline : ℕ) (uploaded : Bytes) (d : Driver) (t : ℕ)
        → t ≤ env.now d.calls
        → deadline < t + fuel
        → 0 < fuel
        → InTime (wait_loop env cfg fuel deadline plan uploaded d)
    unfolding wait_loop
    wait_loop-InTime zero deadline uploaded d t reached enough some_fuel = absurd (omega arith)
    wait_loop-InTime (suc fuel) deadline uploaded d t reached enough some_fuel =
        let again = wait_loop env cfg fuel deadline plan uploaded in
        after-InTime (λ _. poll env cfg >>= settle env cfg deadline plan uploaded again) d
          (ctx_err env d) (ctx_err-Calm env d)
          (λ _ d1 _ one.
            after-InTime (settle env cfg deadline plan uploaded again) d1 (poll env cfg d1)
              (poll-Calm env cfg d1)
              (λ found d2 _ two.
                let here : env.now d.calls ≤ env.now d2.calls =
                  now_le env clock d.calls (d2.calls - d.calls) d2.calls (omega arith) in
                settle-InTime deadline uploaded again found d2 (λ d3 n after_start early there.
                  wait_loop-InTime fuel deadline uploaded d3 n there (omega arith) (omega arith))))

    wait_from-InTime :
        (uploaded : TextConfig) (start : ℕ) (d : Driver)
        → start ≤ env.now d.calls
        → InTime (wait_from env cfg plan uploaded start d)
    unfolding wait_from
    wait_from-InTime uploaded start d reached =
        wait_loop-InTime (suc cfg.restore_wait_timeout) (start + cfg.restore_wait_timeout)
          (canonical_bytes uploaded) d start reached (omega arith) (omega arith)

    wait_transient_and_verify-InTime :
        (upload : Bytes) (d : Driver) → InTime (wait_transient_and_verify env cfg plan upload d)
    unfolding wait_transient_and_verify
    wait_transient_and_verify-InTime upload d =
        after-InTime _ d (lift (parse_text_config upload) d)
          (lift-Calm (parse_text_config upload) d)
          (λ uploaded d1 _ _.
            after-InTime (λ _. call env.now >>= wait_from env cfg plan uploaded) d1
              (sleep_ctx env cfg cfg.restore_first_delay d1)
              (sleep_ctx-Calm env cfg cfg.restore_first_delay d1)
              (λ _ d2 _ _.
                wait_from-InTime uploaded (env.now d2.calls) (record d2 { calls = d2.calls + 1 })
                  (clock.forward d2.calls)))

    restored-InTime :
        (upload : Bytes) (answer : Restored) (d : Driver)
        → InTime
            (after (λ _. wait_transient_and_verify env cfg plan upload) (restore_result answer d))
    restored-InTime upload restore_fails d = λ e. cc e
    restored-InTime upload restore_refused d = λ e. cc e
    restored-InTime upload restore_done d = wait_transient_and_verify-InTime upload d

    pub restore_and_verify-InTime :
        (upload : Bytes) (d : Driver) → InTime (restore_and_verify env cfg plan upload d)
    unfolding restore_and_verify config_restore
    restore_and_verify-InTime upload d =
        either d.session _ (restored-InTime upload (env.restored d.calls upload) _)
      where
        either :
            (b : Bool) (r : Result DriverError ApplyOutcome × Driver)
            → InTime r
            → InTime (if b then r else (err no_session, d))
        either true r h = h
        either false r h = λ e. cc e
