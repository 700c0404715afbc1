-- ===== src/Refresh/Recovery.antt =====
-- What a health tick of refresh.go does about an outage (onHealthTick).
pub mod Works
use pia_wg_config_generator.Base.{
  ◌+◌, ◌≤◌, true, false, ◌≡◌, ◌≢◌, refl, sym, ap, ◌∙◌, ◌⊎◌, inl, inr, arith, Bool-cases,
}
use pia_wg_config_generator.Base.Int.{ℤ, pos, ◌+ℤ◌, ◌≤ℤ◌, ◌<ℤ◌, ltb_ℤ, wrap64}
use pia_wg_config_generator.Clock.{Time, zero_time, is_zero, sub}
use pia_wg_config_generator.Tunnel.{TunnelState, check_tunnel}
use pia_wg_config_generator.Refresh.{Settings, Env, Runtime, called}
use pia_wg_config_generator.Refresh.Schedule.{flush_status}
use pia_wg_config_generator.Refresh.Outcome.{
  observe, fold_sample, note_healthy, account_for_previous_recovery, record_loss_if_measurable,
  was_ineffective, ineffective_cause, effective_cooldown,
}
use pia_wg_config_generator.Refresh.Frame.{
  registrations, note_failed_attempt-Keeps, observe-registrations,
}
use pia_wg_config_generator.Refresh.Seen.{one_more, IsSeen, observe-IsSeen, observe-count}
use pia_wg_config_generator.Refresh.Regenerate.{reactive_recovery}
use pia_wg_config_generator.Refresh.Regenerate.Retries.{regenerate_with_backoff-registrations}
use pia_wg_config_generator.Refresh.Loop.{threshold_of, in_cooldown, recover, react, on_health_tick}

account-registrations :
    (cfg : Settings) (now : Time) (s : Runtime)
    → registrations (account_for_previous_recovery cfg now s).log ≡ registrations s.log
unfolding account_for_previous_recovery
account-registrations cfg now s =
    let counted = record s {
      ineffective_recoveries = wrap64 (s.ineffective_recoveries +ℤ pos 1);
    } in
    elim (Bool-cases (was_ineffective s)) [
      | inl yes_it_was ↦
          rw yes_it_was
            (note_failed_attempt-Keeps cfg now ineffective_cause counted).registered_as_often
      | inr it_was_not ↦ rw it_was_not refl
    ]

record_loss-registrations :
    (env : Env) (s : Runtime)
    → registrations (record_loss_if_measurable env s).log ≡ registrations s.log
unfolding record_loss_if_measurable
record_loss-registrations env s = ground arith

recover-registrations :
    (env : Env) (cfg : Settings) (now : Time) (s : Runtime)
    → registrations (recover env cfg now s).log ≤ registrations s.log + 6
unfolding recover
recover-registrations env cfg now s =
    let a = account_for_previous_recovery cfg now s in
    let b = record_loss_if_measurable env a in
    omega (
      arith,
      regenerate_with_backoff-registrations env cfg reactive_recovery b,
      record_loss-registrations env a,
      account-registrations cfg now s,
    )

-- The sample that the next health tick takes.
abbrev pub sample : Env → Settings → Runtime → TunnelState
sample env cfg s = check_tunnel (env.fetch s.calls) cfg.control_url cfg.control_timeout

-- The state once that sample is observed.
abbrev pub observed : Env → Settings → Runtime → Runtime
observed env cfg s = observe env cfg (sample env cfg s) (env.now s.calls) (called s)

-- The outage is long enough, and the last recovery old enough, for a recovery at `now`.
pub record MayRecover (cfg : Settings) (st : TunnelState) (now : Time) (s : Runtime) : Type 0 where
  pub unhealthy : st.healthy ≡ false
  pub long_enough : ltb_ℤ s.consecutive_unhealthy (threshold_of cfg) ≡ false
  pub cooled : in_cooldown cfg now s ≡ false

-- The sample makes at least one, and at least the threshold, unhealthy in a row; and there was no
-- recovery yet, or the last one is as long ago at `now` as the effective cooldown.
pub record IsDue (cfg : Settings) (now : Time) (s : Runtime) : Type 0 where
  pub at_least_one : pos 1 ≤ℤ one_more s
  pub at_threshold : cfg.unhealthy_threshold ≤ℤ one_more s
  pub cooled :
      (s.last_recovery ≡ zero_time)
      ⊎ (effective_cooldown cfg.recovery_cooldown s.ineffective_recoveries
          ≤ℤ sub now s.last_recovery)

-- Too few unhealthy samples in a row, or too soon behind the last recovery.
abbrev pub IsEarly : Settings → Time → Runtime → Type 0
IsEarly cfg now s =
    (one_more s <ℤ pos 1)
    ⊎ ((one_more s <ℤ cfg.unhealthy_threshold)
        ⊎ ((s.last_recovery ≢ zero_time)
            × (sub now s.last_recovery
                <ℤ effective_cooldown cfg.recovery_cooldown s.ineffective_recoveries)))

-- What a health tick makes of `s` with a sample: a healthy one, an unhealthy one that is too early for a
-- recovery, or one that is due for it.
pub data Reacts (cfg : Settings) (st : TunnelState) (now : Time) (s t : Runtime) : Type 0 where
  well :
      st.healthy ≡ true
      → t.consecutive_unhealthy ≡ pos 0
      → registrations t.log ≡ registrations s.log
      → Reacts cfg st now s t
  waits :
      st.healthy ≡ false
      → IsEarly cfg now s
      → t.consecutive_unhealthy ≡ one_more s
      → registrations t.log ≡ registrations s.log
      → Reacts cfg st now s t
  recovers :
      st.healthy ≡ false
      → IsDue cfg now s
      → registrations t.log ≤ registrations s.log + 6
      → Reacts cfg st now s t

-- The tests of onHealthTick, in numbers.
few-IsEarly :
    (cfg : Settings) (now : Time) (s : Runtime)
    → ltb_ℤ (one_more s) (threshold_of cfg) ≡ true
    → IsEarly cfg now s
unfolding threshold_of
few-IsEarly cfg now s few = elim (Bool-cases (ltb_ℤ cfg.unhealthy_threshold (pos 1))) [
  | inl raised ↦ inl (let h = rw raised at few in ground arith)
  | inr kept ↦ inr (inl (let h = rw kept at few in ground arith))
]

enough_lem :
    (cfg : Settings) (n : ℤ)
    → ltb_ℤ n (threshold_of cfg) ≡ false
    → (pos 1 ≤ℤ n) × (cfg.unhealthy_threshold ≤ℤ n)
unfolding threshold_of
enough_lem cfg n h = (ground arith, ground arith)

cooling-IsEarly :
    (cfg : Settings) (now : Time) (s : Runtime) → in_cooldown cfg now s ≡ true → IsEarly cfg now s
unfolding in_cooldown
cooling-IsEarly cfg now s h = inr (inr (ground arith, ground arith))

cooled_lem :
    (cfg : Settings) (now : Time) (s : Runtime)
    → in_cooldown cfg now s ≡ false
    → (s.last_recovery ≡ zero_time)
      ⊎ (effective_cooldown cfg.recovery_cooldown s.ineffective_recoveries
          ≤ℤ sub now s.last_recovery)
unfolding in_cooldown
cooled_lem cfg now s h = elim (Bool-cases (is_zero s.last_recovery)) [
  | inl never ↦ inl (ground arith)
  | inr once ↦ inr (ground arith)
]

in_cooldown-seen :
    (cfg : Settings) (now : Time) (s o : Runtime)
    → IsSeen s o
    → in_cooldown cfg now o ≡ in_cooldown cfg now s
unfolding in_cooldown
in_cooldown-seen cfg now s o seen = rw (seen.recovered_at, seen.ineffective) refl

react-Reacts :
    (env : Env) (cfg : Settings) (st : TunnelState) (now : Time) (s o : Runtime)
    → st.healthy ≡ false
    → IsSeen s o
    → Reacts cfg st (env.now o.calls) s (react env cfg st now o)
unfolding react
react-Reacts env cfg st now s o ill seen =
    elim (Bool-cases (ltb_ℤ o.consecutive_unhealthy (threshold_of cfg))) [
      | inl few ↦
          simp (ill, few)
            (waits ill (few-IsEarly cfg (env.now o.calls) s (rw seen.count at few)) seen.count
              seen.registered)
      | inr enough ↦ elim (Bool-cases (in_cooldown cfg (env.now o.calls) o)) [
        | inl cooling ↦
            simp (ill, enough, cooling)
              (waits ill
                (cooling-IsEarly cfg (env.now o.calls) s
                  (sym (in_cooldown-seen cfg (env.now o.calls) s o seen) ∙ cooling))
                seen.count seen.registered)
        | inr ready ↦
            simp (ill, enough, ready)
              (recovers ill
                (record {
                  at_least_one = rw seen.count at (enough_lem cfg o.consecutive_unhealthy enough).0;
                  at_threshold = rw seen.count at (enough_lem cfg o.consecutive_unhealthy enough).1;
                  cooled =
                      cooled_lem cfg (env.now o.calls) s
                        (sym (in_cooldown-seen cfg (env.now o.calls) s o seen) ∙ ready);
                })
                (rw (← seen.registered) (recover-registrations env cfg now (called o))))
      ]
    ]

react-well :
    (env : Env) (cfg : Settings) (st : TunnelState) (now : Time) (o : Runtime)
    → st.healthy ≡ true
    → react env cfg st now o ≡ o
unfolding react
react-well env cfg st now o healthy = rw healthy refl

-- What a health tick does, by its sample. A healthy one sets the count of unhealthy samples in a row to
-- zero, and nothing is registered with PIA. An unhealthy one adds one to that count; then, if the
-- count is below one or below the threshold, or the last recovery is less than the effective cooldown
-- ago, nothing is registered; and otherwise there are six registrations at most.
pub on_health_tick-registrations :
    (env : Env) (cfg : Settings) (s : Runtime)
    → Reacts cfg
        (sample env cfg s)
        (env.now (observed env cfg s).calls)
        s
        (on_health_tick env cfg s)
unfolding on_health_tick
on_health_tick-registrations env cfg s = elim (Bool-cases (sample env cfg s).healthy) [
  | inl healthy ↦
      well healthy
        (ap (λ (t : Runtime). t.consecutive_unhealthy)
            (react-well env cfg (sample env cfg s) (env.now s.calls) (observed env cfg s) healthy)
          ∙ observe-count env cfg (sample env cfg s) (env.now s.calls) (called s) healthy)
        (ap (λ (t : Runtime). registrations t.log)
            (react-well env cfg (sample env cfg s) (env.now s.calls) (observed env cfg s) healthy)
          ∙ observe-registrations env cfg (sample env cfg s) (env.now s.calls) (called s))
  | inr ill ↦ seen_from_called (
      react-Reacts env cfg (sample env cfg s) (env.now s.calls) (called s) (observed env cfg s) ill
        (observe-IsSeen env cfg (sample env cfg s) (env.now s.calls) (called s) ill))
]
  where
    seen_from_called :
        Reacts cfg
          (sample env cfg s)
          (env.now (observed env cfg s).calls)
          (called s)
          (on_health_tick env cfg s)
        → Reacts cfg
            (sample env cfg s)
            (env.now (observed env cfg s).calls)
            s
            (on_health_tick env cfg s)
    seen_from_called (well h count same) = well h count same
    seen_from_called (waits h early count same) = waits h early count same
    seen_from_called (recovers h due few) =
        recovers h
          (record {
            at_least_one = due.at_least_one;
            at_threshold = due.at_threshold;
            cooled = due.cooled;
          })
          few
