-- ===== src/Refresh/Recovery/Works.antt =====
-- A health tick that recovers (refresh.go, onHealthTick).
use pia_wg_config_generator.Base.{◌+◌, false, ◌≡◌, refl, ap, ◌∙◌}
use pia_wg_config_generator.Base.Int.{pos}
use pia_wg_config_generator.Clock.{Time}
use pia_wg_config_generator.Tunnel.{TunnelState}
use pia_wg_config_generator.Refresh.{Settings, Env, Runtime, called}
use pia_wg_config_generator.Refresh.Outcome.{
  account_for_previous_recovery, record_loss_if_measurable,
}
use pia_wg_config_generator.Refresh.Frame.{registrations, observe-registrations}
use pia_wg_config_generator.Refresh.Regenerate.{reactive_recovery}
use pia_wg_config_generator.Refresh.Regenerate.Success.{regenerate_with_backoff-IsRecovery}
use pia_wg_config_generator.Refresh.Regenerate.Works.{
  CanRecover, regenerate_with_backoff-ok, regenerate_with_backoff_once,
}
use pia_wg_config_generator.Refresh.Loop.{recover, react, on_health_tick}
use pia_wg_config_generator.Refresh.Recovery.{
  MayRecover, sample, observed, account-registrations, record_loss-registrations,
}

-- `t` has one registration more than `s`, is not confirmed yet, and counts its unhealthy samples anew.
pub record HasRecovered (s t : Runtime) : Type 0 where
  pub registered_once : registrations t.log ≡ registrations s.log + 1
  pub since : t.healthy_since_recovery ≡ false
  pub confirmed : t.confirmed_healthy ≡ false
  pub consecutive : t.consecutive_unhealthy ≡ pos 0

recover-HasRecovered :
    (env : Env) (cfg : Settings) (now : Time) (s : Runtime)
    → CanRecover env
    → HasRecovered s (recover env cfg now s)
unfolding recover
recover-HasRecovered env cfg now s w =
    let a = account_for_previous_recovery cfg now s in
    let b = record_loss_if_measurable env a in
    let r =
      regenerate_with_backoff-IsRecovery env cfg b
        (regenerate_with_backoff-ok env cfg w reactive_recovery b) in
    record {
      registered_once =
          regenerate_with_backoff_once env cfg w reactive_recovery b
          ∙ ap (λ n. n + 1) (record_loss-registrations env a ∙ account-registrations cfg now s);
      since = r.since;
      confirmed = r.confirmed;
      consecutive = r.consecutive;
    }

react-recover :
    (env : Env) (cfg : Settings) (st : TunnelState) (now : Time) (s : Runtime)
    → MayRecover cfg st (env.now s.calls) s
    → react env cfg st now s ≡ recover env cfg now (called s)
unfolding react
react-recover env cfg st now s may = rw (may.unhealthy, may.long_enough, may.cooled) refl

on_health_tick-recover :
    (env : Env) (cfg : Settings) (s : Runtime)
    → MayRecover cfg (sample env cfg s) (env.now (observed env cfg s).calls) (observed env cfg s)
    → on_health_tick env cfg s ≡ recover env cfg (env.now s.calls) (called (observed env cfg s))
unfolding on_health_tick
on_health_tick-recover env cfg s may =
    react-recover env cfg (sample env cfg s) (env.now s.calls) (observed env cfg s) may

-- When the sample of a health tick is unhealthy, that many in a row have been and no cooldown runs, in
-- a world where PIA registers every key, files can be written and Docker restarts gluetun, the tick
-- registers exactly one key with PIA, and the unhealthy samples are counted anew for it.
pub on_health_tick-HasRecovered :
    (env : Env) (cfg : Settings) (s : Runtime)
    → CanRecover env
    → MayRecover cfg (sample env cfg s) (env.now (observed env cfg s).calls) (observed env cfg s)
    → HasRecovered s (on_health_tick env cfg s)
on_health_tick-HasRecovered env cfg s w may =
    let o = observed env cfg s in
    let h = recover-HasRecovered env cfg (env.now s.calls) (called o) w in
    let same = on_health_tick-recover env cfg s may in
    record {
      registered_once =
          ap (λ (t : Runtime). registrations t.log) same
          ∙ h.registered_once
          ∙ ap (λ n. n + 1)
              (observe-registrations env cfg (sample env cfg s) (env.now s.calls) (called s));
      since = ap (λ (t : Runtime). t.healthy_since_recovery) same ∙ h.since;
      confirmed = ap (λ (t : Runtime). t.confirmed_healthy) same ∙ h.confirmed;
      consecutive = ap (λ (t : Runtime). t.consecutive_unhealthy) same ∙ h.consecutive;
    }
