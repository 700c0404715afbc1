-- ===== src/Refresh/Loop.antt =====
-- onHealthTick, tryAdopt and the loop of runRefresh (refresh.go).
use pia_wg_config_generator.Base.{
  ℕ, ◌+◌, Bool, true, false, not, ◌&&◌, Option, none, some, List, [], ◌∷◌, if◌then◌else◌,
}
use pia_wg_config_generator.Base.Int.{ℤ, pos, ◌-ℤ◌, ltb_ℤ, wrap64}
use pia_wg_config_generator.Base.Text.{Text, is_empty, text_eq}
use pia_wg_config_generator.Clock.{Time, Duration, is_zero, sub}
use pia_wg_config_generator.Lifetime.{LifetimeRecord, load, safe_refresh_interval}
use pia_wg_config_generator.Tunnel.{TunnelState, check_tunnel}
use pia_wg_config_generator.WgConfig.Endpoint.{parse_endpoint_from_config}
use pia_wg_config_generator.Status.{read_previous_region}
use pia_wg_config_generator.Refresh.{Settings, Env, Runtime, called}
use pia_wg_config_generator.Refresh.Schedule.{arm_next_refresh, rearm}
use pia_wg_config_generator.Refresh.Outcome.{
  observe, effective_cooldown, account_for_previous_recovery, record_loss_if_measurable,
}
use pia_wg_config_generator.Refresh.Regenerate.{
  startup, proactive, reactive_recovery, regenerate_with_backoff,
}

-- The threshold that onHealthTick uses: 1 at least.
unfoldable pub threshold_of : Settings → ℤ
threshold_of cfg = if ltb_ℤ cfg.unhealthy_threshold (pos 1) then pos 1 else cfg.unhealthy_threshold

-- Whether the last recovery is too recent for another; `now` is the clock of time.Since.
unfoldable pub in_cooldown : Settings → Time → Runtime → Bool
in_cooldown cfg now s =
    not (is_zero s.last_recovery)
    && ltb_ℤ (sub now s.last_recovery)
        (effective_cooldown cfg.recovery_cooldown s.ineffective_recoveries)

-- The recovery at the end of onHealthTick; its error is only logged.
unfoldable pub recover : Env → Settings → Time → Runtime → Runtime
recover env cfg now s =
    (regenerate_with_backoff env cfg reactive_recovery
      (record_loss_if_measurable env (account_for_previous_recovery cfg now s))).0

-- onHealthTick behind the sample, which was observed at `now`.
unfoldable pub react : Env → Settings → TunnelState → Time → Runtime → Runtime
react env cfg st now s =
    if st.healthy
    then s
    else if ltb_ℤ s.consecutive_unhealthy (threshold_of cfg)
    then called s
    else if in_cooldown cfg (env.now s.calls) s
    then called s
    else recover env cfg now (called s)

-- onHealthTick
unfoldable pub on_health_tick : Env → Settings → Runtime → Runtime
on_health_tick env cfg s =
    let st = check_tunnel (env.fetch s.calls) cfg.control_url cfg.control_timeout in
    let now = env.now s.calls in react env cfg st now (observe env cfg st now (called s))

-- What tryAdopt writes into the state before it observes the sample.
abbrev adopt : LifetimeRecord → Runtime → Runtime
adopt rec s = record s {
  last_generate = rec.current_registration;
  confirmed_healthy = true;
  healthy_since_recovery = true;
}

no_endpoint : Option Text → Bool
no_endpoint none = true
no_endpoint (some endpoint) = is_empty endpoint

other_region : Text → Option Text → Bool
other_region region none = true
other_region region (some previous) = not (text_eq previous region)

-- The guards of tryAdopt that need no network: the record is given behind its load.
unfoldable pub is_adoptable : Env → Settings → ℕ → LifetimeRecord × Option Text → Bool
unfolding no_endpoint other_region
is_adoptable env cfg n (rec, some e) = false
is_adoptable env cfg n (rec, none) =
    not (no_endpoint (parse_endpoint_from_config (env.config_file n)))
    && not (is_zero rec.current_registration)
    && not (other_region cfg.region (read_previous_region (env.previous_region n)))
    && ltb_ℤ (sub (env.now n) rec.current_registration) (
        wrap64 (
          safe_refresh_interval rec cfg.fallback_interval cfg.max_registration_age
          -ℤ cfg.health_interval))

-- tryAdopt
unfoldable pub try_adopt : Env → Settings → Runtime → Runtime × Bool
unfolding is_adoptable
try_adopt env cfg s =
    let rec = (load s.lifetime_file).0 in
    let st = check_tunnel (env.fetch s.calls) cfg.control_url cfg.control_timeout in
    if is_adoptable env cfg s.calls (load s.lifetime_file) && st.healthy
    then (observe env cfg st (env.now (s.calls + 1)) (adopt rec (called (called s))), true)
    else (called s, false)

-- Startup, by the flag --adopt-healthy-registration: adopt, or register afresh.
unfoldable pub start_by : Env → Settings → Bool → Runtime → Runtime
start_by env cfg false s = (regenerate_with_backoff env cfg startup s).0
start_by env cfg true s =
    let (s', adopted) = try_adopt env cfg s in
    if adopted then s' else (regenerate_with_backoff env cfg startup s').0

-- The state of the loop: the runtime, and the delay that the proactive timer was last set to.
pub record LoopState : Type 0 where
  pub runtime : Runtime
  pub timer : Duration

pub data Tick : Type 0 where
  health_tick proactive_tick : Tick

set_timer : Duration → Option Duration → Duration
set_timer old none = old
set_timer old (some d) = d

-- One round of the select loop, by the channel that fires.
unfoldable pub round : Env → Settings → LoopState → Tick → LoopState
unfolding set_timer
round env cfg l health_tick =
    let (s, delay) = rearm env cfg (on_health_tick env cfg l.runtime) in
    record { runtime = s; timer = set_timer l.timer delay }
round env cfg l proactive_tick =
    let (s, delay) =
      arm_next_refresh env cfg (regenerate_with_backoff env cfg proactive l.runtime).0 in
    record { runtime = s; timer = delay }

-- runRefresh behind its flags, for as many rounds as the channels fire.
unfoldable pub run_rounds : Env → Settings → LoopState → List Tick → LoopState
run_rounds env cfg l [] = l
run_rounds env cfg l (t ∷ ts) = run_rounds env cfg (round env cfg l t) ts

unfoldable pub run_refresh : Env → Settings → Runtime → List Tick → LoopState
unfolding run_rounds
run_refresh env cfg s ts =
    let (s', delay) = arm_next_refresh env cfg (start_by env cfg cfg.adopt_healthy s) in
    run_rounds env cfg (record { runtime = s'; timer = delay }) ts
