-- ===== src/Refresh/Outcome.antt =====
-- What the refresh daemon makes of a sample and of a failed attempt: observe,
-- effectiveCooldownLocked, accountForPreviousRecovery, recordLossIfMeasurable and
-- noteFailedAttempt of refresh.go.
use pia_wg_config_generator.Base.{
  ℕ, zero, suc, Bool, true, not, ◌&&◌, ◌||◌, Option, none, some, [], if◌then◌else◌,
}
use pia_wg_config_generator.Base.Int.{ℤ, pos, pos_part, ◌+ℤ◌, leb_ℤ, ltb_ℤ, wrap64}
use pia_wg_config_generator.Base.Text.{Text, codes}
use pia_wg_config_generator.Clock.{Time, Duration, is_zero, zero_time, seconds, times}
use pia_wg_config_generator.Lifetime.{record_observed_loss}
use pia_wg_config_generator.Outage.{failure, healthy}
use pia_wg_config_generator.Tunnel.{TunnelState, TunnelError}
use pia_wg_config_generator.Refresh.{
  Settings, Env, Runtime, tunnel, called, emit, alerted, failure_event, recovered_event,
}
use pia_wg_config_generator.Refresh.Schedule.{flush_status}

-- recoveryCooldownCap and defaultRecoveryCooldown
abbrev pub cooldown_cap : Duration
cooldown_cap = seconds 1800

abbrev pub default_cooldown : Duration
default_cooldown = seconds 180

unfoldable pub health_error_after : Env → Option TunnelError → Text → Text
health_error_after env none old = old
health_error_after env (some e) old = env.redacted (tunnel e)

-- The fields that observe changes under its lock.
unfoldable pub fold_sample : Env → TunnelState → Time → Runtime → Runtime
unfolding health_error_after
fold_sample env st now s =
    let sampled = record s {
      control_status = st.status;
      public_ip_known = st.public_ip_known;
      public_ip_present = st.public_ip_present;
      last_health_check = now;
      tunnel_healthy = st.healthy;
      ip_signal_warn = s.ip_signal_warn || (not st.public_ip_known && st.healthy);
    } in
    if st.healthy
    then record sampled {
      last_healthy = now;
      confirmed_healthy = true;
      healthy_since_recovery = true;
      ineffective_recoveries = pos 0;
      consecutive_unhealthy = pos 0;
      unhealthy_since = zero_time;
      health_error = [];
    }
    else record sampled {
      consecutive_unhealthy = wrap64 (s.consecutive_unhealthy +ℤ pos 1);
      unhealthy_since = if is_zero s.unhealthy_since then now else s.unhealthy_since;
      health_error = health_error_after env st.err s.health_error;
    }

-- The recovered notice that ends an alerted outage.
unfoldable pub note_healthy : Time → Runtime → Runtime
note_healthy now s =
    let (policy, recovered, outage, attempts) = healthy now s.policy in
    let s' = record s { policy = policy } in
    if recovered then emit (alerted (recovered_event outage attempts)) s' else s'

-- observe
unfoldable pub observe : Env → Settings → TunnelState → Time → Runtime → Runtime
unfolding fold_sample note_healthy
observe env cfg st now s =
    let s' = fold_sample env st now s in
    flush_status env cfg (if st.healthy then note_healthy now s' else s')

-- The loop `for i := 0; i < ineffective && cooldown < cap; i++ { cooldown *= 2 }`, by the rounds
-- left.
unfoldable pub escalate : ℕ → Duration → Duration
escalate zero cooldown = cooldown
escalate (suc k) cooldown =
    let doubled = escalate k (times cooldown 2) in
    if ltb_ℤ cooldown cooldown_cap then doubled else cooldown

-- effectiveCooldownLocked, of the base cooldown and the number of ineffective recoveries
unfoldable pub effective_cooldown : Duration → ℤ → Duration
effective_cooldown recovery_cooldown ineffective =
    let base = if leb_ℤ recovery_cooldown (pos 0) then default_cooldown else recovery_cooldown in
    let cooldown = escalate (pos_part ineffective) base in
    if ltb_ℤ cooldown_cap cooldown then cooldown_cap else cooldown

-- noteFailedAttempt
unfoldable pub note_failed_attempt : Settings → Time → Text → Runtime → Runtime
note_failed_attempt cfg now cause s =
    let (policy, fire, attempts) = failure now s.policy in
    let s' = record s { policy = policy } in
    if fire then emit (alerted (failure_event attempts cfg.region cause)) s' else s'

unfoldable pub ineffective_cause : Text
ineffective_cause =
    codes "the previous recovery applied a new config but the tunnel did not come back"

-- A recovery was applied, and no healthy sample has been seen since.
abbrev pub was_ineffective : Runtime → Bool
was_ineffective s = ltb_ℤ (pos 0) s.recovery_count && not s.healthy_since_recovery

-- accountForPreviousRecovery
unfoldable pub account_for_previous_recovery : Settings → Time → Runtime → Runtime
account_for_previous_recovery cfg now s =
    let counted = record s {
      ineffective_recoveries = wrap64 (s.ineffective_recoveries +ℤ pos 1);
    } in
    if was_ineffective s then note_failed_attempt cfg now ineffective_cause counted else s

-- recordLossIfMeasurable
unfoldable pub record_loss_if_measurable : Env → Runtime → Runtime
record_loss_if_measurable env s =
    if not s.confirmed_healthy || is_zero s.last_healthy then s else record (called s) {
      lifetime_file = (record_observed_loss (env.write s.calls) s.last_healthy s.lifetime_file).0;
    }
