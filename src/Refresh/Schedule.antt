-- ===== src/Refresh/Schedule.antt =====
-- The proactive schedule and status.json: applyJitter of main.go; nextProactiveDelay,
-- armNextRefresh, rearm, buildStatus and flushStatus of refresh.go.
use pia_wg_config_generator.Base.{◌/◌, not, ◌&&◌, Option, none, some, [], if◌then◌else◌}
use pia_wg_config_generator.Base.Int.{ℤ, pos, negsuc, ◌+ℤ◌, ◌-ℤ◌, leb_ℤ, ltb_ℤ, wrap64}
use pia_wg_config_generator.Base.Text.{Text, codes, is_empty}
use pia_wg_config_generator.Clock.{Time, Duration, add, sub, after, is_zero, seconds, times}
use pia_wg_config_generator.Clock.Float.{whole_seconds}
use pia_wg_config_generator.Lifetime.{
  LifetimeRecord, load, safe_refresh_interval, expected_expiry, measured_lifetime, registration_age,
  Source, unknown, measured, fallback_plan,
}
use pia_wg_config_generator.Outage.{snapshot}
use pia_wg_config_generator.Status.{DaemonStatus}
use pia_wg_config_generator.Refresh.{Settings, Env, Runtime, called, emit, wrote_status}

jitter_offset : Duration → Duration → Option Duration → Duration
jitter_offset interval jitter_max none = interval
jitter_offset interval (pos m) (some n) = wrap64 (interval +ℤ wrap64 (n -ℤ pos (m / 2)))
jitter_offset interval (negsuc m) (some n) = interval

-- applyJitter, with what rand.Int returns
unfoldable pub apply_jitter : Duration → Duration → Option Duration → Duration
unfolding jitter_offset
apply_jitter interval jitter_max random =
    if leb_ℤ jitter_max (pos 0) then interval else jitter_offset interval jitter_max random

-- nextProactiveDelay behind the load of the record: `now` is the clock that time.Until reads.
unfoldable pub delay_of :
    Settings → Option Duration → Time → LifetimeRecord × Option Text → Duration
delay_of cfg random now (rec, some e) = apply_jitter cfg.fallback_interval cfg.jitter_max random
delay_of cfg random now (rec, none) =
    let interval =
      apply_jitter (safe_refresh_interval rec cfg.fallback_interval cfg.max_registration_age)
        cfg.jitter_max random in
    let delay = sub (add rec.current_registration interval) now in
    if is_zero rec.current_registration
    then interval
    else if ltb_ℤ delay (seconds 60)
    then seconds 60
    else delay

-- nextProactiveDelay
unfoldable pub next_proactive_delay : Env → Settings → Runtime → Runtime × Duration
unfolding delay_of
next_proactive_delay env cfg s =
    (called s, delay_of cfg (env.random s.calls) (env.now s.calls) (load s.lifetime_file))

source_text : Source → Text
source_text unknown = []
source_text measured = codes "measured"
source_text fallback_plan = codes "fallback"

age_secs : Option Duration → ℤ
age_secs none = pos 0
age_secs (some d) = whole_seconds d

-- buildStatus, with the clock that it reads
unfoldable pub build_status : Settings → Time → Runtime → DaemonStatus
unfolding source_text age_secs
build_status cfg now s =
    let rec = (load s.lifetime_file).0 in
    let expiry = expected_expiry rec cfg.fallback_interval cfg.max_registration_age in
    record {
      region = cfg.region;
      mode = codes "refresh";
      last_generate_utc = s.last_generate;
      last_forward_port = [];
      last_error = if not (is_empty s.regen_error) then s.regen_error else s.health_error;
      next_refresh_utc = s.next_refresh;
      port_forwarding = cfg.port_forwarding;
      server_name_enabled = cfg.server_name;
      ipv6_mode = cfg.ipv6_mode_str;
      registration_utc = rec.current_registration;
      registration_age_secs = age_secs (registration_age rec.current_registration now);
      expected_expiry_utc = expiry.0;
      lifetime_source = source_text expiry.1;
      measured_lifetime_secs = age_secs (measured_lifetime rec);
      tunnel_healthy = s.tunnel_healthy;
      control_status = s.control_status;
      public_ip_present = if s.public_ip_known then some s.public_ip_present else none;
      last_health_check_utc = s.last_health_check;
      last_healthy_utc = s.last_healthy;
      unhealthy_since_utc = s.unhealthy_since;
      last_recovery_utc = s.last_recovery;
      recovery_count = s.recovery_count;
      failed_attempts = (snapshot s.policy).0;
    }

write_status : Option Text → DaemonStatus → Runtime → Runtime
write_status none status s = emit (wrote_status status) s
write_status (some e) status s = s

-- flushStatus: a failed write is ignored
unfoldable pub flush_status : Env → Settings → Runtime → Runtime
unfolding write_status
flush_status env cfg s =
    write_status (env.write s.calls) (build_status cfg (env.now s.calls) s) (called s)

-- armNextRefresh
unfoldable pub arm_next_refresh : Env → Settings → Runtime → Runtime × Duration
arm_next_refresh env cfg s =
    let (s', delay) = next_proactive_delay env cfg s in
    (
      flush_status env cfg (record (called s') { next_refresh = add (env.now s'.calls) delay }),
      delay,
    )

unfoldable pub rearm_by :
    Env → Settings → Runtime → LifetimeRecord × Option Text → Runtime × Option Duration
rearm_by env cfg s (rec, some e) = (s, none)
rearm_by env cfg s (rec, none) =
    let due_later = after s.next_refresh (add rec.current_registration (seconds 60)) in
    let since = sub (env.now s.calls) rec.current_registration in
    let (s', delay) = arm_next_refresh env cfg (called s) in
    if is_zero rec.current_registration
    then (s, none)
    else if due_later && ltb_ℤ (times cfg.health_interval 2) since
    then (called s, none)
    else (s', some delay)

-- rearm: the new delay of the proactive timer if it is reset
unfoldable pub rearm : Env → Settings → Runtime → Runtime × Option Duration
unfolding rearm_by
rearm env cfg s = rearm_by env cfg s (load s.lifetime_file)
