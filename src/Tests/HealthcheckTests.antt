-- ===== src/Tests/HealthcheckTests.antt =====
-- The health check of concrete files.
use pia_wg_config_generator.Base.{true, false, none, some, [], ◌≡◌, ◌↔◌, refl}
use pia_wg_config_generator.Base.Int.{pos, sat64, ◌-ℤ◌}
use pia_wg_config_generator.Base.Text.{codes}
use pia_wg_config_generator.Clock.{seconds, zero_time, sub}
use pia_wg_config_generator.Status.{DaemonStatus}
use pia_wg_config_generator.Healthcheck.{
  HealthOptions, StateFiles, config_size, written_at, decoded, tunnel_down, evaluate_health,
}
use pia_wg_config_generator.Healthcheck.Verdict.{IsHealthy, evaluate_health_iff}

abbrev pub options : HealthOptions
options = record {
  max_status_age = seconds 600;
  max_unhealthy = seconds 600;
  expiry_grace = seconds 3600;
  now = seconds 100000;
}

-- A tunnel that is down since second 99000.
abbrev pub down : DaemonStatus
down = record {
  region = codes "nl";
  mode = codes "refresh";
  last_generate_utc = seconds 90000;
  last_forward_port = [];
  last_error = [];
  next_refresh_utc = seconds 120000;
  port_forwarding = true;
  server_name_enabled = false;
  ipv6_mode = codes "on";
  registration_utc = seconds 90000;
  registration_age_secs = pos 10000;
  expected_expiry_utc = seconds 176400;
  lifetime_source = codes "assumed";
  measured_lifetime_secs = pos 0;
  tunnel_healthy = false;
  control_status = codes "stopped";
  public_ip_present = none;
  last_health_check_utc = seconds 99990;
  last_healthy_utc = seconds 98990;
  unhealthy_since_utc = seconds 99000;
  last_recovery_utc = zero_time;
  recovery_count = pos 0;
  failed_attempts = pos 0;
}

abbrev files : StateFiles
files = record {
  config = config_size 300;
  stat = written_at (seconds 99990);
  content = decoded down;
}

down_too_long : evaluate_health options files ≡ some (tunnel_down (seconds 1000) (seconds 600))
unfolding evaluate_health sub sat64 ◌-ℤ◌
down_too_long = refl

evaluate_health_iff_example : (evaluate_health options files ≡ none) ↔ IsHealthy options files
evaluate_health_iff_example = evaluate_health_iff options files
