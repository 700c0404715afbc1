-- ===== src/Status.antt =====
-- daemonStatus of main.go, the content of status.json.
pub mod Json
use pia_wg_config_generator.Base.{Bool, Option, none, some, [], ◌∷◌}
use pia_wg_config_generator.Base.Int.{ℤ}
use pia_wg_config_generator.Base.Text.{Text, trim_space}
use pia_wg_config_generator.Clock.{Time}

pub record DaemonStatus : Type 0 where
  pub region : Text
  pub mode : Text
  pub last_generate_utc : Time
  pub last_forward_port : Text
  pub last_error : Text
  pub next_refresh_utc : Time
  pub port_forwarding : Bool
  pub server_name_enabled : Bool
  pub ipv6_mode : Text
  pub registration_utc : Time
  pub registration_age_secs : ℤ
  pub expected_expiry_utc : Time
  pub lifetime_source : Text
  pub measured_lifetime_secs : ℤ
  pub tunnel_healthy : Bool
  pub control_status : Text
  pub public_ip_present : Option Bool
  pub last_health_check_utc : Time
  pub last_healthy_utc : Time
  pub unhealthy_since_utc : Time
  pub last_recovery_utc : Time
  pub recovery_count : ℤ
  pub failed_attempts : ℤ

nonblank : Text → Option Text
nonblank [] = none
nonblank (c ∷ cs) = some (c ∷ cs)

-- readPreviousRegion, of the region field that is decoded from status.json; `none` stands for a
-- file that is missing, unreadable or no such JSON.
unfoldable pub read_previous_region : Option Text → Option Text
unfolding nonblank
read_previous_region none = none
read_previous_region (some region) = nonblank (trim_space region)
