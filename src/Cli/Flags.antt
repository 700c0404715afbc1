-- ===== src/Cli/Flags.antt =====
-- The flags of the daemons with their defaults, as they stand when a command starts: buildRefreshCommand
-- (refresh.go), buildPFCommand (pf_daemon.go), buildDaemonCommand (main.go) and
-- buildHealthcheckCommand (healthcheck.go). The defaults take the values of the flags that come from
-- the environment. The flag --verbose is left out.
use pia_wg_config_generator.Base.{Bool, true, false, []}
use pia_wg_config_generator.Base.Int.{ℤ, pos}
use pia_wg_config_generator.Base.Text.{Text, codes}
use pia_wg_config_generator.Clock.{Duration, seconds}
use pia_wg_config_generator.Docker.{default_docker_socket}
use pia_wg_config_generator.PortForward.{default_gateway_interval}
use pia_wg_config_generator.Refresh.Outcome.{default_cooldown}
use pia_wg_config_generator.Cli.{Credentials, default_region}

pub record RefreshFlags : Type 0 where
  pub credentials : Credentials
  pub ipv6_mode : Text
  pub state_dir : Text
  pub region : Text
  pub server : Bool
  pub port_forwarding : Bool
  pub refresh_interval : Duration
  pub refresh_jitter : Duration
  pub max_registration_age : Duration
  pub adopt_healthy_registration : Bool
  pub health_check_interval : Duration
  pub unhealthy_threshold : ℤ  -- int
  pub control_server_url : Text
  pub control_timeout : Duration
  pub recovery_backoff_min : Duration
  pub recovery_backoff_max : Duration
  pub recovery_cooldown : Duration
  pub restart_container : Text
  pub docker_socket : Text
  pub docker_host : Text
  pub on_config_change : Text
  pub on_failure : Text
  pub on_recovered : Text
  pub alert_after : ℤ  -- int
  pub hook_timeout : Duration

-- defaultDaemonInterval, defaultDaemonJitterMax, defaultDaemonRetryDelay, defaultGatewayTimeout
abbrev pub default_daemon_interval : Duration
default_daemon_interval = seconds 43200

abbrev pub default_daemon_jitter_max : Duration
default_daemon_jitter_max = seconds 1800

abbrev pub default_daemon_retry_delay : Duration
default_daemon_retry_delay = seconds 300

abbrev pub default_gateway_timeout : Duration
default_gateway_timeout = seconds 120

-- defaultHealthCheckInterval, defaultRecoveryBackoffMin, defaultRecoveryBackoffMax,
-- defaultControlTimeout
abbrev pub default_health_check_interval : Duration
default_health_check_interval = seconds 60

abbrev pub default_recovery_backoff_min : Duration
default_recovery_backoff_min = seconds 30

abbrev pub default_recovery_backoff_max : Duration
default_recovery_backoff_max = seconds 600

abbrev pub default_control_timeout : Duration
default_control_timeout = seconds 5

-- `refresh` without flags but those of the environment, the credentials and DOCKER_HOST.
abbrev pub refresh_flags : Credentials → Text → RefreshFlags
refresh_flags credentials docker_host = record {
  credentials = credentials;
  ipv6_mode = codes "on";
  state_dir = codes "/state";
  region = default_region;
  server = false;
  port_forwarding = false;
  refresh_interval = default_daemon_interval;
  refresh_jitter = default_daemon_jitter_max;
  max_registration_age = pos 0;
  adopt_healthy_registration = true;
  health_check_interval = default_health_check_interval;
  unhealthy_threshold = pos 2;
  control_server_url = codes "http://127.0.0.1:8000";
  control_timeout = default_control_timeout;
  recovery_backoff_min = default_recovery_backoff_min;
  recovery_backoff_max = default_recovery_backoff_max;
  recovery_cooldown = default_cooldown;
  restart_container = [];
  docker_socket = default_docker_socket;
  docker_host = docker_host;
  on_config_change = [];
  on_failure = [];
  on_recovered = [];
  alert_after = pos 3;
  hook_timeout = seconds 15;
}

pub record PfFlags : Type 0 where
  pub credentials : Credentials
  pub state_dir : Text
  pub region : Text
  pub wait_for_gateway : Bool
  pub gateway_timeout : Duration
  pub gateway_check_interval : Duration
  pub poll_interval : Duration
  pub on_port_change : Text

abbrev pub pf_flags : Credentials → PfFlags
pf_flags credentials = record {
  credentials = credentials;
  state_dir = codes "/state";
  region = default_region;
  wait_for_gateway = true;
  gateway_timeout = default_gateway_timeout;
  gateway_check_interval = default_gateway_interval;
  poll_interval = seconds 15;
  on_port_change = [];
}

pub record DaemonFlags : Type 0 where
  pub credentials : Credentials
  pub ipv6_mode : Text
  pub state_dir : Text
  pub region : Text
  pub server : Bool
  pub port_forwarding : Bool
  pub refresh_interval : Duration
  pub refresh_jitter : Duration
  pub retry_delay : Duration
  pub wait_for_gateway : Bool
  pub gateway_timeout : Duration
  pub gateway_check_interval : Duration
  pub on_port_change : Text
  pub on_config_change : Text
  pub restart_container : Text
  pub docker_socket : Text

abbrev pub daemon_flags : Credentials → DaemonFlags
daemon_flags credentials = record {
  credentials = credentials;
  ipv6_mode = codes "on";
  state_dir = codes "/state";
  region = default_region;
  server = false;
  port_forwarding = false;
  refresh_interval = default_daemon_interval;
  refresh_jitter = default_daemon_jitter_max;
  retry_delay = default_daemon_retry_delay;
  wait_for_gateway = true;
  gateway_timeout = default_gateway_timeout;
  gateway_check_interval = default_gateway_interval;
  on_port_change = [];
  on_config_change = [];
  restart_container = [];
  docker_socket = default_docker_socket;
}

pub record HealthcheckFlags : Type 0 where
  pub state_dir : Text
  pub max_status_age : Duration
  pub max_unhealthy : Duration
  pub expiry_grace : Duration

abbrev pub healthcheck_flags : HealthcheckFlags
healthcheck_flags = record {
  state_dir = codes "/state";
  max_status_age = seconds 600;
  max_unhealthy = seconds 600;
  expiry_grace = seconds 3600;
}
