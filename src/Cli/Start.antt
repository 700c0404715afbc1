-- ===== src/Cli/Start.antt =====
-- What the daemons make of their flags before their loops start: the heads of runRefresh (refresh.go),
-- runPF (pf_daemon.go) and runDaemon (main.go), and the action of `healthcheck` (healthcheck.go).
-- filepath.Join is an argument.
pub mod Ready
use pia_wg_config_generator.Base.{
  Bool, false, ◌&&◌, not, Option, none, some, List, [], ◌∷◌, ◌++◌, if◌then◌else◌,
}
use pia_wg_config_generator.Base.Int.{ℤ, pos}
use pia_wg_config_generator.Base.Text.{Text, codes, is_empty, trim_space}
use pia_wg_config_generator.Clock.{Time, zero_time}
use pia_wg_config_generator.Alerts.{Dispatcher, new_alert_dispatcher}
use pia_wg_config_generator.Api.Requests.{Account}
use pia_wg_config_generator.Daemon.{DaemonSettings}
use pia_wg_config_generator.Docker.{DockerError, Target, target, no_target, docker_endpoint}
use pia_wg_config_generator.Healthcheck.{HealthOptions}
use pia_wg_config_generator.Lifetime.{RecordFile}
use pia_wg_config_generator.Outage.{new_outage_policy}
use pia_wg_config_generator.PortForward.Daemon.{PfSettings}
use pia_wg_config_generator.Refresh.{Settings, Runtime}
use pia_wg_config_generator.Refresh.Secrets.{secrets}
use pia_wg_config_generator.WgConfig.Generate.{Ipv6Mode}
use pia_wg_config_generator.Cli.{
  CliError, CliResult, done, refused, parse_ipv6_mode, resolve_credentials, region_or_default,
}
use pia_wg_config_generator.Cli.Flags.{RefreshFlags, PfFlags, DaemonFlags, HealthcheckFlags}

pub data StartError : Type 0 where
  cli_error : CliError → StartError
  docker_error : DockerError → StartError

pub data Start {ℓ} (A : Type ℓ) : Type ℓ where
  started : A → Start A
  not_started : StartError → Start A

abbrev pub and_then {ℓ κ} : {A : Type ℓ} {B : Type κ} → Start A → (A → Start B) → Start B
and_then (started a) next = next a
and_then (not_started e) next = not_started e

abbrev pub flagged {ℓ} : {A : Type ℓ} → CliResult A → Start A
flagged (done a) = started a
flagged (refused e) = not_started (cli_error e)

-- The files of a state directory.
pub record StatePaths : Type 0 where
  pub config : Text
  pub status : Text
  pub forwarded_port : Text
  pub pending_pf : Text

-- mustStatePath, for the four files
unfoldable pub state_paths : (Text → Text → Text) → Text → StatePaths
state_paths join dir = record {
  config = join dir (codes "wg0.conf");
  status = join dir (codes "status.json");
  forwarded_port = join dir (codes "forwarded_port");
  pending_pf = join dir (codes "pending_port_forward.json");
}

-- A new refreshRuntime, behind its settings.
abbrev pub new_runtime : ℤ → RecordFile → Runtime
new_runtime alert_after file = record {
  last_generate = zero_time;
  next_refresh = zero_time;
  last_recovery = zero_time;
  recovery_count = pos 0;
  tunnel_healthy = false;
  control_status = [];
  public_ip_known = false;
  public_ip_present = false;
  last_health_check = zero_time;
  last_healthy = zero_time;
  unhealthy_since = zero_time;
  consecutive_unhealthy = pos 0;
  confirmed_healthy = false;
  healthy_since_recovery = false;
  ineffective_recoveries = pos 0;
  regen_error = [];
  health_error = [];
  ip_signal_warn = false;
  policy = new_outage_policy alert_after;
  lifetime_file = file;
  calls = 0;
  log = [];
}

-- What runRefresh has when its loop starts.
pub record RefreshStart : Type 0 where
  pub account : Account
  pub ipv6_mode : Ipv6Mode
  pub settings : Settings
  pub docker_socket : Text
  pub docker_host : Text
  pub paths : StatePaths
  pub alerts : Dispatcher
  pub alert_secrets : List Text
  pub runtime : Runtime

-- The check of a Docker host that is given.
docker_checked : Text → Target → Start {0} Unit
docker_checked host (target client url) = started tt
docker_checked host (no_target e) =
    if is_empty host then started tt else not_started (docker_error e)

unfoldable pub refresh_settings : RefreshFlags → Settings
refresh_settings flags = record {
  region = region_or_default flags.region;
  server_name = flags.server;
  port_forwarding = flags.port_forwarding;
  ipv6_mode_str = flags.ipv6_mode;
  fallback_interval = flags.refresh_interval;
  jitter_max = flags.refresh_jitter;
  max_registration_age = flags.max_registration_age;
  adopt_healthy = flags.adopt_healthy_registration;
  health_interval = flags.health_check_interval;
  unhealthy_threshold = flags.unhealthy_threshold;
  control_url = trim_space flags.control_server_url;
  control_timeout = flags.control_timeout;
  backoff_min = flags.recovery_backoff_min;
  backoff_max = flags.recovery_backoff_max;
  recovery_cooldown = flags.recovery_cooldown;
  restart_container = trim_space flags.restart_container;
  config_hook_cmd = flags.on_config_change;
}

refresh_start_of :
    (Text → Text → Text) → Text → RecordFile → RefreshFlags → Account → Ipv6Mode → RefreshStart
unfolding refresh_settings
refresh_start_of join webhook file flags account mode = record {
  account = account;
  ipv6_mode = mode;
  settings = refresh_settings flags;
  docker_socket = trim_space flags.docker_socket;
  docker_host = trim_space flags.docker_host;
  paths = state_paths join (trim_space flags.state_dir);
  alerts =
      new_alert_dispatcher flags.on_failure flags.on_recovered (region_or_default flags.region)
        flags.hook_timeout;
  alert_secrets = secrets account ++ (webhook ∷ []);
  runtime = new_runtime flags.alert_after file;
}

-- runRefresh up to its loop, with the value of PIA_WG_ALERT_WEBHOOK and the lifetime file.
unfoldable pub start_refresh :
    (Text → Text → Text) → Text → RecordFile → RefreshFlags → Start RefreshStart
unfolding docker_checked refresh_start_of
start_refresh join webhook file flags =
    and_then (flagged (resolve_credentials flags.credentials)) λ (username, password).
      and_then (flagged (parse_ipv6_mode flags.ipv6_mode)) λ mode.
        and_then
          (docker_checked (trim_space flags.docker_host)
            (docker_endpoint (trim_space flags.docker_host) []))
          λ u. started (
            refresh_start_of join webhook file flags
              (record { username = username; password = password }) mode)

-- What runPF has when its loop starts.
pub record PfStart : Type 0 where
  pub account : Account
  pub region : Text
  pub settings : PfSettings
  pub paths : StatePaths
  pub port_hook_cmd : Text

-- runPF up to its loop
unfoldable pub start_pf : (Text → Text → Text) → (Text → Bool) → PfFlags → Start PfStart
start_pf join has_port flags =
    and_then (flagged (resolve_credentials flags.credentials)) λ (username, password).
      started record {
        account = record { username = username; password = password };
        region = region_or_default flags.region;
        settings = record {
          wait_enabled = flags.wait_for_gateway;
          gateway_timeout = flags.gateway_timeout;
          gateway_interval = flags.gateway_check_interval;
          has_port = has_port;
        };
        paths = state_paths join (trim_space flags.state_dir);
        port_hook_cmd = flags.on_port_change;
      }

-- What runDaemon has when its loop starts.
pub record DaemonStart : Type 0 where
  pub account : Account
  pub settings : DaemonSettings
  pub docker_socket : Text
  pub paths : StatePaths
  pub port_hook_cmd : Text

-- runDaemon up to its loop
unfoldable pub start_daemon : (Text → Text → Text) → (Text → Bool) → DaemonFlags → Start DaemonStart
start_daemon join has_port flags =
    and_then (flagged (resolve_credentials flags.credentials)) λ (username, password).
      and_then (flagged (parse_ipv6_mode flags.ipv6_mode)) λ mode. started record {
        account = record { username = username; password = password };
        settings = record {
          region = region_or_default flags.region;
          port_forwarding = flags.port_forwarding;
          server_name = flags.server;
          ipv6_mode_str = flags.ipv6_mode;
          generator = record {
            server_name = flags.server;
            privatekey = [];
            publickey = [];
            ipv6_mode = mode;
          };
          interval = flags.refresh_interval;
          jitter_max = flags.refresh_jitter;
          retry_delay = flags.retry_delay;
          pf = record {
            wait_enabled = flags.wait_for_gateway;
            gateway_timeout = flags.gateway_timeout;
            gateway_interval = flags.gateway_check_interval;
            has_port = has_port;
          };
          restart_container = trim_space flags.restart_container;
          config_hook_cmd = flags.on_config_change;
        };
        docker_socket = trim_space flags.docker_socket;
        paths = state_paths join (trim_space flags.state_dir);
        port_hook_cmd = flags.on_port_change;
      }

-- The options of `healthcheck`; the state directory is not trimmed here.
unfoldable pub health_options : HealthcheckFlags → Time → HealthOptions
health_options flags now = record {
  max_status_age = flags.max_status_age;
  max_unhealthy = flags.max_unhealthy;
  expiry_grace = flags.expiry_grace;
  now = now;
}
