-- ===== src/Tests/CliTests.antt =====
-- Flags of the commands in concrete cases.
use pia_wg_config_generator.Base.{true, false, some, List, [], ◌∷◌, ◌++◌, ◌≡◌, ◌⊎◌, refl}
use pia_wg_config_generator.Base.Text.{
  Text, codes, text_eq, to_lower, trim_space, is_space, has_prefix,
}
use pia_wg_config_generator.Base.Text.Replace.{replace_all, replace_from}
use pia_wg_config_generator.WgConfig.Generate.{ipv6_mode_kill}
use pia_wg_config_generator.Cli.{
  done, parse_ipv6_mode, resolve_credentials, hook_command, replacements,
  expand_config_hook_command, region_line, Credentials, CliError, refused, default_region,
  region_rows, build_version_string,
}
use pia_wg_config_generator.Clock.{Duration, seconds, times}
use pia_wg_config_generator.Refresh.{Env, Effect, not_generated, slept}
use pia_wg_config_generator.Refresh.Regenerate.{
  proactive, regenerate_with_backoff, attempts, regenerate_once, next_backoff,
}
use pia_wg_config_generator.Base.Int.{wrap64, ◌*ℤ◌, ◌+ℤ◌}
use pia_wg_config_generator.Outage.{failure, new_outage_policy}
use pia_wg_config_generator.Refresh.Outcome.{note_failed_attempt}
use pia_wg_config_generator.Refresh.Schedule.{flush_status}
use pia_wg_config_generator.Tests.RefreshTests.{silent, initial}
use pia_wg_config_generator.Docker.{DockerError, unsupported_host, no_target, docker_endpoint}
use pia_wg_config_generator.Lifetime.{missing}
use pia_wg_config_generator.Cli.Flags.{RefreshFlags, refresh_flags, healthcheck_flags}
use pia_wg_config_generator.Api.{Answer, ok}
use pia_wg_config_generator.Api.{failed as not_answered}
use pia_wg_config_generator.Regions.{
  Region, ClientError, unknown_region, failed, new_pia_client, resolve_region_id, find_by_name,
  find_by_server, generate_metadata_server_list, generate_wireguard_server_list, collect,
  append_servers, append_server, get_available_regions,
}
use pia_wg_config_generator.Tests.RegionsTests.{netherlands, regions}
use pia_wg_config_generator.Cli.Listing.{
  RegionsFlags, lines, no_listing, no_list, no_client, run_regions, region_lines,
}
use pia_wg_config_generator.Cli.Listing.Rows.{HasPrinted, run_regions_cases}
use pia_wg_config_generator.Cli.Start.{
  RefreshStart, started, not_started, cli_error, docker_error, start_refresh, refresh_settings,
}
use pia_wg_config_generator.Cli.Start.Ready.{IsReady, start_refresh_cases}

mode : parse_ipv6_mode (codes " Kill ") ≡ done ipv6_mode_kill
unfolding parse_ipv6_mode text_eq to_lower trim_space is_space
mode = refl

-- The password comes from its flag.
credentials :
    resolve_credentials (record {
      first_arg = codes "p1";
      second_arg = [];
      username = codes "p2";
      password = codes "secret ";
    })
    ≡ done (codes "p1", codes "secret")
unfolding resolve_credentials trim_space is_space
credentials = refl

port_hook : hook_command (codes "set {port}") (codes "51820") ≡ some (codes "set 51820")
unfolding hook_command trim_space is_space replace_all replace_from has_prefix
port_hook = refl

config_hook :
    expand_config_hook_command
      (replacements
        (codes "/state")
        (codes "/state/wg0.conf")
        (codes "/state/forwarded_port")
        (codes "1"))
      (codes "cp {config} {state_dir}/b")
    ≡ codes "cp /state/wg0.conf /state/b"
unfolding expand_config_hook_command replace_all replace_from has_prefix
config_hook = refl

row :
    region_line (record { id = codes "nl"; name = codes "Netherlands"; port_forwarding = true })
    ≡ codes "nl\tNetherlands\tpf:yes\n"
unfolding region_line
row = refl

abbrev user : Credentials
user = record {
  first_arg = [];
  second_arg = [];
  username = codes "p1234567";
  password = codes "hunter2";
}

-- `refresh` by its defaults, with a Docker host that is no endpoint.
abbrev https_flags : RefreshFlags
https_flags = refresh_flags user (codes "https://docker:2376")

abbrev joined : Text → Text → Text
joined dir name = dir ++ (b'/' ∷ name)

-- What runRefresh does with flags: it starts, or why it does not.
abbrev Starts : RefreshFlags → Type 0
Starts flags =
    ((st : RefreshStart) × (start_refresh joined [] missing flags ≡ started st)
      × IsReady [] flags st)
    ⊎ (((e : CliError) × (start_refresh joined [] missing flags ≡ not_started (cli_error e))
          × ((resolve_credentials flags.credentials ≡ refused e)
              ⊎ (parse_ipv6_mode flags.ipv6_mode ≡ refused e)))
        ⊎ ((e : DockerError) × (start_refresh joined [] missing flags
              ≡ not_started (docker_error e))
            × (docker_endpoint (trim_space flags.docker_host) (trim_space flags.docker_socket)
                ≡ no_target e)))

start_refresh_cases_example : Starts https_flags
start_refresh_cases_example = start_refresh_cases joined [] missing https_flags

https_refused :
    start_refresh joined [] missing https_flags
    ≡ not_started (docker_error (unsupported_host (codes "https://docker:2376")))
unfolding start_refresh resolve_credentials trim_space is_space parse_ipv6_mode text_eq to_lower
    docker_endpoint has_prefix
https_refused = refl

-- A registry version, as `go install` leaves it.
version :
    build_version_string (codes "dev") (codes "none") (codes "unknown") (some (codes "v1.2.3"))
    ≡ codes "v1.2.3 (commit none, built unknown)"
unfolding build_version_string text_eq
version = refl

-- The sleeps of a log, the newest first.
abbrev sleeps : List Effect → List Duration
sleeps [] = []
sleeps (slept d ∷ log) = d ∷ sleeps log
sleeps (_ ∷ log) = sleeps log

-- PIA is out of reach.
abbrev unreachable : Env
unreachable = record silent { generate = λ n. not_generated (codes "no token") }

-- By its default flags, a regeneration that fails six times sleeps for ten minutes at the end, which
-- is the limit on the age of status.json that the health check has by default.
default_backoff :
    sleeps
      (regenerate_with_backoff unreachable
        (refresh_settings (refresh_flags user []))
        proactive
        initial).0.log
    ≡ healthcheck_flags.max_status_age
      ∷ seconds 480
      ∷ seconds 240
      ∷ seconds 120
      ∷ seconds 60
      ∷ seconds 30
      ∷ []
unfolding refresh_settings regenerate_with_backoff attempts regenerate_once next_backoff times
    wrap64 ◌*ℤ◌ note_failed_attempt failure flush_status new_outage_policy ◌+ℤ◌
default_backoff = refl

abbrev pf_listing : RegionsFlags
pf_listing = record { credentials = user; pf_only = true; json = false }

-- A list with the server amsterdam404.
abbrev current : List Region
current =
    record netherlands { wg = record { cn = default_region; ip = codes "1.2.3.5" } ∷ [] } ∷ regions

abbrev PrintsOrFails : RegionsFlags → Answer (List Region) → Type 0
PrintsOrFails flags list =
    ((found : List Region) × (list ≡ ok found) × HasPrinted flags list found)
    ⊎ (((e : CliError) × (run_regions flags list ≡ no_listing e)
          × (resolve_credentials flags.credentials ≡ refused e))
        ⊎ (((e : Text) × (run_regions flags list ≡ no_list e) × (list ≡ not_answered e))
            ⊎ ((found : List Region) × (list ≡ ok found)
                × ((e : ClientError) × (run_regions flags list ≡ no_client e)
                    × (new_pia_client flags.pf_only default_region found ≡ failed e)))))

run_regions_cases_example : PrintsOrFails pf_listing (ok current)
run_regions_cases_example = run_regions_cases pf_listing (ok current)

two_lines :
    run_regions pf_listing (ok current)
    ≡ lines (codes "nl_amsterdam\tNetherlands\tpf:yes\nnl_amsterdam\tNetherlands\tpf:yes\n")
unfolding run_regions resolve_credentials trim_space is_space new_pia_client resolve_region_id
    find_by_name text_eq to_lower find_by_server generate_metadata_server_list
    generate_wireguard_server_list collect append_servers append_server get_available_regions
    region_rows region_lines region_line
two_lines = refl

-- Without that server nothing is listed.
no_default : run_regions pf_listing (ok regions) ≡ no_client (unknown_region default_region)
unfolding run_regions resolve_credentials trim_space is_space new_pia_client resolve_region_id
    find_by_name text_eq to_lower find_by_server
no_default = refl
