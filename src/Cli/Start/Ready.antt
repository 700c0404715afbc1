-- ===== src/Cli/Start/Ready.antt =====
-- How runRefresh starts, and why it does not (refresh.go).
use pia_wg_config_generator.Base.{false, [], ◌∷◌, ◌≡◌, ◌⊎◌, inl, inr, refl, Bool-cases}
use pia_wg_config_generator.Base.Text.{Text, is_empty, trim_space}
use pia_wg_config_generator.Clock.{zero_time}
use pia_wg_config_generator.Docker.{DockerError, Client, Target, target, no_target, docker_endpoint}
use pia_wg_config_generator.Docker.Sockets.{docker_endpoint-no_target, docker_endpoint_blank}
use pia_wg_config_generator.Lifetime.{RecordFile}
use pia_wg_config_generator.Outage.{new_outage_policy}
use pia_wg_config_generator.Refresh.Restarts.{IsInitial}
use pia_wg_config_generator.Cli.{
  CliError, CliResult-cases, done, refused, Credentials, missing_credentials, or_flag,
  parse_ipv6_mode, resolve_credentials, region_or_default,
}
use pia_wg_config_generator.Cli.Flags.{RefreshFlags}
use pia_wg_config_generator.Cli.Start.{
  StartError, started, not_started, cli_error, docker_error, RefreshStart, docker_checked,
  refresh_start_of, start_refresh,
}

-- What holds of a start: the account is that of the flags and not blank, the IPv6 mode is the given
-- one, a region is set, a restart finds its endpoint at the socket or the host that the flags give, the
-- alerts scrub the account and the webhook, and nothing was sampled, done or alerted yet.
pub record IsReady (webhook : Text) (flags : RefreshFlags) (st : RefreshStart) : Type 0 where
  pub account :
      resolve_credentials flags.credentials ≡ done (st.account.username, st.account.password)
  pub has_username : is_empty st.account.username ≡ false
  pub has_password : is_empty st.account.password ≡ false
  pub mode : parse_ipv6_mode flags.ipv6_mode ≡ done st.ipv6_mode
  pub has_region : is_empty st.settings.region ≡ false
  pub endpoint :
      (c : Client) × (url : Text) × (docker_endpoint st.docker_host st.docker_socket ≡ target c url)
  pub scrubs : st.alert_secrets ≡ st.account.username ∷ st.account.password ∷ webhook ∷ []
  pub is_initial : IsInitial st.runtime
  pub unsampled :
      (st.runtime.last_health_check ≡ zero_time)
      × (st.runtime.tunnel_healthy ≡ false)
      × (st.runtime.unhealthy_since ≡ zero_time)
  pub no_errors : (st.runtime.regen_error ≡ []) × (st.runtime.health_error ≡ [])

Target-cases :
    (t : Target)
    → ((c : Client) × (url : Text) × (t ≡ target c url)) ⊎ ((e : DockerError) × (t ≡ no_target e))
Target-cases (target c url) = inl (c, url, refl)
Target-cases (no_target e) = inr (e, refl)

refused-ne-done : {A : Type 0} (e : CliError) (a : A) → refused e ≡ done a → ⊥
refused-ne-done e a h = cc

done_given :
    (p q : Text × Text)
    → done p ≡ done q
    → (is_empty p.0 ≡ false) × (is_empty p.1 ≡ false)
    → (is_empty q.0 ≡ false) × (is_empty q.1 ≡ false)
done_given p q h given = let same : p ≡ q = cc in rw same at given

given_credentials :
    (c : Credentials) (p : Text × Text)
    → resolve_credentials c ≡ done p
    → (is_empty p.0 ≡ false) × (is_empty p.1 ≡ false)
unfolding resolve_credentials
given_credentials c p h =
    let username = or_flag c.first_arg c.username in
    let password = or_flag c.second_arg c.password in
    elim (Bool-cases (is_empty username)) [
      | inl no_name ↦ absurd (refused-ne-done missing_credentials p (rw no_name at h))
      | inr name ↦ elim (Bool-cases (is_empty password)) [
        | inl no_password ↦
            absurd (refused-ne-done missing_credentials p (rw (name, no_password) at h))
        | inr pass ↦ done_given (username, password) p (rw (name, pass) at h) (name, pass)
      ]
    ]

region_given : (region : Text) → is_empty (region_or_default region) ≡ false
region_given region = elim (Bool-cases (is_empty (trim_space region))) [
  | inl blank ↦ rw blank refl
  | inr given ↦ rw given given
]

not_started-ne-started : {A : Type 0} (e : StartError) (a : A) → not_started e ≡ started a → ⊥
not_started-ne-started e a h = cc

-- Where the check of the host passes, every socket path goes with an endpoint.
docker_checked-endpoint :
    (host path : Text)
    → (docker_checked host (docker_endpoint host []) ≡ started tt)
    → (c : Client) × (url : Text) × (docker_endpoint host path ≡ target c url)
unfolding docker_checked
docker_checked-endpoint host path h = elim (Target-cases (docker_endpoint host path)) [
  | inl found ↦ found
  | inr (e, lost) ↦
      let no_host = docker_endpoint-no_target host path [] e lost in
      elim (Bool-cases (is_empty host)) [
        | inl blank ↦ docker_endpoint_blank host path blank
        | inr given ↦ absurd (not_started-ne-started (docker_error e) tt (rw (no_host, given) at h))
      ]
]

docker_checked_cases :
    (host path : Text)
    → (docker_checked host (docker_endpoint host []) ≡ started tt)
      ⊎ ((e : DockerError) × (docker_checked host (docker_endpoint host [])
            ≡ not_started (docker_error e))
          × (docker_endpoint host path ≡ no_target e))
unfolding docker_checked
docker_checked_cases host path = elim (Target-cases (docker_endpoint host [])) [
  | inl (c, url, found) ↦ inl (rw found refl)
  | inr (e, lost) ↦ elim (Bool-cases (is_empty host)) [
    | inl blank ↦ inl (rw (lost, blank) refl)
    | inr given ↦ inr (e, rw (lost, given) refl, docker_endpoint-no_target host [] path e lost)
  ]
]

-- runRefresh starts its loop, and then the account is that of the flags and not blank, the IPv6 mode
-- is the given one, a region is set, a later restart finds an endpoint, the alerts scrub the account
-- and the webhook, and nothing was sampled, done or alerted yet; or it returns the error of the
-- credentials or of the IPv6 mode; or that of the Docker host, and then no restart would find an
-- endpoint, whatever the socket path is.
pub start_refresh_cases :
    (join : Text → Text → Text) (webhook : Text) (file : RecordFile) (flags : RefreshFlags)
    → ((st : RefreshStart) × (start_refresh join webhook file flags ≡ started st)
        × IsReady webhook flags st)
      ⊎ (((e : CliError) × (start_refresh join webhook file flags ≡ not_started (cli_error e))
            × ((resolve_credentials flags.credentials ≡ refused e)
                ⊎ (parse_ipv6_mode flags.ipv6_mode ≡ refused e)))
          ⊎ ((e : DockerError) × (start_refresh join webhook file flags
                ≡ not_started (docker_error e))
              × (docker_endpoint (trim_space flags.docker_host) (trim_space flags.docker_socket)
                  ≡ no_target e)))
unfolding start_refresh refresh_start_of
start_refresh_cases join webhook file flags =
    let host = trim_space flags.docker_host in
    let path = trim_space flags.docker_socket in
    elim (CliResult-cases (resolve_credentials flags.credentials)) [
      | inr (e, missing) ↦ inr (inl (e, rw missing refl, inl missing))
      | inl (account, given) ↦ elim (CliResult-cases (parse_ipv6_mode flags.ipv6_mode)) [
        | inr (e, unknown) ↦ inr (inl (e, rw (given, unknown) refl, inr unknown))
        | inl (mode, known) ↦ elim (docker_checked_cases host path) [
          | inr (e, fails, lost) ↦ inr (inr (e, rw (given, known, fails) refl, lost))
          | inl passes ↦
              let parts = given_credentials flags.credentials account given in
              inl (
                refresh_start_of join webhook file flags
                    (record { username = account.0; password = account.1 }) mode,
                rw (given, known, passes) refl,
                record {
                  account = given;
                  has_username = parts.0;
                  has_password = parts.1;
                  mode = known;
                  has_region = region_given flags.region;
                  endpoint = docker_checked-endpoint host path passes;
                  scrubs = refl;
                  is_initial = (refl, unfold new_outage_policy in refl);
                  unsampled = (refl, refl, refl);
                  no_errors = (refl, refl);
                },
              )
        ]
      ]
    ]
