-- ===== src/Healthcheck.antt =====
-- evaluateHealth of healthcheck.go. What the file system answers is an argument.
pub mod Verdict
use pia_wg_config_generator.Base.{
  ℕ, zero, suc, Bool, true, false, ◌&&◌, Option, none, some, if◌then◌else◌,
}
use pia_wg_config_generator.Base.Int.{ℤ, pos, ltb_ℤ}
use pia_wg_config_generator.Base.Text.{Text}
use pia_wg_config_generator.Clock.{Time, Duration, is_zero, sub}
use pia_wg_config_generator.Status.{DaemonStatus}

-- healthOptions, without its paths.
pub record HealthOptions : Type 0 where
  pub max_status_age : Duration
  pub max_unhealthy : Duration
  pub expiry_grace : Duration
  pub now : Time

-- os.Stat of wg0.conf, with its size.
pub data ConfigStat : Type 0 where
  config_size : ℕ → ConfigStat
  no_config : Text → ConfigStat

-- os.Stat of status.json, with its modification time.
pub data StatusStat : Type 0 where
  written_at : Time → StatusStat
  no_status : Text → StatusStat

-- os.ReadFile and json.Unmarshal of status.json.
pub data StatusContent : Type 0 where
  decoded : DaemonStatus → StatusContent
  unreadable_content invalid_content : Text → StatusContent

pub record StateFiles : Type 0 where
  pub config : ConfigStat
  pub stat : StatusStat
  pub content : StatusContent

-- The errors, with what their texts show.
pub data Complaint : Type 0 where
  config_missing status_missing status_unreadable status_invalid : Text → Complaint
  config_empty no_outage_start : Complaint
  loop_stuck : Duration → Duration → Complaint
  tunnel_down : Duration → Duration → Complaint
  past_expiry : Duration → Time → Duration → Complaint

-- A check that returns early if it complains.
abbrev or_then : Option Complaint → Option Complaint → Option Complaint
or_then none rest = rest
or_then (some c) rest = some c

check_config : ConfigStat → Option Complaint
check_config (no_config e) = some (config_missing e)
check_config (config_size zero) = some config_empty
check_config (config_size (suc n)) = none

check_stat : HealthOptions → StatusStat → Option Complaint
check_stat o (no_status e) = some (status_missing e)
check_stat o (written_at t) =
    if ltb_ℤ (pos 0) o.max_status_age && ltb_ℤ o.max_status_age (sub o.now t)
    then some (loop_stuck (sub o.now t) o.max_status_age)
    else none

check_outage : HealthOptions → DaemonStatus → Option Complaint
check_outage o st =
    if st.tunnel_healthy
    then none
    else if is_zero st.unhealthy_since_utc
    then some no_outage_start
    else if ltb_ℤ (pos 0) o.max_unhealthy
        && ltb_ℤ o.max_unhealthy (sub o.now st.unhealthy_since_utc)
    then some (tunnel_down (sub o.now st.unhealthy_since_utc) o.max_unhealthy)
    else none

check_expiry : HealthOptions → DaemonStatus → Option Complaint
check_expiry o st =
    if is_zero st.expected_expiry_utc
    then none
    else if ltb_ℤ o.expiry_grace (sub o.now st.expected_expiry_utc)
    then some (past_expiry (sub o.now st.expected_expiry_utc) st.expected_expiry_utc o.expiry_grace)
    else none

check_content : HealthOptions → StatusContent → Option Complaint
unfolding check_outage check_expiry
check_content o (unreadable_content e) = some (status_unreadable e)
check_content o (invalid_content e) = some (status_invalid e)
check_content o (decoded st) = or_then (check_outage o st) (check_expiry o st)

-- evaluateHealth; `none` is healthy.
unfoldable pub evaluate_health : HealthOptions → StateFiles → Option Complaint
unfolding check_config check_stat check_content
evaluate_health o files =
    or_then (check_config files.config)
      (or_then (check_stat o files.stat) (check_content o files.content))
