-- ===== src/Refresh/Frame.antt =====
-- What the scheduling and judging methods leave alone: the fields that remember recoveries and
-- health, and the number of registrations made.
use pia_wg_config_generator.Base.{ℕ, suc, List, [], ◌∷◌, ◌≡◌, refl, ◌∙◌, arith}
use pia_wg_config_generator.Base.Text.{Text}
use pia_wg_config_generator.Clock.{Time}
use pia_wg_config_generator.Tunnel.{TunnelState}
use pia_wg_config_generator.Outage.{healthy}
use pia_wg_config_generator.Refresh.{Settings, Env, Runtime, Effect, registered}
use pia_wg_config_generator.Refresh.Schedule.{flush_status, arm_next_refresh, next_proactive_delay}
use pia_wg_config_generator.Refresh.Outcome.{observe, note_failed_attempt}

-- How many registrations (calls of addKey that succeeded) the log shows.
abbrev pub registrations : List Effect → ℕ
registrations [] = 0
registrations (registered gen ∷ log) = suc (registrations log)
registrations (_ ∷ log) = registrations log

-- `t` remembers the same recoveries and the same health as `s`, behind as many registrations.
pub record Keeps (s t : Runtime) : Type 0 where
  pub last_recovery : t.last_recovery ≡ s.last_recovery
  pub recovery_count : t.recovery_count ≡ s.recovery_count
  pub since_recovery : t.healthy_since_recovery ≡ s.healthy_since_recovery
  pub confirmed : t.confirmed_healthy ≡ s.confirmed_healthy
  pub last_healthy : t.last_healthy ≡ s.last_healthy
  pub consecutive : t.consecutive_unhealthy ≡ s.consecutive_unhealthy
  pub registered_as_often : registrations t.log ≡ registrations s.log

pub Keeps-refl : (s : Runtime) → Keeps s s
Keeps-refl s = ground arith

pub Keeps-trans : (s t u : Runtime) → Keeps s t → Keeps t u → Keeps s u
Keeps-trans s t u h k = record {
  last_recovery = k.last_recovery ∙ h.last_recovery;
  recovery_count = k.recovery_count ∙ h.recovery_count;
  since_recovery = k.since_recovery ∙ h.since_recovery;
  confirmed = k.confirmed ∙ h.confirmed;
  last_healthy = k.last_healthy ∙ h.last_healthy;
  consecutive = k.consecutive ∙ h.consecutive;
  registered_as_often = k.registered_as_often ∙ h.registered_as_often;
}

pub flush_status-Keeps :
    (env : Env) (cfg : Settings) (s : Runtime) → Keeps s (flush_status env cfg s)
unfolding flush_status
flush_status-Keeps env cfg s = ground arith

pub arm_next_refresh-Keeps :
    (env : Env) (cfg : Settings) (s : Runtime) → Keeps s (arm_next_refresh env cfg s).0
unfolding arm_next_refresh next_proactive_delay
arm_next_refresh-Keeps env cfg s =
    Keeps-trans s _ _
      (record {
        last_recovery = refl;
        recovery_count = refl;
        since_recovery = refl;
        confirmed = refl;
        last_healthy = refl;
        consecutive = refl;
        registered_as_often = refl;
      })
      (flush_status-Keeps env cfg _)

pub note_failed_attempt-Keeps :
    (cfg : Settings) (now : Time) (cause : Text) (s : Runtime)
    → Keeps s (note_failed_attempt cfg now cause s)
unfolding note_failed_attempt
note_failed_attempt-Keeps cfg now cause s = ground arith

-- observe makes no registration and forgets no recovery.
pub observe-registrations :
    (env : Env) (cfg : Settings) (st : TunnelState) (now : Time) (s : Runtime)
    → registrations (observe env cfg st now s).log ≡ registrations s.log
unfolding observe healthy
observe-registrations env cfg st now s =
    (flush_status-Keeps env cfg _).registered_as_often ∙ ground arith
