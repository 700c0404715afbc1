-- ===== src/Refresh/Regenerate.antt =====
-- regenerateOnce and regenerateWithBackoff of refresh.go.
pub mod Steps
pub mod Kept
pub mod Retries
pub mod Storm
pub mod Success
pub mod Works
pub mod Tracked
use mathlib.Core.Option
use pia_wg_config_generator.Base.{
  ℕ, zero, suc, ◌+◌, Bool, true, false, Option, none, some, [], if◌then◌else◌,
}
use pia_wg_config_generator.Base.Int.{ℤ, pos, ◌+ℤ◌, ltb_ℤ, wrap64}
use pia_wg_config_generator.Base.Text.{Text, is_empty, trim_space}
use pia_wg_config_generator.Clock.{Time, Duration, times}
use pia_wg_config_generator.Api.{AddKeyResult, GenerateResult}
use pia_wg_config_generator.Lifetime.{record_new_registration}
use pia_wg_config_generator.Refresh.{
  Settings, Env, Runtime, Error, config_generation, config_write, pending_write, gluetun_restart,
  exhausted, Generated, generated, not_generated, called, emit, registered, wrote_config,
  wrote_pending, ran_config_hook, asked_restart, slept,
}
use pia_wg_config_generator.Refresh.Schedule.{arm_next_refresh, flush_status}
use pia_wg_config_generator.Refresh.Outcome.{note_failed_attempt}

pub data Trigger : Type 0 where
  startup proactive reactive_recovery : Trigger

-- The state, and the error if one is returned.
abbrev pub Outcome : Type 0
Outcome = Runtime × Option Error

-- The next part of a method, which an error skips.
abbrev and_then : Outcome → (Runtime → Outcome) → Outcome
and_then (s, none) next = next s
and_then (s, some e) next = (s, some e)

write_config : GenerateResult → Option Text → Runtime → Outcome
write_config gen (some e) s = (s, some (config_write e))
write_config gen none s = (emit (wrote_config gen.config) s, none)

-- RecordNewRegistration; its error is ignored.
record_birth : Env → Time → Runtime → Runtime
record_birth env now s = record (called s) {
  lifetime_file = (record_new_registration (env.write s.calls) now s.lifetime_file).0;
}

write_pending : GenerateResult → Time → Option Text → Runtime → Outcome
write_pending gen created (some e) s = (s, some (pending_write e))
write_pending gen created none s = (emit (wrote_pending created gen.key) s, none)

-- writePendingPortForward, for port forwarding only
hand_to_pf : Env → Settings → GenerateResult → Runtime → Outcome
unfolding write_pending
hand_to_pf env cfg gen s =
    if cfg.port_forwarding
    then write_pending gen (env.now s.calls) (env.write s.calls) (called s)
    else (s, none)

-- runConfigHook; its error is ignored, and a blank command is not run.
config_hook : Settings → Runtime → Runtime
config_hook cfg s =
    if is_empty (trim_space cfg.config_hook_cmd)
    then s
    else emit (ran_config_hook cfg.config_hook_cmd) s

restart_error : Option Text → Option Error
restart_error none = none
restart_error (some e) = some (gluetun_restart e)

-- restartGluetun
restart_gluetun : Env → Settings → Runtime → Outcome
unfolding restart_error
restart_gluetun env cfg s = if is_empty cfg.restart_container then (s, none) else (
  emit (asked_restart cfg.restart_container) (called s),
  restart_error (env.restart s.calls),
)

-- The end of regenerateOnce.
applied : Env → Settings → Time → Runtime → Outcome
applied env cfg now s =
    ((arm_next_refresh env cfg (record s { last_generate = now; regen_error = [] })).0, none)

-- regenerateOnce behind a generation that succeeded.
apply_config : Env → Settings → Time → GenerateResult → Runtime → Outcome
unfolding write_config record_birth hand_to_pf config_hook restart_gluetun applied
apply_config env cfg now gen s = and_then (write_config gen (env.write s.calls) (called s)) λ s₁.
    and_then (hand_to_pf env cfg gen (record_birth env now s₁))
      λ s₂. and_then (restart_gluetun env cfg (config_hook cfg s₂)) λ s₃. applied env cfg now s₃

after_generate : Env → Settings → Time → Generated → Runtime → Outcome
unfolding apply_config
after_generate env cfg now (not_generated e) s = (s, some (config_generation e))
after_generate env cfg now (generated gen) s =
    apply_config env cfg now gen (emit (registered gen) s)

-- regenerateOnce
unfoldable pub regenerate_once : Env → Settings → Runtime → Outcome
unfolding after_generate
regenerate_once env cfg s =
    after_generate env cfg (env.now s.calls) (env.generate s.calls) (called s)

-- What regenerateWithBackoff does once an attempt succeeded.
pub after_success : Env → Settings → Trigger → Runtime → Runtime
after_success env cfg reactive_recovery s = flush_status env cfg (record (called s) {
  last_recovery = env.now s.calls;
  recovery_count = wrap64 (s.recovery_count +ℤ pos 1);
  healthy_since_recovery = false;
  confirmed_healthy = false;
  consecutive_unhealthy = pos 0;
})
after_success env cfg _ s = s

-- What it does once an attempt failed, up to the sleep.
pub after_failure : Env → Settings → Error → Runtime → Runtime
after_failure env cfg e s =
    let cause = env.redacted e in
    let s' = flush_status env cfg (record s { regen_error = cause }) in
    note_failed_attempt cfg (env.now s'.calls) cause (called s')

-- The backoff behind a failed attempt.
unfoldable pub next_backoff : Settings → Duration → Duration
next_backoff cfg backoff =
    let doubled = times backoff 2 in
    if ltb_ℤ cfg.backoff_max doubled then cfg.backoff_max else doubled

-- maxRegenAttempts
abbrev pub max_attempts : ℕ
max_attempts = 6

-- The loop over the attempts, by the attempts left; `last` is the error of the one before.
unfoldable pub attempts : Env → Settings → Trigger → ℕ → Duration → Option Error → Runtime → Outcome
unfolding after_success after_failure
attempts env cfg trigger zero backoff last s = (s, Option.map exhausted last)
attempts env cfg trigger (suc k) backoff last s =
    let (s₁, err) = regenerate_once env cfg s in
    elim err [
      | none ↦ (after_success env cfg trigger s₁, none)
      | some e ↦
          attempts env cfg trigger k (next_backoff cfg backoff) (some e)
            (emit (slept backoff) (after_failure env cfg e s₁))
    ]

-- regenerateWithBackoff
unfoldable pub regenerate_with_backoff : Env → Settings → Trigger → Runtime → Outcome
regenerate_with_backoff env cfg trigger s =
    attempts env cfg trigger max_attempts cfg.backoff_min none s
