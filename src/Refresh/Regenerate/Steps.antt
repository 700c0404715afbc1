-- ===== src/Refresh/Regenerate/Steps.antt =====
-- The regeneration keeps the log in order: it asks for a restart only behind a config that it has
-- written.
use pia_wg_config_generator.Base.{ℕ, zero, suc, true, Option, none, some, ◌≡◌, refl, arith}
use pia_wg_config_generator.Base.Text.{Text}
use pia_wg_config_generator.Clock.{Time, Duration}
use pia_wg_config_generator.Api.{GenerateResult}
use pia_wg_config_generator.Refresh.{
  Settings, Env, Runtime, Error, Generated, generated, not_generated, called, emit, slept,
}
use pia_wg_config_generator.Refresh.Schedule.{flush_status}
use pia_wg_config_generator.Refresh.Log.{
  Inv, has_new_config, flush_status-Inv, arm_next_refresh-Inv, note_failed_attempt-Inv,
}
use pia_wg_config_generator.Refresh.Regenerate.{
  Trigger, startup, proactive, reactive_recovery, Outcome, and_then, write_config, record_birth,
  hand_to_pf, config_hook, restart_gluetun, applied, apply_config, after_generate, regenerate_once,
  after_success, after_failure, next_backoff, attempts, max_attempts, regenerate_with_backoff,
}

-- The log is in order, and a config was written since the last restart.
record Ready (s : Runtime) : Type 0 where
  inv : Inv s
  config : has_new_config s.log ≡ true

-- In order after an error, and ready behind a part that went on.
abbrev Good : (Runtime → Type 0) → Outcome → Type 0
Good P (s, none) = P s
Good P (s, some e) = Inv s

and_then-Good :
    (P Q : Runtime → Type 0) (o : Outcome) (next : Runtime → Outcome)
    → Good P o
    → ((s : Runtime) → P s → Good Q (next s))
    → Good Q (and_then o next)
and_then-Good P Q (s, none) next h k = k s h
and_then-Good P Q (s, some e) next h k = h

write_config-Ready :
    (gen : GenerateResult) (written : Option Text) (s : Runtime)
    → Inv s
    → Good Ready (write_config gen written s)
unfolding write_config
write_config-Ready gen (some e) s h = h
write_config-Ready gen none s h = record {
  inv = record { restarts = h.restarts; alerts = h.alerts };
  config = refl;
}

record_birth-Ready :
    (env : Env) (now : Time) (s : Runtime) → Ready s → Ready (record_birth env now s)
unfolding record_birth
record_birth-Ready env now s r = record {
  inv = record { restarts = r.inv.restarts; alerts = r.inv.alerts };
  config = r.config;
}

hand_to_pf-Ready :
    (env : Env) (cfg : Settings) (gen : GenerateResult) (s : Runtime)
    → Ready s
    → Good Ready (hand_to_pf env cfg gen s)
unfolding hand_to_pf
hand_to_pf-Ready env cfg gen s r = ground arith

config_hook-Ready : (cfg : Settings) (s : Runtime) → Ready s → Ready (config_hook cfg s)
unfolding config_hook
config_hook-Ready cfg s r = ground arith

restart-Inv :
    (env : Env) (cfg : Settings) (s : Runtime) → Ready s → Good Inv (restart_gluetun env cfg s)
unfolding restart_gluetun
restart-Inv env cfg s r = ground arith

applied-Inv :
    (env : Env) (cfg : Settings) (now : Time) (s : Runtime)
    → Inv s
    → Good Inv (applied env cfg now s)
unfolding applied
applied-Inv env cfg now s h =
    arm_next_refresh-Inv env cfg _ (record { restarts = h.restarts; alerts = h.alerts })

Good-Inv : (o : Outcome) → Good Inv o → Inv o.0
Good-Inv (s, none) h = h
Good-Inv (s, some e) h = h

apply_config-Inv :
    (env : Env) (cfg : Settings) (now : Time) (gen : GenerateResult) (s : Runtime)
    → Inv s
    → Good Inv (apply_config env cfg now gen s)
unfolding apply_config
apply_config-Inv env cfg now gen s h =
    and_then-Good Ready Inv (write_config gen (env.write s.calls) (called s)) _
      (write_config-Ready gen (env.write s.calls) (called s)
        (record { restarts = h.restarts; alerts = h.alerts }))
      λ s₁ r₁.
        and_then-Good Ready Inv (hand_to_pf env cfg gen (record_birth env now s₁)) _
          (hand_to_pf-Ready env cfg gen (record_birth env now s₁)
            (record_birth-Ready env now s₁ r₁))
          λ s₂ r₂.
            and_then-Good Inv Inv (restart_gluetun env cfg (config_hook cfg s₂)) _
              (restart-Inv env cfg (config_hook cfg s₂) (config_hook-Ready cfg s₂ r₂))
              λ s₃ h₃. applied-Inv env cfg now s₃ h₃

after_generate-Inv :
    (env : Env) (cfg : Settings) (now : Time) (g : Generated) (s : Runtime)
    → Inv s
    → Good Inv (after_generate env cfg now g s)
unfolding after_generate
after_generate-Inv env cfg now (not_generated e) s h = h
after_generate-Inv env cfg now (generated gen) s h =
    apply_config-Inv env cfg now gen _ (record { restarts = h.restarts; alerts = h.alerts })

regenerate_once-Inv :
    (env : Env) (cfg : Settings) (s : Runtime) → Inv s → Inv (regenerate_once env cfg s).0
unfolding regenerate_once
regenerate_once-Inv env cfg s h = Good-Inv (regenerate_once env cfg s) (
    after_generate-Inv env cfg (env.now s.calls) (env.generate s.calls) (called s)
      (record { restarts = h.restarts; alerts = h.alerts }))

after_success-Inv :
    (env : Env) (cfg : Settings) (trigger : Trigger) (s : Runtime)
    → Inv s
    → Inv (after_success env cfg trigger s)
unfolding after_success
after_success-Inv env cfg reactive_recovery s h =
    flush_status-Inv env cfg _ (record { restarts = h.restarts; alerts = h.alerts })
after_success-Inv env cfg startup s h = h
after_success-Inv env cfg proactive s h = h

after_failure-Inv :
    (env : Env) (cfg : Settings) (e : Error) (s : Runtime) → Inv s → Inv (after_failure env cfg e s)
unfolding after_failure
after_failure-Inv env cfg e s h =
    let noted = record s { regen_error = env.redacted e } in
    let f = flush_status-Inv env cfg noted (record { restarts = h.restarts; alerts = h.alerts }) in
    note_failed_attempt-Inv cfg _ _ (called (flush_status env cfg noted))
      (record { restarts = f.restarts; alerts = f.alerts })

attempts-Inv :
    (env : Env) (cfg : Settings) (trigger : Trigger) (k : ℕ) (backoff : Duration)
    (last : Option Error) (s : Runtime)
    → Inv s
    → Inv (attempts env cfg trigger k backoff last s).0
unfolding attempts
attempts-Inv env cfg trigger zero backoff last s h = h
attempts-Inv env cfg trigger (suc k) backoff last s h =
    go (regenerate_once env cfg s).1 (regenerate_once-Inv env cfg s h)
      (λ (e : Error) (s' : Runtime).
        attempts-Inv env cfg trigger k (next_backoff cfg backoff) (some e) s')
  where
    s₁ : Runtime
    s₁ = (regenerate_once env cfg s).0

    go :
        (err : Option Error)
        → Inv s₁
        → ((e : Error) (s' : Runtime)
            → Inv s'
            → Inv (attempts env cfg trigger k (next_backoff cfg backoff) (some e) s').0)
        → Inv
            (elim err as (λ _. Outcome) [
              | none ↦ (after_success env cfg trigger s₁, none)
              | some e ↦
                  attempts env cfg trigger k
                    (next_backoff cfg backoff)
                    (some e)
                    (emit (slept backoff) (after_failure env cfg e s₁))
            ]).0
    go none h₁ ih = after_success-Inv env cfg trigger s₁ h₁
    go (some e) h₁ ih =
        let f = after_failure-Inv env cfg e s₁ h₁ in
        ih e (emit (slept backoff) (after_failure env cfg e s₁))
          (record { restarts = f.restarts; alerts = f.alerts })

pub regenerate_with_backoff-Inv :
    (env : Env) (cfg : Settings) (trigger : Trigger) (s : Runtime)
    → Inv s
    → Inv (regenerate_with_backoff env cfg trigger s).0
unfolding regenerate_with_backoff
regenerate_with_backoff-Inv env cfg trigger s h =
    attempts-Inv env cfg trigger max_attempts cfg.backoff_min none s h
