-- ===== src/Refresh/Regenerate/Storm.antt =====
-- The retries of a regeneration when the container cannot be restarted (refresh.go,
-- regenerateWithBackoff).
use mathlib.Core.Option
use pia_wg_config_generator.Base.{
  ℕ, zero, suc, ◌+◌, false, Option, none, some, ◌≡◌, ◌≢◌, refl, sym, ◌∙◌, arith,
}
use pia_wg_config_generator.Base.Text.{Text, is_empty}
use pia_wg_config_generator.Clock.{Time, Duration}
use pia_wg_config_generator.Api.{GenerateResult}
use pia_wg_config_generator.Refresh.{
  Settings, Env, Runtime, Error, gluetun_restart, exhausted, generated, called, emit, registered,
}
use pia_wg_config_generator.Refresh.Frame.{registrations}
use pia_wg_config_generator.Refresh.Regenerate.Retries.{
  attempts_retry, retried, retried-registrations, regenerate_with_backoff-Remembers,
}
use pia_wg_config_generator.Refresh.Regenerate.Kept.{behind_generation}
use pia_wg_config_generator.Refresh.Regenerate.{
  Trigger, Outcome, and_then, write_config, record_birth, hand_to_pf, config_hook, restart_gluetun,
  restart_error, applied, apply_config, after_generate, regenerate_once, next_backoff, attempts,
  regenerate_with_backoff,
}

-- A world where PIA registers every key, but Docker restarts nothing.
pub record CannotRestart (env : Env) (cfg : Settings) : Type 0 where
  pub gen : ℕ → GenerateResult
  pub why : ℕ → Text
  pub generates : (n : ℕ) → env.generate n ≡ generated (gen n)
  pub restarts_fail : (n : ℕ) → env.restart n ≡ some (why n)
  pub container : is_empty cfg.restart_container ≡ false

abbrev Failed : Outcome → Type 0
Failed o = (e : Error) × (o.1 ≡ some e)

and_then-Failed :
    (o : Outcome) (next : Runtime → Outcome)
    → ((t : Runtime) → Failed (next t))
    → Failed (and_then o next)
and_then-Failed (s, none) next h = h s
and_then-Failed (s, some e) next h = (e, refl)

and_then-Failed' : (o : Outcome) (next : Runtime → Outcome) → Failed o → Failed (and_then o next)
and_then-Failed' (s, none) next (e, h) = absurd (Option.none-ne-some e h)
and_then-Failed' (s, some e) next h = (e, refl)

module _ (env : Env) (cfg : Settings) (w : CannotRestart env cfg) where
  open w use {gen, why, generates, restarts_fail, container}

  restart_gluetun-Failed : (s : Runtime) → Failed (restart_gluetun env cfg s)
  unfolding restart_gluetun restart_error
  restart_gluetun-Failed s =
      (gluetun_restart (why s.calls), rw (container, restarts_fail s.calls) refl)

  apply_config-Failed :
      (now : Time) (g : GenerateResult) (s : Runtime) → Failed (apply_config env cfg now g s)
  unfolding apply_config
  apply_config-Failed now g s =
      and_then-Failed (write_config g (env.write s.calls) (called s)) _ λ t.
        and_then-Failed (hand_to_pf env cfg g (record_birth env now t)) _ λ u.
          and_then-Failed' (restart_gluetun env cfg (config_hook cfg u)) (applied env cfg now)
            (restart_gluetun-Failed (config_hook cfg u))

  regenerate_once-Failed : (s : Runtime) → Failed (regenerate_once env cfg s)
  unfolding regenerate_once after_generate
  regenerate_once-Failed s = rw (generates s.calls) (
      apply_config-Failed (env.now s.calls) (gen s.calls)
        (emit (registered (gen s.calls)) (called s)))

  behind_generation-suc :
      (s : Runtime)
      → registrations (behind_generation (env.generate s.calls) s).log ≡ registrations s.log + 1
  behind_generation-suc s = rw (generates s.calls) (omega arith)

  attempts_storm :
      (trigger : Trigger) (k : ℕ) (backoff : Duration) (last : Option Error) (s : Runtime)
      → registrations (attempts env cfg trigger k backoff last s).0.log ≡ registrations s.log + k
  attempts_storm trigger zero backoff last s = unfold attempts in omega arith
  attempts_storm trigger (suc k) backoff last s =
      let (e, failed) = regenerate_once-Failed s in
      rw (attempts_retry env cfg trigger k backoff last s e failed) (
        omega (
          arith,
          retried-registrations env cfg backoff e s,
          attempts_storm trigger k (next_backoff cfg backoff) (some e)
              (retried env cfg backoff e s),
          behind_generation-suc s,
        ))

  attempts_storm-Failed :
      (trigger : Trigger) (k : ℕ) (backoff : Duration) (last : Error) (s : Runtime)
      → Failed (attempts env cfg trigger k backoff (some last) s)
  attempts_storm-Failed trigger zero backoff last s = unfold attempts in (exhausted last, refl)
  attempts_storm-Failed trigger (suc k) backoff last s =
      let (e, failed) = regenerate_once-Failed s in
      rw (attempts_retry env cfg trigger k backoff (some last) s e failed)
        (attempts_storm-Failed trigger k (next_backoff cfg backoff) e (retried env cfg backoff e s))

  storm-Failed :
      (trigger : Trigger) (s : Runtime) → Failed (regenerate_with_backoff env cfg trigger s)
  unfolding regenerate_with_backoff
  storm-Failed trigger s =
      let (e, failed) = regenerate_once-Failed s in
      rw (attempts_retry env cfg trigger 5 cfg.backoff_min none s e failed) (
        attempts_storm-Failed trigger 5 (next_backoff cfg cfg.backoff_min) e
          (retried env cfg cfg.backoff_min e s))

  storm-registrations :
      (trigger : Trigger) (s : Runtime)
      → registrations (regenerate_with_backoff env cfg trigger s).0.log ≡ registrations s.log + 6
  unfolding regenerate_with_backoff
  storm-registrations trigger s = attempts_storm trigger 6 cfg.backoff_min none s

-- When PIA registers every key and the container to restart is set but no restart succeeds, each
-- call of regenerateWithBackoff registers six keys, returns an error, and leaves the time of the
-- last recovery, from which the cooldown runs, as it was.
pub regenerate_with_backoff_storm :
    (env : Env) (cfg : Settings) (trigger : Trigger) (s : Runtime)
    → CannotRestart env cfg
    → (registrations (regenerate_with_backoff env cfg trigger s).0.log ≡ registrations s.log + 6)
      × ((regenerate_with_backoff env cfg trigger s).1 ≢ none)
      × ((regenerate_with_backoff env cfg trigger s).0.last_recovery ≡ s.last_recovery)
regenerate_with_backoff_storm env cfg trigger s w =
    let (e, failed) = storm-Failed env cfg w trigger s in
    (
      storm-registrations env cfg w trigger s,
      λ h. Option.none-ne-some e (sym h ∙ failed),
      (regenerate_with_backoff-Remembers env cfg trigger s e failed).last_recovery,
    )
