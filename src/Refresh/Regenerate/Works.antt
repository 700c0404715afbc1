-- ===== src/Refresh/Regenerate/Works.antt =====
-- A regeneration in a world where nothing fails (refresh.go, regenerateWithBackoff).
use pia_wg_config_generator.Base.{ℕ, ◌+◌, none, some, ◌≡◌, refl, ◌∙◌, arith, inl, inr, Bool-cases}
use pia_wg_config_generator.Base.Text.{is_empty}
use pia_wg_config_generator.Clock.{Time}
use pia_wg_config_generator.Api.{GenerateResult}
use pia_wg_config_generator.Refresh.{Settings, Env, Runtime, generated, called, emit, registered}
use pia_wg_config_generator.Refresh.Frame.{registrations}
use pia_wg_config_generator.Refresh.Regenerate.Retries.{attempts_ok, after_success-registrations}
use pia_wg_config_generator.Refresh.Regenerate.Kept.{regenerate_once-Keeps}
use pia_wg_config_generator.Refresh.Regenerate.{
  Trigger, Outcome, and_then, write_config, record_birth, write_pending, hand_to_pf, config_hook,
  restart_gluetun, restart_error, applied, apply_config, after_generate, regenerate_once,
  regenerate_with_backoff,
}

-- A world where PIA registers every key, every file can be written, and Docker restarts gluetun.
pub record CanRecover (env : Env) : Type 0 where
  pub gen : ℕ → GenerateResult
  pub generates : (n : ℕ) → env.generate n ≡ generated (gen n)
  pub writes : (n : ℕ) → env.write n ≡ none
  pub restarts : (n : ℕ) → env.restart n ≡ none

and_then-ok :
    (o : Outcome) (next : Runtime → Outcome)
    → o.1 ≡ none
    → ((t : Runtime) → (next t).1 ≡ none)
    → (and_then o next).1 ≡ none
and_then-ok (s, none) next h k = k s
and_then-ok (s, some e) next h k = h

module _ (env : Env) (cfg : Settings) (w : CanRecover env) where
  open w use {gen, generates, writes, restarts}

  write_config-ok :
      (g : GenerateResult) (n : ℕ) (s : Runtime) → (write_config g (env.write n) s).1 ≡ none
  unfolding write_config
  write_config-ok g n s = rw (writes n) refl

  hand_to_pf-ok : (g : GenerateResult) (s : Runtime) → (hand_to_pf env cfg g s).1 ≡ none
  unfolding hand_to_pf write_pending
  hand_to_pf-ok g s = elim (Bool-cases cfg.port_forwarding) [
    | inl on ↦ rw (on, writes s.calls) refl
    | inr off ↦ rw off refl
  ]

  restart_gluetun-ok : (s : Runtime) → (restart_gluetun env cfg s).1 ≡ none
  unfolding restart_gluetun restart_error
  restart_gluetun-ok s = elim (Bool-cases (is_empty cfg.restart_container)) [
    | inl no_container ↦ rw no_container refl
    | inr container ↦ rw (container, restarts s.calls) refl
  ]

  apply_config-ok :
      (now : Time) (g : GenerateResult) (s : Runtime) → (apply_config env cfg now g s).1 ≡ none
  unfolding apply_config applied
  apply_config-ok now g s =
      and_then-ok (write_config g (env.write s.calls) (called s)) _
        (write_config-ok g s.calls (called s))
        λ t.
          and_then-ok (hand_to_pf env cfg g (record_birth env now t)) _
            (hand_to_pf-ok g (record_birth env now t))
            λ u.
              and_then-ok (restart_gluetun env cfg (config_hook cfg u)) _
                (restart_gluetun-ok (config_hook cfg u)) λ v. refl

  regenerate_once-ok : (s : Runtime) → (regenerate_once env cfg s).1 ≡ none
  unfolding regenerate_once after_generate
  regenerate_once-ok s =
      rw (generates s.calls) (
        apply_config-ok (env.now s.calls) (gen s.calls)
          (emit (registered (gen s.calls)) (called s)))

  pub regenerate_with_backoff-ok :
      (trigger : Trigger) (s : Runtime) → (regenerate_with_backoff env cfg trigger s).1 ≡ none
  unfolding regenerate_with_backoff
  regenerate_with_backoff-ok trigger s =
      rw (attempts_ok env cfg trigger 5 cfg.backoff_min none s (regenerate_once-ok s)) refl

  pub regenerate_with_backoff_once :
      (trigger : Trigger) (s : Runtime)
      → registrations (regenerate_with_backoff env cfg trigger s).0.log ≡ registrations s.log + 1
  unfolding regenerate_with_backoff
  regenerate_with_backoff_once trigger s =
      rw (attempts_ok env cfg trigger 5 cfg.backoff_min none s (regenerate_once-ok s)) (
        after_success-registrations env cfg trigger (regenerate_once env cfg s).0
        ∙ (regenerate_once-Keeps env cfg s).registered_as_often
        ∙ rw (generates s.calls) (omega arith))
