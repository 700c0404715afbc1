-- ===== src/Refresh/Regenerate/Tracked.antt =====
-- A regeneration keeps what each of its updates keeps (refresh.go, regenerateOnce and
-- regenerateWithBackoff).
use mathlib.Core.List.{Memᴰ}
use pia_wg_config_generator.Base.{
  ℕ, zero, suc, Option, none, some, [], refl, inl, inr, Bool-cases, Option-cases,
}
use pia_wg_config_generator.Base.Text.{Text, is_empty, trim_space}
use pia_wg_config_generator.Clock.{Time, Duration}
use pia_wg_config_generator.Api.{GenerateResult}
use pia_wg_config_generator.Refresh.{
  Settings, Env, Runtime, Error, Generated, generated, not_generated, called, emit, slept,
  registered, wrote_config, ran_config_hook, asked_restart,
}
use pia_wg_config_generator.Refresh.Schedule.{flush_status}
use pia_wg_config_generator.Refresh.Views.{
  View, view, IsTracked, flush_status-Tracked, arm_next_refresh-Tracked,
  note_failed_attempt-Tracked,
}
use pia_wg_config_generator.Refresh.Regenerate.Retries.{attempts_ok, attempts_retry}
use pia_wg_config_generator.Refresh.Regenerate.{
  Trigger, startup, proactive, reactive_recovery, Outcome, and_then, write_config, record_birth,
  write_pending, hand_to_pf, config_hook, restart_gluetun, applied, apply_config, after_generate,
  regenerate_once, after_success, after_failure, next_backoff, attempts, max_attempts,
  regenerate_with_backoff,
}

module _ (env : Env) (cfg : Settings) (I : View → Type 0) (t : IsTracked env I) where
  abbrev At : Runtime → Type 0
  At s = I (view s)

  -- At a runtime that keeps the predicate and has registered `gen`.
  abbrev Made : GenerateResult → Runtime → Type 0
  Made gen s = At s × Memᴰ (registered gen) s.log

  and_then-Tracked :
      (P : Runtime → Type 0) (o : Outcome) (next : Runtime → Outcome)
      → P o.0
      → ((s : Runtime) → P s → At s)
      → ((s : Runtime) → P s → At (next s).0)
      → At (and_then o next).0
  and_then-Tracked P (s, none) next h weaken k = k s h
  and_then-Tracked P (s, some e) next h weaken k = weaken s h

  write_config-Tracked :
      (gen : GenerateResult) (o : Option Text) (s : Runtime)
      → Made gen s
      → Made gen (write_config gen o s).0
  unfolding write_config
  write_config-Tracked gen none s (h, m) =
      (t.silent (view s) (wrote_config gen.config) tt h, Memᴰ.tail m)
  write_config-Tracked gen (some e) s h = h

  write_pending-Tracked :
      (gen : GenerateResult) (o : Option Text) (s : Runtime)
      → Made gen s
      → At (write_pending gen (env.now s.calls) o (called s)).0
  unfolding write_pending
  write_pending-Tracked gen none s (h, m) = t.pending (view s) gen m h
  write_pending-Tracked gen (some e) s (h, m) = t.called (view s) h

  hand_to_pf-Tracked :
      (gen : GenerateResult) (s : Runtime) → Made gen s → At (hand_to_pf env cfg gen s).0
  unfolding hand_to_pf
  hand_to_pf-Tracked gen s (h, m) = elim (Bool-cases cfg.port_forwarding) [
    | inl on ↦ rw on (write_pending-Tracked gen (env.write s.calls) s (h, m))
    | inr off ↦ rw off h
  ]

  config_hook-Tracked : (s : Runtime) → At s → At (config_hook cfg s)
  unfolding config_hook
  config_hook-Tracked s h = elim (Bool-cases (is_empty (trim_space cfg.config_hook_cmd))) [
    | inl blank ↦ rw blank h
    | inr given ↦ rw given (t.silent (view s) (ran_config_hook cfg.config_hook_cmd) tt h)
  ]

  restart_gluetun-Tracked : (s : Runtime) → At s → At (restart_gluetun env cfg s).0
  unfolding restart_gluetun
  restart_gluetun-Tracked s h = elim (Bool-cases (is_empty cfg.restart_container)) [
    | inl no_container ↦ rw no_container h
    | inr container ↦
        rw container (
          t.silent (view (called s)) (asked_restart cfg.restart_container) tt (t.called (view s) h))
  ]

  applied-Tracked : (now : Time) (s : Runtime) → At s → At (applied env cfg now s).0
  unfolding applied
  applied-Tracked now s h =
      arm_next_refresh-Tracked env cfg I t (record s { last_generate = now; regen_error = [] })
        (t.no_error (view s) h)

  apply_config-Tracked :
      (now : Time) (gen : GenerateResult) (s : Runtime)
      → Made gen s
      → At (apply_config env cfg now gen s).0
  unfolding apply_config record_birth
  apply_config-Tracked now gen s (h, m) =
      and_then-Tracked (Made gen) (write_config gen (env.write s.calls) (called s)) _
        (write_config-Tracked gen (env.write s.calls) (called s) (t.called (view s) h, m))
        (λ u k. k.0)
        λ s₁ (h₁, m₁).
          and_then-Tracked At (hand_to_pf env cfg gen (record_birth env now s₁)) _
            (hand_to_pf-Tracked gen (record_birth env now s₁) (t.called (view s₁) h₁, m₁))
            (λ u k. k)
            λ s₂ h₂.
              and_then-Tracked At (restart_gluetun env cfg (config_hook cfg s₂)) _
                (restart_gluetun-Tracked (config_hook cfg s₂) (config_hook-Tracked s₂ h₂))
                (λ u k. k) λ s₃ h₃. applied-Tracked now s₃ h₃

  after_generate-Tracked :
      (now : Time) (g : Generated) (s : Runtime) → At s → At (after_generate env cfg now g s).0
  unfolding after_generate
  after_generate-Tracked now (not_generated e) s h = h
  after_generate-Tracked now (generated gen) s h =
      apply_config-Tracked now gen (emit (registered gen) s)
        (t.silent (view s) (registered gen) tt h, Memᴰ.head refl)

  regenerate_once-Tracked : (s : Runtime) → At s → At (regenerate_once env cfg s).0
  unfolding regenerate_once
  regenerate_once-Tracked s h =
      after_generate-Tracked (env.now s.calls) (env.generate s.calls) (called s)
        (t.called (view s) h)

  after_success-Tracked :
      (trigger : Trigger) (s : Runtime) → At s → At (after_success env cfg trigger s)
  unfolding after_success
  after_success-Tracked reactive_recovery s h =
      flush_status-Tracked env cfg I t _ (t.called (view s) h)
  after_success-Tracked startup s h = h
  after_success-Tracked proactive s h = h

  after_failure-Tracked : (e : Error) (s : Runtime) → At s → At (after_failure env cfg e s)
  unfolding after_failure
  after_failure-Tracked e s h =
      let noted = record s { regen_error = env.redacted e } in
      note_failed_attempt-Tracked env cfg I t _ _ (called (flush_status env cfg noted))
        (inr (e, refl))
        (t.called (view (flush_status env cfg noted))
          (flush_status-Tracked env cfg I t noted (t.some_error (view s) e h)))

  attempts-Tracked :
      (trigger : Trigger) (k : ℕ) (backoff : Duration) (last : Option Error) (s : Runtime)
      → At s
      → At (attempts env cfg trigger k backoff last s).0
  attempts-Tracked trigger zero backoff last s h = unfold attempts in h
  attempts-Tracked trigger (suc k) backoff last s h =
      let once = regenerate_once-Tracked s h in
      elim (Option-cases (regenerate_once env cfg s).1) [
        | inl ok ↦
            rw (attempts_ok env cfg trigger k backoff last s ok)
              (after_success-Tracked trigger (regenerate_once env cfg s).0 once)
        | inr (e, failed) ↦ rw (attempts_retry env cfg trigger k backoff last s e failed) (
            attempts-Tracked trigger k (next_backoff cfg backoff) (some e) _ (
              t.silent _ (slept backoff) tt
                (after_failure-Tracked e (regenerate_once env cfg s).0 once)))
      ]

  pub regenerate_with_backoff-Tracked :
      (trigger : Trigger) (s : Runtime) → At s → At (regenerate_with_backoff env cfg trigger s).0
  unfolding regenerate_with_backoff
  regenerate_with_backoff-Tracked trigger s h =
      attempts-Tracked trigger max_attempts cfg.backoff_min none s h
