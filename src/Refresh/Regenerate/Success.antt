-- ===== src/Refresh/Regenerate/Success.antt =====
-- What a reactive recovery that succeeds leaves (refresh.go, regenerateWithBackoff).
use pia_wg_config_generator.Base.{
  ℕ, zero, suc, false, none, some, ◌≡◌, ◌≢◌, refl, ap, ◌∙◌, inl, inr, Option-cases,
}
use pia_wg_config_generator.Base.Int.{ℤ, pos, ◌+ℤ◌, wrap64}
use pia_wg_config_generator.Clock.{Duration}
use pia_wg_config_generator.Refresh.{
  Settings, Env, Runtime, Error, exhausted, Generated, generated, not_generated,
}
use pia_wg_config_generator.Refresh.Frame.{flush_status-Keeps}
use pia_wg_config_generator.Refresh.Regenerate.Kept.{behind_generation, regenerate_once-Keeps}
use pia_wg_config_generator.Refresh.Regenerate.Retries.{
  attempts_ok, attempts_retry, retried, retried-Remembers,
}
use pia_wg_config_generator.Refresh.Regenerate.{
  reactive_recovery, regenerate_once, after_success, attempts, next_backoff,
  regenerate_with_backoff,
}

-- `t` is `s` behind one recovery: it counts, and the registration is not confirmed yet.
pub record IsRecovery (s t : Runtime) : Type 0 where
  pub counted : t.recovery_count ≡ wrap64 (s.recovery_count +ℤ pos 1)
  pub since : t.healthy_since_recovery ≡ false
  pub confirmed : t.confirmed_healthy ≡ false
  pub consecutive : t.consecutive_unhealthy ≡ pos 0

IsRecovery-of_count :
    (s s' t : Runtime) → s'.recovery_count ≡ s.recovery_count → IsRecovery s' t → IsRecovery s t
IsRecovery-of_count s s' t same r = record {
  counted = r.counted ∙ ap (λ (n : ℤ). wrap64 (n +ℤ pos 1)) same;
  since = r.since;
  confirmed = r.confirmed;
  consecutive = r.consecutive;
}

count_behind_generation :
    (g : Generated) (s : Runtime) → (behind_generation g s).recovery_count ≡ s.recovery_count
count_behind_generation (not_generated e) s = refl
count_behind_generation (generated gen) s = refl

after_success-IsRecovery :
    (env : Env) (cfg : Settings) (s : Runtime)
    → IsRecovery s (after_success env cfg reactive_recovery s)
unfolding after_success
after_success-IsRecovery env cfg s =
    let k = flush_status-Keeps env cfg _ in
    record {
      counted = k.recovery_count;
      since = k.since_recovery;
      confirmed = k.confirmed;
      consecutive = k.consecutive;
    }

module _ (env : Env) (cfg : Settings) where
  after_success-regenerate_once :
      (s : Runtime)
      → IsRecovery s (after_success env cfg reactive_recovery (regenerate_once env cfg s).0)
  after_success-regenerate_once s =
      IsRecovery-of_count s (regenerate_once env cfg s).0 _
        ((regenerate_once-Keeps env cfg s).recovery_count
          ∙ count_behind_generation (env.generate s.calls) s)
        (after_success-IsRecovery env cfg (regenerate_once env cfg s).0)

  some-not-none : {e : Error} → some e ≢ none
  some-not-none h = cc

  -- Behind an attempt that failed with `last`.
  attempts-IsRecovery :
      (k : ℕ) (backoff : Duration) (last : Error) (s : Runtime)
      → (attempts env cfg reactive_recovery k backoff (some last) s).1 ≡ none
      → IsRecovery s (attempts env cfg reactive_recovery k backoff (some last) s).0
  attempts-IsRecovery zero backoff last s h =
      absurd (unfold attempts in some-not-none {e = exhausted last} h)
  attempts-IsRecovery (suc k) backoff last s h = elim (Option-cases (regenerate_once env cfg s).1) [
    | inl ok ↦
        rw (attempts_ok env cfg reactive_recovery k backoff (some last) s ok)
          (after_success-regenerate_once s)
    | inr (e, failed) ↦
        let next = attempts_retry env cfg reactive_recovery k backoff (some last) s e failed in
        rw next (
          IsRecovery-of_count s (retried env cfg backoff e s) _
            (retried-Remembers env cfg backoff e s).recovery_count
            (attempts-IsRecovery k (next_backoff cfg backoff) e (retried env cfg backoff e s)
              (rw next at h)))
  ]

-- When regenerateWithBackoff returns no error as a reactive recovery, at whichever attempt, the
-- count of recoveries (an int64) has grown by one, the registration counts as not confirmed and not
-- healthy since the recovery, and the count of unhealthy samples starts again at zero.
pub regenerate_with_backoff-IsRecovery :
    (env : Env) (cfg : Settings) (s : Runtime)
    → (regenerate_with_backoff env cfg reactive_recovery s).1 ≡ none
    → IsRecovery s (regenerate_with_backoff env cfg reactive_recovery s).0
unfolding regenerate_with_backoff
regenerate_with_backoff-IsRecovery env cfg s h = elim (Option-cases (regenerate_once env cfg s).1) [
  | inl ok ↦
      rw (attempts_ok env cfg reactive_recovery 5 cfg.backoff_min none s ok)
        (after_success-regenerate_once env cfg s)
  | inr (e, failed) ↦
      let next = attempts_retry env cfg reactive_recovery 5 cfg.backoff_min none s e failed in
      rw next (
        IsRecovery-of_count s (retried env cfg cfg.backoff_min e s) _
          (retried-Remembers env cfg cfg.backoff_min e s).recovery_count
          (attempts-IsRecovery env cfg 5 (next_backoff cfg cfg.backoff_min) e
            (retried env cfg cfg.backoff_min e s) (rw next at h)))
]
