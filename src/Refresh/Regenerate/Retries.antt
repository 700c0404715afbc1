-- ===== src/Refresh/Regenerate/Retries.antt =====
-- What the retries of a regeneration cost and change (refresh.go, regenerateWithBackoff).
use pia_wg_config_generator.Base.{
  ℕ, zero, suc, ◌+◌, ◌≤◌, Option, none, some, ◌≡◌, refl, ap, ◌∙◌, inl, inr, arith, Option-cases,
}
use pia_wg_config_generator.Clock.{Duration}
use pia_wg_config_generator.Refresh.{
  Settings, Env, Runtime, Error, Generated, generated, not_generated, emit, slept,
}
use pia_wg_config_generator.Refresh.Frame.{registrations, Keeps, Keeps-refl, flush_status-Keeps}
use pia_wg_config_generator.Refresh.Regenerate.Kept.{
  behind_generation, regenerate_once-Keeps, after_failure-Keeps,
}
use pia_wg_config_generator.Refresh.Regenerate.{
  Trigger, startup, proactive, reactive_recovery, Outcome, regenerate_once, after_success,
  after_failure, next_backoff, attempts, regenerate_with_backoff,
}

-- `t` remembers the recoveries and the health of `s`, whatever was registered in between.
abbrev pub Remembers : Runtime → Runtime → Type 0
Remembers s t = Keeps (record s { log = t.log }) t

Remembers-trans : (s t u : Runtime) → Remembers s t → Remembers t u → Remembers s u
Remembers-trans s t u h k = record {
  last_recovery = k.last_recovery ∙ h.last_recovery;
  recovery_count = k.recovery_count ∙ h.recovery_count;
  since_recovery = k.since_recovery ∙ h.since_recovery;
  confirmed = k.confirmed ∙ h.confirmed;
  last_healthy = k.last_healthy ∙ h.last_healthy;
  consecutive = k.consecutive ∙ h.consecutive;
  registered_as_often = refl;
}

Keeps-Remembers : (s t : Runtime) → Keeps s t → Remembers s t
Keeps-Remembers s t k = record {
  last_recovery = k.last_recovery;
  recovery_count = k.recovery_count;
  since_recovery = k.since_recovery;
  confirmed = k.confirmed;
  last_healthy = k.last_healthy;
  consecutive = k.consecutive;
  registered_as_often = refl;
}

behind_generation-Remembers : (g : Generated) (s : Runtime) → Remembers s (behind_generation g s)
behind_generation-Remembers (not_generated e) s = Keeps-refl s
behind_generation-Remembers (generated gen) s = ground arith

behind_generation-le :
    (g : Generated) (s : Runtime)
    → registrations (behind_generation g s).log ≤ registrations s.log + 1
behind_generation-le (not_generated e) s = omega arith
behind_generation-le (generated gen) s = omega arith

-- The state behind one failed attempt and its sleep.
abbrev pub retried : Env → Settings → Duration → Error → Runtime → Runtime
retried env cfg backoff e s =
    emit (slept backoff) (after_failure env cfg e (regenerate_once env cfg s).0)

pub retried-Remembers :
    (env : Env) (cfg : Settings) (backoff : Duration) (e : Error) (s : Runtime)
    → Remembers s (retried env cfg backoff e s)
retried-Remembers env cfg backoff e s =
    let g = env.generate s.calls in
    let r = (regenerate_once env cfg s).0 in
    Remembers-trans s (behind_generation g s) _ (behind_generation-Remembers g s) (
      Remembers-trans (behind_generation g s) r _
        (Keeps-Remembers _ _ (regenerate_once-Keeps env cfg s))
        (Remembers-trans r (after_failure env cfg e r) _
          (Keeps-Remembers _ _ (after_failure-Keeps env cfg e r)) (ground arith)))

pub retried-registrations :
    (env : Env) (cfg : Settings) (backoff : Duration) (e : Error) (s : Runtime)
    → registrations (retried env cfg backoff e s).log
      ≡ registrations (behind_generation (env.generate s.calls) s).log
retried-registrations env cfg backoff e s =
    (after_failure-Keeps env cfg e (regenerate_once env cfg s).0).registered_as_often
    ∙ (regenerate_once-Keeps env cfg s).registered_as_often

pub after_success-registrations :
    (env : Env) (cfg : Settings) (trigger : Trigger) (s : Runtime)
    → registrations (after_success env cfg trigger s).log ≡ registrations s.log
unfolding after_success
after_success-registrations env cfg reactive_recovery s =
    (flush_status-Keeps env cfg _).registered_as_often
after_success-registrations env cfg startup s = refl
after_success-registrations env cfg proactive s = refl

module _ (env : Env) (cfg : Settings) (trigger : Trigger) where
  pub attempts_ok :
      (k : ℕ) (backoff : Duration) (last : Option Error) (s : Runtime)
      → (regenerate_once env cfg s).1 ≡ none
      → attempts env cfg trigger (suc k) backoff last s
        ≡ (after_success env cfg trigger (regenerate_once env cfg s).0, none)
  unfolding attempts
  attempts_ok k backoff last s ok = rw (ok, attempts) refl

  pub attempts_retry :
      (k : ℕ) (backoff : Duration) (last : Option Error) (s : Runtime) (e : Error)
      → (regenerate_once env cfg s).1 ≡ some e
      → attempts env cfg trigger (suc k) backoff last s
        ≡ attempts env cfg trigger k
            (next_backoff cfg backoff)
            (some e)
            (retried env cfg backoff e s)
  unfolding attempts
  attempts_retry k backoff last s e failed = rw (failed, attempts) refl

  attempts-registrations :
      (k : ℕ) (backoff : Duration) (last : Option Error) (s : Runtime)
      → registrations (attempts env cfg trigger k backoff last s).0.log ≤ registrations s.log + k
  attempts-registrations zero backoff last s = unfold attempts in omega arith
  attempts-registrations (suc k) backoff last s =
      elim (Option-cases (regenerate_once env cfg s).1) [
        | inl ok ↦ rw (attempts_ok k backoff last s ok) (
            omega (
              arith,
              after_success-registrations env cfg trigger (regenerate_once env cfg s).0,
              (regenerate_once-Keeps env cfg s).registered_as_often,
              behind_generation-le (env.generate s.calls) s,
            ))
        | inr (e, failed) ↦ rw (attempts_retry k backoff last s e failed) (
            omega (
              arith,
              retried-registrations env cfg backoff e s,
              attempts-registrations k (next_backoff cfg backoff) (some e)
                  (retried env cfg backoff e s),
              behind_generation-le (env.generate s.calls) s,
            ))
      ]

  attempts_failed :
      (k : ℕ) (backoff : Duration) (last : Option Error) (s : Runtime) (e : Error)
      → (attempts env cfg trigger k backoff last s).1 ≡ some e
      → Remembers s (attempts env cfg trigger k backoff last s).0
  attempts_failed zero backoff last s e h = unfold attempts in Keeps-refl s
  attempts_failed (suc k) backoff last s e h = elim (Option-cases (regenerate_once env cfg s).1) [
    | inl ok ↦ absurd (none-ne-some (ap (λ (o : Outcome). o.1) (attempts_ok k backoff last s ok)) h)
    | inr (x, failed) ↦
        let next = attempts_retry k backoff last s x failed in
        rw next (
          Remembers-trans s (retried env cfg backoff x s) _ (retried-Remembers env cfg backoff x s)
            (attempts_failed k (next_backoff cfg backoff) (some x) (retried env cfg backoff x s) e
              (rw next at h)))
  ]
    where
      none-ne-some : {o : Option Error} → o ≡ none → o ≡ some e → ⊥
      none-ne-some p q = cc

-- One call of regenerateWithBackoff, with whatever trigger, makes six registrations at most.
pub regenerate_with_backoff-registrations :
    (env : Env) (cfg : Settings) (trigger : Trigger) (s : Runtime)
    → registrations (regenerate_with_backoff env cfg trigger s).0.log ≤ registrations s.log + 6
unfolding regenerate_with_backoff
regenerate_with_backoff-registrations env cfg trigger s =
    attempts-registrations env cfg trigger 6 cfg.backoff_min none s

-- When regenerateWithBackoff returns an error, the time and the number of recoveries, the
-- confirmation of the registration, the last healthy sample and the count of unhealthy samples are
-- all as before: no cooldown starts.
pub regenerate_with_backoff-Remembers :
    (env : Env) (cfg : Settings) (trigger : Trigger) (s : Runtime) (e : Error)
    → (regenerate_with_backoff env cfg trigger s).1 ≡ some e
    → Remembers s (regenerate_with_backoff env cfg trigger s).0
unfolding regenerate_with_backoff
regenerate_with_backoff-Remembers env cfg trigger s e h =
    attempts_failed env cfg trigger 6 cfg.backoff_min none s e h
