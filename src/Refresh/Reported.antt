-- ===== src/Refresh/Reported.antt =====
-- Each health tick reports its sample in status.json (refresh.go, onHealthTick).
use pia_wg_config_generator.Base.{
  ℕ, Bool, true, false, not, none, List, [], ◌∷◌, ◌++◌, ◌≡◌, refl, ap, ◌∙◌, inl, inr, if◌then◌else◌,
  Bool-cases,
}
use pia_wg_config_generator.Base.Text.{is_empty}
use pia_wg_config_generator.Clock.{Time, zero_time, is_zero}
use pia_wg_config_generator.Outage.{healthy}
use pia_wg_config_generator.Status.{DaemonStatus}
use pia_wg_config_generator.Tunnel.{TunnelState}
use pia_wg_config_generator.Refresh.{
  Settings, Env, Runtime, Effect, wrote_status, wrote_pending, alerted, failure_event,
  recovered_event, called,
}
use pia_wg_config_generator.Refresh.Schedule.{flush_status, build_status}
use pia_wg_config_generator.Refresh.Outcome.{observe, fold_sample, note_healthy, health_error_after}
use pia_wg_config_generator.Refresh.Loop.{on_health_tick}
use pia_wg_config_generator.Refresh.Recovery.{sample, observed}
use pia_wg_config_generator.Refresh.Views.{IsTracked}
use pia_wg_config_generator.Refresh.Views.Runs.{react-Tracked}

-- A status that tells of the sample that a health tick takes in the state `s`: when it was taken, its
-- verdict, the start of the outage, and the error of the last regeneration or else of the sample.
pub record IsReport (env : Env) (cfg : Settings) (s : Runtime) (st : DaemonStatus) : Type 0 where
  pub time : st.last_health_check_utc ≡ env.now s.calls
  pub verdict : st.tunnel_healthy ≡ (sample env cfg s).healthy
  pub since : st.unhealthy_since_utc ≡ (
      if (sample env cfg s).healthy
      then zero_time
      else if is_zero s.unhealthy_since
      then env.now s.calls
      else s.unhealthy_since)
  pub last_error : st.last_error ≡ (
      if not (is_empty s.regen_error)
      then s.regen_error
      else if (sample env cfg s).healthy
      then []
      else health_error_after env (sample env cfg s).err s.health_error)

-- A log in which the status was written on top of `base`.
abbrev pub Adds : DaemonStatus → List Effect → List Effect → Type 0
Adds st base log =
    (front : List Effect) × (back : List Effect) × (log
      ≡ front ++ (wrote_status st ∷ (back ++ base)))

sampled-log :
    (env : Env) (st : TunnelState) (now : Time) (s : Runtime)
    → (fold_sample env st now s).log ≡ s.log
unfolding fold_sample
sampled-log env st now s = elim (Bool-cases st.healthy) [
  | inl well ↦ rw well refl
  | inr ill ↦ rw ill refl
]

Adds-more :
    (st : DaemonStatus) (base log : List Effect) (e : Effect)
    → Adds st base log
    → Adds st base (e ∷ log)
Adds-more st base log e (front, back, same) = (e ∷ front, back, rw same refl)

-- What was added stays in the log.
Adds-Tracked :
    (env : Env) (st : DaemonStatus) (base : List Effect) → IsTracked env (λ v. Adds st base v.log)
Adds-Tracked env st base = record {
  called = λ v m. m;
  silent = λ v o quiet m. Adds-more st base v.log o m;
  status = λ v t shows m. Adds-more st base v.log (wrote_status t) m;
  pending = λ v gen made m. Adds-more st base v.log (wrote_pending (env.now v.calls) gen.key) m;
  alert = λ v n region cause known m.
      Adds-more st base v.log (alerted (failure_event n region cause)) m;
  no_error = λ v m. m;
  some_error = λ v o m. m;
  sample = λ t n s (front, back, same). (front, back, rw (sampled-log env t (env.now n) s) same);
}

flush_status-writes :
    (env : Env) (cfg : Settings) (s : Runtime)
    → env.write s.calls ≡ none
    → (flush_status env cfg s).log ≡ wrote_status (build_status cfg (env.now s.calls) s) ∷ s.log
unfolding flush_status
flush_status-writes env cfg s ok = rw ok refl

-- What the notice of a recovery leaves as it is.
record Keeps (s s' : Runtime) : Type 0 where
  check : s'.last_health_check ≡ s.last_health_check
  verdict : s'.tunnel_healthy ≡ s.tunnel_healthy
  since : s'.unhealthy_since ≡ s.unhealthy_since
  regen : s'.regen_error ≡ s.regen_error
  health : s'.health_error ≡ s.health_error
  log : (back : List Effect) × (s'.log ≡ back ++ s.log)

note_healthy-Keeps : (now : Time) (s : Runtime) → Keeps s (note_healthy now s)
unfolding note_healthy
note_healthy-Keeps now s = elim (Bool-cases (healthy now s.policy).1) [
  | inl ends ↦ rw ends (record {
    check = refl;
    verdict = refl;
    since = refl;
    regen = refl;
    health = refl;
    log = (alerted (recovered_event (healthy now s.policy).2 (healthy now s.policy).3) ∷ [], refl);
  })
  | inr goes_on ↦ rw goes_on (record {
    check = refl;
    verdict = refl;
    since = refl;
    regen = refl;
    health = refl;
    log = ([], refl);
  })
]

sampled_now : Env → Settings → Runtime → Runtime
sampled_now env cfg s = fold_sample env (sample env cfg s) (env.now s.calls) (called s)

well-IsReport :
    (env : Env) (cfg : Settings) (s s' : Runtime) (now : Time)
    → (sample env cfg s).healthy ≡ true
    → Keeps (sampled_now env cfg s) s'
    → IsReport env cfg s (build_status cfg now s')
unfolding build_status sampled_now fold_sample
well-IsReport env cfg s s' now well k = record {
  time = rw (k.check, well) refl;
  verdict = rw (k.verdict, well) refl;
  since = rw (k.since, well) refl;
  last_error = rw (k.regen, k.health, well) refl;
}

ill-IsReport :
    (env : Env) (cfg : Settings) (s : Runtime) (now : Time)
    → (sample env cfg s).healthy ≡ false
    → IsReport env cfg s (build_status cfg now (sampled_now env cfg s))
unfolding build_status sampled_now fold_sample
ill-IsReport env cfg s now ill = record {
  time = rw ill refl;
  verdict = rw ill refl;
  since = rw ill refl;
  last_error = rw ill refl;
}

-- What observe flushes, by the verdict.
abbrev noted : Env → Settings → Runtime → Bool → Runtime
noted env cfg s well =
    if well then note_healthy (env.now s.calls) (sampled_now env cfg s) else sampled_now env cfg s

observed_flush :
    (env : Env) (cfg : Settings) (s : Runtime)
    → observed env cfg s ≡ flush_status env cfg (noted env cfg s (sample env cfg s).healthy)
unfolding observe sampled_now
observed_flush env cfg s = refl

noted-IsReport :
    (env : Env) (cfg : Settings) (s : Runtime) (now : Time) (well : Bool)
    → (sample env cfg s).healthy ≡ well
    → IsReport env cfg s (build_status cfg now (noted env cfg s well))
noted-IsReport env cfg s now true is_well =
    well-IsReport env cfg s (note_healthy (env.now s.calls) (sampled_now env cfg s)) now is_well
      (note_healthy-Keeps (env.now s.calls) (sampled_now env cfg s))
noted-IsReport env cfg s now false is_ill = ill-IsReport env cfg s now is_ill

noted-log :
    (env : Env) (cfg : Settings) (s : Runtime) (well : Bool)
    → (back : List Effect) × ((noted env cfg s well).log ≡ back ++ s.log)
unfolding sampled_now
noted-log env cfg s true =
    let (back, same) = (note_healthy-Keeps (env.now s.calls) (sampled_now env cfg s)).log in
    (
      back,
      same ∙ ap (λ l. back ++ l) (sampled-log env (sample env cfg s) (env.now s.calls) (called s)),
    )
noted-log env cfg s false = ([], sampled-log env (sample env cfg s) (env.now s.calls) (called s))

observe-Reports :
    (env : Env) (cfg : Settings) (s : Runtime)
    → ((n : ℕ) → env.write n ≡ none)
    → (st : DaemonStatus) × Adds st s.log (observed env cfg s).log × IsReport env cfg s st
observe-Reports env cfg s writes =
    let well = (sample env cfg s).healthy in
    let t = noted env cfg s well in
    let st = build_status cfg (env.now t.calls) t in
    let (back, same) = noted-log env cfg s well in
    let written : (observed env cfg s).log ≡ wrote_status st ∷ t.log =
      ap (λ o. o.log) (observed_flush env cfg s) ∙ flush_status-writes env cfg t (writes t.calls) in
    (
      st,
      ([], back, written ∙ ap (λ l. wrote_status st ∷ l) same),
      noted-IsReport env cfg s (env.now t.calls) well refl,
    )

-- Where files can be written, each health tick writes a status, after all that was done before it,
-- that tells of its own sample: the time of the tick, the verdict, the start of the outage (this tick,
-- or the earlier one that is known), and the error of the last regeneration or else that of the
-- sample; whether the tick recovers the tunnel, waits, or finds it well.
pub on_health_tick-Reports :
    (env : Env) (cfg : Settings) (s : Runtime)
    → ((n : ℕ) → env.write n ≡ none)
    → (st : DaemonStatus) × Adds st s.log (on_health_tick env cfg s).log × IsReport env cfg s st
unfolding on_health_tick
on_health_tick-Reports env cfg s writes =
    let (st, written, report) = observe-Reports env cfg s writes in
    (
      st,
      react-Tracked env cfg (λ v. Adds st s.log v.log) (Adds-Tracked env st s.log)
          (sample env cfg s) (env.now s.calls) (observed env cfg s) written,
      report,
    )
