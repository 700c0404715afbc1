-- ===== src/Refresh/Regenerate/Kept.antt =====
-- What one regeneration leaves alone (refresh.go, regenerateOnce).
use pia_wg_config_generator.Base.{Option, none, some, [], arith}
use pia_wg_config_generator.Base.Text.{Text}
use pia_wg_config_generator.Clock.{Time}
use pia_wg_config_generator.Api.{GenerateResult}
use pia_wg_config_generator.Refresh.{
  Settings, Env, Runtime, Error, Generated, generated, not_generated, called, emit, registered,
}
use pia_wg_config_generator.Refresh.Schedule.{flush_status}
use pia_wg_config_generator.Refresh.Frame.{
  Keeps, Keeps-refl, Keeps-trans, flush_status-Keeps, arm_next_refresh-Keeps,
  note_failed_attempt-Keeps,
}
use pia_wg_config_generator.Refresh.Regenerate.{
  Outcome, and_then, write_config, record_birth, hand_to_pf, config_hook, restart_gluetun, applied,
  apply_config, after_generate, regenerate_once, after_failure,
}

and_then-Keeps :
    (s : Runtime) (o : Outcome) (next : Runtime → Outcome)
    → Keeps s o.0
    → ((t : Runtime) → Keeps s t → Keeps s (next t).0)
    → Keeps s (and_then o next).0
and_then-Keeps s (t, none) next h k = k t h
and_then-Keeps s (t, some e) next h k = h

write_config-Keeps :
    (gen : GenerateResult) (written : Option Text) (s : Runtime)
    → Keeps s (write_config gen written s).0
unfolding write_config
write_config-Keeps gen (some e) s = Keeps-refl s
write_config-Keeps gen none s = ground arith

hand_to_pf-Keeps :
    (env : Env) (cfg : Settings) (gen : GenerateResult) (s : Runtime)
    → Keeps s (hand_to_pf env cfg gen s).0
unfolding hand_to_pf
hand_to_pf-Keeps env cfg gen s = ground arith

record_birth-Keeps : (env : Env) (now : Time) (s : Runtime) → Keeps s (record_birth env now s)
unfolding record_birth
record_birth-Keeps env now s = ground arith

config_hook-Keeps : (cfg : Settings) (s : Runtime) → Keeps s (config_hook cfg s)
unfolding config_hook
config_hook-Keeps cfg s = ground arith

restart_gluetun-Keeps :
    (env : Env) (cfg : Settings) (s : Runtime) → Keeps s (restart_gluetun env cfg s).0
unfolding restart_gluetun
restart_gluetun-Keeps env cfg s = ground arith

applied-Keeps :
    (env : Env) (cfg : Settings) (now : Time) (s : Runtime) → Keeps s (applied env cfg now s).0
unfolding applied
applied-Keeps env cfg now s =
    let t : Runtime = record s { last_generate = now; regen_error = [] } in
    Keeps-trans s t _ (ground arith) (arm_next_refresh-Keeps env cfg t)

apply_config-Keeps :
    (env : Env) (cfg : Settings) (now : Time) (gen : GenerateResult) (s : Runtime)
    → Keeps s (apply_config env cfg now gen s).0
unfolding apply_config
apply_config-Keeps env cfg now gen s =
    and_then-Keeps s (write_config gen (env.write s.calls) (called s)) _
      (Keeps-trans s (called s) _ (ground arith)
        (write_config-Keeps gen (env.write s.calls) (called s)))
      λ t h.
        and_then-Keeps s (hand_to_pf env cfg gen (record_birth env now t)) _
          (Keeps-trans s t _ h (
            Keeps-trans t (record_birth env now t) _ (record_birth-Keeps env now t)
              (hand_to_pf-Keeps env cfg gen (record_birth env now t))))
          λ u k.
            and_then-Keeps s (restart_gluetun env cfg (config_hook cfg u)) _
              (Keeps-trans s u _ k (
                Keeps-trans u (config_hook cfg u) _ (config_hook-Keeps cfg u)
                  (restart_gluetun-Keeps env cfg (config_hook cfg u))))
              λ v m. Keeps-trans s v _ m (applied-Keeps env cfg now v)

-- The state behind the generation, with its registration if it made one.
abbrev pub behind_generation : Generated → Runtime → Runtime
behind_generation (not_generated e) s = s
behind_generation (generated gen) s = emit (registered gen) s

after_generate-Keeps :
    (env : Env) (cfg : Settings) (now : Time) (g : Generated) (s : Runtime)
    → Keeps (behind_generation g s) (after_generate env cfg now g s).0
unfolding after_generate
after_generate-Keeps env cfg now (not_generated e) s = Keeps-refl s
after_generate-Keeps env cfg now (generated gen) s =
    apply_config-Keeps env cfg now gen (emit (registered gen) s)

pub regenerate_once-Keeps :
    (env : Env) (cfg : Settings) (s : Runtime)
    → Keeps (behind_generation (env.generate s.calls) s) (regenerate_once env cfg s).0
unfolding regenerate_once
regenerate_once-Keeps env cfg s =
    Keeps-trans _ (behind_generation (env.generate s.calls) (called s)) _
      (counted (env.generate s.calls))
      (after_generate-Keeps env cfg (env.now s.calls) (env.generate s.calls) (called s))
  where
    counted : (g : Generated) → Keeps (behind_generation g s) (behind_generation g (called s))
    counted (not_generated e) = ground arith
    counted (generated gen) = ground arith

pub after_failure-Keeps :
    (env : Env) (cfg : Settings) (e : Error) (s : Runtime) → Keeps s (after_failure env cfg e s)
unfolding after_failure
after_failure-Keeps env cfg e s =
    let noted : Runtime = record s { regen_error = env.redacted e } in
    let flushed : Runtime = flush_status env cfg noted in
    Keeps-trans s noted _ (ground arith) (
      Keeps-trans noted flushed _ (flush_status-Keeps env cfg noted) (
        Keeps-trans flushed (called flushed) _ (ground arith)
          (note_failed_attempt-Keeps cfg _ _ (called flushed))))
