-- ===== src/Refresh/HandOver.antt =====
-- What the refresh daemon hands to the port-forwarding daemon (refresh.go, regenerateOnce and
-- writePendingPortForward): for which registrations, and when.
use mathlib.Core.List.{Memᴰ}
use pia_wg_config_generator.Base.{
  ℕ, zero, suc, ◌+◌, List, [], ◌∷◌, ◌≡◌, All, All-map, Bool-cases, inl, inr, refl, arith,
}
use pia_wg_config_generator.Base.Int.{◌<ℤ◌}
use pia_wg_config_generator.Clock.{Time, zero_time}
use pia_wg_config_generator.Api.{GenerateResult}
use pia_wg_config_generator.Tunnel.{TunnelState}
use pia_wg_config_generator.Refresh.{
  Settings, Env, Runtime, Effect, registered, wrote_config, wrote_pending, ran_config_hook,
  asked_restart, wrote_status, alerted, slept,
}
use pia_wg_config_generator.Refresh.Outcome.{fold_sample}
use pia_wg_config_generator.Refresh.Loop.{Tick, run_refresh}
use pia_wg_config_generator.Refresh.Views.{View, view, log_on, IsSilent, IsTracked}
use pia_wg_config_generator.Refresh.Views.Runs.{run_refresh-Tracked}

-- A clock that runs: it shows no zero time, and each call reads a later time than the one before.
pub record Runs (now : ℕ → Time) : Type 0 where
  pub start : zero_time <ℤ now 0
  pub forward : (n : ℕ) → now n <ℤ now (n + 1)

-- An effect that hands nothing over at a time that is not between zero and `t`.
abbrev pub HandsBefore : Time → Effect → Type 0
HandsBefore t (wrote_pending u key) = (zero_time <ℤ u) × (u <ℤ t)
HandsBefore t _ = Unit

-- Each key that is handed over is that of a registration made before, and it carries a later time
-- than all that were handed over before it.
abbrev pub HandsOver : List Effect → Type 0
HandsOver [] = Unit
HandsOver (wrote_pending t key ∷ log) =
    (zero_time <ℤ t)
    × ((gen : GenerateResult) × (gen.key ≡ key) × Memᴰ (registered gen) log)
    × All (HandsBefore t) log
    × HandsOver log
HandsOver (_ ∷ log) = HandsOver log

record Handing (env : Env) (v : View) : Type 0 where
  log : HandsOver v.log
  before : All (HandsBefore (env.now v.calls)) v.log

silent-HandsOver :
    (e : Effect) (log : List Effect) → IsSilent e → HandsOver log → HandsOver (e ∷ log)
silent-HandsOver (registered gen) log q h = h
silent-HandsOver (wrote_config text) log q h = h
silent-HandsOver (wrote_pending t key) log q h = absurd q
silent-HandsOver (ran_config_hook cmd) log q h = h
silent-HandsOver (asked_restart name) log q h = h
silent-HandsOver (wrote_status st) log q h = h
silent-HandsOver (alerted e) log q h = h
silent-HandsOver (slept d) log q h = h

silent-HandsBefore : (t : Time) (e : Effect) → IsSilent e → HandsBefore t e
silent-HandsBefore t (registered gen) q = tt
silent-HandsBefore t (wrote_config text) q = tt
silent-HandsBefore t (wrote_pending u key) q = absurd q
silent-HandsBefore t (ran_config_hook cmd) q = tt
silent-HandsBefore t (asked_restart name) q = tt
silent-HandsBefore t (wrote_status st) q = tt
silent-HandsBefore t (alerted e) q = tt
silent-HandsBefore t (slept d) q = tt

lt_trans : (a b c : Time) → a <ℤ b → b <ℤ c → a <ℤ c
lt_trans a b c h k = ground arith

HandsBefore_later : (t u : Time) → t <ℤ u → (e : Effect) → HandsBefore t e → HandsBefore u e
HandsBefore_later t u h (registered gen) b = tt
HandsBefore_later t u h (wrote_config text) b = tt
HandsBefore_later t u h (wrote_pending v key) (p, b) = (p, lt_trans v t u b h)
HandsBefore_later t u h (ran_config_hook cmd) b = tt
HandsBefore_later t u h (asked_restart name) b = tt
HandsBefore_later t u h (wrote_status st) b = tt
HandsBefore_later t u h (alerted e) b = tt
HandsBefore_later t u h (slept d) b = tt

all_later :
    (t u : Time) → t <ℤ u → (log : List Effect) → All (HandsBefore t) log → All (HandsBefore u) log
all_later t u h = All-map (HandsBefore t) (HandsBefore u) (HandsBefore_later t u h)

after_start : (now : ℕ → Time) → Runs now → (n : ℕ) → zero_time <ℤ now n
after_start now runs zero = runs.start
after_start now runs (suc n) =
    let same : suc n ≡ n + 1 = omega arith in
    rw same (lt_trans zero_time (now n) (now (n + 1)) (after_start now runs n) (runs.forward n))

module _ (env : Env) (runs : Runs env.now) where
  sampled-Handing :
      (st : TunnelState) (n : ℕ) (s : Runtime)
      → Handing env (view s)
      → Handing env (view (fold_sample env st (env.now n) s))
  unfolding fold_sample
  sampled-Handing st n s h = elim (Bool-cases st.healthy) [
    | inl well ↦ rw well (record { log = h.log; before = h.before })
    | inr ill ↦ rw ill (record { log = h.log; before = h.before })
  ]

  pending-Handing :
      (v : View) (gen : GenerateResult)
      → Memᴰ (registered gen) v.log
      → Handing env v
      → Handing env
          (log_on (wrote_pending (env.now v.calls) gen.key) (record v { calls = v.calls + 1 }))
  pending-Handing v gen made h =
      let ran = after_start env.now runs v.calls in
      let next = runs.forward v.calls in
      record {
        log = (ran, (gen, refl, made), h.before, h.log);
        before =
            ((ran, next), all_later (env.now v.calls) (env.now (v.calls + 1)) next v.log h.before);
      }

  Handing-Tracked : IsTracked env (Handing env)
  Handing-Tracked = record {
    called = λ v h. record {
      log = h.log;
      before =
          all_later (env.now v.calls) (env.now (v.calls + 1)) (runs.forward v.calls) v.log h.before;
    };
    silent = λ v e quiet h. record {
      log = silent-HandsOver e v.log quiet h.log;
      before = (silent-HandsBefore (env.now v.calls) e quiet, h.before);
    };
    status = λ v st shows h. record { log = h.log; before = (tt, h.before) };
    pending = pending-Handing;
    alert = λ v n region cause known h. record { log = h.log; before = (tt, h.before) };
    no_error = λ v h. record { log = h.log; before = h.before };
    some_error = λ v e h. record { log = h.log; before = h.before };
    sample = sampled-Handing;
  }

-- In every run of the refresh daemon from its start, under a clock that runs: each key that it hands
-- over is that of a registration it made before, and each hand-over carries a later time than all
-- before it.
pub run_refresh-HandsOver :
    (env : Env) (cfg : Settings) (s : Runtime) (ts : List Tick)
    → Runs env.now
    → s.log ≡ []
    → HandsOver (run_refresh env cfg s ts).runtime.log
run_refresh-HandsOver env cfg s ts runs empty =
    (run_refresh-Tracked env cfg (Handing env) (Handing-Tracked env runs) s ts
      (record { log = rw empty tt; before = rw empty tt })).log
