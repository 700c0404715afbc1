-- ===== src/PortForward/HandOver/Whole.antt =====
-- Whole runs of the two processes at one state directory (refresh.go, pf_daemon.go).
use pia_wg_config_generator.Base.{List, ◌≡◌, [], All}
use pia_wg_config_generator.PortForward.Daemon.{PfSettings, PfState}
use pia_wg_config_generator.PortForward.Daemon.Acquired.{acquisitions}
use pia_wg_config_generator.PortForward.HandOver.{newest, Interleaved, IsHanded, Advances, KeepsUp}
use pia_wg_config_generator.PortForward.HandOver.Steps.{Interleaved-InStep, InStep-KeepsUp}
use pia_wg_config_generator.Refresh.{Settings, Env, Runtime}
use pia_wg_config_generator.Refresh.Loop.{Tick, run_refresh}
use pia_wg_config_generator.Refresh.HandOver.{Runs, run_refresh-HandsOver}

-- However the effects of a run of the refresh daemon, the polls and the renewals of the
-- port-forwarding daemon take turns, from a state directory without a pending file and under a clock
-- that runs: each lease was acquired for a registration that the refresh daemon had made and handed
-- over, at the gateway of that registration; no hand-over is acquired twice, nor behind a later one;
-- and the newest hand-over is the one acquired last, or it is newer than the active registration, so
-- that a poll takes it up. A poll may fail to read the file at any time.
pub Interleaved-KeepsUp :
    (env : Env) (cfg : Settings) (s : Runtime) (ts : List Tick) (pf : PfSettings) (p : PfState)
    → Runs env.now
    → s.log ≡ []
    → Interleaved pf (run_refresh env cfg s ts).runtime.log p
    → All (IsHanded (run_refresh env cfg s ts).runtime.log) (acquisitions p.log)
      × Advances (acquisitions p.log)
      × KeepsUp (newest (run_refresh env cfg s ts).runtime.log) p
Interleaved-KeepsUp env cfg s ts pf p runs empty i =
    let log = (run_refresh env cfg s ts).runtime.log in
    let over = run_refresh-HandsOver env cfg s ts runs empty in
    let h = Interleaved-InStep pf log p i over in
    (h.handed, h.advances, InStep-KeepsUp log p over h)
