-- ===== src/Tests/OutageTests.antt =====
-- The outage policy at concrete histories.
use pia_wg_config_generator.Base.{List, [], ◌∷◌, ◌++◌, ◌≡◌, refl, arith}
use pia_wg_config_generator.Base.Int.{pos, wrap64, sat64, ◌+ℤ◌, ◌-ℤ◌}
use pia_wg_config_generator.Clock.{sub}
use pia_wg_config_generator.Outage.{new_outage_policy, failure, healthy}
use pia_wg_config_generator.Outage.Notices.{
  Event, failed, seen_healthy, failure_alert, recovered, step, run, failures_at, run_outage,
}

abbrev history : List Event
history = failed (pos 10) ∷ failed (pos 20) ∷ seen_healthy (pos 30) ∷ failed (pos 40) ∷ []

history_sends :
    (run (new_outage_policy (pos 2)) history).1
    ≡ failure_alert (pos 2) ∷ recovered (pos 20) (pos 2) ∷ []
unfolding run step failure healthy new_outage_policy sub wrap64 sat64 ◌+ℤ◌ ◌-ℤ◌
history_sends = refl

run_outage_example :
    run
      (new_outage_policy (pos 3))
      (failures_at (pos 7 ∷ pos 8 ∷ pos 9 ∷ pos 11 ∷ []) ++ seen_healthy (pos 20) ∷ [])
    ≡ (
      new_outage_policy (pos 3),
      failure_alert (pos 3) ∷ recovered (sub (pos 20) (pos 7)) (pos 4) ∷ [],
    )
run_outage_example = run_outage 2 (pos 7) (pos 20) (pos 8 ∷ pos 9 ∷ pos 11 ∷ []) refl (omega arith)
