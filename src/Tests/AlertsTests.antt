-- ===== src/Tests/AlertsTests.antt =====
-- The delivery of two alerts, and a hook's output in pieces.
use pia_wg_config_generator.Base.{true, none, [], ◌∷◌, ◌≡◌, ◌≢◌, refl, All}
use pia_wg_config_generator.Base.Int.{pos}
use pia_wg_config_generator.Base.Text.{codes}
use pia_wg_config_generator.Clock.{seconds}
use pia_wg_config_generator.Alerts.{
  Dispatcher, Event, ProcessEnv, hook_env, alert_event_failure, alert_event_recovered,
}
use pia_wg_config_generator.Alerts.HookEnv.{IsNoCredential, hook_env-IsNoCredential}
use pia_wg_config_generator.Alerts.Worker.{
  serving, returned, Worker, new_worker, send, WorkerStep, receive, delivered, saw_done, drained,
  sent, stopping, Reached, at_start, further,
}
use pia_wg_config_generator.Alerts.Worker.Order.{IsInOrder, Reached-IsInOrder}
use pia_wg_config_generator.Alerts.Worker.Drain.{Work, idle, then_step, steps_left, stop_drains}

abbrev dispatcher : Dispatcher
dispatcher = record {
  failure_cmd = codes "notify";
  recovered_cmd = [];
  region = codes "nl";
  timeout = seconds 15;
}

abbrev failed : Event
failed = record {
  kind = alert_event_failure;
  message = codes "m";
  attempts = pos 3;
  outage = pos 0;
}

abbrev recovered : Event
recovered = record {
  kind = alert_event_recovered;
  message = codes "m";
  attempts = pos 3;
  outage = seconds 90;
}

-- The environment of a container that holds the account's password.
abbrev process : ProcessEnv
process = record {
  lookup = λ key. none;
  environ = codes "PIA_PASSWORD=secret" ∷ codes "PIA_WG_ALERT_WEBHOOK=http://hook" ∷ [];
}

hook_env-IsNoCredential_example : All IsNoCredential (hook_env dispatcher process recovered)
hook_env-IsNoCredential_example = hook_env-IsNoCredential dispatcher process recovered

-- Both events are queued, and `done` is closed.
abbrev stopped : Worker
stopped = record new_worker {
  queue = failed ∷ recovered ∷ [];
  accepted = failed ∷ recovered ∷ [];
  closing = true;
}

stopped_is_Reached : Reached new_worker stopped
unfolding send
stopped_is_Reached =
    further (further (further at_start (sent _ failed)) (sent _ recovered)) (stopping _)

Reached-IsInOrder_example : IsInOrder stopped
Reached-IsInOrder_example = Reached-IsInOrder stopped_is_Reached

abbrev finished : Worker
finished = record stopped { queue = []; mode = returned; handled = failed ∷ recovered ∷ [] }

serving-ne : serving ≢ returned
serving-ne h = cc

six_steps : Work stopped 6 finished
six_steps =
    then_step
      (then_step
        (then_step
          (then_step
            (then_step (then_step idle (receive _ failed (recovered ∷ []) serving-ne refl refl))
              (delivered _ failed refl))
            (receive _ recovered [] serving-ne refl refl))
          (delivered _ recovered refl))
        (saw_done _ refl refl refl))
      (drained _ refl refl refl)

stuck_if_returned : {w v : Worker} → w.mode ≡ returned → w.busy ≡ none → ¬ WorkerStep w v
stuck_if_returned m b (receive w ev rest n c q) = n m
stuck_if_returned m b (delivered w ev c) = cc
stuck_if_returned m b (saw_done w n c d) = cc
stuck_if_returned m b (drained w n c q) = cc

stop_drains_example :
    (finished.mode ≡ returned) × (finished.handled ≡ stopped.accepted) × (6 ≡ steps_left stopped)
stop_drains_example =
    stop_drains stopped finished 6 stopped_is_Reached refl serving-ne six_steps
      (λ v. stuck_if_returned refl refl)
