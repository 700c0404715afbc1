-- ===== src/Alerts/Worker.antt =====
-- The queue of alertDispatcher (alert.go): send, start and stop. The senders, stop and the worker take
-- turns in any order; the worker's select may take either channel that is ready.
pub mod Order
pub mod Drain
use pia_wg_config_generator.Base.{
  ℕ, Bool, true, false, Option, none, some, List, [], ◌∷◌, ◌++◌, ◌≡◌, ◌≢◌, ltb, length,
  if◌then◌else◌,
}
use pia_wg_config_generator.Alerts.{Event}

-- alertQueueSize
abbrev pub alert_queue_size : ℕ
alert_queue_size = 8

-- Where the worker stands: in its loop, in the loop that drains the queue, or behind its return.
pub data Mode : Type 0 where
  serving draining returned : Mode

-- The queue with the oldest event first, the event being delivered, and whether `done` is closed. The
-- last three fields are history: the events that the queue took, those that it dropped (the newest
-- first), and those delivered.
pub record Worker : Type 0 where
  pub queue : List Event
  pub busy : Option Event
  pub mode : Mode
  pub closing : Bool
  pub accepted : List Event
  pub dropped : List Event
  pub handled : List Event

abbrev pub new_worker : Worker
new_worker = record {
  queue = [];
  busy = none;
  mode = serving;
  closing = false;
  accepted = [];
  dropped = [];
  handled = [];
}

-- send: never blocks, and drops the event if the queue is full.
unfoldable pub send : Event → Worker → Worker
send ev w =
    if ltb (length w.queue) alert_queue_size
    then record w { queue = w.queue ++ (ev ∷ []); accepted = w.accepted ++ (ev ∷ []) }
    else record w { dropped = ev ∷ w.dropped }

-- The steps of the goroutine of start.
pub data WorkerStep : Worker → Worker → Type 0 where
  receive :
      (w : Worker) (ev : Event) (rest : List Event)
      → w.mode ≢ returned
      → w.busy ≡ none
      → w.queue ≡ ev ∷ rest
      → WorkerStep w (record w { queue = rest; busy = some ev })
  delivered :
      (w : Worker) (ev : Event)
      → w.busy ≡ some ev
      → WorkerStep w (record w { busy = none; handled = w.handled ++ (ev ∷ []) })
  saw_done :
      (w : Worker)
      → w.mode ≡ serving
      → w.busy ≡ none
      → w.closing ≡ true
      → WorkerStep w (record w { mode = draining })
  drained :
      (w : Worker)
      → w.mode ≡ draining
      → w.busy ≡ none
      → w.queue ≡ []
      → WorkerStep w (record w { mode = returned })

-- A step of anyone; `stopping` is `close(d.done)` of stop.
pub data SystemStep : Worker → Worker → Type 0 where
  sent : (w : Worker) (ev : Event) → SystemStep w (send ev w)
  stopping : (w : Worker) → SystemStep w (record w { closing = true })
  worked : {w v : Worker} → WorkerStep w v → SystemStep w v

pub data Reached (s : Worker) : Worker → Type 0 where
  at_start : Reached s s
  further : {t u : Worker} → Reached s t → SystemStep t u → Reached s u
