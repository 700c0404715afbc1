-- ===== src/Alerts/Worker/Order.antt =====
-- The queue is bounded, and delivers in order (alert.go).
use mathlib.Core.List
use pia_wg_config_generator.Base.{
  ◌≤◌, Option, none, some, List, [], ◌∷◌, ◌++◌, ◌≡◌, refl, sym, ap, ◌∙◌, inl, inr, arith, ltb,
  length, length-append, Bool-cases,
}
use pia_wg_config_generator.Alerts.{Event}
use pia_wg_config_generator.Alerts.Worker.{
  alert_queue_size, Worker, new_worker, send, WorkerStep, receive, delivered, saw_done, drained,
  SystemStep, sent, stopping, worked, Reached, at_start, further,
}

-- The event that is being delivered, as a list.
abbrev pub in_hand : Option Event → List Event
in_hand none = []
in_hand (some ev) = ev ∷ []

-- The accepted events are those delivered, the one in hand, and those in the queue, in this order; the
-- queue has eight at most.
pub record IsInOrder (w : Worker) : Type 0 where
  pub order : w.accepted ≡ w.handled ++ (in_hand w.busy ++ w.queue)
  pub bounded : length w.queue ≤ alert_queue_size

send-IsInOrder : (ev : Event) (w : Worker) → IsInOrder w → IsInOrder (send ev w)
unfolding send
send-IsInOrder ev w h = elim (Bool-cases (ltb (length w.queue) alert_queue_size)) [
  | inl room ↦ rw room (record {
    order =
        ap (λ (es : List Event). es ++ (ev ∷ [])) h.order
        ∙ List.append_assoc w.handled (in_hand w.busy ++ w.queue) (ev ∷ [])
        ∙ ap (λ (es : List Event). w.handled ++ es)
            (List.append_assoc (in_hand w.busy) w.queue (ev ∷ []));
    bounded = ground (arith, room, length-append w.queue (ev ∷ []));
  })
  | inr full ↦ rw full (record { order = h.order; bounded = h.bounded })
]

pub WorkerStep-IsInOrder : {w v : Worker} → WorkerStep w v → IsInOrder w → IsInOrder v
WorkerStep-IsInOrder (receive w ev rest m b q) h = record {
  order =
      h.order
      ∙ ap (λ (es : List Event). w.handled ++ es)
          (ap (λ (o : Option Event). in_hand o ++ w.queue) b ∙ q);
  bounded = omega (arith, h.bounded, ap (λ (es : List Event). length es) q);
}
WorkerStep-IsInOrder (delivered w ev b) h = record {
  order =
      h.order
      ∙ ap (λ (o : Option Event). w.handled ++ (in_hand o ++ w.queue)) b
      ∙ sym (List.append_assoc w.handled (ev ∷ []) w.queue);
  bounded = h.bounded;
}
WorkerStep-IsInOrder (saw_done w m b c) h = record { order = h.order; bounded = h.bounded }
WorkerStep-IsInOrder (drained w m b q) h = record { order = h.order; bounded = h.bounded }

SystemStep-IsInOrder : {w v : Worker} → SystemStep w v → IsInOrder w → IsInOrder v
SystemStep-IsInOrder (sent w ev) h = send-IsInOrder ev w h
SystemStep-IsInOrder (stopping w) h = record { order = h.order; bounded = h.bounded }
SystemStep-IsInOrder (worked st) h = WorkerStep-IsInOrder st h

new_worker-IsInOrder : IsInOrder new_worker
new_worker-IsInOrder = record { order = refl; bounded = omega arith }

-- However the senders, stop and the worker take turns from the start, the queue has eight events at
-- most, and the events delivered so far are the first ones that it accepted, in the order of the
-- sends; the one in hand and those in the queue are the others.
pub Reached-IsInOrder : {w : Worker} → Reached new_worker w → IsInOrder w
Reached-IsInOrder at_start = new_worker-IsInOrder
Reached-IsInOrder (further r st) = SystemStep-IsInOrder st (Reached-IsInOrder r)
