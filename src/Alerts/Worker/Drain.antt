-- ===== src/Alerts/Worker/Drain.antt =====
-- stop delivers everything that the queue holds (alert.go).
use mathlib.Core.List
use pia_wg_config_generator.Base.{
  ℕ, suc, ◌+◌, ◌*◌, ◌≤◌, true, none, List, [], ◌∷◌, ◌++◌, ◌≡◌, ◌≢◌, refl, sym, ◌∙◌, inl, inr, arith,
  length, Option-cases,
}
use pia_wg_config_generator.Alerts.{Event}
use pia_wg_config_generator.Alerts.Worker.{
  Mode, serving, draining, returned, Worker, new_worker, WorkerStep, receive, delivered, saw_done,
  drained, Reached,
}
use pia_wg_config_generator.Alerts.Worker.Order.{
  in_hand, IsInOrder, WorkerStep-IsInOrder, Reached-IsInOrder,
}

-- Steps of the worker alone, by their number.
pub data Work (s : Worker) : ℕ → Worker → Type 0 where
  idle : Work s 0 s
  then_step : {n : ℕ} {t u : Worker} → Work s n t → WorkerStep t u → Work s (suc n) u

-- The worker blocks, or has returned.
abbrev pub IsStuck : Worker → Type 0
IsStuck w = (v : Worker) → ¬ WorkerStep w v

steps_of_mode : Mode → ℕ
steps_of_mode serving = 2
steps_of_mode draining = 1
steps_of_mode returned = 0

-- How many steps are left to the worker, if nothing is sent: two for each event in the queue, one for
-- that in hand, and two to return.
unfoldable pub steps_left : Worker → ℕ
unfolding steps_of_mode
steps_left w = 2 * length w.queue + length (in_hand w.busy) + steps_of_mode w.mode

WorkerStep-steps_left : {s t : Worker} → WorkerStep s t → steps_left t + 1 ≡ steps_left s
unfolding steps_left steps_of_mode
WorkerStep-steps_left (receive w ev rest m b q) = rw (b, q) (omega arith)
WorkerStep-steps_left (delivered w ev b) = rw b (omega arith)
WorkerStep-steps_left (saw_done w m b c) = rw m (omega arith)
WorkerStep-steps_left (drained w m b q) = rw m (omega arith)

Work-steps_left : {s t : Worker} {n : ℕ} → Work s n t → steps_left t + n ≡ steps_left s
Work-steps_left idle = omega arith
Work-steps_left (then_step r st) = omega (arith, Work-steps_left r, WorkerStep-steps_left st)

-- What the worker alone keeps: the accepted events, `closing`, the order, and that it returns with
-- nothing in the queue or in hand.
record Kept (s t : Worker) : Type 0 where
  accepted : t.accepted ≡ s.accepted
  closing : t.closing ≡ s.closing
  order : IsInOrder t
  empty : t.mode ≡ returned → (t.queue ≡ []) × (t.busy ≡ none)

returned-ne : {m : Mode} → m ≢ returned → {n : Mode} → m ≡ n → n ≢ returned
returned-ne h e k = h (e ∙ k)

WorkerStep-Kept : {s t u : Worker} → WorkerStep t u → Kept s t → Kept s u
WorkerStep-Kept (receive w ev rest m b q) h = record {
  accepted = h.accepted;
  closing = h.closing;
  order = WorkerStep-IsInOrder (receive w ev rest m b q) h.order;
  empty = λ r. absurd (m r);
}
WorkerStep-Kept (delivered w ev b) h = record {
  accepted = h.accepted;
  closing = h.closing;
  order = WorkerStep-IsInOrder (delivered w ev b) h.order;
  empty = λ r. ((h.empty r).0, refl);
}
WorkerStep-Kept (saw_done w m b c) h = record {
  accepted = h.accepted;
  closing = h.closing;
  order = WorkerStep-IsInOrder (saw_done w m b c) h.order;
  empty = λ r. absurd (cc);
}
WorkerStep-Kept (drained w m b q) h = record {
  accepted = h.accepted;
  closing = h.closing;
  order = WorkerStep-IsInOrder (drained w m b q) h.order;
  empty = λ r. (q, b);
}

Work-Kept : {s t : Worker} {n : ℕ} → IsInOrder s → s.mode ≢ returned → Work s n t → Kept s t
Work-Kept h m idle = record {
  accepted = refl;
  closing = refl;
  order = h;
  empty = λ r. absurd (m r);
}
Work-Kept h m (then_step r st) = WorkerStep-Kept st (Work-Kept h m r)

-- A worker that blocks once `done` is closed has returned.
returned_of_IsStuck : (w : Worker) → w.closing ≡ true → IsStuck w → w.mode ≡ returned
returned_of_IsStuck w c stuck = elim (Option-cases w.busy) [
  | inr (ev, b) ↦ absurd (stuck _ (delivered w ev b))
  | inl b ↦ by_mode b w.mode refl
]
  where
    by_queue :
        w.busy ≡ none → w.mode ≡ draining → (q : List Event) → w.queue ≡ q → w.mode ≡ returned
    by_queue b m [] e = absurd (stuck _ (drained w m b e))
    by_queue b m (ev ∷ rest) e =
        absurd (stuck _ (receive w ev rest (λ r. not_both (sym m ∙ r)) b e))
      where
        not_both : draining ≡ returned → ⊥
        not_both h = cc

    by_mode : w.busy ≡ none → (m : Mode) → w.mode ≡ m → w.mode ≡ returned
    by_mode b serving m = absurd (stuck _ (saw_done w m b c))
    by_mode b draining m = by_queue b m w.queue refl
    by_mode b returned m = m

-- While nothing is sent, the worker makes no more steps than `steps_left` counts.
pub Work-le-steps_left : {s t : Worker} {n : ℕ} → Work s n t → n ≤ steps_left s
Work-le-steps_left work = omega (arith, Work-steps_left work)

steps_left-none : (t : Worker) → t.queue ≡ [] → t.busy ≡ none → t.mode ≡ returned → steps_left t ≡ 0
unfolding steps_left steps_of_mode
steps_left-none t q b gone = rw (q, b, gone) refl

-- From every reachable state in which stop has closed `done` and the worker has not returned, while
-- nothing is sent: where the worker can make no more steps, it has returned, every event that the
-- queue had accepted is delivered, in order, and it took as many steps as `steps_left` counts.
pub stop_drains :
    (s t : Worker) (n : ℕ)
    → Reached new_worker s
    → s.closing ≡ true
    → s.mode ≢ returned
    → Work s n t
    → IsStuck t
    → (t.mode ≡ returned) × (t.handled ≡ s.accepted) × (n ≡ steps_left s)
stop_drains s t n r c m work stuck =
    let kept = Work-Kept (Reached-IsInOrder r) m work in
    let gone = returned_of_IsStuck t (kept.closing ∙ c) stuck in
    let (q, b) = kept.empty gone in
    let all : t.accepted ≡ t.handled ++ [] = rw (q, b) at kept.order.order in
    (
      gone,
      sym (all ∙ List.append-nil t.handled) ∙ kept.accepted,
      omega (arith, Work-steps_left work, steps_left-none t q b gone),
    )
