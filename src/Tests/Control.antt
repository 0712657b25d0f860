-- ===== src/Tests/Control.antt =====
-- The state machine, the scheduler, the event buffer and the delivery service on concrete inputs.
use ai_proctor_engine.Base.{
  String, ◌+◌, ◌*◌, ◌≤◌, ◌<◌, ◌≡◌, refl, ◌==◌, true, false, any, some, List, [], ◌∷◌, length, inl,
  arith,
}
use ai_proctor_engine.Orchestration.StateMachine.{
  SessionStatus, pending, active, terminated, reinstated, StoredSession,
}
use ai_proctor_engine.Orchestration.StateMachine.Histories.{
  rank, request, Closed, request-rank, terminated_stays_Closed,
}
use ai_proctor_engine.Preprocessing.Scheduler.{
  ModalityScheduler, identity_match, liveness, code, period_for, decide_for_frame, should_run,
  modalities_to_run, modalities_to_skip,
}
use ai_proctor_engine.Preprocessing.Scheduler.Cadence.{runs_in, runs_in-rate, should_run-lists}
use ai_proctor_engine.Websocket.EventBuffer.{TelemetryEventBuffer, make_buffer}
use ai_proctor_engine.Websocket.EventBuffer.Refinement.{
  Action, pushes, drains, serve as serve_buffer, batches_of, lost, serve-refines,
}
use ai_proctor_engine.Websocket.Delivery.{DeliveryService, make_service}
use ai_proctor_engine.Websocket.Delivery.Retries.{
  Call, acks, prepares, retries, serve, upto, InFlight, serve-bounded, serve-InFlight,
}

abbrev session : SessionStatus → StoredSession
session s = record { status = s; committed = s }

abbrev targets : List SessionStatus
targets = active ∷ pending ∷ terminated ∷ active ∷ reinstated ∷ []

request-rank_example :
    let (granted, end) = request targets (session pending) in
    (length granted + 0 ≤ rank end.status) × (rank end.status ≤ 4) × (end.committed ≡ end.status)
request-rank_example = request-rank targets (session pending) refl

terminated_stays_Closed_example : Closed (request targets (session terminated)).1.status
terminated_stays_Closed_example = terminated_stays_Closed targets (session terminated) (inl refl)

abbrev scheduler : ModalityScheduler
scheduler = record {
  head_pose_period = 1;
  object_detection_period = 1;
  identity_match_period = 5;
  liveness_period = 3;
}

should_run-lists_example :
    let decision = decide_for_frame scheduler 10 in
    (should_run decision identity_match ≡ true)
    × (any (λ m. code m == 2) (modalities_to_run decision) ≡ true)
    × (any (λ m. code m == 2) (modalities_to_skip decision) ≡ false)
unfolding period_for code
should_run-lists_example = should_run-lists scheduler identity_match 10

runs_in-rate_example :
    (7 ≤ runs_in scheduler liveness 7 * 3) × (runs_in scheduler liveness 7 * 3 < 7 + 3)
unfolding period_for
runs_in-rate_example = runs_in-rate scheduler liveness (omega arith) 7

abbrev actions : List (Action String)
actions = pushes "a" 1 ∷ pushes "b" 2 ∷ pushes "c" 3 ∷ drains ∷ pushes "d" 4 ∷ drains ∷ []

abbrev buffer : TelemetryEventBuffer String
buffer = record { maxlen = 2; buf = []; next_seq = 0; dropped = 0 }

serve-refines_example :
    let (batches, end) = serve_buffer actions buffer in
    (batches ≡ batches_of 2 0 [] actions) × (end.dropped ≡ 1)
unfolding make_buffer lost
serve-refines_example = serve-refines 2 buffer actions refl

abbrev calls : List Call
calls =
    acks
    ∷ prepares "f" "second person" 0
    ∷ retries 10 10
    ∷ retries 40 41
    ∷ acks
    ∷ prepares "g" "gaze" 50
    ∷ retries 90 91
    ∷ []

serve-bounded_example :
    let sent = (serve calls (make_service 30 1)).0 in
    (sent.acks_sent ≡ upto 0 (length sent.acks_sent)) × (sent.resends ≤ sent.kills * 1)
serve-bounded_example = serve-bounded 30 1 calls

abbrev waiting : DeliveryService
waiting = record (make_service 30 1) {
  pending_kill = some (record { flag_id = "f"; sent_at = 0; retries = 0 });
}

serve-InFlight_example :
    let (sent, end) = serve calls waiting in InFlight "f" end × (sent.kills ≡ 0)
serve-InFlight_example =
    serve-InFlight "f" calls waiting (refl, refl) (tt, (tt, (tt, (tt, (tt, (tt, (tt, tt)))))))
