-- ===== src/Orchestration/FrameDispatcher/Loop.antt =====
-- The background loop of the dispatcher (`_run_loop`, `start` and `_emit_identity_unavailable_flag`
-- of orchestration/_frame_dispatcher.py), and its run beside the handler that fills the buffer.
pub mod Sessions
pub mod Handover
pub mod Counts
pub mod Spoofing
pub mod Interleavings
use ai_proctor_engine.Base.{
  ℕ, ◌+◌, Bool, true, false, List, [], ◌∷◌, if◌then◌else◌, Outcome, ok, raised, attribute_error,
  Raised,
}
use ai_proctor_engine.Floats.{FloatOps}
use ai_proctor_engine.Fusion.Aggregator.{SessionAggregator}
use ai_proctor_engine.Websocket.Messages.{ClientMessage}
use ai_proctor_engine.Websocket.EventBuffer.{BufferedEvent, TelemetryEventBuffer, push, drain}
use ai_proctor_engine.Orchestration.FrameDispatcher.{
  FrameDispatcherConfig, FrameDispatcher, World, Control, proceed, finished, escaped, Step,
  count_error,
}
use ai_proctor_engine.Orchestration.FrameDispatcher.Handlers.{dispatch_event}

-- The state of `__init__`, with the aggregator's.
abbrev pub start_dispatcher : {F : Type 0} → SessionAggregator F → FrameDispatcher F
start_dispatcher agg = record {
  aggregator = agg;
  heavy_frame_seq = 0;
  event_id_to_buffered = [];
  flag_decisions = [];
  processed_count = 0;
  error_count = 0;
}

-- The end of one event: it is counted, or the exception that left its handler is.
unfoldable pub settle : {F : Type 0} → Step F → FrameDispatcher F
unfolding count_error
settle (proceed, d) = record d { processed_count = d.processed_count + 1 }
settle (finished, d) = record d { processed_count = d.processed_count + 1 }
settle (escaped e, d) = count_error d

-- `_emit_identity_unavailable_flag` asks the dispatcher for `_decision_queue`, which no method sets.
unfoldable pub emit_identity_unavailable_flag :
    {F : Type 0} → FrameDispatcher F → Outcome {0} Unit × FrameDispatcher F
emit_identity_unavailable_flag d = (raised attribute_error, d)

-- `start`, once: the thread runs, and then the flag is emitted where the configuration asks for it.
unfoldable pub start :
    {F : Type 0}
    → FrameDispatcherConfig F
    → FrameDispatcher F
    → Outcome {0} Unit × FrameDispatcher F
unfolding emit_identity_unavailable_flag
start config d =
    if config.identity_backend_unavailable then emit_identity_unavailable_flag d else (ok tt, d)

module _ {F A : Type 0} ⦃ops : FloatOps F⦄ (config : FrameDispatcherConfig F)
    (world : ℕ → World F A) where
  -- The events of a batch, each in the world of its sequence number, up to the stop.
  unfoldable pub run_batch :
      (ℕ → Bool) → List (BufferedEvent (ClientMessage F)) → FrameDispatcher F → FrameDispatcher F
  unfolding settle dispatch_event
  run_batch stopped [] d = d
  run_batch stopped (event ∷ events) d =
      let rest =
        run_batch stopped events (settle (dispatch_event config (world event.seq) event d)) in
      if stopped event.seq then d else rest
