-- ===== src/Orchestration/FrameDispatcher.antt =====
-- The dispatcher of one session's messages (`FrameDispatcher` of orchestration/_frame_dispatcher.py):
-- its state, and the handler of each kind of message. What a handler meets outside this code when an
-- event is dispatched (the new UUID, the inference modules, the clock) is one `World` per event.
pub mod FaceBox
pub mod HeavyFrames
pub mod Handlers
pub mod Wiring
pub mod Moves
pub mod Loop
use ai_proctor_engine.Base.{
  ℕ, String, ◌+◌, Bool, true, false, Option, none, some, List, [], ◌∷◌, ◌++◌, ◌==◌, if◌then◌else◌,
  Outcome, ok, raised, Raised,
}
use ai_proctor_engine.Floats.{FloatOps}
use ai_proctor_engine.Inference.{
  HeadPoseGazeResult, IdentityMatchResult, LivenessResult, ObjectDetectionResult, AudioVadResult,
}
use ai_proctor_engine.Fusion.Types.{FlagDecision, PolicySnapshot, SessionContext}
use ai_proctor_engine.Fusion.Aggregator.{SessionAggregator}
use ai_proctor_engine.Fusion.Session.{Call, process}
use ai_proctor_engine.Preprocessing.Frames.{DecodedFrame}
use ai_proctor_engine.Preprocessing.Scheduler.{ModalityScheduler}
use ai_proctor_engine.Websocket.Messages.{
  TelemetryHeavyFramePayload, TelemetryAudioChunkPayload, ClientMessage,
}
use ai_proctor_engine.Websocket.EventBuffer.{BufferedEvent}
use ai_proctor_engine.Orchestration.FrameDispatcher.FaceBox.{PixelOps, Box}

-- The scheduler stands for its four periods.
pub record FrameDispatcherConfig (F : Type 0) : Type 0 where
  pub policy_snapshot : PolicySnapshot F
  pub context : SessionContext F
  pub scheduler : ModalityScheduler
  pub enrollment_embedding : Option (List F)
  pub identity_backend_unavailable : Bool

-- The event behind a synthetic id: the id is attached to the event.
pub record Received (F : Type 0) : Type 0 where
  pub synthetic_id : ℕ
  pub event : BufferedEvent (ClientMessage F)

pub record PersistedFlag (F : Type 0) : Type 0 where
  pub decision : FlagDecision F
  pub contributing_events : List (Received F)

pub record FrameDispatcher (F : Type 0) : Type 0 where
  pub aggregator : SessionAggregator F
  pub heavy_frame_seq : ℕ
  -- `_event_id_to_buffered`, the newest entry first
  pub event_id_to_buffered : List (Received F)
  -- `flag_decisions`, in the order of the queue
  pub flag_decisions : List (PersistedFlag F)
  pub processed_count : ℕ
  pub error_count : ℕ

-- What one event meets: its UUID, the readings of the clock, and the inference modules as they are
-- then. A module that is constructed on its first use may raise at that.
pub record World (F A : Type 0) : Type 0 where
  pub telemetry_event_id : ℕ
  pub now : ℕ → ℕ
  pub pixels : PixelOps F
  pub decode_frame : TelemetryHeavyFramePayload → Option (DecodedFrame A)
  pub face_landmarker : Outcome (DecodedFrame A → Outcome (HeadPoseGazeResult F))
  pub object_detector : Outcome (DecodedFrame A → Outcome (List (ObjectDetectionResult F)))
  -- the crop of a box, in RGB
  pub crop_rgb : A → Box → A
  pub identity_runner : A → List F → F → Outcome (IdentityMatchResult F)
  pub liveness_runner : Option (A → Box → F → Outcome (LivenessResult F))
  -- the decoding of a chunk, its cutting into frames and the voice-activity module
  pub hear : TelemetryAudioChunkPayload → Outcome (AudioVadResult F)

-- How a part of a handler ends: the next part follows, the handler returns, or an exception leaves it.
pub data Control : Type 0 where
  proceed finished : Control
  escaped : Raised → Control

abbrev pub Step : Type 0 → Type 0
Step F = Control × FrameDispatcher F

module _ {F : Type 0} where
  -- The part `k` after a part.
  unfoldable pub next : Step F → (FrameDispatcher F → Step F) → Step F
  next (proceed, d) k = k d
  next (finished, d) k = (finished, d)
  next (escaped e, d) k = (escaped e, d)

  unfoldable pub count_error : FrameDispatcher F → FrameDispatcher F
  count_error d = record d { error_count = d.error_count + 1 }

  -- `dict.pop(eid, None)`: the entry, and the map without it.
  unfoldable pub pop : ℕ → List (Received F) → Option (Received F) × List (Received F)
  pop id [] = (none, [])
  pop id (r ∷ rs) =
      let (found, rest) = pop id rs in
      if r.synthetic_id == id then (some r, rs) else (found, r ∷ rest)

  -- The events of the ids that are in the map, and the map without them.
  unfoldable pub take_buffered_for_ids :
      List ℕ → List (Received F) → List (Received F) × List (Received F)
  unfolding pop
  take_buffered_for_ids [] buffered = ([], buffered)
  take_buffered_for_ids (id ∷ ids) buffered =
      let (found, rest) = pop id buffered in
      let (events, left) = take_buffered_for_ids ids rest in
      elim found [ none ↦ (events, left) | some r ↦ (r ∷ events, left) ]

  unfoldable pub emit_one : FlagDecision F → FrameDispatcher F → FrameDispatcher F
  unfolding take_buffered_for_ids
  emit_one decision d =
      let (events, left) =
        take_buffered_for_ids decision.contributing_event_ids d.event_id_to_buffered in
      record d {
        event_id_to_buffered = left;
        flag_decisions =
            d.flag_decisions ++ (record { decision = decision; contributing_events = events } ∷ []);
      }

  -- `_emit`
  unfoldable pub emit : List (FlagDecision F) → FrameDispatcher F → FrameDispatcher F
  unfolding emit_one
  emit [] d = d
  emit (decision ∷ decisions) d = emit decisions (emit_one decision d)

module _ {F : Type 0} ⦃ops : FloatOps F⦄ (config : FrameDispatcherConfig F) where
  unfoldable pub replied : Outcome (List (FlagDecision F)) → FrameDispatcher F → Step F
  unfolding emit
  replied (ok decisions) d = (proceed, emit decisions d)
  replied (raised e) d = (escaped e, d)

  -- One call of the aggregator, and the emission of what it returns.
  unfoldable pub feed : Call F → FrameDispatcher F → Step F
  unfolding replied process
  feed call d =
      let (reply, agg) = process config.policy_snapshot config.context call d.aggregator in
      replied reply (record d { aggregator = agg })
