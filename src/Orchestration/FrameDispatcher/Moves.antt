-- ===== src/Orchestration/FrameDispatcher/Moves.antt =====
-- The elementary changes that the handlers make to the dispatcher, as a step relation: a counted
-- error, and a call of the aggregator with the id of the event. Every handler is a
-- sequence of them.
pub mod Frames
pub mod Events
use ai_proctor_engine.Base.{
  ℕ, ◌+◌, ◌≡◌, refl, subst, ◌⊎◌, Raised, Option, none, some, List, [], ◌∷◌, Outcome, ok, raised,
  inl, inr, arith, Option-cases,
}
use ai_proctor_engine.Floats.{FloatOps}
use ai_proctor_engine.Inference.{
  make_interval, HeadPoseGazeResult, ObjectDetectionResult, LivenessResult,
}
use ai_proctor_engine.Preprocessing.Frames.{DecodedFrame}
use ai_proctor_engine.Orchestration.FrameDispatcher.FaceBox.{Box}
use ai_proctor_engine.Preprocessing.Scheduler.{InferenceDecision, decide_for_frame}
use ai_proctor_engine.Inference.BrowserEvents.{classify_browser_event}
use ai_proctor_engine.Websocket.EventBuffer.{BufferedEvent}
use ai_proctor_engine.Websocket.Messages as Messages
use ai_proctor_engine.Websocket.Messages.{
  TelemetryLightPayload, TelemetryHeavyFramePayload, TelemetryAudioChunkPayload,
  TelemetryBrowserEventPayload, Payload, ClientMessage,
}
use ai_proctor_engine.Fusion.Session.{
  Call, face, liveness, gaze, identity, identity_unavailable, object, browser, audio,
}
use ai_proctor_engine.Orchestration.FrameDispatcher.{
  FrameDispatcherConfig, FrameDispatcher, World, proceed, finished, escaped, Step, next,
  count_error, feed,
}
use ai_proctor_engine.Orchestration.FrameDispatcher.Handlers.{
  dispatch_light, face_result, dispatch_audio_chunk, dispatch_browser_event, dispatch_event,
  remember, dispatch_payload,
}
use ai_proctor_engine.Orchestration.FrameDispatcher.HeavyFrames.{
  identify, check_liveness, box_of, landmarks_part, gaze_part, feed_detections, objects_part,
  identity_part, liveness_part, after_landmarks, dispatch_heavy_frame,
}

-- The event that a call of the aggregator is about.
abbrev pub call_id : {F : Type 0} → Call F → ℕ
call_id (face result id) = id
call_id (liveness result id) = id
call_id (gaze result id now) = id
call_id (identity result id) = id
call_id (identity_unavailable id) = id
call_id (object result id now) = id
call_id (browser result id) = id
call_id (audio result id) = id

module _ {F : Type 0} ⦃ops : FloatOps F⦄ (config : FrameDispatcherConfig F) (id : ℕ) where
  pub data Moves (start : FrameDispatcher F) : FrameDispatcher F → Type 0 where
    stay : Moves start start
    failing : (d : FrameDispatcher F) → Moves start d → Moves start (count_error d)
    feeding :
        (d : FrameDispatcher F) (call : Call F)
        → call_id call ≡ id
        → Moves start d
        → Moves start (feed config call d).1

-- The frames that an event adds to the sequence: a heavy frame that decodes is one.
unfoldable pub counted_frames : {F A : Type 0} → World F A → Payload F → ℕ
counted_frames w (Messages.heavy_frame p) = elim (w.decode_frame p) [ none ↦ 0 | some frame ↦ 1 ]
counted_frames w _ = 0

-- The dispatcher when the frame of the event is numbered.
abbrev pub numbered : {F A : Type 0} → World F A → Payload F → FrameDispatcher F → FrameDispatcher F
numbered w payload d = record d { heavy_frame_seq = d.heavy_frame_seq + counted_frames w payload }

Outcome-cases {ℓ} :
    {T : Type ℓ} (o : Outcome T) → ((e : Raised) × (o ≡ raised e)) ⊎ ((a : T) × (o ≡ ok a))
Outcome-cases (raised e) = inl (e, refl)
Outcome-cases (ok a) = inr (a, refl)
