-- ===== src/Orchestration/FrameDispatcher/Handlers.antt =====
-- The handlers of the other messages (`_dispatch_light`, `_dispatch_audio_chunk`,
-- `_dispatch_browser_event` and `_dispatch_event` of orchestration/_frame_dispatcher.py).
use ai_proctor_engine.Base.{ℕ, str_eq, some, [], ◌∷◌, ltb, ◌==◌, if◌then◌else◌, ok, raised}
use ai_proctor_engine.Floats.{FloatOps}
use ai_proctor_engine.Inference.{make_interval, ConfidenceInterval, end, FacePresenceResult}
use ai_proctor_engine.Inference.BrowserEvents.{classify_browser_event}
use ai_proctor_engine.Inference.AudioVad.{event_silence}
use ai_proctor_engine.Fusion.Session.{face, browser, audio}
use ai_proctor_engine.Websocket.Messages as Messages
use ai_proctor_engine.Websocket.Messages.{
  TelemetryLightPayload, TelemetryHeavyFramePayload, TelemetryAudioChunkPayload,
  TelemetryBrowserEventPayload, ClientMessage, Payload,
}
use ai_proctor_engine.Websocket.EventBuffer.{BufferedEvent}
use ai_proctor_engine.Orchestration.FrameDispatcher.{
  FrameDispatcherConfig, FrameDispatcher, World, proceed, finished, escaped, Step, count_error,
  feed, pop,
}
use ai_proctor_engine.Orchestration.FrameDispatcher.HeavyFrames.{dispatch_heavy_frame}

module _ {F A : Type 0} ⦃ops : FloatOps F⦄ (config : FrameDispatcherConfig F) (w : World F A) where
  abbrev pub face_result : ℕ → ConfidenceInterval F → FacePresenceResult F
  face_result face_count confidence = record {
    base = record {
      modality = "face";
      event_type =
          if ltb 1 face_count
          then "second_person"
          else if face_count == 0
          then "no_face"
          else "one_face";
      confidence = confidence;
      bounding_boxes = [];
      raw_value = end;
    };
    face_count = face_count;
  }

  -- The interval's constructor may raise, outside any `try` of this code.
  unfoldable pub dispatch_light : TelemetryLightPayload F → FrameDispatcher F → Step F
  unfolding feed
  dispatch_light p d = elim (make_interval p.confidence p.confidence p.confidence) [
    | raised e ↦ (escaped e, d)
    | ok confidence ↦
        feed config (face (face_result p.face_count confidence) w.telemetry_event_id) d
  ]

  -- A silent chunk is not handed on.
  unfoldable pub dispatch_audio_chunk : TelemetryAudioChunkPayload → FrameDispatcher F → Step F
  unfolding feed count_error
  dispatch_audio_chunk p d = elim (w.hear p) [
    | raised e ↦ (finished, count_error d)
    | ok result ↦
        if str_eq result.event_type event_silence
        then (finished, d)
        else feed config (audio result w.telemetry_event_id) d
  ]

  unfoldable pub dispatch_browser_event :
      TelemetryBrowserEventPayload F → FrameDispatcher F → Step F
  unfolding feed count_error classify_browser_event
  dispatch_browser_event p d = elim (classify_browser_event p.event_type (some p.detail)) [
    | raised e ↦ (finished, count_error d)
    | ok result ↦ feed config (browser result w.telemetry_event_id) d
  ]

  unfoldable pub dispatch_payload : Payload F → ℕ → FrameDispatcher F → Step F
  unfolding dispatch_light dispatch_heavy_frame dispatch_audio_chunk dispatch_browser_event
  dispatch_payload (Messages.light p) captured_at d = dispatch_light p d
  dispatch_payload (Messages.heavy_frame p) captured_at d =
      dispatch_heavy_frame config w p captured_at d
  dispatch_payload (Messages.audio p) captured_at d = dispatch_audio_chunk p d
  dispatch_payload (Messages.browser p) captured_at d = dispatch_browser_event p d
  dispatch_payload (Messages.kill_switch p) captured_at d = (proceed, d)

  -- The entry of the event under its new id, in the place of one that has the id already.
  unfoldable pub remember : BufferedEvent (ClientMessage F) → FrameDispatcher F → FrameDispatcher F
  unfolding pop
  remember event d = record d {
    event_id_to_buffered =
        record { synthetic_id = w.telemetry_event_id; event = event }
        ∷ (pop w.telemetry_event_id d.event_id_to_buffered).1;
  }

  -- `_dispatch_event`
  unfoldable pub dispatch_event : BufferedEvent (ClientMessage F) → FrameDispatcher F → Step F
  unfolding remember dispatch_payload
  dispatch_event event d =
      dispatch_payload event.message.payload event.message.captured_at (remember event d)
