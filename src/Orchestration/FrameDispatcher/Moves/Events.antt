-- ===== src/Orchestration/FrameDispatcher/Moves/Events.antt =====
-- The handler of an event as changes of the dispatcher.
use ai_proctor_engine.Base.{ℕ, refl, some, inl, inr, arith}
use ai_proctor_engine.Floats.{FloatOps}
use ai_proctor_engine.Inference.{make_interval}
use ai_proctor_engine.Inference.BrowserEvents.{classify_browser_event}
use ai_proctor_engine.Websocket.EventBuffer.{BufferedEvent}
use ai_proctor_engine.Websocket.Messages as Messages
use ai_proctor_engine.Websocket.Messages.{
  TelemetryLightPayload, TelemetryHeavyFramePayload, TelemetryAudioChunkPayload,
  TelemetryBrowserEventPayload, Payload, ClientMessage,
}
use ai_proctor_engine.Fusion.Session.{face, browser, audio}
use ai_proctor_engine.Orchestration.FrameDispatcher.{
  FrameDispatcherConfig, FrameDispatcher, World, feed,
}
use ai_proctor_engine.Orchestration.FrameDispatcher.Handlers.{
  dispatch_light, face_result, dispatch_audio_chunk, dispatch_browser_event, dispatch_event,
  remember, dispatch_payload,
}
use ai_proctor_engine.Orchestration.FrameDispatcher.Moves.{
  Moves, stay, failing, feeding, counted_frames, numbered, Outcome-cases,
}
use ai_proctor_engine.Orchestration.FrameDispatcher.Moves.Frames.{
  Moved, Moved-renumbered, Moved-frame,
}

module _ {F A : Type 0} ⦃ops : FloatOps F⦄ (config : FrameDispatcherConfig F) (w : World F A)
    (start : FrameDispatcher F) where
  Moved-light :
      (p : TelemetryLightPayload F) (d : FrameDispatcher F)
      → Moved config w start d
      → Moved config w start (dispatch_light config w p d).1
  unfolding dispatch_light
  Moved-light p d m = elim (Outcome-cases (make_interval p.confidence p.confidence p.confidence)) [
    | inl (e, h) ↦ ground (arith, h, m)
    | inr (c, h) ↦
        let call = face (face_result config w p.face_count c) w.telemetry_event_id in
        let fed : Moved config w start (feed config call d).1 = feeding d call refl m in
        ground (arith, h, fed)
  ]

  Moved-audio :
      (p : TelemetryAudioChunkPayload) (d : FrameDispatcher F)
      → Moved config w start d
      → Moved config w start (dispatch_audio_chunk config w p d).1
  unfolding dispatch_audio_chunk
  Moved-audio p d m = elim (Outcome-cases (w.hear p)) [
    | inl (e, h) ↦ ground (arith, h, failing d m)
    | inr (result, h) ↦
        let call = audio result w.telemetry_event_id in
        let fed : Moved config w start (feed config call d).1 = feeding d call refl m in
        ground (arith, h, fed, m)
  ]

  Moved-browser :
      (p : TelemetryBrowserEventPayload F) (d : FrameDispatcher F)
      → Moved config w start d
      → Moved config w start (dispatch_browser_event config w p d).1
  unfolding dispatch_browser_event
  Moved-browser p d m = elim (Outcome-cases (classify_browser_event p.event_type (some p.detail))) [
    | inl (e, h) ↦ ground (arith, h, failing d m)
    | inr (result, h) ↦
        let call = browser result w.telemetry_event_id in
        let fed : Moved config w start (feed config call d).1 = feeding d call refl m in
        ground (arith, h, fed)
  ]

  pub Moved-payload :
      (payload : Payload F) (captured_at : ℕ) (d : FrameDispatcher F)
      → Moved config w start (numbered w payload d)
      → Moved config w start (dispatch_payload config w payload captured_at d).1
  unfolding dispatch_payload counted_frames
  Moved-payload (Messages.light p) captured_at d m =
      Moved-light p d (Moved-renumbered config w start d _ d.heavy_frame_seq m (omega arith))
  Moved-payload (Messages.heavy_frame p) captured_at d m =
      Moved-frame config w start p captured_at d m
  Moved-payload (Messages.audio p) captured_at d m =
      Moved-audio p d (Moved-renumbered config w start d _ d.heavy_frame_seq m (omega arith))
  Moved-payload (Messages.browser p) captured_at d m =
      Moved-browser p d (Moved-renumbered config w start d _ d.heavy_frame_seq m (omega arith))
  Moved-payload (Messages.kill_switch p) captured_at d m =
      Moved-renumbered config w start d _ d.heavy_frame_seq m (omega arith)

module _ {F A : Type 0} ⦃ops : FloatOps F⦄ (config : FrameDispatcherConfig F) (w : World F A) where
  -- The dispatcher when the event is remembered and its frame is numbered.
  abbrev pub opened : BufferedEvent (ClientMessage F) → FrameDispatcher F → FrameDispatcher F
  opened event d = numbered w event.message.payload (remember config w event d)

  -- From there on, the handler of the event is a sequence of elementary changes.
  pub dispatch_event-Moves :
      (event : BufferedEvent (ClientMessage F)) (d : FrameDispatcher F)
      → Moves config w.telemetry_event_id (opened event d) (dispatch_event config w event d).1
  unfolding dispatch_event
  dispatch_event-Moves event d =
      Moved-payload config w (opened event d) event.message.payload event.message.captured_at
        (remember config w event d) stay
