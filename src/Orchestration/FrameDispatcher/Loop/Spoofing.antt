-- ===== src/Orchestration/FrameDispatcher/Loop/Spoofing.antt =====
-- When the liveness module is never asked.
use ai_proctor_engine.Base.{
  ℕ, ◌+◌, ◌≡◌, refl, sym, ap, ◌∙◌, Bool, true, false, Option, none, some, List, [], ◌∷◌,
  if◌then◌else◌, Bool-cases, inl, inr, arith,
}
use ai_proctor_engine.Floats.{FloatOps}
use ai_proctor_engine.Inference.{HeadPoseGazeResult}
use ai_proctor_engine.Preprocessing.Frames.{DecodedFrame}
use ai_proctor_engine.Preprocessing.Scheduler.{
  InferenceDecision, ModalityScheduler, decide_for_frame, should_run, identity_match, liveness,
  period_for, code,
}
use ai_proctor_engine.Websocket.Messages as Messages
use ai_proctor_engine.Websocket.Messages.{TelemetryHeavyFramePayload, Payload, ClientMessage}
use ai_proctor_engine.Websocket.EventBuffer.{BufferedEvent}
use ai_proctor_engine.Orchestration.FrameDispatcher.{
  FrameDispatcherConfig, FrameDispatcher, World, Step, proceed, finished, escaped, next,
}
use ai_proctor_engine.Orchestration.FrameDispatcher.Handlers.{
  dispatch_light, dispatch_audio_chunk, dispatch_browser_event, dispatch_payload, remember,
  dispatch_event,
}
use ai_proctor_engine.Orchestration.FrameDispatcher.HeavyFrames.{
  feed_detections, landmarks_part, gaze_part, objects_part, identity_part, liveness_part,
  after_landmarks, decoded, dispatch_heavy_frame,
}
use ai_proctor_engine.Orchestration.FrameDispatcher.Loop.{settle, run_batch}

-- With equal periods the two modules are scheduled on the same frames.
same_schedule :
    (s : ModalityScheduler) (seq : ℕ)
    → s.identity_match_period ≡ s.liveness_period
    → should_run (decide_for_frame s seq) identity_match
      ≡ should_run (decide_for_frame s seq) liveness
unfolding should_run decide_for_frame period_for code
same_schedule s seq h = ground (arith, h)

module _ {F : Type 0} where
  -- Parts that answer alike make the same handler.
  next-cong :
      (step : Step F) (j k : FrameDispatcher F → Step F)
      → ((d : FrameDispatcher F) → j d ≡ k d)
      → next step j ≡ next step k
  unfolding next
  next-cong (proceed, d) j k h = h d
  next-cong (finished, d) j k h = refl
  next-cong (escaped e, d) j k h = refl

  -- What comes after a part that always returns does not matter.
  next-finished :
      (step : Step F) (part j k : FrameDispatcher F → Step F)
      → ((d : FrameDispatcher F) → part d ≡ (finished, d))
      → next (next step part) j ≡ next (next step part) k
  unfolding next
  next-finished (proceed, d) part j k h = ap (λ r. next r j) (h d) ∙ sym (ap (λ r. next r k) (h d))
  next-finished (finished, d) part j k h = refl
  next-finished (escaped e, d) part j k h = refl

module _ {F A : Type 0} ⦃ops : FloatOps F⦄ (config : FrameDispatcherConfig F) where
  -- The same world without the module.
  abbrev pub blind : World F A → World F A
  blind w = record w { liveness_runner = none }

  identity_part-finished :
      (w : World F A) (decision : InferenceDecision) (frame : DecodedFrame A)
      (result : Option (HeadPoseGazeResult F)) (d : FrameDispatcher F)
      → config.enrollment_embedding ≡ none
      → should_run decision identity_match ≡ true
      → identity_part config w decision frame result d ≡ (finished, d)
  unfolding identity_part
  identity_part-finished w decision frame none d h k = ground (arith, h, k)
  identity_part-finished w decision frame (some result) d h k = ground (arith, h, k)

  liveness_part-skipped :
      (w : World F A) (decision : InferenceDecision) (frame : DecodedFrame A)
      (result : Option (HeadPoseGazeResult F)) (d : FrameDispatcher F)
      → should_run decision liveness ≡ false
      → liveness_part config w decision frame result d ≡ (proceed, d)
  unfolding liveness_part
  liveness_part-skipped w decision frame result d h = ground (arith, h)

  -- The parts before the liveness module.
  before :
      World F A
      → InferenceDecision
      → DecodedFrame A
      → ℕ
      → Option (HeadPoseGazeResult F)
      → Step F
      → Step F
  unfolding gaze_part objects_part feed_detections
  before w decision frame captured_at result step =
      next (next step (gaze_part config w decision captured_at result))
        (objects_part config w decision frame)

  after-blind :
      (w : World F A) (s : ModalityScheduler) (seq : ℕ) (frame : DecodedFrame A) (captured_at : ℕ)
      (found : Option (HeadPoseGazeResult F) × Step F)
      → config.enrollment_embedding ≡ none
      → s.identity_match_period ≡ s.liveness_period
      → after_landmarks config (blind w) (decide_for_frame s seq) frame captured_at found
        ≡ after_landmarks config w (decide_for_frame s seq) frame captured_at found
  unfolding after_landmarks before identity_part
  after-blind w s seq frame captured_at (result, step) h k =
      let decision = decide_for_frame s seq in
      let start = before w decision frame captured_at result step in
      let identities = identity_part config w decision frame result in
      let off = liveness_part config (blind w) decision frame result in
      let on = liveness_part config w decision frame result in
      elim (Bool-cases (should_run decision identity_match)) [
        | inl e ↦
            next-finished start identities off on
              (λ d. identity_part-finished w decision frame result d h e)
        | inr e ↦
            let skipped = λ (v : World F A) (d : FrameDispatcher F).
              liveness_part-skipped v decision frame result d (sym (same_schedule s seq k) ∙ e) in
            next-cong (next start identities) off on (λ d. skipped (blind w) d ∙ sym (skipped w d))
      ]

  decoded-blind :
      (w : World F A) (found : Option (DecodedFrame A)) (captured_at : ℕ) (d : FrameDispatcher F)
      → config.enrollment_embedding ≡ none
      → config.scheduler.identity_match_period ≡ config.scheduler.liveness_period
      → decoded config (blind w) found captured_at d ≡ decoded config w found captured_at d
  unfolding decoded landmarks_part
  decoded-blind w none captured_at d h k = refl
  decoded-blind w (some frame) captured_at d h k =
      let decision = decide_for_frame config.scheduler d.heavy_frame_seq in
      after-blind w config.scheduler d.heavy_frame_seq frame captured_at
        (landmarks_part config w decision frame
          (record d { heavy_frame_seq = d.heavy_frame_seq + 1 }))
        h k

  payload-blind :
      (w : World F A) (payload : Payload F) (captured_at : ℕ) (d : FrameDispatcher F)
      → config.enrollment_embedding ≡ none
      → config.scheduler.identity_match_period ≡ config.scheduler.liveness_period
      → dispatch_payload config (blind w) payload captured_at d
        ≡ dispatch_payload config w payload captured_at d
  unfolding dispatch_payload dispatch_light dispatch_audio_chunk dispatch_browser_event
      dispatch_heavy_frame
  payload-blind w (Messages.light p) captured_at d h k = refl
  payload-blind w (Messages.heavy_frame p) captured_at d h k =
      decoded-blind w (w.decode_frame p) captured_at d h k
  payload-blind w (Messages.audio p) captured_at d h k = refl
  payload-blind w (Messages.browser p) captured_at d h k = refl
  payload-blind w (Messages.kill_switch p) captured_at d h k = refl

  event-blind :
      (w : World F A) (event : BufferedEvent (ClientMessage F)) (d : FrameDispatcher F)
      → config.enrollment_embedding ≡ none
      → config.scheduler.identity_match_period ≡ config.scheduler.liveness_period
      → dispatch_event config (blind w) event d ≡ dispatch_event config w event d
  unfolding dispatch_event remember
  event-blind w event d h k =
      payload-blind w event.message.payload event.message.captured_at (remember config w event d) h
        k

  -- Without an enrolled face, and with the periods of the identity check and of the liveness check
  -- equal as they are by default, the liveness module changes nothing: a session with it ends as the
  -- same session without it, whatever it would answer.
  pub run_batch-blind :
      (world : ℕ → World F A) (stopped : ℕ → Bool) (events : List (BufferedEvent (ClientMessage F)))
      (d : FrameDispatcher F)
      → config.enrollment_embedding ≡ none
      → config.scheduler.identity_match_period ≡ config.scheduler.liveness_period
      → run_batch config world stopped events d
        ≡ run_batch config (λ seq. blind (world seq)) stopped events d
  unfolding run_batch
  run_batch-blind world stopped [] d h k = refl
  run_batch-blind world stopped (event ∷ events) d h k =
      let w = world event.seq in
      let same = ap settle (sym (event-blind w event d h k)) in
      let rest =
        run_batch-blind world stopped events (settle (dispatch_event config w event d)) h k in
      ap (λ r. if stopped event.seq then d else r)
        (rest ∙ ap (run_batch config (λ seq. blind (world seq)) stopped events) same)
