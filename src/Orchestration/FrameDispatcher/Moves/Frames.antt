-- ===== src/Orchestration/FrameDispatcher/Moves/Frames.antt =====
-- The parts of the handler of heavy frames as changes of the dispatcher.
use ai_proctor_engine.Base.{
  ℕ, ◌+◌, ◌≡◌, refl, subst, Option, none, some, List, [], ◌∷◌, Outcome, inl, inr, arith,
  Option-cases,
}
use ai_proctor_engine.Floats.{FloatOps}
use ai_proctor_engine.Inference.{HeadPoseGazeResult, ObjectDetectionResult, LivenessResult}
use ai_proctor_engine.Preprocessing.Frames.{DecodedFrame}
use ai_proctor_engine.Orchestration.FrameDispatcher.FaceBox.{Box}
use ai_proctor_engine.Preprocessing.Scheduler.{InferenceDecision, decide_for_frame}
use ai_proctor_engine.Websocket.Messages as Messages
use ai_proctor_engine.Websocket.Messages.{
  TelemetryLightPayload, TelemetryHeavyFramePayload, TelemetryAudioChunkPayload,
  TelemetryBrowserEventPayload, Payload, ClientMessage,
}
use ai_proctor_engine.Fusion.Session.{liveness, gaze, identity, object}
use ai_proctor_engine.Orchestration.FrameDispatcher.{
  FrameDispatcherConfig, FrameDispatcher, World, proceed, finished, escaped, Step, next, feed,
}
use ai_proctor_engine.Orchestration.FrameDispatcher.HeavyFrames.{
  identify, check_liveness, box_of, landmarks_part, gaze_part, feed_detections, objects_part,
  identity_part, liveness_part, after_landmarks, dispatch_heavy_frame,
}
use ai_proctor_engine.Orchestration.FrameDispatcher.Moves.{
  Moves, failing, feeding, counted_frames, numbered, Outcome-cases,
}

module _ {F A : Type 0} ⦃ops : FloatOps F⦄ (config : FrameDispatcherConfig F) (w : World F A)
    (start : FrameDispatcher F) where
  abbrev pub Moved : FrameDispatcher F → Type 0
  Moved d = Moves config w.telemetry_event_id start d

  Moved-next :
      (step : Step F) (k : FrameDispatcher F → Step F)
      → Moved step.1
      → ((d : FrameDispatcher F) → Moved d → Moved (k d).1)
      → Moved (next step k).1
  unfolding next
  Moved-next (proceed, d) k m f = f d m
  Moved-next (finished, d) k m f = m
  Moved-next (escaped e, d) k m f = m

  Moved-gaze :
      (decision : InferenceDecision) (captured_at : ℕ) (result : Option (HeadPoseGazeResult F))
      (d : FrameDispatcher F)
      → Moved d
      → Moved (gaze_part config w decision captured_at result d).1
  unfolding gaze_part
  Moved-gaze decision captured_at none d m = m
  Moved-gaze decision captured_at (some result) d m =
      let call = gaze result w.telemetry_event_id captured_at in
      let fed : Moved (feed config call d).1 = feeding d call refl m in ground (arith, fed, m)

  Moved-landmarks :
      (decision : InferenceDecision) (frame : DecodedFrame A) (d : FrameDispatcher F)
      → Moved d
      → Moved (landmarks_part config w decision frame d).1.1
  unfolding landmarks_part
  Moved-landmarks decision frame d m = elim (Outcome-cases w.face_landmarker) [
    | inl (e, h) ↦ ground (arith, h, m)
    | inr (run, h) ↦ elim (Outcome-cases (run frame)) [
      | inl (e, k) ↦ ground (arith, h, k, m, failing d m)
      | inr (result, k) ↦ ground (arith, h, k, m)
    ]
  ]

  Moved-detections :
      (i : ℕ) (dets : List (ObjectDetectionResult F)) (d : FrameDispatcher F)
      → Moved d
      → Moved (feed_detections config w i dets d).1
  unfolding feed_detections
  Moved-detections i [] d m = m
  Moved-detections i (det ∷ dets) d m =
      let call = object det w.telemetry_event_id (w.now i) in
      Moved-next (feed config call d) (feed_detections config w (i + 1) dets)
        (feeding d call refl m) (λ d'. Moved-detections (i + 1) dets d')

  Moved-objects :
      (decision : InferenceDecision) (frame : DecodedFrame A) (d : FrameDispatcher F)
      → Moved d
      → Moved (objects_part config w decision frame d).1
  unfolding objects_part
  Moved-objects decision frame d m = elim (Outcome-cases w.object_detector) [
    | inl (e, h) ↦ ground (arith, h, m)
    | inr (run, h) ↦ elim (Outcome-cases (run frame)) [
      | inl (e, k) ↦ ground (arith, h, k, m, failing d m)
      | inr (dets, k) ↦ ground (arith, h, k, m, Moved-detections 0 dets d m)
    ]
  ]

  Moved-identify :
      (frame : DecodedFrame A) (enrollment : List F) (box : Box) (d : FrameDispatcher F)
      → Moved d
      → Moved (identify config w frame enrollment box d).1
  unfolding identify
  Moved-identify frame enrollment box d m =
      elim (Outcome-cases (
        w.identity_runner (w.crop_rgb frame.array box) enrollment
          config.policy_snapshot.identity_similarity_threshold)) [
            | inl (e, h) ↦ ground (arith, h, failing d m)
            | inr (result, h) ↦
                let call = identity result w.telemetry_event_id in
                let fed : Moved (feed config call d).1 = feeding d call refl m in
                ground (arith, h, fed)
          ]

  Moved-identity :
      (decision : InferenceDecision) (frame : DecodedFrame A)
      (result : Option (HeadPoseGazeResult F)) (d : FrameDispatcher F)
      → Moved d
      → Moved (identity_part config w decision frame result d).1
  unfolding identity_part
  Moved-identity decision frame none d m = ground (arith, m)
  Moved-identity decision frame (some result) d m =
      elim (Option-cases config.enrollment_embedding) [
        | inl h ↦ ground (arith, h, m)
        | inr (enrollment, h) ↦ elim (Option-cases (box_of config w frame result)) [
          | inl k ↦ ground (arith, h, k, m)
          | inr (box, k) ↦ ground (arith, h, k, m, Moved-identify frame enrollment box d m)
        ]
      ]

  Moved-check :
      (runner : A → Box → F → Outcome (LivenessResult F)) (frame : DecodedFrame A) (box : Box)
      (d : FrameDispatcher F)
      → Moved d
      → Moved (check_liveness config w runner frame box d).1
  unfolding check_liveness
  Moved-check runner frame box d m =
      elim (Outcome-cases
        (runner frame.array box config.policy_snapshot.liveness_score_threshold)) [
          | inl (e, h) ↦ ground (arith, h, failing d m)
          | inr (result, h) ↦
              let call = liveness result w.telemetry_event_id in
              let fed : Moved (feed config call d).1 = feeding d call refl m in
              ground (arith, h, fed)
        ]

  Moved-liveness :
      (decision : InferenceDecision) (frame : DecodedFrame A)
      (result : Option (HeadPoseGazeResult F)) (d : FrameDispatcher F)
      → Moved d
      → Moved (liveness_part config w decision frame result d).1
  unfolding liveness_part
  Moved-liveness decision frame result d m = elim (Option-cases w.liveness_runner) [
    | inl h ↦ ground (arith, h, m)
    | inr (runner, h) ↦ elim (Option-cases result) [
      | inl k ↦ ground (arith, h, k, m)
      | inr (found, k) ↦ elim (Option-cases (box_of config w frame found)) [
        | inl l ↦ ground (arith, h, k, l, m)
        | inr (box, l) ↦ ground (arith, h, k, l, m, Moved-check runner frame box d m)
      ]
    ]
  ]

  Moved-after :
      (decision : InferenceDecision) (frame : DecodedFrame A) (captured_at : ℕ)
      (found : Option (HeadPoseGazeResult F) × Step F)
      → Moved found.1.1
      → Moved (after_landmarks config w decision frame captured_at found).1
  unfolding after_landmarks
  Moved-after decision frame captured_at (result, step) m =
      let gazes = gaze_part config w decision captured_at result in
      let objects = objects_part config w decision frame in
      let identities = identity_part config w decision frame result in
      let a = Moved-next step gazes m (Moved-gaze decision captured_at result) in
      let b = Moved-next (next step gazes) objects a (Moved-objects decision frame) in
      let c =
        Moved-next (next (next step gazes) objects) identities b
          (Moved-identity decision frame result) in
      Moved-next (next (next (next step gazes) objects) identities)
        (liveness_part config w decision frame result) c (Moved-liveness decision frame result)

  pub Moved-renumbered :
      (d : FrameDispatcher F) (m n : ℕ)
      → Moved (record d { heavy_frame_seq = m })
      → m ≡ n
      → Moved (record d { heavy_frame_seq = n })
  Moved-renumbered d m n h e = subst (λ k. Moved (record d { heavy_frame_seq = k })) e h

  pub Moved-frame :
      (p : TelemetryHeavyFramePayload) (captured_at : ℕ) (d : FrameDispatcher F)
      → Moved (numbered w (Messages.heavy_frame p) d)
      → Moved (dispatch_heavy_frame config w p captured_at d).1
  unfolding dispatch_heavy_frame counted_frames
  Moved-frame p captured_at d m = elim (Option-cases (w.decode_frame p)) [
    | inl h ↦
        let same = Moved-renumbered d _ d.heavy_frame_seq m (ground (arith, h)) in
        ground (arith, h, failing d same)
    | inr (frame, h) ↦
        let decision = decide_for_frame config.scheduler d.heavy_frame_seq in
        let found =
          landmarks_part config w decision frame
            (record d { heavy_frame_seq = d.heavy_frame_seq + 1 }) in
        let one = Moved-renumbered d _ (d.heavy_frame_seq + 1) m (ground (arith, h)) in
        let landed = Moved-landmarks decision frame _ one in
        ground (arith, h, Moved-after decision frame captured_at found landed)
  ]
