-- ===== src/Orchestration/FrameDispatcher/HeavyFrames.antt =====
-- The handler of a heavy frame (`_dispatch_heavy_frame` of orchestration/_frame_dispatcher.py), a part
-- for each module.
use ai_proctor_engine.Base.{
  ℕ, ◌+◌, Bool, ◌||◌, Option, none, some, List, [], ◌∷◌, if◌then◌else◌, Outcome, ok, raised,
}
use ai_proctor_engine.Floats.{FloatOps}
use ai_proctor_engine.Inference.{LivenessResult, HeadPoseGazeResult, ObjectDetectionResult}
use ai_proctor_engine.Fusion.Session.{liveness, gaze, identity, object}
use ai_proctor_engine.Preprocessing.Frames.{DecodedFrame}
use ai_proctor_engine.Preprocessing.Scheduler as Schedule
use ai_proctor_engine.Preprocessing.Scheduler.{
  InferenceDecision, decide_for_frame, should_run, head_pose_gaze, object_detection, identity_match,
}
use ai_proctor_engine.Websocket.Messages.{TelemetryHeavyFramePayload}
use ai_proctor_engine.Orchestration.FrameDispatcher.{
  FrameDispatcherConfig, FrameDispatcher, World, proceed, finished, escaped, Step, next,
  count_error, feed,
}
use ai_proctor_engine.Orchestration.FrameDispatcher.FaceBox.{extract_face_bbox_pixel_coords, Box}

module _ {F A : Type 0} ⦃ops : FloatOps F⦄ (config : FrameDispatcherConfig F) (w : World F A) where
  -- Whether one of the three modules that need the landmarks is scheduled.
  unfoldable pub needs_landmarks : InferenceDecision → Bool
  needs_landmarks decision =
      should_run decision head_pose_gaze
      || (should_run decision identity_match || should_run decision Schedule.liveness)

  landmarker_answer :
      Outcome (HeadPoseGazeResult F) → FrameDispatcher F → Option (HeadPoseGazeResult F) × Step F
  unfolding count_error
  landmarker_answer (ok result) d = (some result, (proceed, d))
  landmarker_answer (raised e) d = (none, (proceed, count_error d))

  -- The landmarks, or none; the landmarker's constructor is called outside the `try`.
  unfoldable pub landmarks_part :
      InferenceDecision
      → DecodedFrame A
      → FrameDispatcher F
      → Option (HeadPoseGazeResult F) × Step F
  unfolding needs_landmarks landmarker_answer
  landmarks_part decision frame d =
      if needs_landmarks decision
      then elim w.face_landmarker [
        | raised e ↦ (none, (escaped e, d))
        | ok landmarker ↦ landmarker_answer (landmarker frame) d
      ]
      else (none, (proceed, d))

  unfoldable pub gaze_part :
      InferenceDecision → ℕ → Option (HeadPoseGazeResult F) → FrameDispatcher F → Step F
  unfolding feed
  gaze_part decision captured_at none d = (proceed, d)
  gaze_part decision captured_at (some result) d =
      if should_run decision head_pose_gaze
      then feed config (gaze result w.telemetry_event_id captured_at) d
      else (proceed, d)

  -- The detections of a frame in order, each with its reading of the clock.
  unfoldable pub feed_detections : ℕ → List (ObjectDetectionResult F) → FrameDispatcher F → Step F
  unfolding feed next
  feed_detections i [] d = (proceed, d)
  feed_detections i (det ∷ dets) d =
      next (feed config (object det w.telemetry_event_id (w.now i)) d)
        (feed_detections (i + 1) dets)

  detector_answer : Outcome (List (ObjectDetectionResult F)) → FrameDispatcher F → Step F
  unfolding feed_detections count_error
  detector_answer (ok detections) d = feed_detections 0 detections d
  detector_answer (raised e) d = (proceed, count_error d)

  unfoldable pub objects_part : InferenceDecision → DecodedFrame A → FrameDispatcher F → Step F
  unfolding detector_answer
  objects_part decision frame d =
      if should_run decision object_detection
      then elim w.object_detector [
        | raised e ↦ (escaped e, d)
        | ok detector ↦ detector_answer (detector frame) d
      ]
      else (proceed, d)

  -- The box of the landmarks in the frame.
  unfoldable pub box_of : DecodedFrame A → HeadPoseGazeResult F → Option Box
  box_of frame result = extract_face_bbox_pixel_coords w.pixels frame.width frame.height result

  unfoldable pub identify : DecodedFrame A → List F → Box → FrameDispatcher F → Step F
  unfolding feed count_error
  identify frame enrollment box d =
      elim (w.identity_runner (w.crop_rgb frame.array box) enrollment
        config.policy_snapshot.identity_similarity_threshold) [
          | raised e ↦ (finished, count_error d)
          | ok result ↦ feed config (identity result w.telemetry_event_id) d
        ]

  identify_with : DecodedFrame A → HeadPoseGazeResult F → List F → FrameDispatcher F → Step F
  unfolding identify box_of
  identify_with frame result enrollment d = elim (box_of frame result) [
    | none ↦ (finished, d)
    | some box ↦ identify frame enrollment box d
  ]

  -- Without landmarks, an enrolled face or a crop the handler returns.
  identify_face :
      DecodedFrame A → Option (HeadPoseGazeResult F) → Option (List F) → FrameDispatcher F → Step F
  unfolding identify_with
  identify_face frame (some result) (some enrollment) d = identify_with frame result enrollment d
  identify_face frame (some result) none d = (finished, d)
  identify_face frame none enrollment d = (finished, d)

  unfoldable pub identity_part :
      InferenceDecision
      → DecodedFrame A
      → Option (HeadPoseGazeResult F)
      → FrameDispatcher F
      → Step F
  unfolding identify_face
  identity_part decision frame result d =
      if should_run decision identity_match
      then identify_face frame result config.enrollment_embedding d
      else (proceed, d)

  unfoldable pub check_liveness :
      (A → Box → F → Outcome (LivenessResult F)) → DecodedFrame A → Box → FrameDispatcher F → Step F
  unfolding feed count_error
  check_liveness runner frame box d =
      elim (runner frame.array box config.policy_snapshot.liveness_score_threshold) [
        | raised e ↦ (finished, count_error d)
        | ok result ↦ feed config (liveness result w.telemetry_event_id) d
      ]

  liveness_with :
      (A → Box → F → Outcome (LivenessResult F))
      → DecodedFrame A
      → HeadPoseGazeResult F
      → FrameDispatcher F
      → Step F
  unfolding check_liveness box_of
  liveness_with runner frame result d = elim (box_of frame result) [
    | none ↦ (finished, d)
    | some box ↦ check_liveness runner frame box d
  ]

  test_liveness :
      Option (A → Box → F → Outcome (LivenessResult F))
      → DecodedFrame A
      → Option (HeadPoseGazeResult F)
      → FrameDispatcher F
      → Step F
  unfolding liveness_with
  test_liveness none frame result d = (proceed, d)
  test_liveness (some runner) frame none d = (finished, d)
  test_liveness (some runner) frame (some result) d = liveness_with runner frame result d

  unfoldable pub liveness_part :
      InferenceDecision
      → DecodedFrame A
      → Option (HeadPoseGazeResult F)
      → FrameDispatcher F
      → Step F
  unfolding test_liveness
  liveness_part decision frame result d =
      if should_run decision Schedule.liveness
      then test_liveness w.liveness_runner frame result d
      else (proceed, d)

  -- What follows the landmarks of a frame.
  unfoldable pub after_landmarks :
      InferenceDecision → DecodedFrame A → ℕ → Option (HeadPoseGazeResult F) × Step F → Step F
  unfolding next gaze_part objects_part identity_part liveness_part
  after_landmarks decision frame captured_at (result, step) =
      next
        (next
          (next (next step (gaze_part decision captured_at result)) (objects_part decision frame))
          (identity_part decision frame result))
        (liveness_part decision frame result)

  unfoldable pub decoded : Option (DecodedFrame A) → ℕ → FrameDispatcher F → Step F
  unfolding after_landmarks landmarks_part count_error decide_for_frame
  decoded none captured_at d = (finished, count_error d)
  decoded (some frame) captured_at d =
      let decision = decide_for_frame config.scheduler d.heavy_frame_seq in
      after_landmarks decision frame captured_at
        (landmarks_part decision frame (record d { heavy_frame_seq = d.heavy_frame_seq + 1 }))

  -- A frame that does not decode is counted as an error, and not as a frame.
  unfoldable pub dispatch_heavy_frame : TelemetryHeavyFramePayload → ℕ → FrameDispatcher F → Step F
  unfolding decoded
  dispatch_heavy_frame p captured_at d = decoded (w.decode_frame p) captured_at d
