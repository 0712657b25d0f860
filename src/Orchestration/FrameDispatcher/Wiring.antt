-- ===== src/Orchestration/FrameDispatcher/Wiring.antt =====
-- What the dispatcher constructs around the inference models (`_ensure_face_landmarker` and the
-- methods after it, `_decode_pcm`, and the calls of the runners in orchestration/_frame_dispatcher.py):
-- the world of an event, made of the runners over the models.
use ai_proctor_engine.Base.{
  ℕ, ◌∷◌, [], List, Option, none, some, Outcome, ok, raised, audio_error, ◌>>=◌, Bool, String,
  if◌then◌else◌,
}
use ai_proctor_engine.Floats.{FloatOps, FloatArith}
use ai_proctor_engine.Inference.{
  HeadPoseGazeResult, LivenessResult, ObjectDetectionResult, AudioVadResult,
}
use ai_proctor_engine.Inference.AudioVad.{make_vad_runner, run_vad}
use ai_proctor_engine.Inference.HeadPoseGaze.{Mesh, Geometry, FaceLandmarkerRunner, run_landmarker}
use ai_proctor_engine.Inference.IdentityMatch.{Vectors, IdentityBackend, run_identity}
use ai_proctor_engine.Inference.LivenessCheck.{LivenessBackend, run_liveness}
use ai_proctor_engine.Inference.ObjectDetection.{YoloBox, run_detector}
use ai_proctor_engine.Fusion.Types.{PolicySnapshot}
use ai_proctor_engine.Preprocessing.Audio.{
  Audio, audio, failed, Codec, AudioFrame, decode_pcm_audio_chunk, split_into_vad_frames,
}
use ai_proctor_engine.Preprocessing.Frames.{DecodedFrame, ImageCodec, decode_jpeg_frame}
use ai_proctor_engine.Websocket.Messages.{TelemetryAudioChunkPayload}
use ai_proctor_engine.Orchestration.FrameDispatcher.{World}
use ai_proctor_engine.Orchestration.FrameDispatcher.FaceBox.{PixelOps, Box}

-- The models and the libraries as they answer while one event is dispatched. The constructor of a
-- model that is made on its first use may raise; the level of samples is a formula of floats.
pub record Models (F A S : Type 0) : Type 0 where
  pub telemetry_event_id : ℕ
  pub now : ℕ → ℕ
  pub pixels : PixelOps F
  pub codec : ImageCodec A
  pub crop_rgb : A → Box → A
  pub num : FloatArith F
  pub geometry : Geometry F
  pub vectors : Vectors F
  pub landmarker : FaceLandmarkerRunner F
  pub detect : Outcome (A → Outcome (Option (Mesh F)))
  pub predict : Outcome (A → Outcome (Option (List (YoloBox F))))
  pub class_names : ℕ → String
  pub identity_backend : IdentityBackend F A
  pub liveness_backend : Option (LivenessBackend F A)
  pub audio_codec : Codec S
  pub silence : S
  pub rms_db : List S → F
  pub is_speech : AudioFrame S → Outcome Bool

unfoldable pub outcome_of : {T : Type 0} → Audio T → Outcome T
outcome_of (audio t) = ok t
outcome_of (failed e) = raised audio_error

abbrev pub corners : Box → List ℕ
corners box = box.x1 ∷ box.y1 ∷ box.x2 ∷ box.y2 ∷ []

module _ {F A S : Type 0} ⦃ops : FloatOps F⦄ (policy : PolicySnapshot F)
    (models : Models F A S) where
  -- The decoding of a chunk, its cutting into frames and the voice-activity module of the session.
  unfoldable pub hear_chunk : TelemetryAudioChunkPayload → Outcome (AudioVadResult F)
  unfolding outcome_of decode_pcm_audio_chunk split_into_vad_frames make_vad_runner run_vad
  hear_chunk p =
      outcome_of (
        decode_pcm_audio_chunk models.audio_codec p.audio (some "pcm16_le") (some p.sample_rate_hz))
      >>= (λ samples.
          outcome_of (split_into_vad_frames models.silence p.sample_rate_hz p.duration_ms 0 samples)
          >>= (λ frames.
              make_vad_runner 2 policy.audio_noise_floor_dbfs policy.audio_speech_ratio_threshold
              >>= (λ runner.
                  run_vad models.num models.is_speech runner frames (models.rms_db samples))))

  see_face : (A → Outcome (Option (Mesh F))) → DecodedFrame A → Outcome (HeadPoseGazeResult F)
  unfolding run_landmarker
  see_face detect frame =
      run_landmarker models.num models.geometry detect models.landmarker frame.array frame.width
        frame.height

  see_objects :
      (A → Outcome (Option (List (YoloBox F))))
      → DecodedFrame A
      → Outcome (List (ObjectDetectionResult F))
  unfolding run_detector
  see_objects predict frame = run_detector models.num predict models.class_names frame.array

  liveness_check : LivenessBackend F A → A → Box → F → Outcome (LivenessResult F)
  unfolding run_liveness
  liveness_check backend frame box threshold = run_liveness backend frame (corners box) threshold

  -- The runner that the constructor makes where the policy enables the check.
  enabled_liveness :
      Option (LivenessBackend F A) → Option (A → Box → F → Outcome (LivenessResult F))
  unfolding liveness_check
  enabled_liveness none = none
  enabled_liveness (some backend) =
      if policy.liveness_check_enabled then some (liveness_check backend) else none

  unfoldable pub wired : World F A
  unfolding hear_chunk see_face see_objects enabled_liveness run_identity decode_jpeg_frame
  wired = record {
    telemetry_event_id = models.telemetry_event_id;
    now = models.now;
    pixels = models.pixels;
    decode_frame = λ p. decode_jpeg_frame models.codec p.frame p.encoding;
    face_landmarker = models.detect >>= (λ detect. ok (see_face detect));
    object_detector = models.predict >>= (λ predict. ok (see_objects predict));
    crop_rgb = models.crop_rgb;
    identity_runner = λ face enrollment threshold.
        run_identity models.num models.vectors models.identity_backend face enrollment threshold;
    liveness_runner = enabled_liveness models.liveness_backend;
    hear = hear_chunk;
  }
