-- ===== src/Inference/AudioVad.antt =====
-- The voice-activity classifier of audio chunks (inference/audio_vad.py). `webrtcvad` is an
-- argument: what it answers, or raises, on a frame.
use ai_proctor_engine.Base.{
  ℕ, String, ◌+◌, ◌≤◌, Bool, false, not, ◌&&◌, List, [], ◌∷◌, length, ◌==◌, ltb, if◌then◌else◌,
  Outcome, ok, raised, value_error, ◌>>=◌, arith,
}
use ai_proctor_engine.Floats.{FloatOps, FloatArith}
use ai_proctor_engine.Inference.{ConfidenceInterval, end, field, int, float, AudioVadResult}
use ai_proctor_engine.Inference.Intervals.{point}
use ai_proctor_engine.Preprocessing.Audio.{AudioFrame}

pub record AudioVadRunner (F : Type 0) : Type 0 where
  pub aggressiveness : ℕ
  pub noise_floor : F
  pub speech_ratio_threshold : F

abbrev pub event_silence : String
event_silence = "silence"

abbrev pub event_speech_detected : String
event_speech_detected = "speech_detected"

abbrev pub event_elevated_rms : String
event_elevated_rms = "elevated_rms"

-- A frame that `is_speech` raises on is no speech.
heard : Outcome Bool → Bool
heard (ok b) = b
heard (raised e) = false

unfoldable pub count_speech : {S : Type 0} → (AudioFrame S → Outcome Bool) → List (AudioFrame S) → ℕ
unfolding heard
count_speech is_speech [] = 0
count_speech is_speech (af ∷ frames) =
    let others = count_speech is_speech frames in
    if heard (is_speech af) then others + 1 else others

pub count_speech-le :
    {S : Type 0} (is_speech : AudioFrame S → Outcome Bool) (frames : List (AudioFrame S))
    → count_speech is_speech frames ≤ length frames
unfolding count_speech
count_speech-le is_speech [] = omega arith
count_speech-le is_speech (af ∷ frames) = ground (arith, count_speech-le is_speech frames)

module _ {F : Type 0} ⦃ops : FloatOps F⦄ where
  -- `__init__`; an aggressiveness on ℕ is never negative.
  unfoldable pub make_vad_runner : ℕ → F → F → Outcome (AudioVadRunner F)
  make_vad_runner aggressiveness noise_floor threshold =
      if ltb 3 aggressiveness
      then raised value_error
      else if not (ops.le ops.zero_f threshold && ops.le threshold ops.one_f)
      then raised value_error
      else ok (record {
        aggressiveness = aggressiveness;
        noise_floor = noise_floor;
        speech_ratio_threshold = threshold;
      })

  abbrev vad_result : String → ConfidenceInterval F → F → F → ℕ → ℕ → AudioVadResult F
  vad_result event_type confidence ratio rms_db speech total = record {
    base = record {
      modality = "audio";
      event_type = event_type;
      confidence = confidence;
      bounding_boxes = [];
      raw_value =
          field "speech_frames" (int speech)
            (field "total_frames" (int total) (field "rms_db" (float rms_db) end));
    };
    speech_ratio = ratio;
    rms_db = rms_db;
    speech_frames = speech;
    total_frames = total;
  }

  -- The event of a chunk that has frames.
  unfoldable pub classify_chunk : AudioVadRunner F → F → F → String
  classify_chunk runner ratio rms_db =
      if ops.le runner.speech_ratio_threshold ratio
      then event_speech_detected
      else if ops.lt runner.noise_floor rms_db
      then event_elevated_rms
      else event_silence

  -- `run`
  unfoldable pub run_vad :
      {S : Type 0}
      → FloatArith F
      → (AudioFrame S → Outcome Bool)
      → AudioVadRunner F
      → List (AudioFrame S)
      → F
      → Outcome (AudioVadResult F)
  unfolding point classify_chunk count_speech
  run_vad num is_speech runner frames rms_db =
      let total = length frames in
      let speech = count_speech is_speech frames in
      let ratio = num.ratio speech total in
      if total == 0
      then point ops.zero_f >>= (λ c. ok (vad_result event_silence c ops.zero_f rms_db 0 0))
      else point ratio
        >>= (λ c. ok (vad_result (classify_chunk runner ratio rms_db) c ratio rms_db speech total))
