-- ===== src/Inference/LivenessCheck.antt =====
-- The anti-spoofing classifier (inference/liveness.py). The model behind the backend is an argument.
use ai_proctor_engine.Base.{
  ℕ, String, Bool, not, ◌&&◌, List, [], if◌then◌else◌, Outcome, ok, raised, value_error, ◌>>=◌,
  length, ◌==◌,
}
use ai_proctor_engine.Floats.{FloatOps, clamp}
use ai_proctor_engine.Inference.{
  ConfidenceInterval, end, field, float, bool, text, LivenessResult, in_unit,
}
use ai_proctor_engine.Inference.Intervals.{point}
use ai_proctor_engine.Inference.IdentityMatch.{has_three_channels}

-- `LivenessBackend`, on the arrays of type `A` and a box of pixels.
pub record LivenessBackend (F A : Type 0) : Type 0 where
  pub predict : A → List ℕ → Outcome (Bool × F)
  pub model_name : String

-- `UnifaceBackend`, over an array's shape and the spoofer's `predict`.
unfoldable pub uniface_backend :
    {F A : Type 0} → (A → List ℕ) → (A → List ℕ → Outcome (Bool × F)) → LivenessBackend F A
unfolding has_three_channels
uniface_backend shape spoofer = record {
  predict = λ frame_bgr bbox.
      if not (has_three_channels (shape frame_bgr))
      then raised value_error
      else if not (length bbox == 4)
      then raised value_error
      else spoofer frame_bgr bbox;
  model_name = "MiniFASNetV2";
}

module _ {F : Type 0} ⦃ops : FloatOps F⦄ where
  unfoldable pub compute_liveness_confidence : F → Outcome (ConfidenceInterval F)
  unfolding point
  compute_liveness_confidence score = point (clamp score)

  module _ {A : Type 0} (backend : LivenessBackend F A) where
    abbrev pub liveness_result : F → Bool → F → ConfidenceInterval F → LivenessResult F
    liveness_result threshold model_is_real raw_confidence confidence =
        let is_real = model_is_real && ops.le threshold raw_confidence in
        record {
          base = record {
            modality = "liveness";
            event_type = if is_real then "liveness_real" else "liveness_spoof";
            confidence = confidence;
            bounding_boxes = [];
            raw_value = field "model_is_real" (bool model_is_real) (
                field "raw_confidence" (float raw_confidence) (
                  field "threshold" (float threshold)
                    (field "model_name" (text backend.model_name) end)));
          };
          is_real = is_real;
        }

    -- `LivenessRunner.run`
    unfoldable pub run_liveness : A → List ℕ → F → Outcome (LivenessResult F)
    unfolding compute_liveness_confidence in_unit
    run_liveness frame_bgr bbox threshold =
        if not (in_unit threshold)
        then raised value_error
        else backend.predict frame_bgr bbox >>= (λ answer.
          compute_liveness_confidence answer.1
          >>= (λ c. ok (liveness_result threshold answer.0 answer.1 c)))
