-- ===== src/Inference/IdentityMatch.antt =====
-- The comparison of a face with the enrolled one (inference/identity_match.py). The vector products
-- are numpy's and the embedding is the backend's library's, so they are arguments.
use ai_proctor_engine.Base.{
  ℕ, String, Bool, false, not, ◌||◌, List, [], ◌∷◌, length, replicate, ◌==◌, if◌then◌else◌, Outcome,
  ok, raised, value_error, ◌>>=◌,
}
use ai_proctor_engine.Floats.{FloatOps, FloatArith, clamp}
use ai_proctor_engine.Inference.{
  ConfidenceInterval, end, field, float, int, text, IdentityMatchResult, in_unit,
}
use ai_proctor_engine.Inference.Intervals.{point}

pub record Vectors (F : Type 0) : Type 0 where
  pub dot : List F → List F → F
  pub norm : List F → F

-- `IdentityBackend`, on the arrays of type `A`.
pub record IdentityBackend (F A : Type 0) : Type 0 where
  pub embed : A → Outcome (List F)
  pub embedding_dim : ℕ
  pub model_name : String

-- The last axis of an array with three of them.
unfoldable pub has_three_channels : List ℕ → Bool
has_three_channels (h ∷ w ∷ c ∷ []) = c == 3
has_three_channels _ = false

first_encoding : {F : Type 0} → List (List F) → Outcome (List F)
first_encoding [] = raised value_error
first_encoding (e ∷ es) = ok e

module _ {F A : Type 0} where
  -- `FaceRecognitionBackend`, over an array's shape and the library's `face_encodings`.
  unfoldable pub face_recognition_backend : (A → List ℕ) → (A → List (List F)) → IdentityBackend F A
  unfolding has_three_channels first_encoding
  face_recognition_backend shape face_encodings = record {
    embed = λ face_rgb.
        if not (has_three_channels (shape face_rgb))
        then raised value_error
        else first_encoding (face_encodings face_rgb);
    embedding_dim = 128;
    model_name = "dlib_resnet_v1";
  }

module _ {F A : Type 0} ⦃ops : FloatOps F⦄ where
  -- `_AlwaysZeroBackend` of orchestration/_frame_dispatcher.py.
  abbrev pub always_zero_backend : IdentityBackend F A
  always_zero_backend = record {
    embed = λ face_rgb. ok (replicate 128 ops.zero_f);
    embedding_dim = 128;
    model_name = "always-zero-fallback";
  }

module _ {F : Type 0} ⦃ops : FloatOps F⦄ (num : FloatArith F) (vec : Vectors F) where
  unfoldable pub compute_cosine_similarity : List F → List F → Outcome F
  compute_cosine_similarity a b =
      if not (length a == length b)
      then raised value_error
      else if length a == 0
      then raised value_error
      else if num.same (vec.norm a) ops.zero_f || num.same (vec.norm b) ops.zero_f
      then ok ops.zero_f
      else ok (clamp (num.div (vec.dot a b) (num.mul (vec.norm a) (vec.norm b))))

  module _ {A : Type 0} (backend : IdentityBackend F A) where
    abbrev pub identity_result : F → F → ConfidenceInterval F → IdentityMatchResult F
    identity_result threshold similarity confidence = record {
      base = record {
        modality = "identity";
        event_type = if ops.le threshold similarity then "identity_match" else "identity_mismatch";
        confidence = confidence;
        bounding_boxes = [];
        raw_value = field "similarity" (float similarity) (
            field "threshold" (float threshold) (
              field "embedding_dim" (int backend.embedding_dim)
                (field "model_name" (text backend.model_name) end)));
      };
      similarity = similarity;
    }

    -- `IdentityMatchRunner.run`
    unfoldable pub run_identity : A → List F → F → Outcome (IdentityMatchResult F)
    unfolding compute_cosine_similarity point in_unit
    run_identity face_rgb enrollment threshold =
        if not (in_unit threshold)
        then raised value_error
        else backend.embed face_rgb
          >>= (λ current. compute_cosine_similarity current enrollment)
          >>= (λ similarity.
              point similarity >>= (λ c. ok (identity_result threshold similarity c)))
