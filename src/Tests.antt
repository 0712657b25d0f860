-- ===== src/Tests.antt =====
-- The numbers of the tests, thousandths of one, and the records that they share.
pub mod Sessions
pub mod Control
pub mod Launches
pub mod Persistence
pub mod Upkeep
pub mod Dispatching
pub mod Admins
pub mod Connections
use ai_proctor_engine.Base.{
  ℕ, ◌+◌, ◌*◌, ◌/◌, ◌≡◌, refl, Bool, true, false, Option, none, some, List, [], ◌∷◌, ltb, leb,
  arith,
}
use ai_proctor_engine.Floats.{FloatOps, FloatLaws}
use ai_proctor_engine.Inference.{ConfidenceInterval, InUnit, InferenceResult, end}
use ai_proctor_engine.Fusion.Types.{
  ExemptionRecord, PolicySnapshot, SessionContext, flag_for_review, medium_accumulate,
}

abbrev sum : List ℕ → ℕ
sum [] = 0
sum (x ∷ xs) = x + sum xs

instance abbrev pub thousandths : FloatOps ℕ
thousandths = record {
  zero_f = 0;
  one_f = 1000;
  add = λ a b. a + b;
  lt = ltb;
  le = leb;
  total = sum;
  over = λ a n. a / n;
}

pub thousandths_laws : FloatLaws thousandths
thousandths_laws = record {
  le_of_not_lt = λ a b h. ground arith;
  le_of_lt = λ a b h. ground arith;
  not_lt_of_le = λ a b h. ground arith;
  le_refl = λ a. ground arith;
  le_trans = λ a b c h k. ground arith;
  add_zero = λ a. omega arith;
  le-add = λ a w h. ground arith;
  zero-le-one = refl;
}

abbrev pub interval : ℕ → ConfidenceInterval ℕ
interval s = record { lower = s; score = s; upper = s }

pub interval_InUnit : InUnit (interval 400)
interval_InUnit = record { low = refl; left = refl; right = refl; high = refl }

abbrev pub result : InferenceResult ℕ
result = record {
  modality = "video";
  event_type = "test";
  confidence = interval 400;
  bounding_boxes = [];
  raw_value = end;
}

abbrev pub policy : PolicySnapshot ℕ
policy = record {
  terminate_on_second_face = true;
  second_face_confirmation_frames = 2;
  gaze_min_duration_ms = 100;
  gaze_window_seconds = 60;
  gaze_warning_limit = 1;
  gaze_termination_limit = 2;
  medium_score_termination_threshold = 1500;
  medium_score_action = flag_for_review;
  liveness_check_enabled = true;
  liveness_check_action = some medium_accumulate;
  liveness_score_threshold = 500;
  liveness_confirmation_frames = 2;
  identity_similarity_threshold = 500;
  identity_confirmation_frames = 2;
  audio_noise_floor_dbfs = 0;
  audio_speech_ratio_threshold = 500;
  score_weights = ("browser_event", 800) ∷ [];
}

abbrev pub exemption : ExemptionRecord
exemption = record {
  id = 90;
  participant_id = 7;
  object_class = "phone";
  exam_reference = "finals";
  effective_at = 10;
  expires_at = some 100;
}

abbrev pub context : SessionContext ℕ
context = record {
  exam_session_id = 1;
  participant_id = 7;
  exam_reference = "finals";
  policy_config_id = 3;
  allowed_reference_materials = "closed_book";
  permitted_material_details = end;
  exemptions = exemption ∷ [];
}
