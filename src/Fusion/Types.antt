-- ===== src/Fusion/Types.antt =====
-- The vocabulary of the fusion engine (fusion/_types.py and the two snapshot classes of
-- fusion/aggregator.py). Identifiers are only compared, so a UUID is a number.
use ai_proctor_engine.Base.{ℕ, String, str_eq, Bool, Option, List, [], ◌∷◌, if◌then◌else◌}
use ai_proctor_engine.Floats.{FloatOps}
use ai_proctor_engine.Inference.{ConfidenceInterval, Fields}

-- One uninterrupted off-screen episode.
pub record GazeAwayEvent : Type 0 where
  pub started_at_ms : ℕ
  pub ended_at_ms : ℕ
  pub contributing_event_ids : List ℕ

pub record FlagDecision (F : Type 0) : Type 0 where
  pub rule_code : String
  pub severity : String
  pub confidence : ConfidenceInterval F
  pub triggered_termination : Bool
  pub suppressed_by_exemption_id : Option ℕ
  pub detail : Fields F
  pub contributing_event_ids : List ℕ
  pub score_delta : F

pub record ExemptionRecord : Type 0 where
  pub id : ℕ
  pub participant_id : ℕ
  pub object_class : String
  pub exam_reference : String
  pub effective_at : ℕ
  pub expires_at : Option ℕ

pub data MediumScoreAction : Type 0 where
  auto_terminate flag_for_review : MediumScoreAction

pub data LivenessAction : Type 0 where
  critical_terminate medium_accumulate : LivenessAction

pub record PolicySnapshot (F : Type 0) : Type 0 where
  pub terminate_on_second_face : Bool
  pub second_face_confirmation_frames : ℕ
  pub gaze_min_duration_ms : ℕ
  pub gaze_window_seconds : ℕ
  pub gaze_warning_limit : ℕ
  pub gaze_termination_limit : ℕ
  pub medium_score_termination_threshold : F
  pub medium_score_action : MediumScoreAction
  pub liveness_check_enabled : Bool
  pub liveness_check_action : Option LivenessAction
  pub liveness_score_threshold : F
  pub liveness_confirmation_frames : ℕ
  pub identity_similarity_threshold : F
  pub identity_confirmation_frames : ℕ
  pub audio_noise_floor_dbfs : F
  pub audio_speech_ratio_threshold : F
  pub score_weights : List (String × F)

pub record SessionContext (F : Type 0) : Type 0 where
  pub exam_session_id : ℕ
  pub participant_id : ℕ
  pub exam_reference : String
  pub policy_config_id : ℕ
  pub allowed_reference_materials : String
  pub permitted_material_details : Fields F
  pub exemptions : List ExemptionRecord

-- `d.get(key, default)` on an association list.
abbrev pub get_or : {F : Type 0} → List (String × F) → String → F → F
get_or [] k d = d
get_or ((j, w) ∷ rest) k d = if str_eq j k then w else get_or rest k d

unfoldable pub weight_for : {F : Type 0} ⦃ops : FloatOps F⦄ → PolicySnapshot F → String → F
weight_for ⦃ops⦄ p rule_code = get_or p.score_weights rule_code ops.one_f
