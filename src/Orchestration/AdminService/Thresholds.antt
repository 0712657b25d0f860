-- ===== src/Orchestration/AdminService/Thresholds.antt =====
-- The thresholds of a policy with the constraints of the request's model (orchestration/_schemas.py),
-- of the service (`_validate_policy_request`) and of the table (`PolicyConfig` of models.py).
use ai_proctor_engine.Base.{
  ℕ, String, ◌*◌, ltb, leb, Bool, true, false, not, ◌&&◌, ◌||◌, Option, none, some, if◌then◌else◌,
}
use ai_proctor_engine.Floats.{FloatOps}
use ai_proctor_engine.Fusion.Types.{MediumScoreAction, LivenessAction}
use ai_proctor_engine.Inference.{Fields, in_unit}
use ai_proctor_engine.Orchestration.FlagPersistence.{FlagSeverity}
use Prim.Native.String.{len}

-- The thresholds of a policy, which the request and the row share.
pub record PolicySettings (F : Type 0) : Type 0 where
  pub termination_severity : FlagSeverity
  pub terminate_on_second_face : Bool
  pub second_face_confirmation_frames : ℕ
  pub gaze_min_duration_ms : ℕ
  pub gaze_window_seconds : ℕ
  pub gaze_warning_limit : ℕ
  pub gaze_termination_limit : ℕ
  pub medium_score_termination_threshold : F
  pub medium_score_action : MediumScoreAction
  pub liveness_check_enabled : Bool
  pub liveness_check_action : Option LivenessAction
  pub liveness_score_threshold : F
  pub liveness_confirmation_frames : ℕ
  pub identity_similarity_threshold : F
  pub identity_confirmation_frames : ℕ
  pub audio_noise_floor_dbfs : F
  pub audio_speech_ratio_threshold : F
  pub extra_rules : Fields F

-- `CreatePolicyConfigRequest`
pub record PolicyRequest (F : Type 0) : Type 0 where
  pub name : String
  pub settings : PolicySettings F
  pub is_active : Bool
  pub retire_previous : Bool

unfoldable pub is_set : {A : Type 0} → Option A → Bool
is_set none = false
is_set (some a) = true

between : ℕ → ℕ → ℕ → Bool
between low high n = leb low n && leb n high

module _ {F : Type 0} ⦃ops : FloatOps F⦄ where
  -- The constraints of the request's fields (`ge`, `le`, `min_length`, `max_length`).
  unfoldable pub fields_valid : PolicyRequest F → Bool
  unfolding between in_unit
  fields_valid r =
      let s = r.settings in
      between 1 128 (len r.name)
      && (between 1 100 s.second_face_confirmation_frames
          && (between 0 86400000 s.gaze_min_duration_ms
              && (between 1 86400 s.gaze_window_seconds
                  && (between 0 1000 s.gaze_warning_limit
                      && (between 1 1000 s.gaze_termination_limit
                          && (ops.le ops.zero_f s.medium_score_termination_threshold
                              && (in_unit s.liveness_score_threshold
                                  && (between 1 100 s.liveness_confirmation_frames
                                      && (in_unit s.identity_similarity_threshold
                                          && (between 1 100 s.identity_confirmation_frames
                                              && in_unit s.audio_speech_ratio_threshold))))))))))

  -- `_validate_policy_request`; its error is `PolicyVersioningError` on every branch.
  unfoldable pub validate_policy_request : PolicySettings F → Bool
  unfolding is_set in_unit
  validate_policy_request s =
      if ltb s.gaze_termination_limit s.gaze_warning_limit
      then false
      else if ltb (s.gaze_window_seconds * 1000) s.gaze_min_duration_ms
      then false
      else if ops.lt s.medium_score_termination_threshold ops.zero_f
      then false
      else if s.liveness_check_enabled && not (is_set s.liveness_check_action)
      then false
      else if not (in_unit s.liveness_score_threshold)
      then false
      else if not (in_unit s.identity_similarity_threshold)
      then false
      else in_unit s.audio_speech_ratio_threshold

  -- The check constraints of the table, besides those that hold of every number on ℕ.
  unfoldable pub check_constraints : PolicySettings F → Bool
  unfolding is_set in_unit
  check_constraints s =
      leb 1 s.gaze_window_seconds
      && (leb 1 s.gaze_termination_limit
          && (leb s.gaze_warning_limit s.gaze_termination_limit
              && (leb s.gaze_min_duration_ms (s.gaze_window_seconds * 1000)
                  && (leb 1 s.second_face_confirmation_frames
                      && (leb 1 s.liveness_confirmation_frames
                          && (in_unit s.identity_similarity_threshold
                              && (leb 1 s.identity_confirmation_frames
                                  && (in_unit s.audio_speech_ratio_threshold
                                      && (ops.le ops.zero_f s.medium_score_termination_threshold
                                          && (in_unit s.liveness_score_threshold
                                              && (not s.liveness_check_enabled
                                                  || is_set s.liveness_check_action)))))))))))
