-- ===== src/Fusion/Aggregator.antt =====
-- The state of one `SessionAggregator` and the accumulated-score check that its handlers share
-- (fusion/aggregator.py). A handler returns its flag decisions, or the exception that it raises,
-- with the state that it leaves behind.
pub mod Intervals
pub mod FacePresence
pub mod Liveness
pub mod Gaze
pub mod Identity
pub mod Objects
pub mod Signals
pub mod Slides
pub mod Expiry
use ai_proctor_engine.Base.{
  ℕ, String, ◌+◌, Bool, true, false, Option, none, some, List, [], ◌∷◌, ◌++◌, length, drop, ltb,
  if◌then◌else◌, Outcome,
}
use ai_proctor_engine.Floats.{FloatOps}
use ai_proctor_engine.Inference.{
  ConfidenceInterval, LivenessResult, IdentityMatchResult, float, text, Fields, end, field,
}
use ai_proctor_engine.Fusion.Types.{
  GazeAwayEvent, FlagDecision, PolicySnapshot, MediumScoreAction, auto_terminate, flag_for_review,
}

abbrev pub rule_second_person : String
rule_second_person = "second_person"

abbrev pub rule_gaze_away_frequency : String
rule_gaze_away_frequency = "gaze_away_frequency"

abbrev pub rule_accumulated_score : String
rule_accumulated_score = "accumulated_score"

abbrev pub rule_object_detected : String
rule_object_detected = "object_detected"

abbrev pub rule_browser_event : String
rule_browser_event = "browser_event"

abbrev pub rule_liveness_check_failed : String
rule_liveness_check_failed = "liveness_check_failed"

abbrev pub rule_identity_mismatch : String
rule_identity_mismatch = "identity_mismatch"

abbrev pub rule_identity_check_unavailable : String
rule_identity_check_unavailable = "identity_check_unavailable"

abbrev pub rule_audio_anomaly : String
rule_audio_anomaly = "audio_anomaly"

abbrev pub critical : String
critical = "critical"

abbrev pub medium : String
medium = "medium"

pub record SessionAggregator (F : Type 0) : Type 0 where
  pub consecutive_second_person_frames : ℕ
  pub second_person_event_ids : List ℕ
  pub second_person_fired : Bool
  pub gaze_off_start_ms : Option ℕ
  pub gaze_off_event_ids : List ℕ
  pub gaze_away_events : List GazeAwayEvent
  pub gaze_termination_fired : Bool
  pub accumulated_score : F
  pub liveness_window : List (LivenessResult F)
  pub liveness_event_ids_window : List ℕ
  pub liveness_spoof_run_length : ℕ
  pub identity_window : List (IdentityMatchResult F)
  pub identity_event_ids_window : List ℕ
  pub identity_mismatch_fired : Bool
  pub identity_unavailable_fired : Bool

-- What a handler returns.
abbrev pub Reply : Type 0 → Type 0
Reply F = Outcome (List (FlagDecision F)) × SessionAggregator F

-- `deque.append` on the results and on their ids, and one `popleft` of both when the results are
-- more than `size`.
unfoldable pub slide {ℓ} : {A : Type ℓ} → ℕ → List A → List ℕ → A → ℕ → List A × List ℕ
slide size window ids result id =
    let window' = window ++ (result ∷ []) in
    let ids' = ids ++ (id ∷ []) in
    if ltb size (length window') then (drop 1 window', drop 1 ids') else (window', ids')

abbrev action_value : MediumScoreAction → String
action_value auto_terminate = "auto_terminate"
action_value flag_for_review = "flag_for_review"

abbrev terminates : MediumScoreAction → Bool
terminates auto_terminate = true
terminates flag_for_review = false

module _ {F : Type 0} ⦃ops : FloatOps F⦄ where
  -- `SessionAggregator.__init__`
  abbrev pub init : SessionAggregator F
  init = record {
    consecutive_second_person_frames = 0;
    second_person_event_ids = [];
    second_person_fired = false;
    gaze_off_start_ms = none;
    gaze_off_event_ids = [];
    gaze_away_events = [];
    gaze_termination_fired = false;
    accumulated_score = ops.zero_f;
    liveness_window = [];
    liveness_event_ids_window = [];
    liveness_spoof_run_length = 0;
    identity_window = [];
    identity_event_ids_window = [];
    identity_mismatch_fired = false;
    identity_unavailable_fired = false;
  }

  -- `ConfidenceInterval(lower=1.0, score=1.0, upper=1.0)`, which passes its own checks.
  abbrev pub certain : ConfidenceInterval F
  certain = record { lower = ops.one_f; score = ops.one_f; upper = ops.one_f }

  -- The decision that the two branches on `medium_score_action` build.
  score_decision : PolicySnapshot F → F → List ℕ → FlagDecision F
  score_decision policy score ids = record {
    rule_code = rule_accumulated_score;
    severity = critical;
    confidence = certain;
    triggered_termination = terminates policy.medium_score_action;
    suppressed_by_exemption_id = none;
    detail = field "accumulated_score" (float score) (
        field "threshold" (float policy.medium_score_termination_threshold)
          (field "medium_score_action" (text (action_value policy.medium_score_action)) end));
    contributing_event_ids = ids;
    score_delta = ops.zero_f;
  }

  -- `_check_accumulated_threshold`
  unfoldable pub check_accumulated_threshold :
      PolicySnapshot F → F → List ℕ → Option (FlagDecision F)
  unfolding score_decision
  check_accumulated_threshold policy score ids =
      if ops.le policy.medium_score_termination_threshold ops.zero_f
      then none
      else if ops.lt score policy.medium_score_termination_threshold
      then none
      else some (score_decision policy score ids)

  abbrev pub with_optional : FlagDecision F → Option (FlagDecision F) → List (FlagDecision F)
  with_optional decision none = decision ∷ []
  with_optional decision (some extra) = decision ∷ extra ∷ []

  -- The end that the handlers of the accumulated path share: add the weight, check the threshold,
  -- and append its decision.
  unfoldable pub accumulate :
      PolicySnapshot F
      → FlagDecision F
      → F
      → List ℕ
      → SessionAggregator F
      → List (FlagDecision F) × SessionAggregator F
  accumulate policy decision weight ids agg =
      let score = ops.add agg.accumulated_score weight in
      (
        with_optional decision (check_accumulated_threshold policy score ids),
        record agg { accumulated_score = score },
      )
