-- ===== src/Fusion/Aggregator/Objects.antt =====
-- Object detection: the book policy, the exemptions and the score.
use ai_proctor_engine.Base.{
  ℕ, String, str_eq, Bool, true, false, not, ◌&&◌, Option, none, some, [], ◌∷◌, if◌then◌else◌, ok,
}
use ai_proctor_engine.Floats.{FloatOps}
use ai_proctor_engine.Inference.{ObjectDetectionResult, bool, float, text, end, field}
use ai_proctor_engine.Fusion.Types.{
  ExemptionRecord, FlagDecision, PolicySnapshot, SessionContext, weight_for,
}
use ai_proctor_engine.Fusion.Exemptions.{suppressed_severity, find_matching_exemption}
use ai_proctor_engine.Fusion.BookSeverity.{book_flag_severity, book_rule_code, should_flag_book}
use ai_proctor_engine.Fusion.Aggregator.{
  SessionAggregator, Reply, rule_object_detected, medium, accumulate,
}

abbrev pub object_rule : String → String
object_rule detected_class =
    if str_eq detected_class "book" then book_rule_code else rule_object_detected

abbrev pub base_severity : String → String
base_severity detected_class = if str_eq detected_class "book" then book_flag_severity else medium

abbrev severity_for : String → Option ExemptionRecord → String
severity_for detected_class (some ex) = suppressed_severity
severity_for detected_class none = base_severity detected_class

abbrev suppressor : Option ExemptionRecord → Option ℕ
suppressor (some ex) = some ex.id
suppressor none = none

abbrev is_some : Option ExemptionRecord → Bool
is_some (some ex) = true
is_some none = false

module _ {F : Type 0} ⦃ops : FloatOps F⦄ where
  -- The decision before its weight is known: `score_delta` has its default.
  abbrev pub object_decision : ObjectDetectionResult F → ℕ → Option ExemptionRecord → FlagDecision F
  object_decision result id exemption = record {
    rule_code = object_rule result.detected_class;
    severity = severity_for result.detected_class exemption;
    confidence = result.confidence;
    triggered_termination = false;
    suppressed_by_exemption_id = suppressor exemption;
    detail = field "detected_class" (text result.detected_class) (
        field "yolo_confidence" (float result.confidence.score)
          (field "suppressed" (bool (is_some exemption)) end));
    contributing_event_ids = id ∷ [];
    score_delta = ops.zero_f;
  }

  -- What follows once the exemption is looked up.
  unfoldable pub flag_object :
      PolicySnapshot F
      → ObjectDetectionResult F
      → ℕ
      → Option ExemptionRecord
      → SessionAggregator F
      → Reply F
  flag_object policy result id exemption agg =
      let decision = object_decision result id exemption in
      let weight = weight_for policy decision.rule_code in
      let (decisions, agg') =
        accumulate policy (record decision { score_delta = weight }) weight (id ∷ []) agg in
      if str_eq decision.severity medium then (ok decisions, agg') else (ok (decision ∷ []), agg)

  unfoldable pub process_object_detection :
      PolicySnapshot F
      → SessionContext F
      → ObjectDetectionResult F
      → ℕ
      → ℕ
      → SessionAggregator F
      → Reply F
  unfolding flag_object
  process_object_detection policy ctx result id now agg =
      let exemption =
        find_matching_exemption ctx.participant_id result.detected_class ctx.exam_reference now
          ctx.exemptions in
      if str_eq result.detected_class "book"
        && not (should_flag_book ctx.allowed_reference_materials ctx.permitted_material_details)
      then (ok [], agg)
      else flag_object policy result id exemption agg
