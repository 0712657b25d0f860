-- ===== src/Fusion/Aggregator/Signals.antt =====
-- Browser events and audio chunks.
use ai_proctor_engine.Base.{ℕ, String, str_eq, Bool, false, ◌||◌, none, [], ◌∷◌, if◌then◌else◌, ok}
use ai_proctor_engine.Floats.{FloatOps}
use ai_proctor_engine.Inference.{BrowserEventResult, AudioVadResult, float, text, obj, end, field}
use ai_proctor_engine.Fusion.Types.{FlagDecision, PolicySnapshot, weight_for}
use ai_proctor_engine.Fusion.Aggregator.{
  SessionAggregator, Reply, rule_browser_event, rule_audio_anomaly, medium, accumulate,
}

-- `event_type in _BROWSER_ACCUMULATION_EVENTS`
abbrev pub accumulates : String → Bool
accumulates event_type = str_eq event_type "visibilitychange" || str_eq event_type "blur"

module _ {F : Type 0} ⦃ops : FloatOps F⦄ where
  abbrev pub browser_decision : BrowserEventResult F → ℕ → F → FlagDecision F
  browser_decision result id weight = record {
    rule_code = rule_browser_event;
    severity = medium;
    confidence = result.confidence;
    triggered_termination = false;
    suppressed_by_exemption_id = none;
    detail =
        field "browser_event_type" (text result.event_type)
          (field "detail" (obj result.detail) end);
    contributing_event_ids = id ∷ [];
    score_delta = weight;
  }

  unfoldable pub process_browser_event :
      PolicySnapshot F → BrowserEventResult F → ℕ → SessionAggregator F → Reply F
  process_browser_event policy result id agg =
      let counted = accumulates result.event_type in
      let weight = if counted then weight_for policy rule_browser_event else ops.zero_f in
      let (decisions, agg') =
        accumulate policy (browser_decision result id weight) weight (id ∷ []) agg in
      if counted then (ok decisions, agg') else (ok (browser_decision result id weight ∷ []), agg)

  abbrev pub audio_decision : PolicySnapshot F → AudioVadResult F → ℕ → FlagDecision F
  audio_decision policy result id = record {
    rule_code = rule_audio_anomaly;
    severity = medium;
    confidence = result.confidence;
    triggered_termination = false;
    suppressed_by_exemption_id = none;
    detail = field "audio_event_type" (text result.event_type) (
        field "speech_ratio" (float result.speech_ratio) (
          field "rms_db" (float result.rms_db) (
            field "speech_ratio_threshold" (float policy.audio_speech_ratio_threshold)
              (field "noise_floor_dbfs" (float policy.audio_noise_floor_dbfs) end))));
    contributing_event_ids = id ∷ [];
    score_delta = weight_for policy rule_audio_anomaly;
  }

  unfoldable pub process_audio_vad :
      PolicySnapshot F → AudioVadResult F → ℕ → SessionAggregator F → Reply F
  process_audio_vad policy result id agg =
      let (decisions, agg') =
        accumulate policy (audio_decision policy result id) (weight_for policy rule_audio_anomaly)
          (id ∷ []) agg in
      if str_eq result.event_type "silence" then (ok [], agg) else (ok decisions, agg')
