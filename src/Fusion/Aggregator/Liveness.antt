-- ===== src/Fusion/Aggregator/Liveness.antt =====
-- Path 4: liveness.
use ai_proctor_engine.Base.{
  ℕ, String, true, false, ◌+◌, ◌%◌, not, Option, none, some, List, [], ◌∷◌, map, any, length, ltb,
  ◌==◌, if◌then◌else◌, ok, raised, zero_division,
}
use ai_proctor_engine.Floats.{FloatOps}
use ai_proctor_engine.Inference.{
  ConfidenceInterval, LivenessResult, int, float, text, Fields, end, field,
}
use ai_proctor_engine.Fusion.Types.{
  FlagDecision, PolicySnapshot, LivenessAction, critical_terminate, weight_for,
}
use ai_proctor_engine.Fusion.Aggregator.{
  SessionAggregator, Reply, rule_liveness_check_failed, critical, medium, accumulate, slide,
}
use ai_proctor_engine.Fusion.Aggregator.Intervals.{window_interval}

module _ {F : Type 0} ⦃ops : FloatOps F⦄ where
  abbrev liveness_detail : PolicySnapshot F → ConfidenceInterval F → String → Fields F
  liveness_detail policy interval action =
      field "window_size" (int policy.liveness_confirmation_frames) (
        field "mean_confidence" (float interval.score) (
          field "min_confidence" (float interval.lower) (
            field "max_confidence" (float interval.upper) (
              field "threshold" (float policy.liveness_score_threshold)
                (field "liveness_check_action" (text action) end)))))

  abbrev pub liveness_critical : PolicySnapshot F → ConfidenceInterval F → List ℕ → FlagDecision F
  liveness_critical policy interval ids = record {
    rule_code = rule_liveness_check_failed;
    severity = critical;
    confidence = interval;
    triggered_termination = true;
    suppressed_by_exemption_id = none;
    detail = liveness_detail policy interval "critical_terminate";
    contributing_event_ids = ids;
    score_delta = ops.zero_f;
  }

  abbrev pub liveness_medium : PolicySnapshot F → ConfidenceInterval F → List ℕ → FlagDecision F
  liveness_medium policy interval ids = record {
    rule_code = rule_liveness_check_failed;
    severity = medium;
    confidence = interval;
    triggered_termination = false;
    suppressed_by_exemption_id = none;
    detail = liveness_detail policy interval "medium_accumulate";
    contributing_event_ids = ids;
    score_delta = weight_for policy rule_liveness_check_failed;
  }

  -- The flag for a confirmed window, by `liveness_check_action`.
  unfoldable pub flag_liveness :
      PolicySnapshot F
      → Option LivenessAction
      → ConfidenceInterval F
      → SessionAggregator F
      → Reply F
  flag_liveness policy (some critical_terminate) interval agg =
      (ok (liveness_critical policy interval agg.liveness_event_ids_window ∷ []), agg)
  flag_liveness policy _ interval agg =
      let (decisions, agg') =
        accumulate policy (liveness_medium policy interval agg.liveness_event_ids_window)
          (weight_for policy rule_liveness_check_failed) agg.liveness_event_ids_window agg in
      (ok decisions, agg')

  -- The interval of the window, then its flag.
  unfoldable pub confirm_liveness : PolicySnapshot F → SessionAggregator F → Reply F
  confirm_liveness policy agg =
      elim (window_interval (map (λ r. r.confidence.score) agg.liveness_window)) [
        | raised e ↦ (raised e, agg)
        | ok interval ↦ flag_liveness policy policy.liveness_check_action interval agg
      ]

  -- A spoof frame, once it is in the window and counted.
  unfoldable pub check_spoof_window : PolicySnapshot F → SessionAggregator F → Reply F
  check_spoof_window policy agg =
      let size = policy.liveness_confirmation_frames in
      if ltb (length agg.liveness_window) size
      then (ok [], agg)
      else if any (λ r. r.is_real) agg.liveness_window
      then (ok [], agg)
      else if size == 0
      then (raised zero_division, agg)
      else if not (agg.liveness_spoof_run_length % size == 0)
      then (ok [], agg)
      else confirm_liveness policy agg

  unfoldable pub process_liveness :
      PolicySnapshot F → LivenessResult F → ℕ → SessionAggregator F → Reply F
  unfolding check_spoof_window confirm_liveness flag_liveness
  process_liveness policy result id agg =
      let (window, ids) =
        slide policy.liveness_confirmation_frames agg.liveness_window agg.liveness_event_ids_window
          result id in
      let agg' = record agg { liveness_window = window; liveness_event_ids_window = ids } in
      if not policy.liveness_check_enabled
      then (ok [], agg)
      else if result.is_real
      then (ok [], record agg' { liveness_spoof_run_length = 0 })
      else check_spoof_window policy
          (record agg' { liveness_spoof_run_length = agg.liveness_spoof_run_length + 1 })
