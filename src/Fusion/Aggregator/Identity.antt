-- ===== src/Fusion/Aggregator/Identity.antt =====
-- Path 5: identity match, and the flag for an unavailable identity check.
use ai_proctor_engine.Base.{
  ℕ, Bool, true, false, none, List, [], ◌∷◌, map, any, length, ltb, if◌then◌else◌, ok, raised,
}
use ai_proctor_engine.Floats.{FloatOps}
use ai_proctor_engine.Inference.{
  ConfidenceInterval, IdentityMatchResult, int, float, text, end, field,
}
use ai_proctor_engine.Fusion.Types.{FlagDecision, PolicySnapshot}
use ai_proctor_engine.Fusion.Aggregator.{
  SessionAggregator, Reply, rule_identity_mismatch, rule_identity_check_unavailable, critical,
  medium, certain, slide,
}
use ai_proctor_engine.Fusion.Aggregator.Intervals.{window_interval}

module _ {F : Type 0} ⦃ops : FloatOps F⦄ where
  abbrev pub mismatch_decision : PolicySnapshot F → ConfidenceInterval F → List ℕ → FlagDecision F
  mismatch_decision policy interval ids = record {
    rule_code = rule_identity_mismatch;
    severity = critical;
    confidence = interval;
    triggered_termination = true;
    suppressed_by_exemption_id = none;
    detail = field "window_size" (int policy.identity_confirmation_frames) (
        field "mean_similarity" (float interval.score) (
          field "min_similarity" (float interval.lower) (
            field "max_similarity" (float interval.upper)
              (field "threshold" (float policy.identity_similarity_threshold) end))));
    contributing_event_ids = ids;
    score_delta = ops.zero_f;
  }

  -- `r.similarity >= threshold`
  abbrev pub matches : PolicySnapshot F → IdentityMatchResult F → Bool
  matches policy r = ops.le policy.identity_similarity_threshold r.similarity

  -- The window, once the frame is in it.
  unfoldable pub check_identity_window : PolicySnapshot F → SessionAggregator F → Reply F
  check_identity_window policy agg =
      if ltb (length agg.identity_window) policy.identity_confirmation_frames
      then (ok [], agg)
      else if any (matches policy) agg.identity_window
      then (ok [], agg)
      else elim (window_interval (map (λ r. r.similarity) agg.identity_window)) [
        | raised e ↦ (raised e, agg)
        | ok interval ↦ (
          ok (mismatch_decision policy interval agg.identity_event_ids_window ∷ []),
          record agg { identity_mismatch_fired = true },
        )
      ]

  unfoldable pub process_identity_match :
      PolicySnapshot F → IdentityMatchResult F → ℕ → SessionAggregator F → Reply F
  unfolding check_identity_window
  process_identity_match policy result id agg =
      let (window, ids) =
        slide policy.identity_confirmation_frames agg.identity_window agg.identity_event_ids_window
          result id in
      if agg.identity_mismatch_fired
      then (ok [], agg)
      else check_identity_window policy
          (record agg { identity_window = window; identity_event_ids_window = ids })

  -- It reads and changes no state.
  unfoldable pub process_identity_check_unavailable : ℕ → SessionAggregator F → Reply F
  process_identity_check_unavailable id agg = (ok (decision ∷ []), agg)
    where
      decision : FlagDecision F
      decision = record {
        rule_code = rule_identity_check_unavailable;
        severity = medium;
        confidence = certain;
        triggered_termination = false;
        suppressed_by_exemption_id = none;
        detail =
            field "reason"
              (text
                "identity backend unavailable at session start; override exists, mandatory review required")
              end;
        contributing_event_ids = id ∷ [];
        score_delta = ops.zero_f;
      }
