-- ===== src/Fusion/Session/Validity.antt =====
-- What holds of every decision that a session emits.
pub mod Decisions
use ai_proctor_engine.Base.{
  All-append, ℕ, String, str_eq, ◌≡◌, refl, sym, subst, ◌⊎◌, inl, inr, false, Option, none, some,
  List, ◌+◌, [], ◌∷◌, ◌++◌, All, map, arith, Bool-cases, Outcome, ok, raised, Raised, if◌then◌else◌,
  last?,
}
use ai_proctor_engine.Floats.{FloatOps, FloatLaws}
use ai_proctor_engine.Inference.{
  ConfidenceInterval, InUnit, make_interval, HeadPoseGazeResult, ObjectDetectionResult,
}
use ai_proctor_engine.Fusion.Types.{
  FlagDecision, PolicySnapshot, SessionContext, ExemptionRecord, LivenessAction, critical_terminate,
  medium_accumulate, weight_for,
}
use ai_proctor_engine.Fusion.Aggregator.{
  SessionAggregator, Reply, critical, medium, certain, with_optional, slide, accumulate,
  check_accumulated_threshold, rule_browser_event, rule_audio_anomaly, rule_gaze_away_frequency,
}
use ai_proctor_engine.Fusion.Exemptions.{find_matching_exemption, suppressed_severity}
use ai_proctor_engine.Fusion.Aggregator.Intervals.{window_interval}
use ai_proctor_engine.Fusion.Aggregator.FacePresence.{process_face_presence, second_person_decision}
use ai_proctor_engine.Fusion.Aggregator.Liveness.{
  process_liveness, check_spoof_window, flag_liveness, confirm_liveness,
}
use ai_proctor_engine.Fusion.Aggregator.Gaze.{
  process_gaze, observe_gaze, evaluate_gaze, gaze_critical, gaze_medium, latest_event_ids,
}
use ai_proctor_engine.Fusion.Aggregator.Identity.{
  process_identity_match, mismatch_decision, check_identity_window,
  process_identity_check_unavailable,
}
use ai_proctor_engine.Fusion.Aggregator.Objects.{
  object_rule, object_decision, flag_object, base_severity, process_object_detection,
}
use ai_proctor_engine.Fusion.Aggregator.Signals.{
  accumulates, browser_decision, audio_decision, process_browser_event, process_audio_vad,
}
use ai_proctor_engine.Fusion.Session.{
  Call, face, liveness, gaze, identity, identity_unavailable, object, browser, audio, emitted,
  process, run,
}
use ai_proctor_engine.Fusion.Session.Validity.Decisions.{
  Known, base_severity-medium, Sound, Checked, critical-Sound, medium-Sound,
}

module _ {F : Type 0} ⦃ops : FloatOps F⦄ (policy : PolicySnapshot F) (ctx : SessionContext F)
    (laws : FloatLaws ops) where
  make_interval-InUnit :
      (lower score upper : F) (c : ConfidenceInterval F)
      → make_interval lower score upper ≡ ok c
      → InUnit c
  unfolding make_interval
  make_interval-InUnit lower score upper c e =
      ground (arith, laws.le_of_not_lt score lower, laws.le_of_not_lt upper score)

  window_interval-InUnit :
      (xs : List F) (c : ConfidenceInterval F) → window_interval xs ≡ ok c → InUnit c
  unfolding window_interval
  window_interval-InUnit [] c e = ground arith
  window_interval-InUnit (x ∷ xs) c e = make_interval-InUnit _ _ _ c e

  certain-InUnit : InUnit {F = F} certain
  certain-InUnit = record {
    low = laws.zero-le-one;
    left = laws.le_refl ops.one_f;
    right = laws.le_refl ops.one_f;
    high = laws.le_refl ops.one_f;
  }

  abbrev AllSound : Reply F → Type 0
  AllSound (reply, agg) = All Sound (emitted reply)

  -- The decision for the threshold is sound, so what `accumulate` returns is, given its decision is.
  threshold-fields :
      (score : F) (ids : List ℕ) (d : FlagDecision F)
      → check_accumulated_threshold policy score ids ≡ some d
      → (d.confidence ≡ certain)
        × (d.severity ≡ critical)
        × (d.suppressed_by_exemption_id ≡ none)
        × (d.score_delta ≡ ops.zero_f)
  unfolding check_accumulated_threshold
  threshold-fields score ids d e = ground arith

  threshold-Sound :
      (score : F) (ids : List ℕ) (d : FlagDecision F)
      → check_accumulated_threshold policy score ids ≡ some d
      → Sound d
  threshold-Sound score ids d e =
      let (c, s, n, z) = threshold-fields score ids d e in
      critical-Sound d (subst InUnit (sym c) certain-InUnit) s n z

  with_optional-Sound :
      (d : FlagDecision F) (extra : Option (FlagDecision F))
      → Sound d
      → ((e : FlagDecision F) → extra ≡ some e → Sound e)
      → All Sound (with_optional d extra)
  with_optional-Sound d none s h = (s, tt)
  with_optional-Sound d (some e) s h = (s, (h e refl, tt))

  accumulate-Sound :
      (decision : FlagDecision F) (weight : F) (ids : List ℕ) (agg : SessionAggregator F)
      → Sound decision
      → All Sound (accumulate policy decision weight ids agg).0
  unfolding accumulate
  accumulate-Sound decision weight ids agg s =
      let score = ops.add agg.accumulated_score weight in
      with_optional-Sound decision (check_accumulated_threshold policy score ids) s
        (threshold-Sound score ids)

  flag_liveness-Sound :
      (action : Option LivenessAction) (c : ConfidenceInterval F) (agg : SessionAggregator F)
      → InUnit c
      → AllSound (flag_liveness policy action c agg)
  unfolding flag_liveness
  flag_liveness-Sound (some critical_terminate) c agg h = (critical-Sound _ h refl refl refl, tt)
  flag_liveness-Sound (some medium_accumulate) c agg h =
      accumulate-Sound _ _ _ agg (medium-Sound _ h refl refl refl)
  flag_liveness-Sound none c agg h = accumulate-Sound _ _ _ agg (medium-Sound _ h refl refl refl)

  Computed : {A : Type 0} (o : Outcome A) → ((x : A) × (o ≡ ok x)) ⊎ ((e : Raised) × (o ≡ raised e))
  Computed (ok x) = inl (x, refl)
  Computed (raised e) = inr (e, refl)

  confirm_liveness-Sound : (agg : SessionAggregator F) → AllSound (confirm_liveness policy agg)
  unfolding confirm_liveness
  confirm_liveness-Sound agg =
      let scores = map (λ r. r.confidence.score) agg.liveness_window in
      elim (Computed (window_interval scores)) [
        | inl (c, e) ↦ ground (
          arith,
          e,
          flag_liveness-Sound policy.liveness_check_action c agg
              (window_interval-InUnit scores c e),
        )
        | inr (x, e) ↦ ground (arith, e)
      ]

  check_spoof_window-Sound : (agg : SessionAggregator F) → AllSound (check_spoof_window policy agg)
  unfolding check_spoof_window
  check_spoof_window-Sound agg = ground (arith, confirm_liveness-Sound agg)

  check_identity_window-Sound :
      (agg : SessionAggregator F) → AllSound (check_identity_window policy agg)
  unfolding check_identity_window
  check_identity_window-Sound agg =
      let scores = map (λ r. r.similarity) agg.identity_window in
      elim (Computed (window_interval scores)) [
        | inl (c, e) ↦ ground (
          arith,
          e,
          critical-Sound (mismatch_decision policy c agg.identity_event_ids_window)
              (window_interval-InUnit scores c e) refl refl refl,
        )
        | inr (x, e) ↦ ground (arith, e)
      ]

  evaluate_gaze-Sound :
      (result : HeadPoseGazeResult F) (agg : SessionAggregator F)
      → InUnit result.confidence
      → AllSound (evaluate_gaze policy result agg)
  unfolding evaluate_gaze
  evaluate_gaze-Sound result agg h =
      let events = agg.gaze_away_events in
      ground (
        arith,
        critical-Sound (gaze_critical policy result events) h refl refl refl,
        accumulate-Sound (gaze_medium policy result events)
            (weight_for policy rule_gaze_away_frequency) (latest_event_ids (last? events)) agg
            (medium-Sound (gaze_medium policy result events) h refl refl refl),
      )

  flag_object-Sound :
      (result : ObjectDetectionResult F) (id : ℕ) (exemption : Option ExemptionRecord)
      (agg : SessionAggregator F)
      → InUnit result.confidence
      → AllSound (flag_object policy result id exemption agg)
  unfolding flag_object
  flag_object-Sound result id (some ex) agg h = (
    record {
      interval = h;
      known = inr (inr refl);
      terminating = inl refl;
      suppressed = inr (refl, refl, refl);
    },
    tt,
  )
  flag_object-Sound result id none agg h =
      let c = result.detected_class in
      let weight = weight_for policy (object_rule c) in
      let decision = record (object_decision result id none) { score_delta = weight } in
      ground (
        arith,
        base_severity-medium c,
        accumulate-Sound decision weight (id ∷ []) agg
            (medium-Sound decision h (base_severity-medium c) refl refl),
      )

  process-Sound :
      (call : Call F) (agg : SessionAggregator F)
      → Checked call
      → AllSound (process policy ctx call agg)
  unfolding process process_gaze process_liveness process_identity_match process_face_presence
      process_object_detection process_browser_event process_audio_vad
      process_identity_check_unavailable
  process-Sound (face result id) agg h = ground (
    arith,
    critical-Sound (second_person_decision policy result (agg.second_person_event_ids ++ (id ∷ [])))
        h refl refl refl,
  )
  process-Sound (liveness result id) agg h =
      let (window, ids) =
        slide policy.liveness_confirmation_frames agg.liveness_window agg.liveness_event_ids_window
          result id in
      ground (
        arith,
        check_spoof_window-Sound (record agg {
          liveness_window = window;
          liveness_event_ids_window = ids;
          liveness_spoof_run_length = agg.liveness_spoof_run_length + 1;
        }),
      )
  process-Sound (gaze result id now) agg h =
      ground (arith, evaluate_gaze-Sound result (observe_gaze policy result id now agg) h)
  process-Sound (identity result id) agg h =
      let (window, ids) =
        slide policy.identity_confirmation_frames agg.identity_window agg.identity_event_ids_window
          result id in
      ground (
        arith,
        check_identity_window-Sound
            (record agg { identity_window = window; identity_event_ids_window = ids }),
      )
  process-Sound (identity_unavailable id) agg h = (medium-Sound _ certain-InUnit refl refl refl, tt)
  process-Sound (object result id now) agg h =
      let exemption =
        find_matching_exemption ctx.participant_id result.detected_class ctx.exam_reference now
          ctx.exemptions in
      ground (arith, flag_object-Sound result id exemption agg h)
  process-Sound (browser result id) agg h =
      let counted = accumulates result.event_type in
      let weight = if counted then weight_for policy rule_browser_event else ops.zero_f in
      let sound = medium-Sound (browser_decision result id weight) h refl refl refl in
      ground (
        arith,
        accumulate-Sound (browser_decision result id weight) weight (id ∷ []) agg sound,
        sound,
      )
  process-Sound (audio result id) agg h = ground (
    arith,
    accumulate-Sound (audio_decision policy result id) (weight_for policy rule_audio_anomaly)
        (id ∷ []) agg (medium-Sound (audio_decision policy result id) h refl refl refl),
  )

  -- Every decision of a session whose results have checked confidence intervals has an interval with
  -- 0 ≤ lower ≤ score ≤ upper ≤ 1 and a severity of the flag table; one that triggers a termination
  -- is critical and charges no score, and one that an exemption suppresses is low, triggers no
  -- termination and charges no score.
  pub run-Sound :
      (calls : List (Call F)) (agg : SessionAggregator F)
      → All Checked calls
      → All Sound (run policy ctx calls agg).0
  unfolding run
  run-Sound [] agg h = tt
  run-Sound (call ∷ calls) agg (c, h) =
      let (reply, agg') = process policy ctx call agg in
      All-append Sound (emitted reply) _ (process-Sound call agg c) (run-Sound calls agg' h)
