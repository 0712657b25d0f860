-- ===== src/Fusion/Aggregator/FacePresence.antt =====
-- Path 1: a second person in the frame.
use ai_proctor_engine.Base.{ℕ, ◌+◌, true, none, not, List, [], ◌∷◌, ◌++◌, leb, if◌then◌else◌, ok}
use ai_proctor_engine.Floats.{FloatOps}
use ai_proctor_engine.Inference.{FacePresenceResult, int, end, field}
use ai_proctor_engine.Fusion.Types.{FlagDecision, PolicySnapshot}
use ai_proctor_engine.Fusion.Aggregator.{SessionAggregator, Reply, rule_second_person, critical}

module _ {F : Type 0} ⦃ops : FloatOps F⦄ where
  abbrev pub second_person_decision :
      PolicySnapshot F → FacePresenceResult F → List ℕ → FlagDecision F
  second_person_decision policy result ids = record {
    rule_code = rule_second_person;
    severity = critical;
    confidence = result.confidence;
    triggered_termination = true;
    suppressed_by_exemption_id = none;
    detail =
        field "face_count" (int result.face_count)
          (field "confirmation_frames" (int policy.second_face_confirmation_frames) end);
    contributing_event_ids = ids;
    score_delta = ops.zero_f;
  }

  -- The frame shows two faces or more.
  second_face : PolicySnapshot F → FacePresenceResult F → ℕ → SessionAggregator F → Reply F
  second_face policy result id agg =
      let count = agg.consecutive_second_person_frames + 1 in
      let ids = agg.second_person_event_ids ++ (id ∷ []) in
      let agg' = record agg {
        consecutive_second_person_frames = count;
        second_person_event_ids = ids;
      } in
      if leb policy.second_face_confirmation_frames count
      then (
        ok (second_person_decision policy result ids ∷ []),
        record agg' { second_person_fired = true },
      )
      else (ok [], agg')

  unfoldable pub process_face_presence :
      PolicySnapshot F → FacePresenceResult F → ℕ → SessionAggregator F → Reply F
  unfolding second_face
  process_face_presence policy result id agg =
      if agg.second_person_fired
      then (ok [], agg)
      else if not policy.terminate_on_second_face
      then (ok [], agg)
      else if leb 2 result.face_count
      then second_face policy result id agg
      else (
        ok [],
        record agg { consecutive_second_person_frames = 0; second_person_event_ids = [] },
      )
