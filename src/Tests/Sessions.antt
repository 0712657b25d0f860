-- ===== src/Tests/Sessions.antt =====
-- Sessions of the fusion engine on concrete results.
use ai_proctor_engine.Base.{
  ℕ, String, ◌≤◌, ◌≡◌, refl, Bool, true, false, Option, none, some, List, [], ◌∷◌, All, length,
  arith, ok, ltb, leb,
}
use ai_proctor_engine.Tests.{
  thousandths, thousandths_laws, interval_InUnit, result, policy, exemption, context,
}
use ai_proctor_engine.Inference.{
  make_interval, ConfidenceInterval, InUnit, Between, FacePresenceResult, LivenessResult,
  HeadPoseGazeResult, IdentityMatchResult, ObjectDetectionResult, BrowserEventResult, end,
}
use ai_proctor_engine.Fusion.Types.{weight_for, FlagDecision}
use ai_proctor_engine.Fusion.Exemptions.{find_matching_exemption}
use ai_proctor_engine.Fusion.Exemptions.Matching.{FirstOf, find_matching_exemption-FirstOf}
use ai_proctor_engine.Fusion.Aggregator.{
  slide, accumulate, check_accumulated_threshold, init, rule_second_person,
  rule_gaze_away_frequency, rule_identity_mismatch, rule_liveness_check_failed,
}
use ai_proctor_engine.Fusion.Aggregator.Intervals.{window_interval}
use ai_proctor_engine.Fusion.Aggregator.Intervals.Bounds.{window_interval_sound}
use ai_proctor_engine.Fusion.Session.{
  Call, face, liveness, gaze, identity, object, browser, ids_of, run, process,
}
use ai_proctor_engine.Fusion.Aggregator.FacePresence.{process_face_presence}
use ai_proctor_engine.Fusion.Aggregator.Gaze.{
  process_gaze, evaluate_gaze, observe_gaze, expire, track_gaze, latest_event_ids,
}
use ai_proctor_engine.Fusion.Aggregator.Liveness.{process_liveness}
use ai_proctor_engine.Fusion.Aggregator.Identity.{process_identity_match}
use ai_proctor_engine.Fusion.Aggregator.Objects.{process_object_detection}
use ai_proctor_engine.Fusion.Aggregator.Signals.{process_browser_event}
use ai_proctor_engine.Fusion.Streaks.{first_streak, all_streaks}
use ai_proctor_engine.Fusion.Session.Faces as Faces
use ai_proctor_engine.Fusion.Session.Identities as Identities
use ai_proctor_engine.Fusion.Session.Spoofs as Spoofs
use ai_proctor_engine.Fusion.Session.Gazes as Gazes
use ai_proctor_engine.Fusion.Session.Gazes.Ladder.{ladder}
use ai_proctor_engine.Fusion.Session.Scores as Scores
use ai_proctor_engine.Fusion.Session.Validity as Validity
use ai_proctor_engine.Fusion.Session.Validity.Decisions.{Sound, Checked}

abbrev face_frame : ℕ → FacePresenceResult ℕ
face_frame n = record { base = result; face_count = n }

abbrev spoof_frame : LivenessResult ℕ
spoof_frame = record { base = result; is_real = false }

abbrev identity_frame : ℕ → IdentityMatchResult ℕ
identity_frame s = record { base = result; similarity = s }

abbrev gaze_frame : Option Bool → HeadPoseGazeResult ℕ
gaze_frame off = record {
  base = result;
  off_screen = off;
  yaw = 0;
  pitch = 0;
  roll = 0;
  ear = 0;
  iris_offset = 0;
}

abbrev phone : ObjectDetectionResult ℕ
phone = record { base = result; detected_class = "phone" }

abbrev blur : BrowserEventResult ℕ
blur = record { base = record result { event_type = "blur" }; detail = end }

abbrev calls : List (Call ℕ)
calls =
    face (face_frame 2) 1
    ∷ gaze (gaze_frame (some true)) 2 0
    ∷ liveness spoof_frame 3
    ∷ face (face_frame 3) 4
    ∷ gaze (gaze_frame (some false)) 5 200
    ∷ identity (identity_frame 300) 6
    ∷ liveness spoof_frame 7
    ∷ identity (identity_frame 200) 8
    ∷ object phone 9 50
    ∷ browser blur 10
    ∷ []

calls-Checked : All Checked calls
calls-Checked = let v = interval_InUnit in (v, (v, (v, (v, (v, (v, (v, (v, (v, (v, tt))))))))))

-- The rules that the session flags, in their order.
rules : List (FlagDecision ℕ) → List String
rules [] = []
rules (d ∷ ds) = d.rule_code ∷ rules ds

calls_flags :
    rules (run policy context calls init).0
    ≡ "second_person" ∷ "gaze_away_frequency" ∷ "liveness_check_failed" ∷ "accumulated_score"
      ∷ "identity_mismatch" ∷ "object_detected" ∷ "browser_event" ∷ "accumulated_score" ∷ []
unfolding rules run process process_face_presence process_gaze evaluate_gaze observe_gaze expire
    track_gaze latest_event_ids process_liveness slide accumulate check_accumulated_threshold
    weight_for process_identity_match window_interval make_interval process_object_detection
    find_matching_exemption process_browser_event
calls_flags = refl

second_person_once_example :
    let flags = ids_of rule_second_person (run policy context calls init).0 in
    (length flags ≤ 1) × All (λ ids. length ids ≡ 2) flags
second_person_once_example = Faces.second_person_once policy context calls (omega arith)

run-flags_first_mismatches_example :
    ids_of rule_identity_mismatch (run policy context calls init).0 ≡ (6 ∷ 8 ∷ []) ∷ []
unfolding first_streak
run-flags_first_mismatches_example =
    Identities.run-flags_first_mismatches policy context thousandths_laws (omega arith) calls
      (tt, (tt, (tt, (tt, (tt, ((refl, refl), (tt, ((refl, refl), (tt, (tt, tt))))))))))

run-flags_spoof_blocks_example :
    ids_of rule_liveness_check_failed (run policy context calls init).0 ≡ (3 ∷ 7 ∷ []) ∷ []
unfolding all_streaks
run-flags_spoof_blocks_example =
    let v = interval_InUnit in
    Spoofs.run-flags_spoof_blocks policy context thousandths_laws calls (omega arith)
      (tt, (tt, (v, (tt, (tt, (tt, (v, (tt, (tt, (tt, tt))))))))))

run-flags_ladder_example :
    ids_of rule_gaze_away_frequency (run policy context calls init).0 ≡ (2 ∷ []) ∷ []
unfolding ladder latest_event_ids
run-flags_ladder_example =
    Gazes.run-flags_ladder policy context calls (omega arith, (omega arith, tt))

away_calls : List (Call ℕ)
away_calls =
    gaze (gaze_frame (some true)) 1 0
    ∷ gaze (gaze_frame none) 2 50
    ∷ gaze (gaze_frame (some true)) 3 90000
    ∷ []

NeverBack-unflagged_example :
    ids_of rule_gaze_away_frequency (run policy context away_calls init).0 ≡ []
unfolding away_calls
NeverBack-unflagged_example =
    Gazes.NeverBack-unflagged policy context away_calls
      (omega arith, (omega arith, (omega arith, tt))) (omega arith) (omega arith)
      ((λ e. ground arith), ((λ e. ground arith), ((λ e. ground arith), tt)))

run-accumulated_score_example :
    (run policy context calls init).1.accumulated_score
    ≡ Scores.add_deltas 0 (run policy context calls init).0
run-accumulated_score_example =
    Scores.run-accumulated_score policy context thousandths_laws calls init

run-threshold_reached_example :
    (leb 1500 0 ≡ false) × (ltb (run policy context calls init).1.accumulated_score 1500 ≡ false)
unfolding run process process_face_presence process_gaze evaluate_gaze observe_gaze expire
    track_gaze process_liveness slide accumulate check_accumulated_threshold weight_for
    process_identity_match window_interval make_interval process_object_detection
    find_matching_exemption process_browser_event
run-threshold_reached_example =
    Scores.run-threshold_reached policy context thousandths_laws (refl, tt) calls init refl

run-Sound_example : All Sound (run policy context calls init).0
run-Sound_example = Validity.run-Sound policy context thousandths_laws calls init calls-Checked

window_interval_sound_example :
    (c : ConfidenceInterval ℕ) × (window_interval (300 ∷ 200 ∷ []) ≡ ok c)
    × InUnit c
    × All (Between c.lower c.upper) (300 ∷ 200 ∷ [])
window_interval_sound_example =
    window_interval_sound thousandths_laws 300 (200 ∷ []) ((refl, refl), ((refl, refl), tt))

find_matching_exemption-FirstOf_example :
    FirstOf 7 "phone" "finals" 50
      (exemption ∷ [])
      (find_matching_exemption 7 "phone" "finals" 50 (exemption ∷ []))
find_matching_exemption-FirstOf_example =
    find_matching_exemption-FirstOf 7 "phone" "finals" 50 (exemption ∷ [])
