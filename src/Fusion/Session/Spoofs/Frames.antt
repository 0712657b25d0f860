-- ===== src/Fusion/Session/Spoofs/Frames.antt =====
-- The frames of path 4, its fields, and the calls that leave them alone.
use mathlib.Core.Path.{ap₂}
use ai_proctor_engine.Base.{
  ℕ, String, str_eq, ◌≡◌, refl, ◌∙◌, inl, inr, Bool, false, not, List, [], ◌∷◌, ◌++◌, arith,
  Bool-cases,
}
use ai_proctor_engine.Floats.{FloatOps}
use ai_proctor_engine.Inference.{LivenessResult, ConfidenceInterval, InUnit}
use ai_proctor_engine.Fusion.Types.{PolicySnapshot, SessionContext}
use ai_proctor_engine.Fusion.Streaks.{all_streaks}
use ai_proctor_engine.Fusion.Aggregator.{
  SessionAggregator, Reply, slide, accumulate, check_accumulated_threshold,
  rule_liveness_check_failed,
}
use ai_proctor_engine.Fusion.Aggregator.FacePresence.{process_face_presence}
use ai_proctor_engine.Fusion.Aggregator.Liveness.{process_liveness, flag_liveness}
use ai_proctor_engine.Fusion.Aggregator.Gaze.{process_gaze, observe_gaze, evaluate_gaze, track_gaze}
use ai_proctor_engine.Fusion.Aggregator.Identity.{
  process_identity_match, process_identity_check_unavailable,
}
use ai_proctor_engine.Fusion.Aggregator.Objects.{object_rule, process_object_detection}
use ai_proctor_engine.Fusion.Aggregator.Signals.{process_browser_event, process_audio_vad}
use ai_proctor_engine.Fusion.Session.{
  Call, face, liveness, gaze, identity, identity_unavailable, object, browser, audio, emitted,
  ids_of, ids_of-run, process, run,
}

object_rule-other : (c : String) → str_eq (object_rule c) rule_liveness_check_failed ≡ false
object_rule-other c = elim (Bool-cases (str_eq c "book")) [ inl e ↦ rw e | inr e ↦ rw e ]

-- The fields of path 4.
abbrev pub liveness_part : {F : Type 0} → SessionAggregator F → List (LivenessResult F) × List ℕ × ℕ
liveness_part agg =
    (agg.liveness_window, agg.liveness_event_ids_window, agg.liveness_spoof_run_length)

-- The frames that path 4 sees.
abbrev pub liveness_frames : {F : Type 0} → List (Call F) → List (LivenessResult F × ℕ)
liveness_frames [] = []
liveness_frames (liveness result id ∷ calls) = (result, id) ∷ liveness_frames calls
liveness_frames (_ ∷ calls) = liveness_frames calls

abbrev pub is_spoof : {F : Type 0} → LivenessResult F → Bool
is_spoof r = not r.is_real

-- The confidence interval of a liveness frame is one that its constructor lets through.
abbrev pub ValidCall : {F : Type 0} ⦃ops : FloatOps F⦄ → Call F → Type 0
ValidCall (liveness result id) = InUnit result.confidence
ValidCall _ = Unit

module _ {F : Type 0} ⦃ops : FloatOps F⦄ (policy : PolicySnapshot F) (ctx : SessionContext F) where
  abbrev pub IsOther : Call F → Type 0
  IsOther (liveness result id) = ⊥
  IsOther _ = Unit

  abbrev pub Quiet : SessionAggregator F → Reply F → Type 0
  Quiet agg reply =
      (liveness_part reply.1 ≡ liveness_part agg)
      × (ids_of rule_liveness_check_failed (emitted reply.0) ≡ [])

  pub other-Quiet :
      (call : Call F) (agg : SessionAggregator F)
      → IsOther call
      → Quiet agg (process policy ctx call agg)
  unfolding process process_gaze observe_gaze evaluate_gaze track_gaze process_identity_match
      process_face_presence process_object_detection process_browser_event process_audio_vad
      process_identity_check_unavailable slide accumulate check_accumulated_threshold
  other-Quiet (liveness result id) agg h = elim h [ ]
  other-Quiet (face result id) agg h = ground arith
  other-Quiet (identity result id) agg h = ground arith
  other-Quiet (gaze result id now) agg h = ground arith
  other-Quiet (identity_unavailable id) agg h = ground arith
  other-Quiet (object result id now) agg h = ground (arith, object_rule-other result.detected_class)
  other-Quiet (browser result id) agg h = ground arith
  other-Quiet (audio result id) agg h = ground arith

  abbrev pub size : ℕ
  size = policy.liveness_confirmation_frames

  abbrev pub search : List ℕ → List (LivenessResult F × ℕ) → List (List ℕ)
  search = all_streaks is_spoof size

  abbrev pub Valid : LivenessResult F → Type 0
  Valid r = InUnit r.confidence

  pub off_call :
      (call : Call F) (agg : SessionAggregator F)
      → policy.liveness_check_enabled ≡ false
      → ids_of rule_liveness_check_failed (emitted (process policy ctx call agg).0) ≡ []
  unfolding process process_liveness
  off_call (liveness result id) agg off = ground arith
  off_call call agg off = ground (arith, other-Quiet call agg)

  pub off-run :
      (calls : List (Call F)) (agg : SessionAggregator F)
      → policy.liveness_check_enabled ≡ false
      → ids_of rule_liveness_check_failed (run policy ctx calls agg).0 ≡ []
  unfolding run
  off-run [] agg off = refl
  off-run (call ∷ calls) agg off =
      ids_of-run policy ctx rule_liveness_check_failed call calls agg
      ∙ ap₂ ◌++◌ (off_call call agg off) (off-run calls (process policy ctx call agg).1 off)

  -- The flag links the window and leaves path 4's state alone.
  pub flag_liveness-links :
      (interval : ConfidenceInterval F) (agg : SessionAggregator F)
      → let (reply, agg') = flag_liveness policy policy.liveness_check_action interval agg in
        (ids_of rule_liveness_check_failed (emitted reply) ≡ agg.liveness_event_ids_window ∷ [])
        × (liveness_part agg' ≡ liveness_part agg)
  unfolding flag_liveness accumulate check_accumulated_threshold
  flag_liveness-links interval agg = ground arith
