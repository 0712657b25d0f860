-- ===== src/Fusion/Session/Faces.antt =====
-- Path 1 over a whole session: the second-person flag against a plain search for a streak.
use ai_proctor_engine.Base.{
  ℕ, String, str_eq, ◌≤◌, ◌<◌, ◌≡◌, refl, sym, ◌∙◌, ◌⊎◌, ok, inl, inr, Bool, true, false, List, [],
  ◌∷◌, ◌++◌, All, length, leb, if◌then◌else◌, arith, length-append, append-nil, Bool-cases,
}
use mathlib.Core.Path.{ap₂}
use ai_proctor_engine.Floats.{FloatOps}
use ai_proctor_engine.Inference.{FacePresenceResult}
use ai_proctor_engine.Fusion.Types.{PolicySnapshot, SessionContext}
use ai_proctor_engine.Fusion.Aggregator.{
  SessionAggregator, Reply, slide, init, accumulate, check_accumulated_threshold,
  rule_second_person,
}
use ai_proctor_engine.Fusion.Aggregator.FacePresence.{process_face_presence}
use ai_proctor_engine.Fusion.Aggregator.Liveness.{process_liveness}
use ai_proctor_engine.Fusion.Aggregator.Gaze.{process_gaze, observe_gaze, evaluate_gaze, track_gaze}
use ai_proctor_engine.Fusion.Aggregator.Identity.{
  process_identity_match, process_identity_check_unavailable,
}
use ai_proctor_engine.Fusion.Aggregator.Objects.{object_rule, process_object_detection}
use ai_proctor_engine.Fusion.Aggregator.Signals.{process_browser_event, process_audio_vad}
use ai_proctor_engine.Fusion.Streaks.{first_streak, first_streak-length}
use ai_proctor_engine.Fusion.Session.{
  Call, face, liveness, gaze, identity, identity_unavailable, object, browser, audio, emitted,
  ids_of, ids_of-run, process, run,
}

-- The fields of path 1.
abbrev face_part : {F : Type 0} → SessionAggregator F → ℕ × List ℕ × Bool
face_part agg =
    (agg.consecutive_second_person_frames, agg.second_person_event_ids, agg.second_person_fired)

object_rule-other : (c : String) → str_eq (object_rule c) rule_second_person ≡ false
object_rule-other c = elim (Bool-cases (str_eq c "book")) [ inl e ↦ rw e | inr e ↦ rw e ]

-- The frames that path 1 sees: the number of faces, and the id.
abbrev pub faces : {F : Type 0} → List (Call F) → List (ℕ × ℕ)
faces [] = []
faces (face result id ∷ calls) = (result.face_count, id) ∷ faces calls
faces (_ ∷ calls) = faces calls

module _ {F : Type 0} ⦃ops : FloatOps F⦄ (policy : PolicySnapshot F) (ctx : SessionContext F) where
  -- A call leaves path 1 alone: its fields, and its flag.
  abbrev Quiet : SessionAggregator F → Reply F → Type 0
  Quiet agg reply =
      (face_part reply.1 ≡ face_part agg) × (ids_of rule_second_person (emitted reply.0) ≡ [])

  abbrev IsOther : Call F → Type 0
  IsOther (face result id) = ⊥
  IsOther _ = Unit

  other-Quiet :
      (call : Call F) (agg : SessionAggregator F)
      → IsOther call
      → Quiet agg (process policy ctx call agg)
  unfolding process process_gaze observe_gaze evaluate_gaze track_gaze process_liveness
      process_identity_match process_object_detection process_browser_event process_audio_vad
      process_identity_check_unavailable slide accumulate check_accumulated_threshold
  other-Quiet (face result id) agg h = elim h [ ]
  other-Quiet (liveness result id) agg h = ground arith
  other-Quiet (gaze result id now) agg h = ground arith
  other-Quiet (identity result id) agg h = ground arith
  other-Quiet (identity_unavailable id) agg h = ground arith
  other-Quiet (object result id now) agg h = ground (arith, object_rule-other result.detected_class)
  other-Quiet (browser result id) agg h = ground arith
  other-Quiet (audio result id) agg h = ground arith

  abbrev pub search : List ℕ → List (ℕ × ℕ) → List (List ℕ)
  search = first_streak (leb 2) policy.second_face_confirmation_frames

  face-fired :
      (result : FacePresenceResult F) (id : ℕ) (agg : SessionAggregator F)
      → agg.second_person_fired ≡ true
      → process policy ctx (face result id) agg ≡ (ok [], agg)
  unfolding process process_face_presence
  face-fired result id agg h = ground arith

  fired_stays :
      (call : Call F) (agg : SessionAggregator F)
      → agg.second_person_fired ≡ true
      → let (reply, agg') = process policy ctx call agg in
        (agg'.second_person_fired ≡ true) × (ids_of rule_second_person (emitted reply) ≡ [])
  fired_stays (face result id) agg h = ground (arith, face-fired result id agg)
  fired_stays call agg h = ground (arith, other-Quiet call agg)

  after_fired :
      (calls : List (Call F)) (agg : SessionAggregator F)
      → agg.second_person_fired ≡ true
      → ids_of rule_second_person (run policy ctx calls agg).0 ≡ []
  unfolding run
  after_fired [] agg h = refl
  after_fired (call ∷ calls) agg h =
      let (still, quiet) = fired_stays call agg h in
      ids_of-run policy ctx rule_second_person call calls agg
      ∙ ap₂ ◌++◌ quiet (after_fired calls (process policy ctx call agg).1 still)

  off_call :
      (call : Call F) (agg : SessionAggregator F)
      → policy.terminate_on_second_face ≡ false
      → ids_of rule_second_person (emitted (process policy ctx call agg).0) ≡ []
  unfolding process process_face_presence
  off_call (face result id) agg off = ground arith
  off_call call agg off = ground (arith, other-Quiet call agg)

  off-run :
      (calls : List (Call F)) (agg : SessionAggregator F)
      → policy.terminate_on_second_face ≡ false
      → ids_of rule_second_person (run policy ctx calls agg).0 ≡ []
  unfolding run
  off-run [] agg off = refl
  off-run (call ∷ calls) agg off =
      ids_of-run policy ctx rule_second_person call calls agg
      ∙ ap₂ ◌++◌ (off_call call agg off) (off-run calls (process policy ctx call agg).1 off)

  module _ (on : policy.terminate_on_second_face ≡ true) where
    -- A call before the flag either goes on with the search or ends it with the flag.
    abbrev Advances : Call F → List (Call F) → SessionAggregator F → Reply F → Type 0
    Advances call calls agg (reply, agg') =
        (agg'.second_person_fired ≡ false)
          × (agg'.consecutive_second_person_frames ≡ length agg'.second_person_event_ids)
          × (ids_of rule_second_person (emitted reply) ≡ [])
          × (search agg.second_person_event_ids (faces (call ∷ calls))
              ≡ search agg'.second_person_event_ids (faces calls))
        ⊎ (agg'.second_person_fired ≡ true)
          × (search agg.second_person_event_ids (faces (call ∷ calls))
              ≡ ids_of rule_second_person (emitted reply))

    advances :
        (call : Call F) (calls : List (Call F)) (agg : SessionAggregator F)
        → agg.second_person_fired ≡ false
        → agg.consecutive_second_person_frames ≡ length agg.second_person_event_ids
        → Advances call calls agg (process policy ctx call agg)
    unfolding first_streak process process_face_presence
    advances (face result id) calls agg h n =
        ground (arith, length-append agg.second_person_event_ids (id ∷ []))
    advances (liveness result id) calls agg h n =
        ground (arith, other-Quiet (liveness result id) agg)
    advances call calls agg h n = ground (arith, other-Quiet call agg)

    search_holds :
        (calls : List (Call F)) (agg : SessionAggregator F)
        → agg.second_person_fired ≡ false
        → agg.consecutive_second_person_frames ≡ length agg.second_person_event_ids
        → ids_of rule_second_person (run policy ctx calls agg).0
          ≡ search agg.second_person_event_ids (faces calls)
    unfolding run first_streak
    search_holds [] agg h n = refl
    search_holds (call ∷ calls) agg h n =
        let agg' = (process policy ctx call agg).1 in
        elim (advances call calls agg h n) [
          | inl (fired, count, quiet, e) ↦
              ids_of-run policy ctx rule_second_person call calls agg
              ∙ ap₂ ◌++◌ quiet (search_holds calls agg' fired count)
              ∙ sym e
          | inr (fired, e) ↦
              ids_of-run policy ctx rule_second_person call calls agg
              ∙ ap₂ ◌++◌ (sym e) (after_fired calls agg' fired)
              ∙ append-nil _
        ]

  pub run-flags_first_streak :
      (calls : List (Call F))
      → ids_of rule_second_person (run policy ctx calls init).0
        ≡ (if policy.terminate_on_second_face then search [] (faces calls) else [])
  run-flags_first_streak calls = elim (Bool-cases policy.terminate_on_second_face) [
    | inl on ↦ simp on (search_holds on calls init refl refl)
    | inr off ↦ simp off (off-run calls init off)
  ]

  -- With a positive `second_face_confirmation_frames`, a session raises at most one second-person
  -- flag, and the flag links exactly that many telemetry events.
  pub second_person_once :
      (calls : List (Call F))
      → 0 < policy.second_face_confirmation_frames
      → let flags = ids_of rule_second_person (run policy ctx calls init).0 in
        (length flags ≤ 1) × All (λ ids. length ids ≡ policy.second_face_confirmation_frames) flags
  second_person_once calls pos = elim (Bool-cases policy.terminate_on_second_face) [
    | inl on ↦
        simp (run-flags_first_streak calls, on)
          (first_streak-length (leb 2) policy.second_face_confirmation_frames [] (faces calls) pos)
    | inr off ↦ simp (run-flags_first_streak calls, off) (omega arith, tt)
  ]
