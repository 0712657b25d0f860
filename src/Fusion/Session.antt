-- ===== src/Fusion/Session.antt =====
-- The calls that one session makes of its aggregator, in any order. An exception ends the call and
-- leaves the state that the handler had reached, since the dispatcher's loop catches it.
pub mod Faces
pub mod Identities
pub mod Spoofs
pub mod Gazes
pub mod Scores
pub mod Validity
use ai_proctor_engine.Base.{
  ℕ, String, str_eq, ◌≡◌, List, [], ◌∷◌, ◌++◌, map, keep, keep-append, Outcome, ok, raised,
}
use mathlib.Core.List.{map-append}
use ai_proctor_engine.Floats.{FloatOps}
use ai_proctor_engine.Inference.{
  FacePresenceResult, LivenessResult, HeadPoseGazeResult, IdentityMatchResult,
  ObjectDetectionResult, BrowserEventResult, AudioVadResult,
}
use ai_proctor_engine.Fusion.Types.{FlagDecision, PolicySnapshot, SessionContext}
use ai_proctor_engine.Fusion.Aggregator.{SessionAggregator, Reply}
use ai_proctor_engine.Fusion.Aggregator.FacePresence.{process_face_presence}
use ai_proctor_engine.Fusion.Aggregator.Liveness.{process_liveness}
use ai_proctor_engine.Fusion.Aggregator.Gaze.{process_gaze}
use ai_proctor_engine.Fusion.Aggregator.Identity.{
  process_identity_match, process_identity_check_unavailable,
}
use ai_proctor_engine.Fusion.Aggregator.Objects.{process_object_detection}
use ai_proctor_engine.Fusion.Aggregator.Signals.{process_browser_event, process_audio_vad}

-- A call of a handler, with the id of its telemetry event (and its time, where it takes one).
pub data Call (F : Type 0) : Type 0 where
  face : FacePresenceResult F → ℕ → Call F
  liveness : LivenessResult F → ℕ → Call F
  gaze : HeadPoseGazeResult F → ℕ → ℕ → Call F
  identity : IdentityMatchResult F → ℕ → Call F
  identity_unavailable : ℕ → Call F
  object : ObjectDetectionResult F → ℕ → ℕ → Call F
  browser : BrowserEventResult F → ℕ → Call F
  audio : AudioVadResult F → ℕ → Call F

abbrev pub emitted : {F : Type 0} → Outcome (List (FlagDecision F)) → List (FlagDecision F)
emitted (ok decisions) = decisions
emitted (raised e) = []

-- The linked event ids of each decision that a rule made.
abbrev pub ids_of : {F : Type 0} → String → List (FlagDecision F) → List (List ℕ)
ids_of rule decisions =
    map (λ d. d.contributing_event_ids) (keep (λ d. str_eq d.rule_code rule) decisions)

ids_of-append :
    {F : Type 0} (rule : String) (ds es : List (FlagDecision F))
    → ids_of rule (ds ++ es) ≡ ids_of rule ds ++ ids_of rule es
ids_of-append rule ds es = rw (keep-append, map-append)

module _ {F : Type 0} ⦃ops : FloatOps F⦄ (policy : PolicySnapshot F) (ctx : SessionContext F) where
  unfoldable pub process : Call F → SessionAggregator F → Reply F
  process (face result id) agg = process_face_presence policy result id agg
  process (liveness result id) agg = process_liveness policy result id agg
  process (gaze result id now) agg = process_gaze policy result id now agg
  process (identity result id) agg = process_identity_match policy result id agg
  process (identity_unavailable id) agg = process_identity_check_unavailable id agg
  process (object result id now) agg = process_object_detection policy ctx result id now agg
  process (browser result id) agg = process_browser_event policy result id agg
  process (audio result id) agg = process_audio_vad policy result id agg

  -- Every decision of a sequence of calls, in the order of emission, and the state at its end.
  unfoldable pub run :
      List (Call F) → SessionAggregator F → List (FlagDecision F) × SessionAggregator F
  run [] agg = ([], agg)
  run (call ∷ calls) agg =
      let (reply, agg') = process call agg in
      let (decisions, agg'') = run calls agg' in (emitted reply ++ decisions, agg'')

  pub ids_of-run :
      (rule : String) (call : Call F) (calls : List (Call F)) (agg : SessionAggregator F)
      → let (reply, agg') = process call agg in
        ids_of rule (run (call ∷ calls) agg).0
        ≡ ids_of rule (emitted reply) ++ ids_of rule (run calls agg').0
  unfolding run
  ids_of-run rule call calls agg =
      let (reply, agg') = process call agg in ids_of-append rule (emitted reply) (run calls agg').0
