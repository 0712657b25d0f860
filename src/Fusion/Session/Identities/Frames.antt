-- ===== src/Fusion/Session/Identities/Frames.antt =====
-- The frames of path 5, its fields, and the calls that leave them alone.
use mathlib.Core.Path.{ap₂}
use ai_proctor_engine.Base.{
  ℕ, String, str_eq, ◌≡◌, refl, ◌∙◌, inl, inr, Bool, true, false, not, List, [], ◌∷◌, ◌++◌, ok,
  arith, Bool-cases,
}
use ai_proctor_engine.Floats.{FloatOps}
use ai_proctor_engine.Inference.{IdentityMatchResult, Between}
use ai_proctor_engine.Fusion.Types.{PolicySnapshot, SessionContext}
use ai_proctor_engine.Fusion.Streaks.{first_streak}
use ai_proctor_engine.Fusion.Aggregator.{
  SessionAggregator, Reply, slide, accumulate, check_accumulated_threshold, rule_identity_mismatch,
}
use ai_proctor_engine.Fusion.Aggregator.FacePresence.{process_face_presence}
use ai_proctor_engine.Fusion.Aggregator.Liveness.{process_liveness}
use ai_proctor_engine.Fusion.Aggregator.Gaze.{process_gaze, observe_gaze, evaluate_gaze, track_gaze}
use ai_proctor_engine.Fusion.Aggregator.Identity.{
  process_identity_match, process_identity_check_unavailable, matches,
}
use ai_proctor_engine.Fusion.Aggregator.Objects.{object_rule, process_object_detection}
use ai_proctor_engine.Fusion.Aggregator.Signals.{process_browser_event, process_audio_vad}
use ai_proctor_engine.Fusion.Session.{
  Call, face, liveness, gaze, identity, identity_unavailable, object, browser, audio, emitted,
  ids_of, ids_of-run, process, run,
}

object_rule-other : (c : String) → str_eq (object_rule c) rule_identity_mismatch ≡ false
object_rule-other c = elim (Bool-cases (str_eq c "book")) [ inl e ↦ rw e | inr e ↦ rw e ]

-- The fields of path 5.
abbrev pub identity_part :
    {F : Type 0} → SessionAggregator F → List (IdentityMatchResult F) × List ℕ × Bool
identity_part agg =
    (agg.identity_window, agg.identity_event_ids_window, agg.identity_mismatch_fired)

-- The frames that path 5 sees.
abbrev pub identities : {F : Type 0} → List (Call F) → List (IdentityMatchResult F × ℕ)
identities [] = []
identities (identity result id ∷ calls) = (result, id) ∷ identities calls
identities (_ ∷ calls) = identities calls

-- The similarity of an identity frame lies in [0, 1].
abbrev pub Similarities : {F : Type 0} ⦃ops : FloatOps F⦄ → Call F → Type 0
Similarities ⦃ops⦄ (identity result id) = Between ops.zero_f ops.one_f result.similarity
Similarities ⦃ops⦄ _ = Unit

module _ {F : Type 0} ⦃ops : FloatOps F⦄ (policy : PolicySnapshot F) (ctx : SessionContext F) where
  abbrev pub mismatches : IdentityMatchResult F → Bool
  mismatches r = not (matches policy r)

  abbrev pub IsOther : Call F → Type 0
  IsOther (identity result id) = ⊥
  IsOther _ = Unit

  abbrev pub Quiet : SessionAggregator F → Reply F → Type 0
  Quiet agg reply =
      (identity_part reply.1 ≡ identity_part agg)
      × (ids_of rule_identity_mismatch (emitted reply.0) ≡ [])

  pub other-Quiet :
      (call : Call F) (agg : SessionAggregator F)
      → IsOther call
      → Quiet agg (process policy ctx call agg)
  unfolding process process_gaze observe_gaze evaluate_gaze track_gaze process_liveness
      process_face_presence process_object_detection process_browser_event process_audio_vad
      process_identity_check_unavailable slide accumulate check_accumulated_threshold
  other-Quiet (identity result id) agg h = elim h [ ]
  other-Quiet (face result id) agg h = ground arith
  other-Quiet (liveness result id) agg h = ground arith
  other-Quiet (gaze result id now) agg h = ground arith
  other-Quiet (identity_unavailable id) agg h = ground arith
  other-Quiet (object result id now) agg h = ground (arith, object_rule-other result.detected_class)
  other-Quiet (browser result id) agg h = ground arith
  other-Quiet (audio result id) agg h = ground arith

  abbrev pub size : ℕ
  size = policy.identity_confirmation_frames

  abbrev pub search : List ℕ → List (IdentityMatchResult F × ℕ) → List (List ℕ)
  search = first_streak mismatches size

  abbrev pub Similar : IdentityMatchResult F → Type 0
  Similar r = Between ops.zero_f ops.one_f r.similarity

  pub identity-fired :
      (result : IdentityMatchResult F) (id : ℕ) (agg : SessionAggregator F)
      → agg.identity_mismatch_fired ≡ true
      → process policy ctx (identity result id) agg ≡ (ok [], agg)
  unfolding process process_identity_match
  identity-fired result id agg h = ground arith

  pub fired_stays :
      (call : Call F) (agg : SessionAggregator F)
      → agg.identity_mismatch_fired ≡ true
      → let (reply, agg') = process policy ctx call agg in
        (agg'.identity_mismatch_fired ≡ true) × (ids_of rule_identity_mismatch (emitted reply) ≡ [])
  fired_stays (identity result id) agg h = ground (arith, identity-fired result id agg)
  fired_stays call agg h = ground (arith, other-Quiet call agg)

  pub after_fired :
      (calls : List (Call F)) (agg : SessionAggregator F)
      → agg.identity_mismatch_fired ≡ true
      → ids_of rule_identity_mismatch (run policy ctx calls agg).0 ≡ []
  unfolding run
  after_fired [] agg h = refl
  after_fired (call ∷ calls) agg h =
      let (still, quiet) = fired_stays call agg h in
      ids_of-run policy ctx rule_identity_mismatch call calls agg
      ∙ ap₂ ◌++◌ quiet (after_fired calls (process policy ctx call agg).1 still)
