-- ===== src/Fusion/Session/Scores.antt =====
-- Path 7: the accumulated score of a session and the flags of its threshold.
use ai_proctor_engine.Base.{
  any-append, ℕ, String, str_eq, ◌≡◌, refl, ap, sym, ◌∙◌, inl, inr, true, false, List, [], ◌∷◌,
  ◌++◌, All, arith, Bool-cases, any, Bool,
}
use ai_proctor_engine.Floats.{FloatOps, FloatLaws}
use ai_proctor_engine.Fusion.Types.{
  FlagDecision, PolicySnapshot, SessionContext, weight_for, get_or,
}
use ai_proctor_engine.Fusion.Aggregator.{
  SessionAggregator, Reply, slide, accumulate, check_accumulated_threshold, rule_accumulated_score,
  rule_liveness_check_failed, rule_gaze_away_frequency, rule_browser_event, rule_audio_anomaly,
}
use ai_proctor_engine.Fusion.Aggregator.FacePresence.{process_face_presence}
use ai_proctor_engine.Fusion.Aggregator.Liveness.{process_liveness}
use ai_proctor_engine.Fusion.Aggregator.Gaze.{process_gaze, observe_gaze, evaluate_gaze, track_gaze}
use ai_proctor_engine.Fusion.Aggregator.Identity.{
  process_identity_match, process_identity_check_unavailable,
}
use ai_proctor_engine.Fusion.Aggregator.Objects.{object_rule, process_object_detection}
use ai_proctor_engine.Fusion.Aggregator.Signals.{process_browser_event, process_audio_vad}
use ai_proctor_engine.Fusion.Session.{
  Call, face, liveness, gaze, identity, identity_unavailable, object, browser, audio, emitted,
  process, run,
}

module _ {F : Type 0} ⦃ops : FloatOps F⦄ where
  -- The deltas of a list of decisions, added in their order.
  pub add_deltas : F → List (FlagDecision F) → F
  add_deltas score [] = score
  add_deltas score (d ∷ ds) = add_deltas (ops.add score d.score_delta) ds

  add_deltas-append :
      (score : F) (ds es : List (FlagDecision F))
      → add_deltas score (ds ++ es) ≡ add_deltas (add_deltas score ds) es
  unfolding add_deltas
  add_deltas-append score [] es = refl
  add_deltas-append score (d ∷ ds) es = add_deltas-append (ops.add score d.score_delta) ds es

module _ {F : Type 0} ⦃ops : FloatOps F⦄ (policy : PolicySnapshot F) (ctx : SessionContext F)
    (laws : FloatLaws ops) where
  abbrev Accounts : SessionAggregator F → Reply F → Type 0
  Accounts agg (reply, agg') =
      agg'.accumulated_score ≡ add_deltas agg.accumulated_score (emitted reply)

  accumulate-Accounts :
      (decision : FlagDecision F) (weight : F) (ids : List ℕ) (agg : SessionAggregator F)
      → decision.score_delta ≡ weight
      → let (decisions, agg') = accumulate policy decision weight ids agg in
        agg'.accumulated_score ≡ add_deltas agg.accumulated_score decisions
  unfolding accumulate check_accumulated_threshold add_deltas
  accumulate-Accounts decision weight ids agg e =
      ground (arith, laws.add_zero (ops.add agg.accumulated_score weight))

  process-Accounts :
      (call : Call F) (agg : SessionAggregator F) → Accounts agg (process policy ctx call agg)
  unfolding process process_gaze observe_gaze evaluate_gaze track_gaze process_liveness
      process_identity_match process_face_presence process_object_detection process_browser_event
      process_audio_vad process_identity_check_unavailable slide add_deltas accumulate
      check_accumulated_threshold
  process-Accounts (face result id) agg = ground (arith, laws.add_zero agg.accumulated_score)
  process-Accounts (liveness result id) agg = ground (
    arith,
    laws.add_zero agg.accumulated_score,
    laws.add_zero (ops.add agg.accumulated_score (weight_for policy rule_liveness_check_failed)),
  )
  process-Accounts (gaze result id now) agg = ground (
    arith,
    laws.add_zero agg.accumulated_score,
    laws.add_zero (ops.add agg.accumulated_score (weight_for policy rule_gaze_away_frequency)),
  )
  process-Accounts (identity result id) agg = ground (arith, laws.add_zero agg.accumulated_score)
  process-Accounts (identity_unavailable id) agg =
      ground (arith, laws.add_zero agg.accumulated_score)
  process-Accounts (object result id now) agg = ground (
    arith,
    laws.add_zero agg.accumulated_score,
    laws.add_zero
        (ops.add agg.accumulated_score (weight_for policy (object_rule result.detected_class))),
  )
  process-Accounts (browser result id) agg = ground (
    arith,
    laws.add_zero agg.accumulated_score,
    laws.add_zero (ops.add agg.accumulated_score (weight_for policy rule_browser_event)),
  )
  process-Accounts (audio result id) agg = ground (
    arith,
    laws.add_zero agg.accumulated_score,
    laws.add_zero (ops.add agg.accumulated_score (weight_for policy rule_audio_anomaly)),
  )

  -- After any calls the accumulated score is the old one with the deltas of all the decisions that
  -- the calls returned added in order.
  pub run-accumulated_score :
      (calls : List (Call F)) (agg : SessionAggregator F)
      → let (decisions, agg') = run policy ctx calls agg in
        agg'.accumulated_score ≡ add_deltas agg.accumulated_score decisions
  unfolding run add_deltas
  run-accumulated_score [] agg = refl
  run-accumulated_score (call ∷ calls) agg =
      let (reply, agg') = process policy ctx call agg in
      let later = (run policy ctx calls agg').0 in
      run-accumulated_score calls agg'
      ∙ ap (λ score. add_deltas score later) (process-Accounts call agg)
      ∙ sym (add_deltas-append agg.accumulated_score (emitted reply) later)

-- No weight of the policy is negative.
abbrev pub NonNegative : {F : Type 0} ⦃ops : FloatOps F⦄ → PolicySnapshot F → Type 0
NonNegative ⦃ops⦄ policy = All (λ entry. ops.le ops.zero_f entry.1 ≡ true) policy.score_weights

abbrev pub is_score_flag : {F : Type 0} → FlagDecision F → Bool
is_score_flag d = str_eq d.rule_code rule_accumulated_score

object_rule-other : (c : String) → str_eq (object_rule c) rule_accumulated_score ≡ false
object_rule-other c = elim (Bool-cases (str_eq c "book")) [ inl e ↦ rw e | inr e ↦ rw e ]

module _ {F : Type 0} ⦃ops : FloatOps F⦄ (laws : FloatLaws ops) where
  get_or-le :
      (weights : List (String × F)) (rule : String)
      → All (λ entry. ops.le ops.zero_f entry.1 ≡ true) weights
      → ops.le ops.zero_f (get_or weights rule ops.one_f) ≡ true
  get_or-le [] rule h = laws.zero-le-one
  get_or-le ((j, w) ∷ rest) rule h = ground (arith, get_or-le rest rule h.1)

module _ {F : Type 0} ⦃ops : FloatOps F⦄ (policy : PolicySnapshot F) (ctx : SessionContext F)
    (laws : FloatLaws ops) (nonneg : NonNegative policy) where
  weight_for-le : (rule : String) → ops.le ops.zero_f (weight_for policy rule) ≡ true
  unfolding weight_for
  weight_for-le rule = get_or-le laws policy.score_weights rule nonneg

  -- The score has not fallen, and where the calls flagged it, it has reached the threshold.
  abbrev Reached : F → F → List (FlagDecision F) → Type 0
  Reached before after decisions =
      (ops.le before after ≡ true)
      × (any is_score_flag decisions ≡ true
          → (ops.le policy.medium_score_termination_threshold ops.zero_f ≡ false)
            × (ops.lt after policy.medium_score_termination_threshold ≡ false))

  raised_by :
      (rule : String) (score : F) → ops.le score (ops.add score (weight_for policy rule)) ≡ true
  raised_by rule score = laws.le-add score (weight_for policy rule) (weight_for-le rule)

  process-Reached :
      (call : Call F) (agg : SessionAggregator F)
      → let (reply, agg') = process policy ctx call agg in
        Reached agg.accumulated_score agg'.accumulated_score (emitted reply)
  unfolding process process_gaze observe_gaze evaluate_gaze track_gaze process_liveness
      process_identity_match process_face_presence process_object_detection process_browser_event
      process_audio_vad process_identity_check_unavailable slide accumulate
      check_accumulated_threshold
  process-Reached (face result id) agg = ground (arith, laws.le_refl agg.accumulated_score)
  process-Reached (liveness result id) agg = ground (
    arith,
    laws.le_refl agg.accumulated_score,
    raised_by rule_liveness_check_failed agg.accumulated_score,
  )
  process-Reached (gaze result id now) agg = ground (
    arith,
    laws.le_refl agg.accumulated_score,
    raised_by rule_gaze_away_frequency agg.accumulated_score,
  )
  process-Reached (identity result id) agg = ground (arith, laws.le_refl agg.accumulated_score)
  process-Reached (identity_unavailable id) agg = ground (arith, laws.le_refl agg.accumulated_score)
  process-Reached (object result id now) agg =
      let rule = object_rule result.detected_class in
      ground (
        arith,
        laws.le_refl agg.accumulated_score,
        object_rule-other result.detected_class,
        raised_by rule agg.accumulated_score,
      )
  process-Reached (browser result id) agg = ground (
    arith,
    laws.le_refl agg.accumulated_score,
    raised_by rule_browser_event agg.accumulated_score,
  )
  process-Reached (audio result id) agg = ground (
    arith,
    laws.le_refl agg.accumulated_score,
    raised_by rule_audio_anomaly agg.accumulated_score,
  )

  run-Reached :
      (calls : List (Call F)) (agg : SessionAggregator F)
      → let (decisions, agg') = run policy ctx calls agg in
        Reached agg.accumulated_score agg'.accumulated_score decisions
  unfolding run
  run-Reached [] agg = ground (arith, laws.le_refl agg.accumulated_score)
  run-Reached (call ∷ calls) agg =
      let (reply, agg') = process policy ctx call agg in
      let (later, end) = run policy ctx calls agg' in
      let before = agg.accumulated_score in
      let between = agg'.accumulated_score in
      let after = end.accumulated_score in
      let limit = policy.medium_score_termination_threshold in
      ground (
        arith,
        process-Reached call agg,
        run-Reached calls agg',
        any-append is_score_flag (emitted reply) later,
        laws.le_trans before between after,
        laws.le_of_not_lt between limit,
        laws.le_trans limit between after,
        laws.not_lt_of_le after limit,
      )

  -- With weights that are not negative, no sequence of calls lowers the accumulated score.
  run-never_falls :
      (calls : List (Call F)) (agg : SessionAggregator F)
      → ops.le agg.accumulated_score (run policy ctx calls agg).1.accumulated_score ≡ true
  run-never_falls calls agg = (run-Reached calls agg).0

  -- With weights that are not negative, where some call of a session flags the accumulated score, the
  -- threshold is positive and the score at the session's end has reached it.
  pub run-threshold_reached :
      (calls : List (Call F)) (agg : SessionAggregator F)
      → any is_score_flag (run policy ctx calls agg).0 ≡ true
      → (ops.le policy.medium_score_termination_threshold ops.zero_f ≡ false)
        × (ops.lt
              (run policy ctx calls agg).1.accumulated_score
              policy.medium_score_termination_threshold
            ≡ false)
  run-threshold_reached calls agg h = (run-Reached calls agg).1 h
