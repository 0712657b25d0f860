-- ===== src/Orchestration/FlagPersistence/Attempts.antt =====
-- The outcomes of `persist_flag_decision`.
use ai_proctor_engine.Base.{
  ℕ, ◌≡◌, refl, ◌⊎◌, inl, inr, true, false, Option, none, some, List, [], ◌∷◌, ◌++◌, any, All,
  if◌then◌else◌, ◌==◌, arith, Bool-cases, Option-cases,
}
use ai_proctor_engine.Floats.{FloatOps}
use ai_proctor_engine.Fusion.Types.{FlagDecision}
use ai_proctor_engine.Fusion.Session.Validity.Decisions.{Sound}
use ai_proctor_engine.Orchestration.FlagPersistence.{
  Database, ExamSession, PersistenceError, to_severity, unknown_severity, confidence_out_of_bounds,
  flag_constraint, link_constraint, confidence_valid, charge, persist_flag_decision,
  exemption_exists, FlagSeverity,
}
use ai_proctor_engine.Orchestration.FlagPersistence.Links.{
  AllKnown, Distinct, Broken, numbered, to_severity-Known, link_events-Distinct, link_events-Linked,
}

no_links : (ids : List ℕ) → All (λ i. any (λ j. j == i) [] ≡ false) ids
no_links [] = tt
no_links (id ∷ ids) = (refl, no_links ids)

module _ {F : Type 0} ⦃ops : FloatOps F⦄ where
  -- The database with the row of a flag behind the older ones, the links of its events in order, and
  -- the session's score charged with a positive delta.
  abbrev pub with_flag : ℕ → FlagSeverity → FlagDecision F → ExamSession F → Database F → Database F
  with_flag flag_id severity decision session db = record db {
    session = some (record session {
      accumulated_medium_score =
          if ops.lt ops.zero_f decision.score_delta
          then ops.add session.accumulated_medium_score decision.score_delta
          else session.accumulated_medium_score;
    });
    flags =
        db.flags
        ++ (record {
          id = flag_id;
          exam_session_id = session.id;
          policy_config_id = session.policy_config_id;
          rule_code = decision.rule_code;
          severity = severity;
          confidence = decision.confidence;
          triggered_termination = decision.triggered_termination;
          suppressed_by_exemption_id = decision.suppressed_by_exemption_id;
          detail = decision.detail;
        }
            ∷ []);
    links = db.links ++ numbered flag_id 0 decision.contributing_event_ids;
  }

  charge-positive :
      (delta : F) (session : ExamSession F)
      → charge delta session ≡ record session {
        accumulated_medium_score =
            if ops.lt ops.zero_f delta
            then ops.add session.accumulated_medium_score delta
            else session.accumulated_medium_score;
      }
  unfolding charge
  charge-positive delta session = ground arith

  -- Why a flag is refused, with the exception for it.
  pub data Refused (flag_id : ℕ) (decision : FlagDecision F) (db : Database F)
      : PersistenceError → Type 0 where
    no_severity :
        to_severity decision.severity ≡ none → Refused flag_id decision db unknown_severity
    no_interval :
        confidence_valid decision.confidence ≡ false
        → Refused flag_id decision db confidence_out_of_bounds
    taken :
        any (λ row. row.id == flag_id) db.flags ≡ true → Refused flag_id decision db flag_constraint
    no_exemption :
        exemption_exists decision.suppressed_by_exemption_id db.exemptions ≡ false
        → Refused flag_id decision db flag_constraint
    broken :
        Broken db.telemetry_events [] decision.contributing_event_ids
        → Refused flag_id decision db link_constraint

  -- A flag whose decision meets every check of the tables is written, or it is refused and the
  -- transaction is taken back.
  abbrev pub Attempt :
      ℕ
      → FlagDecision F
      → ExamSession F
      → Database F
      → Database F
      → Option PersistenceError × Database F
      → Type 0
  Attempt flag_id decision session committed db reply =
      ((severity : FlagSeverity) × (reply ≡ (none, with_flag flag_id severity decision session db))
        × (to_severity decision.severity ≡ some severity)
        × (confidence_valid decision.confidence ≡ true)
        × AllKnown db.telemetry_events decision.contributing_event_ids)
      ⊎ ((e : PersistenceError) × (reply ≡ (some e, committed)) × Refused flag_id decision db e)

  pub persist-Attempt :
      (flag_id : ℕ) (decision : FlagDecision F) (session : ExamSession F)
      (committed db : Database F)
      → Attempt flag_id decision session committed db
          (persist_flag_decision flag_id decision session committed db)
  unfolding persist_flag_decision
  persist-Attempt flag_id decision session committed db =
      let charged = charge-positive decision.score_delta session in
      elim (Option-cases (to_severity decision.severity)) [
        | inl unknown ↦ inr (unknown_severity, ground (arith, unknown), no_severity unknown)
        | inr (severity, known) ↦ elim (Bool-cases (confidence_valid decision.confidence)) [
          | inr invalid ↦
              inr (confidence_out_of_bounds, ground (arith, known, invalid), no_interval invalid)
          | inl valid ↦ elim (Bool-cases (any (λ row. row.id == flag_id) db.flags)) [
            | inl used ↦ inr (flag_constraint, ground (arith, known, valid, used), taken used)
            | inr fresh ↦
                elim (Bool-cases
                  (exemption_exists decision.suppressed_by_exemption_id db.exemptions)) [
                    | inr gone ↦ inr (
                      flag_constraint,
                      ground (arith, known, valid, fresh, gone),
                      no_exemption gone,
                    )
                    | inl there ↦
                        elim (link_events-Linked flag_id 0 db.telemetry_events []
                          decision.contributing_event_ids) [
                            | inl (linked, all) ↦ inl (
                              severity,
                              ground (arith, known, valid, fresh, there, linked, charged),
                              known,
                              valid,
                              all,
                            )
                            | inr (failed, why) ↦ inr (
                              link_constraint,
                              ground (arith, known, valid, fresh, there, failed),
                              broken why,
                            )
                          ]
                  ]
          ]
        ]
      ]

  -- A sound decision of the aggregator meets no check of its fields when it is persisted: with a row
  -- id that is free, an exemption that is there or none, and events that are there and differ, its
  -- flag's row is written behind the older ones, with the links to its events in order, the score is
  -- charged, and nothing else changes.
  pub persist_flag_decision-Sound :
      (flag_id : ℕ) (decision : FlagDecision F) (session : ExamSession F)
      (committed db : Database F)
      → Sound decision
      → any (λ row. row.id == flag_id) db.flags ≡ false
      → exemption_exists decision.suppressed_by_exemption_id db.exemptions ≡ true
      → AllKnown db.telemetry_events decision.contributing_event_ids
      → Distinct decision.contributing_event_ids
      → (severity : FlagSeverity) × (to_severity decision.severity ≡ some severity)
        × (persist_flag_decision flag_id decision session committed db
            ≡ (none, with_flag flag_id severity decision session db))
  unfolding persist_flag_decision confidence_valid
  persist_flag_decision-Sound flag_id decision session committed db sound fresh there all distinct =
      let linked =
        link_events-Distinct flag_id 0 db.telemetry_events [] decision.contributing_event_ids all
          distinct (no_links decision.contributing_event_ids) in
      let c = sound.interval in
      let charged = charge-positive decision.score_delta session in
      let (severity, known) = to_severity-Known decision.severity sound.known in
      (
        severity,
        known,
        ground (arith, c.low, c.left, c.right, c.high, known, fresh, there, linked, charged),
      )
