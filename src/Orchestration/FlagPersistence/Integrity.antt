-- ===== src/Orchestration/FlagPersistence/Integrity.antt =====
-- What the worker writes for the decisions of its queue (`_persist_one` and the loop around it).
use ai_proctor_engine.Base.{
  ℕ, String, ◌+◌, ◌≡◌, true, false, Option, none, some, List, [], ◌∷◌, ◌++◌, any, ◌==◌,
}
use ai_proctor_engine.Floats.{FloatOps}
use ai_proctor_engine.Orchestration.FlagPersistence.{
  Database, ExamSession, PersistenceError, to_severity, invalid_request, confidence_valid,
  FlagSeverity,
}
use ai_proctor_engine.Orchestration.FlagPersistence.Worker.{PersistedFlag, Progress, count}
use ai_proctor_engine.Orchestration.FlagPersistence.Links.{AllKnown, Repeats, Inserted}
use ai_proctor_engine.Orchestration.FlagPersistence.Attempts.{with_flag, Refused}

abbrev pub persisted : Progress → Progress
persisted p = record p { persisted_count = p.persisted_count + 1 }

abbrev pub errored : Progress → Progress
errored p = record p { error_count = p.error_count + 1 }

abbrev pub killed : ℕ → String → Progress → Progress
killed flag_id reason p = record p {
  persisted_count = p.persisted_count + 1;
  kill_switches = (flag_id, reason) ∷ p.kill_switches;
}

module _ {F : Type 0} ⦃ops : FloatOps F⦄ where
  -- A decision that is written: the rows of its events are there, its flag's row follows the older
  -- ones, linked to the decision's events, and the score is charged; its severity and its interval
  -- are ones that the table takes.
  pub record Written (item : PersistedFlag F) (session : ExamSession F) (db after : Database F)
      : Type 0 where
    pub events : List ℕ
    pub inserted : Inserted db.telemetry_events item.contributing_events events
    pub severity : FlagSeverity
    pub named : to_severity item.decision.severity ≡ some severity
    pub bounded : confidence_valid item.decision.confidence ≡ true
    pub linked : AllKnown events item.decision.contributing_event_ids
    pub written :
        after
        ≡ with_flag item.flag_id severity item.decision session
            (record db { telemetry_events = events })

  -- Why a decision fails before anything of it is written.
  pub data Failed (item : PersistedFlag F) (db : Database F) : PersistenceError → Type 0 where
    expunged :
        item.expunge_raises ≡ true
        → Repeats db.telemetry_events item.contributing_events
        → Failed item db invalid_request
    refused :
        (events : List ℕ) (e : PersistenceError)
        → Inserted db.telemetry_events item.contributing_events events
        → Refused item.flag_id item.decision (record db { telemetry_events = events }) e
        → Failed item db e

  -- What the worker does with one decision: the counters that it moves, and the database after it.
  pub data Works (item : PersistedFlag F) (db : Database F)
      : (Progress → Progress) → Database F → Type 0 where
    dropped : db.session ≡ none → Works item db persisted db
    fails : (e : PersistenceError) → Failed item db e → Works item db errored db
    writes :
        (session : ExamSession F) (after : Database F)
        → db.session ≡ some session
        → Written item session db after
        → item.decision.triggered_termination ≡ false
        → Works item db persisted after
    terminates :
        (session : ExamSession F) (after : Database F)
        → db.session ≡ some session
        → Written item session db after
        → item.decision.triggered_termination ≡ true
        → any (λ t. t.exam_session_id == session.id) db.terminations ≡ false
        → Works item db (killed item.flag_id item.decision.rule_code) (record after {
          terminations =
              db.terminations
              ++ (record {
                exam_session_id = session.id;
                triggering_flag_id = item.flag_id;
                reason = item.decision.rule_code;
              }
                  ∷ []);
        })
    terminated_before :
        (session : ExamSession F) (after : Database F)
        → db.session ≡ some session
        → Written item session db after
        → item.decision.triggered_termination ≡ true
        → any (λ t. t.exam_session_id == session.id) db.terminations ≡ true
        → Works item db errored after

  abbrev Counted :
      PersistedFlag F
      → Database F
      → (Option PersistenceError × List (ℕ × String)) × Database F
      → Type 0
  Counted item db reply = Works item db (count reply.0) reply.1

  -- The decisions of a queue in order.
  pub data Runs : List (PersistedFlag F) → Database F → Progress → Database F → Type 0 where
    idle :
        (db : Database F)
        → Runs [] db (record { persisted_count = 0; error_count = 0; kill_switches = [] }) db
    next :
        (item : PersistedFlag F) (items : List (PersistedFlag F)) (db middle end : Database F)
        (counts : Progress → Progress) (p : Progress)
        → Works item db counts middle
        → Runs items middle p end
        → Runs (item ∷ items) db (counts p) end
