-- ===== src/Tests/Persistence.antt =====
-- The persistence worker on a concrete queue.
use ai_proctor_engine.Base.{
  ℕ, String, ◌≡◌, refl, ◌⊎◌, inl, inr, false, true, none, some, List, [], ◌∷◌,
}
use ai_proctor_engine.Tests.{thousandths, interval, interval_InUnit}
use ai_proctor_engine.Inference.{end}
use ai_proctor_engine.Fusion.Types.{FlagDecision}
use ai_proctor_engine.Fusion.Session.Validity.Decisions.{Sound}
use ai_proctor_engine.Orchestration.FlagPersistence.{
  Database, ExamSession, FlagSeverity, to_severity, persist_flag_decision, exemption_exists,
}
use ai_proctor_engine.Orchestration.FlagPersistence.Worker.{PersistedFlag, run_loop}
use ai_proctor_engine.Orchestration.FlagPersistence.Audit.{run_loop-kills_once}
use ai_proctor_engine.Orchestration.FlagPersistence.Attempts.{
  with_flag, persist_flag_decision-Sound,
}

abbrev second_person : FlagDecision ℕ
second_person = record {
  rule_code = "second_person";
  severity = "critical";
  confidence = interval 400;
  triggered_termination = true;
  suppressed_by_exemption_id = none;
  detail = end;
  contributing_event_ids = 1 ∷ 2 ∷ [];
  score_delta = 0;
}

abbrev exam : ExamSession ℕ
exam = record { id = 5; policy_config_id = 3; accumulated_medium_score = 0 }

abbrev db : Database ℕ
db = record {
  session = some exam;
  telemetry_events = 1 ∷ 2 ∷ [];
  exemptions = [];
  flags = [];
  links = [];
  terminations = [];
}

-- The second one terminates again, and the third one's event is there already.
abbrev items : List (PersistedFlag ℕ)
items =
    record {
      flag_id = 11;
      decision = second_person;
      contributing_events = 1 ∷ 2 ∷ [];
      expunge_raises = false;
    }
    ∷ record {
      flag_id = 12;
      decision = second_person;
      contributing_events = [];
      expunge_raises = false;
    }
    ∷ record {
      flag_id = 13;
      decision = record second_person { contributing_event_ids = 9 ∷ [] };
      contributing_events = 1 ∷ [];
      expunge_raises = true;
    }
    ∷ []

run_loop-kills_once_example :
    let (progress, end_db) = run_loop items db in
    ((progress.kill_switches ≡ []) × (end_db.terminations ≡ []))
    ⊎ ((id : ℕ) × (reason : String) × (progress.kill_switches ≡ (id, reason) ∷ [])
        × (end_db.terminations
            ≡ (record { exam_session_id = 5; triggering_flag_id = id; reason = reason } ∷ [])))
run_loop-kills_once_example = run_loop-kills_once items db 5 refl refl

second_person-Sound : Sound second_person
second_person-Sound = record {
  interval = interval_InUnit;
  known = inl refl;
  terminating = inr (refl, refl);
  suppressed = inl refl;
}

persist_flag_decision-Sound_example :
    (severity : FlagSeverity) × (to_severity second_person.severity ≡ some severity)
    × (persist_flag_decision 11 second_person exam db db
        ≡ (none, with_flag 11 severity second_person exam db))
unfolding exemption_exists
persist_flag_decision-Sound_example =
    persist_flag_decision-Sound 11 second_person exam db db second_person-Sound refl refl
      (refl, (refl, tt)) (refl, (refl, tt))
