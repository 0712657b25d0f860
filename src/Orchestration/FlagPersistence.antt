-- ===== src/Orchestration/FlagPersistence.antt =====
-- How a decision becomes rows (orchestration/_flag_persistence.py, and the worker of
-- orchestration/_flag_persistence_worker.py). The database is the rows that its constraints in
-- models.py speak of; a transaction that fails gives back the database that it began with. A new
-- row's UUID is an argument. The score column is taken to keep its value exactly.
pub mod Worker
pub mod Audit
pub mod Links
pub mod Integrity
pub mod Attempts
use ai_proctor_engine.Base.{
  ℕ, String, str_eq, ◌+◌, Bool, true, false, not, ◌&&◌, Option, none, some, List, [], ◌∷◌, ◌++◌,
  any, map, ◌==◌, if◌then◌else◌,
}
use ai_proctor_engine.Floats.{FloatOps}
use ai_proctor_engine.Inference.{ConfidenceInterval, Fields}
use ai_proctor_engine.Fusion.Types.{FlagDecision}

pub data FlagSeverity : Type 0 where
  low medium high critical : FlagSeverity

pub record FlagRow (F : Type 0) : Type 0 where
  pub id : ℕ
  pub exam_session_id : ℕ
  pub policy_config_id : ℕ
  pub rule_code : String
  pub severity : FlagSeverity
  pub confidence : ConfidenceInterval F
  pub triggered_termination : Bool
  pub suppressed_by_exemption_id : Option ℕ
  pub detail : Fields F

pub record FlagTelemetryEvent : Type 0 where
  pub flag_id : ℕ
  pub telemetry_event_id : ℕ
  pub position : ℕ

pub record TerminationRecord : Type 0 where
  pub exam_session_id : ℕ
  pub triggering_flag_id : ℕ
  pub reason : String

pub record ExamSession (F : Type 0) : Type 0 where
  pub id : ℕ
  pub policy_config_id : ℕ
  pub accumulated_medium_score : F

pub record Database (F : Type 0) : Type 0 where
  pub session : Option (ExamSession F)
  pub telemetry_events : List ℕ
  pub exemptions : List ℕ
  pub flags : List (FlagRow F)
  pub links : List FlagTelemetryEvent
  pub terminations : List TerminationRecord

-- The exceptions of a persistence attempt.
pub data PersistenceError : Type 0 where
  unknown_severity confidence_out_of_bounds flag_constraint link_constraint immutable_record
        invalid_request :
      PersistenceError

-- `FlagSeverity(value)`
unfoldable pub to_severity : String → Option FlagSeverity
to_severity value =
    if str_eq value "low"
    then some low
    else if str_eq value "medium"
    then some medium
    else if str_eq value "high"
    then some high
    else if str_eq value "critical"
    then some critical
    else none

abbrev has_id : ℕ → List ℕ → Bool
has_id id ids = any (λ i. i == id) ids

-- A foreign key that may be null.
unfoldable pub exemption_exists : Option ℕ → List ℕ → Bool
exemption_exists none exemptions = true
exemption_exists (some id) exemptions = has_id id exemptions

-- The links of a flag in order; none when one of them breaks the primary key or the foreign key.
unfoldable pub link_events : ℕ → ℕ → List ℕ → List ℕ → List ℕ → Option (List FlagTelemetryEvent)
link_events flag_id position known linked [] = some []
link_events flag_id position known linked (id ∷ ids) =
    let rest = link_events flag_id (position + 1) known (id ∷ linked) ids in
    let link : FlagTelemetryEvent = record {
      flag_id = flag_id;
      telemetry_event_id = id;
      position = position;
    } in
    if not (has_id id known)
    then none
    else if has_id id linked
    then none
    else elim rest [ none ↦ none | some links ↦ some (link ∷ links) ]

module _ {F : Type 0} ⦃ops : FloatOps F⦄ where
  -- `0.0 <= lower <= score <= upper <= 1.0`
  unfoldable pub confidence_valid : ConfidenceInterval F → Bool
  confidence_valid c =
      ops.le ops.zero_f c.lower
      && (ops.le c.lower c.score && (ops.le c.score c.upper && ops.le c.upper ops.one_f))

  abbrev pub flag_row : ℕ → FlagSeverity → FlagDecision F → ExamSession F → FlagRow F
  flag_row flag_id severity decision session = record {
    id = flag_id;
    exam_session_id = session.id;
    policy_config_id = session.policy_config_id;
    rule_code = decision.rule_code;
    severity = severity;
    confidence = decision.confidence;
    triggered_termination = decision.triggered_termination;
    suppressed_by_exemption_id = decision.suppressed_by_exemption_id;
    detail = decision.detail;
  }

  -- The score is only touched by a positive delta.
  unfoldable pub charge : F → ExamSession F → ExamSession F
  charge delta session =
      if ops.lt ops.zero_f delta
      then record session {
        accumulated_medium_score = ops.add session.accumulated_medium_score delta;
      }
      else session

  -- `persist_flag_decision` without the override of its rule code, in a transaction that begins with
  -- `committed` and has reached `db`.
  unfoldable pub persist_flag_decision :
      ℕ
      → FlagDecision F
      → ExamSession F
      → Database F
      → Database F
      → Option PersistenceError × Database F
  unfolding exemption_exists
  persist_flag_decision flag_id decision session committed db =
      elim (to_severity decision.severity) [
        | none ↦ (some unknown_severity, committed)
        | some severity ↦
            if not (confidence_valid decision.confidence)
            then (some confidence_out_of_bounds, committed)
            else if any (λ row. row.id == flag_id) db.flags
            then (some flag_constraint, committed)
            else if not (exemption_exists decision.suppressed_by_exemption_id db.exemptions)
            then (some flag_constraint, committed)
            else elim (link_events flag_id 0 db.telemetry_events []
                decision.contributing_event_ids) [
                  | none ↦ (some link_constraint, committed)
                  | some links ↦ (
                    none,
                    record db {
                      session = some (charge decision.score_delta session);
                      flags = db.flags ++ (flag_row flag_id severity decision session ∷ []);
                      links = db.links ++ links;
                    },
                  )
                ]
      ]
