-- ===== src/Orchestration/FlagPersistence/Worker.antt =====
-- The worker that persists the decisions of one session (`_persist_one`, `_handle_kill_switch` and
-- the loop of orchestration/_flag_persistence_worker.py).
use ai_proctor_engine.Base.{
  ℕ, String, ◌+◌, Bool, not, Option, none, some, List, [], ◌∷◌, ◌++◌, any, ◌==◌, if◌then◌else◌,
}
use ai_proctor_engine.Floats.{FloatOps}
use ai_proctor_engine.Fusion.Types.{FlagDecision}
use ai_proctor_engine.Orchestration.FlagPersistence.{
  Database, ExamSession, TerminationRecord, PersistenceError, immutable_record, invalid_request,
  persist_flag_decision, has_id,
}

-- A decision of the queue with the events behind it, and the UUID of its row. For an event whose row
-- is there already the worker expunges the new row, which the rollback of the savepoint may have
-- expunged; whether the session then raises is an answer of the library.
pub record PersistedFlag (F : Type 0) : Type 0 where
  pub flag_id : ℕ
  pub decision : FlagDecision F
  pub contributing_events : List ℕ
  pub expunge_raises : Bool

-- The counters, and the calls of the kill-switch callback in order: the flag's id and the reason.
pub record Progress : Type 0 where
  pub persisted_count : ℕ
  pub error_count : ℕ
  pub kill_switches : List (ℕ × String)

-- A row that is there is left as it is, by the savepoint of the insert; none is `InvalidRequestError`.
unfoldable pub insert_telemetry_event : Bool → List ℕ → ℕ → Option (List ℕ)
insert_telemetry_event expunge_raises known id =
    if not (has_id id known)
    then some (known ++ (id ∷ []))
    else if expunge_raises
    then none
    else some known

unfoldable pub insert_telemetry_events : Bool → List ℕ → List ℕ → Option (List ℕ)
unfolding insert_telemetry_event
insert_telemetry_events expunge_raises known [] = some known
insert_telemetry_events expunge_raises known (id ∷ ids) =
    elim (insert_telemetry_event expunge_raises known id) [
      | none ↦ none
      | some known' ↦ insert_telemetry_events expunge_raises known' ids
    ]

unfoldable pub count : (Option PersistenceError × List (ℕ × String)) → Progress → Progress
count (none, kills) p = record p {
  persisted_count = p.persisted_count + 1;
  kill_switches = kills ++ p.kill_switches;
}
count (some e, kills) p = record p {
  error_count = p.error_count + 1;
  kill_switches = kills ++ p.kill_switches;
}

unfoldable pub nothing : Progress
nothing = record { persisted_count = 0; error_count = 0; kill_switches = [] }

module _ {F : Type 0} ⦃ops : FloatOps F⦄ where
  -- The record of a session that has none is inserted. One that has a record is updated, which the
  -- listener of models.py on `TerminationRecord` rejects, so the callback is not reached.
  unfoldable pub handle_kill_switch :
      ℕ
      → FlagDecision F
      → ℕ
      → Database F
      → (Option PersistenceError × List (ℕ × String)) × Database F
  handle_kill_switch flag_id decision exam_session_id db =
      let record_row : TerminationRecord = record {
        exam_session_id = exam_session_id;
        triggering_flag_id = flag_id;
        reason = decision.rule_code;
      } in
      if any (λ t. t.exam_session_id == exam_session_id) db.terminations
      then ((some immutable_record, []), db)
      else (
        (none, (flag_id, decision.rule_code) ∷ []),
        record db { terminations = db.terminations ++ (record_row ∷ []) },
      )

  -- What follows the persistence of the flag, once that is committed.
  unfoldable pub after_flag :
      PersistedFlag F
      → ExamSession F
      → Option PersistenceError × Database F
      → (Option PersistenceError × List (ℕ × String)) × Database F
  after_flag item session (some e, db) = ((some e, []), db)
  after_flag item session (none, db) =
      if item.decision.triggered_termination
      then handle_kill_switch item.flag_id item.decision session.id db
      else ((none, []), db)

  unfoldable pub persist_one :
      PersistedFlag F → Database F → (Option PersistenceError × List (ℕ × String)) × Database F
  unfolding after_flag insert_telemetry_events
  persist_one item db = elim db.session [
    | none ↦ ((none, []), db)
    | some session ↦
        elim (insert_telemetry_events item.expunge_raises db.telemetry_events
          item.contributing_events) [
            | none ↦ ((some invalid_request, []), db)
            | some events ↦ after_flag item session (
                persist_flag_decision item.flag_id item.decision session db
                  (record db { telemetry_events = events }))
          ]
  ]

  -- The loop over the queue: an exception is counted and the next decision is taken.
  unfoldable pub run_loop : List (PersistedFlag F) → Database F → Progress × Database F
  unfolding count nothing
  run_loop [] db = (nothing, db)
  run_loop (item ∷ items) db =
      let (reply, db') = persist_one item db in
      let (progress, end) = run_loop items db' in (count reply progress, end)
