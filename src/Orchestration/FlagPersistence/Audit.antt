-- ===== src/Orchestration/FlagPersistence/Audit.antt =====
-- What the rows of a session add up to after the worker has run.
use mathlib.Core.Path.{ap₂}
use ai_proctor_engine.Base.{
  any-last, ℕ, suc, String, ◌+◌, ◌≡◌, refl, ap, sym, subst, ◌∙◌, ◌⊎◌, inl, inr, true, false, Option,
  none, some, List, [], ◌∷◌, ◌++◌, any, length, ◌==◌, arith, Bool-cases, Option-cases,
}
use ai_proctor_engine.Floats.{FloatOps}
use ai_proctor_engine.Fusion.Types.{FlagDecision}
use ai_proctor_engine.Orchestration.FlagPersistence.{
  Database, ExamSession, TerminationRecord, PersistenceError, invalid_request, charge,
  persist_flag_decision,
}
use ai_proctor_engine.Orchestration.FlagPersistence.Worker.{
  PersistedFlag, Progress, persist_one, after_flag, handle_kill_switch, count, nothing, run_loop,
  insert_telemetry_events,
}

abbrev session_id : {F : Type 0} → Option (ExamSession F) → Option ℕ
session_id none = none
session_id (some s) = some s.id

count-kill_switches :
    (reply : Option PersistenceError × List (ℕ × String)) (p : Progress)
    → (count reply p).kill_switches ≡ reply.1 ++ p.kill_switches
unfolding count
count-kill_switches (none, kills) p = refl
count-kill_switches (some e, kills) p = refl

count-both :
    (reply : Option PersistenceError × List (ℕ × String)) (p : Progress)
    → let p' = count reply p in
      p'.persisted_count + p'.error_count ≡ suc (p.persisted_count + p.error_count)
unfolding count
count-both (none, kills) p = omega arith
count-both (some e, kills) p = omega arith

same_some : (a b : ℕ) → some a ≡ some b → a ≡ b
same_some a b e = ground (arith, e)

module _ {F : Type 0} ⦃ops : FloatOps F⦄ where
  -- A transaction of the flag keeps the terminations and the session's id.
  persist_flag-keeps :
      (flag_id : ℕ) (decision : FlagDecision F) (session : ExamSession F)
      (committed db : Database F)
      → db.terminations ≡ committed.terminations
      → committed.session ≡ some session
      → let db' = (persist_flag_decision flag_id decision session committed db).1 in
        (db'.terminations ≡ committed.terminations) × (session_id db'.session ≡ some session.id)
  unfolding persist_flag_decision charge
  persist_flag-keeps flag_id decision session committed db h e = ground arith

  -- One decision adds no kill switch, or the first one of the session with its record.
  abbrev Step : Option ℕ → Database F → List (ℕ × String) → Database F → Type 0
  Step sid db kills db' =
      (session_id db'.session ≡ sid)
      × ((kills ≡ []) × (db'.terminations ≡ db.terminations)
          ⊎ ((id : ℕ) × (reason : String) × (s : ℕ) × (sid ≡ some s)
              × (any (λ t. t.exam_session_id == s) db.terminations ≡ false)
              × (kills ≡ (id, reason) ∷ [])
              × (db'.terminations
                  ≡ db.terminations
                    ++ (record { exam_session_id = s; triggering_flag_id = id; reason = reason }
                        ∷ []))))

  after_flag-Step :
      (item : PersistedFlag F) (session : ExamSession F)
      (reply : Option PersistenceError × Database F) (base : Database F)
      → reply.1.terminations ≡ base.terminations
      → session_id reply.1.session ≡ some session.id
      → let ((error, kills), db') = after_flag item session reply in
        Step (some session.id) base kills db'
  unfolding after_flag handle_kill_switch
  after_flag-Step item session (some e, db) base h k = (k, inl (refl, h))
  after_flag-Step item session (none, db) base h k =
      elim (Bool-cases item.decision.triggered_termination) [
        | inl on ↦ elim (Bool-cases (any (λ t. t.exam_session_id == session.id) db.terminations)) [
          | inl had ↦
              (ground (arith, on, had), inl (ground (arith, on, had), ground (arith, on, had)))
          | inr first ↦ (
            ground (arith, on, first),
            inr (
              item.flag_id,
              item.decision.rule_code,
              session.id,
              refl,
              subst (λ l. any (λ t. t.exam_session_id == session.id) l ≡ false) h first,
              ground (arith, on, first),
              ground (arith, on, first, h),
            ),
          )
        ]
        | inr off ↦ (ground (arith, off), inl (ground (arith, off), ground (arith, off)))
      ]

  persist_at :
      (item : PersistedFlag F) (db : Database F) (o : Option (ExamSession F))
      → db.session ≡ o
      → let ((error, kills), db') = persist_one item db in Step (session_id o) db kills db'
  unfolding persist_one
  persist_at item db none e = ground (arith, e)
  persist_at item db (some session) e =
      elim (Option-cases (
        insert_telemetry_events item.expunge_raises db.telemetry_events item.contributing_events)) [
          | inl raises ↦
              let same : persist_one item db ≡ ((some invalid_request, []), db) =
                ground (arith, e, raises) in
              subst (λ r. Step (some session.id) db r.0.1 r.1) (sym same)
                (ap session_id e, inl (refl, refl))
          | inr (events, done) ↦
              let inserted = record db { telemetry_events = events } in
              let reply = persist_flag_decision item.flag_id item.decision session db inserted in
              let (kept, sid) =
                persist_flag-keeps item.flag_id item.decision session db inserted refl e in
              let same : persist_one item db ≡ after_flag item session reply =
                ground (arith, e, done) in
              subst (λ r. Step (some session.id) db r.0.1 r.1) (sym same)
                (after_flag-Step item session reply db kept sid)
        ]

  -- A session that has its record gets no further kill switch.
  recorded-run :
      (items : List (PersistedFlag F)) (db : Database F) (s : ℕ)
      → session_id db.session ≡ some s
      → any (λ t. t.exam_session_id == s) db.terminations ≡ true
      → let (progress, end) = run_loop items db in
        (progress.kill_switches ≡ []) × (end.terminations ≡ db.terminations)
  unfolding run_loop nothing
  recorded-run [] db s e had = (refl, refl)
  recorded-run (item ∷ items) db s e had =
      let (reply, db') = persist_one item db in
      let later = (run_loop items db').0 in
      let (sid, how) = persist_at item db db.session refl in
      elim how [
        | inl (none_sent, same) ↦
            let (kills, terms) =
              recorded-run items db' s (sid ∙ e)
                (subst (λ l. any (λ t. t.exam_session_id == s) l ≡ true) (sym same) had) in
            (count-kill_switches reply later ∙ ap₂ ◌++◌ none_sent kills, terms ∙ same)
        | inr (id, reason, s', e', first, sent, added) ↦
            absurd (ground (arith, had, first, same_some s' s (sym e' ∙ e)))
      ]

  -- Where a session has no termination record yet, the kill switch is called once at most, whatever
  -- decisions the worker takes: either never, and then no record is written, or for one flag, and
  -- then the session's one record names that flag and its rule.
  pub run_loop-kills_once :
      (items : List (PersistedFlag F)) (db : Database F) (s : ℕ)
      → session_id db.session ≡ some s
      → any (λ t. t.exam_session_id == s) db.terminations ≡ false
      → let (progress, end) = run_loop items db in
        ((progress.kill_switches ≡ []) × (end.terminations ≡ db.terminations))
        ⊎ ((id : ℕ) × (reason : String) × (progress.kill_switches ≡ (id, reason) ∷ [])
            × (end.terminations
                ≡ db.terminations
                  ++ (record { exam_session_id = s; triggering_flag_id = id; reason = reason }
                      ∷ [])))
  unfolding run_loop nothing
  run_loop-kills_once [] db s e first = inl (refl, refl)
  run_loop-kills_once (item ∷ items) db s e first =
      let (reply, db') = persist_one item db in
      let later = (run_loop items db').0 in
      let (sid, how) = persist_at item db db.session refl in
      elim how [
        | inl (none_sent, same) ↦
            elim (run_loop-kills_once items db' s (sid ∙ e)
              (subst (λ l. any (λ t. t.exam_session_id == s) l ≡ false) (sym same) first)) [
                | inl (kills, terms) ↦
                    inl (count-kill_switches reply later ∙ ap₂ ◌++◌ none_sent kills, terms ∙ same)
                | inr (id, reason, kills, terms) ↦ inr (
                  id,
                  reason,
                  count-kill_switches reply later ∙ ap₂ ◌++◌ none_sent kills,
                  terms
                      ∙ ap
                          (λ l.
                            l
                            ++ (record {
                              exam_session_id = s;
                              triggering_flag_id = id;
                              reason = reason;
                            }
                                ∷ []))
                          same,
                )
              ]
        | inr (id, reason, s', e', unseen, sent, added) ↦
            let same : s' ≡ s = same_some s' s (sym e' ∙ e) in
            let written : TerminationRecord = record {
              exam_session_id = s';
              triggering_flag_id = id;
              reason = reason;
            } in
            let had =
              any-last (λ t. t.exam_session_id == s) db.terminations written
                (ground (arith, same)) in
            let (kills, terms) =
              recorded-run items db' s (sid ∙ e)
                (subst (λ l. any (λ t. t.exam_session_id == s) l ≡ true) (sym added) had) in
            inr (
              id,
              reason,
              count-kill_switches reply later ∙ ap₂ ◌++◌ sent kills,
              terms
                  ∙ added
                  ∙ ap
                      (λ n.
                        db.terminations
                        ++ (record { exam_session_id = n; triggering_flag_id = id; reason = reason }
                            ∷ []))
                      same,
            )
      ]

  -- The worker counts every decision that it takes once, as persisted or as an error.
  run_loop-counts :
      (items : List (PersistedFlag F)) (db : Database F)
      → let progress = (run_loop items db).0 in
        progress.persisted_count + progress.error_count ≡ length items
  unfolding run_loop nothing
  run_loop-counts [] db = refl
  run_loop-counts (item ∷ items) db =
      let (reply, db') = persist_one item db in
      count-both reply (run_loop items db').0 ∙ ap suc (run_loop-counts items db')
