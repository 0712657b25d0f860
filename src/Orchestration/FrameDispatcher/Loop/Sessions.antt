-- ===== src/Orchestration/FrameDispatcher/Loop/Sessions.antt =====
-- The dispatcher as a session of its aggregator: what it queues is what the aggregator returns to a
-- sequence of calls, those of each event in the order of the events.
use ai_proctor_engine.Base.{
  ℕ, ◌≡◌, refl, sym, subst, ap, ◌∙◌, Bool, List, [], ◌∷◌, ◌++◌, map, All, All-append, append-nil,
  append_assoc, Outcome, ok, raised, Bool-cases, inl, inr, arith,
}
use mathlib.Core.List.{map-append}
use ai_proctor_engine.Floats.{FloatOps}
use ai_proctor_engine.Fusion.Types.{FlagDecision, PolicySnapshot, SessionContext}
use ai_proctor_engine.Fusion.Aggregator.{SessionAggregator}
use ai_proctor_engine.Fusion.Session.{Call, process, run, emitted}
use ai_proctor_engine.Websocket.Messages.{ClientMessage}
use ai_proctor_engine.Websocket.EventBuffer.{BufferedEvent}
use ai_proctor_engine.Orchestration.FrameDispatcher.{
  FrameDispatcherConfig, FrameDispatcher, World, PersistedFlag, Step, proceed, finished, escaped,
  emit, emit_one, feed, take_buffered_for_ids, replied, count_error,
}
use ai_proctor_engine.Orchestration.FrameDispatcher.Handlers.{dispatch_event, remember}
use ai_proctor_engine.Orchestration.FrameDispatcher.Moves.{Moves, stay, failing, feeding, call_id}
use ai_proctor_engine.Orchestration.FrameDispatcher.Moves.Events.{opened, dispatch_event-Moves}
use ai_proctor_engine.Orchestration.FrameDispatcher.Loop.{settle, run_batch}

module _ {F : Type 0} ⦃ops : FloatOps F⦄ (policy : PolicySnapshot F) (ctx : SessionContext F) where
  pub run-append :
      (cs es : List (Call F)) (agg : SessionAggregator F)
      → let (ds, middle) = run policy ctx cs agg in
        let (more, end) = run policy ctx es middle in
        (run policy ctx (cs ++ es) agg).0 ≡ ds ++ more × ((run policy ctx (cs ++ es) agg).1 ≡ end)
  unfolding run
  run-append [] es agg = (refl, refl)
  run-append (c ∷ cs) es agg =
      let (reply, agg') = process policy ctx c agg in
      let (a, b) = run-append cs es agg' in
      (ap (λ r. emitted reply ++ r) a ∙ sym (append_assoc (emitted reply) _ _), b)

module _ {F : Type 0} where
  -- The decisions of the queue, in order.
  abbrev pub decisions : FrameDispatcher F → List (FlagDecision F)
  decisions d = map (λ f. f.decision) d.flag_decisions

  emit-decisions :
      (ds : List (FlagDecision F)) (d : FrameDispatcher F)
      → (decisions (emit ds d) ≡ decisions d ++ ds) × ((emit ds d).aggregator ≡ d.aggregator)
  unfolding emit emit_one
  emit-decisions [] d = (sym (append-nil (decisions d)), refl)
  emit-decisions (x ∷ ds) d =
      let (a, b) = emit-decisions ds (emit_one x d) in
      let (events, _) = take_buffered_for_ids x.contributing_event_ids d.event_id_to_buffered in
      let flag : PersistedFlag F = record { decision = x; contributing_events = events } in
      (
        a
            ∙ ap (λ r. r ++ ds) (map-append (λ f. f.decision) d.flag_decisions (flag ∷ []))
            ∙ append_assoc (decisions d) (x ∷ []) ds,
        b,
      )

module _ {F : Type 0} ⦃ops : FloatOps F⦄ (config : FrameDispatcherConfig F) where
  abbrev pub session :
      List (Call F) → SessionAggregator F → List (FlagDecision F) × SessionAggregator F
  session = run config.policy_snapshot config.context

  -- From `start` to `d`, the dispatcher made the calls and queued what they returned.
  pub record Served (calls : List (Call F)) (start d : FrameDispatcher F) : Type 0 where
    pub queued : decisions d ≡ decisions start ++ (session calls start.aggregator).0
    pub reached : d.aggregator ≡ (session calls start.aggregator).1

  pub Served-none :
      (start d : FrameDispatcher F)
      → d.flag_decisions ≡ start.flag_decisions
      → d.aggregator ≡ start.aggregator
      → Served [] start d
  unfolding run
  Served-none start d e f = record {
    queued = ap (λ q. map (λ f. f.decision) q) e ∙ sym (append-nil (decisions start));
    reached = f;
  }

  pub Served-then :
      (cs es : List (Call F)) (a b c : FrameDispatcher F)
      → Served cs a b
      → Served es b c
      → Served (cs ++ es) a c
  Served-then cs es a b c s t =
      let (more, end) = run-append config.policy_snapshot config.context cs es a.aggregator in
      let onward = ap (λ agg. (session es agg).0) s.reached in
      record {
        queued =
            t.queued
            ∙ ap (λ r. r ++ (session es b.aggregator).0) s.queued
            ∙ append_assoc (decisions a) (session cs a.aggregator).0 (session es b.aggregator).0
            ∙ ap (λ r. decisions a ++ ((session cs a.aggregator).0 ++ r)) onward
            ∙ ap (λ r. decisions a ++ r) (sym more);
        reached = t.reached ∙ ap (λ agg. (session es agg).1) s.reached ∙ sym end;
      }

  replied-Served :
      (reply : Outcome (List (FlagDecision F))) (d : FrameDispatcher F)
      → let d' = (replied config reply d).1 in
        (decisions d' ≡ decisions d ++ emitted reply) × (d'.aggregator ≡ d.aggregator)
  unfolding replied
  replied-Served (ok ds) d = emit-decisions ds d
  replied-Served (raised e) d = (sym (append-nil (decisions d)), refl)

  Served-feed :
      (call : Call F) (d : FrameDispatcher F) → Served (call ∷ []) d (feed config call d).1
  unfolding feed run
  Served-feed call d =
      let (reply, agg) = process config.policy_snapshot config.context call d.aggregator in
      let (a, b) = replied-Served reply (record d { aggregator = agg }) in
      record {
        queued = a ∙ ap (λ r. decisions d ++ r) (sym (append-nil (emitted reply)));
        reached = b;
      }

  -- The calls of an event are about it, and what they returned is queued.
  Moves-Served :
      (id : ℕ) (start d : FrameDispatcher F)
      → Moves config id start d
      → (calls : List (Call F)) × All (λ c. call_id c ≡ id) calls × Served calls start d
  unfolding count_error
  Moves-Served id start d stay = ([], tt, Served-none start start refl refl)
  Moves-Served id start d (failing b m) =
      let (calls, ids, s) = Moves-Served id start b m in
      (calls, ids, record { queued = s.queued; reached = s.reached })
  Moves-Served id start d (feeding b call e m) =
      let (calls, ids, s) = Moves-Served id start b m in
      (
        calls ++ (call ∷ []),
        All-append (λ c. call_id c ≡ id) calls (call ∷ []) ids (e, tt),
        Served-then calls (call ∷ []) start b (feed config call b).1 s (Served-feed call b),
      )

module _ {F A : Type 0} ⦃ops : FloatOps F⦄ (config : FrameDispatcherConfig F)
    (world : ℕ → World F A) where
  -- The calls are those about each event, in the order of the events.
  abbrev pub About : List (BufferedEvent (ClientMessage F)) → List (Call F) → Type 0
  About [] calls = calls ≡ []
  About (event ∷ events) calls =
      (mine : List (Call F)) × (rest : List (Call F)) × (calls ≡ mine ++ rest)
      × All (λ c. call_id c ≡ (world event.seq).telemetry_event_id) mine
      × About events rest

  no_calls-About : (events : List (BufferedEvent (ClientMessage F))) → About events []
  no_calls-About [] = refl
  no_calls-About (event ∷ events) = ([], [], refl, tt, no_calls-About events)

  settle-Served :
      (calls : List (Call F)) (start : FrameDispatcher F) (step : Step F)
      → Served config calls start step.1
      → Served config calls start (settle step)
  unfolding settle count_error
  settle-Served calls start (proceed, d) s = record { queued = s.queued; reached = s.reached }
  settle-Served calls start (finished, d) s = record { queued = s.queued; reached = s.reached }
  settle-Served calls start (escaped e, d) s = record { queued = s.queued; reached = s.reached }

  event-Served :
      (event : BufferedEvent (ClientMessage F)) (d : FrameDispatcher F)
      → (calls : List (Call F)) × All (λ c. call_id c ≡ (world event.seq).telemetry_event_id) calls
        × Served config calls d (settle (dispatch_event config (world event.seq) event d))
  unfolding remember
  event-Served event d =
      let w = world event.seq in
      let (calls, ids, s) =
        Moves-Served config w.telemetry_event_id (opened config w event d)
          (dispatch_event config w event d).1 (dispatch_event-Moves config w event d) in
      (
        calls,
        ids,
        settle-Served calls d (dispatch_event config w event d)
            (record { queued = s.queued; reached = s.reached }),
      )

  -- Whatever a batch holds and whatever the inference modules answer or raise, there are calls of
  -- the aggregator, those about each event in the order of the events, such that the loop queues
  -- exactly the decisions that they return, in order, and leaves the aggregator that they leave.
  pub run_batch-Served :
      (stopped : ℕ → Bool) (events : List (BufferedEvent (ClientMessage F))) (d : FrameDispatcher F)
      → (calls : List (Call F)) × About events calls
        × Served config calls d (run_batch config world stopped events d)
  unfolding run_batch
  run_batch-Served stopped [] d = ([], refl, Served-none config d d refl refl)
  run_batch-Served stopped (event ∷ events) d =
      let middle = settle (dispatch_event config (world event.seq) event d) in
      let (mine, ids, s) = event-Served event d in
      let (others, about, t) = run_batch-Served stopped events middle in
      let end = run_batch config world stopped events middle in
      elim (Bool-cases (stopped event.seq)) [
        | inl e ↦ (
          [],
          no_calls-About (event ∷ events),
          subst (λ r. Served config [] d r) (ground (arith, e)) (Served-none config d d refl refl),
        )
        | inr e ↦ (
          mine ++ others,
          (mine, others, refl, ids, about),
          subst (λ r. Served config (mine ++ others) d r) (ground (arith, e))
              (Served-then config mine others d middle end s t),
        )
      ]
