-- ===== src/Orchestration/FrameDispatcher/Loop/Handover.antt =====
-- Where the events of a session go: each is kept by the dispatcher or handed over with one decision.
use ai_proctor_engine.Base.{
  ℕ, ◌+◌, ◌≤◌, ◌≡◌, refl, ◌∙◌, false, Option, none, some, List, [], ◌∷◌, ◌++◌, ◌==◌, if◌then◌else◌,
  Outcome, ok, raised, Bool-cases, Option-cases, inl, inr, arith,
}
use ai_proctor_engine.Floats.{FloatOps}
use ai_proctor_engine.Fusion.Types.{FlagDecision}
use ai_proctor_engine.Fusion.Session.{Call, process}
use ai_proctor_engine.Websocket.Messages.{ClientMessage}
use ai_proctor_engine.Websocket.EventBuffer.{BufferedEvent}
use ai_proctor_engine.Orchestration.FrameDispatcher.{
  FrameDispatcherConfig, FrameDispatcher, World, Received, PersistedFlag, Step, proceed, finished,
  escaped, pop, take_buffered_for_ids, emit, emit_one, feed, replied, count_error,
}
use ai_proctor_engine.Orchestration.FrameDispatcher.Handlers.{dispatch_event, remember}
use ai_proctor_engine.Orchestration.FrameDispatcher.Moves.{Moves, stay, failing, feeding}
use ai_proctor_engine.Orchestration.FrameDispatcher.Moves.Events.{opened, dispatch_event-Moves}
use ai_proctor_engine.Orchestration.FrameDispatcher.Loop.{settle, run_batch}
use ai_proctor_engine.Orchestration.FrameDispatcher.Loop.Interleavings.{never}

module _ {F : Type 0} (id : ℕ) where
  -- How many of the entries are of the event `id`.
  abbrev pub occurrences : List (Received F) → ℕ
  occurrences [] = 0
  occurrences (r ∷ rs) = (if r.synthetic_id == id then 1 else 0) + occurrences rs

  abbrev pub handed : List (PersistedFlag F) → ℕ
  handed [] = 0
  handed (f ∷ fs) = occurrences f.contributing_events + handed fs

  -- The places where the event is: the dispatcher's map, and the flags of the queue.
  abbrev pub held : FrameDispatcher F → ℕ
  held d = occurrences d.event_id_to_buffered + handed d.flag_decisions

  handed-append : (fs gs : List (PersistedFlag F)) → handed (fs ++ gs) ≡ handed fs + handed gs
  handed-append [] gs = omega arith
  handed-append (f ∷ fs) gs = omega (arith, handed-append fs gs)

  popped : Option (Received F) → ℕ
  popped none = 0
  popped (some r) = if r.synthetic_id == id then 1 else 0

  pop-occurrences :
      (key : ℕ) (rs : List (Received F))
      → let (found, rest) = pop key rs in popped found + occurrences rest ≡ occurrences rs
  unfolding pop popped
  pop-occurrences key [] = omega arith
  pop-occurrences key (r ∷ rs) = ground (arith, pop-occurrences key rs)

  -- The entry that is taken out is one of the key.
  pop-other : (key : ℕ) (rs : List (Received F)) → (key == id) ≡ false → popped (pop key rs).0 ≡ 0
  unfolding pop popped
  pop-other key [] h = refl
  pop-other key (r ∷ rs) h = ground (arith, h, pop-other key rs h)

  take-occurrences :
      (ids : List ℕ) (rs : List (Received F))
      → let (events, left) = take_buffered_for_ids ids rs in
        occurrences events + occurrences left ≡ occurrences rs
  unfolding take_buffered_for_ids popped
  take-occurrences [] rs = omega arith
  take-occurrences (key ∷ ids) rs =
      let (found, rest) = pop key rs in
      let here = pop-occurrences key rs in
      let later = take-occurrences ids rest in
      elim (Option-cases found) [
        | inl e ↦ ground (arith, e, here, later)
        | inr (r, e) ↦ ground (arith, e, here, later)
      ]

  emit-held : (ds : List (FlagDecision F)) (d : FrameDispatcher F) → held (emit ds d) ≡ held d
  unfolding emit emit_one
  emit-held [] d = refl
  emit-held (x ∷ ds) d =
      let (events, left) = take_buffered_for_ids x.contributing_event_ids d.event_id_to_buffered in
      let flag : PersistedFlag F = record { decision = x; contributing_events = events } in
      let moved = take-occurrences x.contributing_event_ids d.event_id_to_buffered in
      let queued = handed-append d.flag_decisions (flag ∷ []) in
      omega (arith, emit-held ds (emit_one x d), moved, queued)

module _ {F : Type 0} ⦃ops : FloatOps F⦄ (config : FrameDispatcherConfig F) (id : ℕ) where
  replied-held :
      (reply : Outcome (List (FlagDecision F))) (d : FrameDispatcher F)
      → held id (replied config reply d).1 ≡ held id d
  unfolding replied
  replied-held (ok ds) d = emit-held id ds d
  replied-held (raised e) d = refl

  feed-held : (call : Call F) (d : FrameDispatcher F) → held id (feed config call d).1 ≡ held id d
  unfolding feed
  feed-held call d =
      let (reply, agg) = process config.policy_snapshot config.context call d.aggregator in
      replied-held reply (record d { aggregator = agg })

  Moves-held :
      (event : ℕ) (start d : FrameDispatcher F)
      → Moves config event start d
      → held id d ≡ held id start
  unfolding count_error
  Moves-held event start d stay = refl
  Moves-held event start d (failing b m) = Moves-held event start b m
  Moves-held event start d (feeding b call e m) = feed-held call b ∙ Moves-held event start b m

module _ {F A : Type 0} ⦃ops : FloatOps F⦄ (config : FrameDispatcherConfig F)
    (world : ℕ → World F A) where
  -- How many of the events get the UUID `id`.
  abbrev pub minted : ℕ → List (BufferedEvent (ClientMessage F)) → ℕ
  minted id [] = 0
  minted id (event ∷ events) =
      (if (world event.seq).telemetry_event_id == id then 1 else 0) + minted id events

  settle-held : (id : ℕ) (step : Step F) → held id (settle step) ≡ held id step.1
  unfolding settle count_error
  settle-held id (proceed, d) = refl
  settle-held id (finished, d) = refl
  settle-held id (escaped e, d) = refl

  remember-held :
      (id : ℕ) (event : BufferedEvent (ClientMessage F)) (d : FrameDispatcher F)
      → held id d + minted id (event ∷ []) ≤ 1
      → held id (remember config (world event.seq) event d) ≡ held id d + minted id (event ∷ [])
  unfolding remember popped
  remember-held id event d h =
      let key = (world event.seq).telemetry_event_id in
      let here = pop-occurrences id key d.event_id_to_buffered in
      elim (Bool-cases (key == id)) [
        | inl e ↦ ground (arith, e, here, h)
        | inr e ↦ ground (arith, e, here, pop-other id key d.event_id_to_buffered e)
      ]

  event-held :
      (id : ℕ) (event : BufferedEvent (ClientMessage F)) (d : FrameDispatcher F)
      → held id d + minted id (event ∷ []) ≤ 1
      → held id (settle (dispatch_event config (world event.seq) event d))
        ≡ held id d + minted id (event ∷ [])
  event-held id event d h =
      let w = world event.seq in
      settle-held id (dispatch_event config w event d)
      ∙ Moves-held config id w.telemetry_event_id (opened config w event d) _
          (dispatch_event-Moves config w event d)
      ∙ remember-held id event d h

  -- With new UUIDs that all differ, each event that the dispatcher has met is in exactly one place
  -- at any time: in its map, or in the events of one decision of its queue.
  pub run_batch-held :
      (events : List (BufferedEvent (ClientMessage F))) (d : FrameDispatcher F)
      → ((id : ℕ) → held id d + minted id events ≤ 1)
      → (id : ℕ) → held id (run_batch config world never events d) ≡ held id d + minted id events
  unfolding run_batch
  run_batch-held [] d h id = omega arith
  run_batch-held (event ∷ events) d h id =
      let met = λ (i : ℕ). event-held i event d (omega (arith, h i)) in
      let rest =
        run_batch-held events (settle (dispatch_event config (world event.seq) event d))
          (λ i. omega (arith, h i, met i)) id in
      omega (arith, met id, rest)
