-- ===== src/Orchestration/FrameDispatcher/Loop/Counts.antt =====
-- The counters of the loop: every event is accounted for, and frames are numbered without a gap.
use ai_proctor_engine.Base.{
  ℕ, ◌+◌, ◌≤◌, ◌≡◌, refl, List, [], ◌∷◌, length, Outcome, ok, raised, arith,
}
use ai_proctor_engine.Floats.{FloatOps}
use ai_proctor_engine.Fusion.Types.{FlagDecision}
use ai_proctor_engine.Fusion.Session.{process}
use ai_proctor_engine.Websocket.Messages.{ClientMessage}
use ai_proctor_engine.Websocket.EventBuffer.{BufferedEvent}
use ai_proctor_engine.Orchestration.FrameDispatcher.{
  FrameDispatcherConfig, FrameDispatcher, World, Step, proceed, finished, escaped, emit, emit_one,
  feed, replied, count_error,
}
use ai_proctor_engine.Orchestration.FrameDispatcher.Handlers.{dispatch_event, remember}
use ai_proctor_engine.Orchestration.FrameDispatcher.Moves.{
  Moves, stay, failing, feeding, counted_frames,
}
use ai_proctor_engine.Orchestration.FrameDispatcher.Moves.Events.{opened, dispatch_event-Moves}
use ai_proctor_engine.Orchestration.FrameDispatcher.Loop.{settle, run_batch}
use ai_proctor_engine.Orchestration.FrameDispatcher.Loop.Interleavings.{never}

module _ {F : Type 0} where
  -- The counters of `d` are those of `start`, but for errors that were counted since.
  record Steady (start d : FrameDispatcher F) : Type 0 where
    frames : d.heavy_frame_seq ≡ start.heavy_frame_seq
    processed : d.processed_count ≡ start.processed_count
    errors : start.error_count ≤ d.error_count

  emit-Steady :
      (ds : List (FlagDecision F)) (start d : FrameDispatcher F)
      → Steady start d
      → Steady start (emit ds d)
  unfolding emit emit_one
  emit-Steady [] start d s = s
  emit-Steady (x ∷ ds) start d s =
      emit-Steady ds start (emit_one x d)
        (record { frames = s.frames; processed = s.processed; errors = s.errors })

module _ {F : Type 0} ⦃ops : FloatOps F⦄ (config : FrameDispatcherConfig F) where
  replied-Steady :
      (reply : Outcome (List (FlagDecision F))) (start d : FrameDispatcher F)
      → Steady start d
      → Steady start (replied config reply d).1
  unfolding replied
  replied-Steady (ok ds) start d s = emit-Steady ds start d s
  replied-Steady (raised e) start d s = s

  Moves-Steady : (id : ℕ) (start d : FrameDispatcher F) → Moves config id start d → Steady start d
  unfolding count_error feed
  Moves-Steady id start d stay = record { frames = refl; processed = refl; errors = omega arith }
  Moves-Steady id start d (failing b m) =
      let s = Moves-Steady id start b m in
      record { frames = s.frames; processed = s.processed; errors = omega (arith, s.errors) }
  Moves-Steady id start d (feeding b call e m) =
      let (reply, agg) = process config.policy_snapshot config.context call b.aggregator in
      let s = Moves-Steady id start b m in
      replied-Steady reply start (record b { aggregator = agg })
        (record { frames = s.frames; processed = s.processed; errors = s.errors })

module _ {F A : Type 0} ⦃ops : FloatOps F⦄ (config : FrameDispatcherConfig F)
    (world : ℕ → World F A) where
  -- The frames of the events that decode.
  abbrev pub decodable : List (BufferedEvent (ClientMessage F)) → ℕ
  decodable [] = 0
  decodable (event ∷ events) =
      counted_frames (world event.seq) event.message.payload + decodable events

  -- What `events` events did to the counters between `start` and `d`.
  pub record Counted (frames events : ℕ) (start d : FrameDispatcher F) : Type 0 where
    pub numbered : d.heavy_frame_seq ≡ start.heavy_frame_seq + frames
    pub accounted :
        start.processed_count + start.error_count + events ≤ d.processed_count + d.error_count
    pub bounded : d.processed_count ≤ start.processed_count + events

  settle-Counted :
      (frames : ℕ) (start middle : FrameDispatcher F) (step : Step F)
      → middle.heavy_frame_seq ≡ start.heavy_frame_seq + frames
      → middle.processed_count ≡ start.processed_count
      → middle.error_count ≡ start.error_count
      → Steady middle step.1
      → Counted frames 1 start (settle step)
  unfolding settle count_error
  settle-Counted frames start middle (proceed, d) a b c s = record {
    numbered = omega (arith, a, s.frames);
    accounted = omega (arith, b, c, s.processed, s.errors);
    bounded = omega (arith, b, s.processed);
  }
  settle-Counted frames start middle (finished, d) a b c s = record {
    numbered = omega (arith, a, s.frames);
    accounted = omega (arith, b, c, s.processed, s.errors);
    bounded = omega (arith, b, s.processed);
  }
  settle-Counted frames start middle (escaped e, d) a b c s = record {
    numbered = omega (arith, a, s.frames);
    accounted = omega (arith, b, c, s.processed, s.errors);
    bounded = omega (arith, b, s.processed);
  }

  event-Counted :
      (event : BufferedEvent (ClientMessage F)) (d : FrameDispatcher F)
      → Counted
          (counted_frames (world event.seq) event.message.payload)
          1
          d
          (settle (dispatch_event config (world event.seq) event d))
  unfolding remember
  event-Counted event d =
      let w = world event.seq in
      settle-Counted (counted_frames w event.message.payload) d (opened config w event d)
        (dispatch_event config w event d) refl refl refl
        (Moves-Steady config w.telemetry_event_id (opened config w event d) _
          (dispatch_event-Moves config w event d))

  -- A batch numbers its decodable frames without a gap; each of its events is counted as processed,
  -- or adds an error at least, so none is lost unseen.
  pub run_batch-Counted :
      (events : List (BufferedEvent (ClientMessage F))) (d : FrameDispatcher F)
      → Counted (decodable events) (length events) d (run_batch config world never events d)
  unfolding run_batch
  run_batch-Counted [] d = record {
    numbered = omega arith;
    accounted = omega arith;
    bounded = omega arith;
  }
  run_batch-Counted (event ∷ events) d =
      let s = event-Counted event d in
      let t = run_batch-Counted events (settle (dispatch_event config (world event.seq) event d)) in
      record {
        numbered = omega (arith, s.numbered, t.numbered);
        accounted = omega (arith, s.accounted, t.accounted);
        bounded = omega (arith, s.bounded, t.bounded);
      }
