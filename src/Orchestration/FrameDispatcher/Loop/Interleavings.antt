-- ===== src/Orchestration/FrameDispatcher/Loop/Interleavings.antt =====
-- The dispatcher's thread beside the handler that fills its buffer: each call of the buffer runs
-- under its lock, so a run of both is a sequence of pushes and polls.
use ai_proctor_engine.Base.{
  ℕ, ◌+◌, ◌≤◌, ◌≡◌, refl, sym, ap, ◌∙◌, Bool, false, List, [], ◌∷◌, ◌++◌, length, append-nil,
  append_assoc, ◌==◌, Bool-cases, inl, inr, arith,
}
use ai_proctor_engine.Floats.{FloatOps}
use ai_proctor_engine.Websocket.Messages.{ClientMessage}
use ai_proctor_engine.Websocket.EventBuffer.{BufferedEvent, TelemetryEventBuffer, push, drain}
use ai_proctor_engine.Orchestration.FrameDispatcher.{FrameDispatcherConfig, FrameDispatcher, World}
use ai_proctor_engine.Orchestration.FrameDispatcher.Handlers.{dispatch_event}
use ai_proctor_engine.Orchestration.FrameDispatcher.Loop.{settle, run_batch}

-- What one of the two threads does: the handler pushes a message that it received at a time, and
-- the loop drains the buffer and dispatches the batch.
pub data Action (F : Type 0) : Type 0 where
  pushed : ClientMessage F → ℕ → Action F
  polled : Action F

abbrev pub never : ℕ → Bool
never seq = false

module _ {F : Type 0} where
  -- The events of the messages that are pushed, numbered from `seq` on.
  unfoldable pub arrivals : ℕ → List (Action F) → List (BufferedEvent (ClientMessage F))
  arrivals seq [] = []
  arrivals seq (pushed m now ∷ actions) =
      record { message = m; received_at = now; seq = seq } ∷ arrivals (seq + 1) actions
  arrivals seq (polled ∷ actions) = arrivals seq actions

module _ {F A : Type 0} ⦃ops : FloatOps F⦄ (config : FrameDispatcherConfig F)
    (world : ℕ → World F A) where
  abbrev pub System : Type 0
  System = TelemetryEventBuffer (ClientMessage F) × FrameDispatcher F

  act : Action F → System → System
  unfolding push drain
  act (pushed m now) (b, d) = ((push m now b).1, d)
  act polled (b, d) = let (batch, b') = drain b in (b', run_batch config world never batch d)

  unfoldable pub run_system : List (Action F) → System → System
  unfolding act
  run_system [] s = s
  run_system (a ∷ actions) s = run_system actions (act a s)

  run_batch-append :
      (xs ys : List (BufferedEvent (ClientMessage F))) (d : FrameDispatcher F)
      → run_batch config world never (xs ++ ys) d
        ≡ run_batch config world never ys (run_batch config world never xs d)
  unfolding run_batch
  run_batch-append [] ys d = refl
  run_batch-append (x ∷ xs) ys d =
      run_batch-append xs ys (settle (dispatch_event config (world x.seq) x d))

  act-dropped : (a : Action F) (s : System) → s.0.dropped ≤ (act a s).0.dropped
  unfolding act
  act-dropped (pushed m now) (b, d) = ground arith
  act-dropped polled (b, d) = omega arith

  run_system-dropped :
      (actions : List (Action F)) (s : System) → s.0.dropped ≤ (run_system actions s).0.dropped
  unfolding run_system
  run_system-dropped [] s = omega arith
  run_system-dropped (a ∷ actions) s =
      omega (arith, act-dropped a s, run_system-dropped actions (act a s))

  push-kept :
      (m : ClientMessage F) (now : ℕ) (b : TelemetryEventBuffer (ClientMessage F))
      → (push m now b).1.dropped ≤ b.dropped
      → (push m now b).1.buf
        ≡ b.buf ++ (record { message = m; received_at = now; seq = b.next_seq } ∷ [])
  unfolding push
  push-kept m now b h = elim (Bool-cases (length b.buf == b.maxlen)) [
    | inl e ↦ ground (arith, h, e)
    | inr e ↦ ground (arith, e)
  ]

  -- The messages that wait, dispatched at the end.
  pending :
      (actions : List (Action F)) (s : System)
      → (run_system actions s).0.dropped ≤ s.0.dropped
      → let (b, d) = run_system actions s in
        run_batch config world never b.buf d
        ≡ run_batch config world never (s.0.buf ++ arrivals s.0.next_seq actions) s.1
  unfolding run_system arrivals push drain
  pending [] (b, d) h = ap (λ r. run_batch config world never r d) (sym (append-nil b.buf))
  pending (pushed m now ∷ actions) (b, d) h =
      let (event, b') = push m now b in
      let events = arrivals (b.next_seq + 1) actions in
      let grew = run_system-dropped actions (b', d) in
      let kept = push-kept m now b (omega (arith, grew, h)) in
      let first = act-dropped (pushed m now) (b, d) in
      pending actions (b', d) (omega (arith, first, h))
      ∙ ap (λ r. run_batch config world never (r ++ events) d) kept
      ∙ ap (λ r. run_batch config world never r d) (append_assoc b.buf (event ∷ []) events)
  pending (polled ∷ actions) (b, d) h =
      let (batch, b') = drain b in
      pending actions (b', run_batch config world never batch d) h
      ∙ sym (run_batch-append b.buf (arrivals b.next_seq actions) d)

  -- However pushes and polls come in between one another, where the buffer has dropped nothing by
  -- the end, a last poll leaves the dispatcher as if it had dispatched every message that was pushed,
  -- in order, in one batch.
  pub run_system-in_order :
      (actions : List (Action F)) (b : TelemetryEventBuffer (ClientMessage F))
      (d : FrameDispatcher F)
      → (run_system actions (b, d)).0.dropped ≡ b.dropped
      → (run_system (polled ∷ []) (run_system actions (b, d))).1
        ≡ run_batch config world never (b.buf ++ arrivals b.next_seq actions) d
  unfolding run_system
  run_system-in_order actions b d h = pending actions (b, d) (omega (arith, h))
