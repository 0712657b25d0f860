-- ===== src/Websocket/EventBuffer/Refinement.antt =====
-- The buffer against a list without a bound, of which a reader gets the last entries.
use mathlib.Core.Path.{ap₂}
use ai_proctor_engine.Base.{
  ℕ, ◌+◌, ◌-◌, ◌≡◌, refl, sym, subst, List, [], ◌∷◌, ◌++◌, length, ok, arith, last_n, last_n-append,
  length-last_n, last_n-nil, length-append,
}
use ai_proctor_engine.Websocket.EventBuffer.{
  BufferedEvent, TelemetryEventBuffer, make_buffer, push, drain,
}

pub data Action (M : Type 0) : Type 0 where
  pushes : M → ℕ → Action M
  drains : Action M

module _ {M : Type 0} where
  -- What the drains of a sequence of calls return, and the buffer at its end.
  unfoldable pub serve :
      List (Action M)
      → TelemetryEventBuffer M
      → List (List (BufferedEvent M)) × TelemetryEventBuffer M
  serve [] b = ([], b)
  serve (pushes message now ∷ rest) b = serve rest (push message now b).1
  serve (drains ∷ rest) b =
      let (events, b') = drain b in let (batches, end) = serve rest b' in (events ∷ batches, end)

  -- The specification: the messages since the last drain, numbered from the start of the session,
  -- of which a drain hands over the last `maxlen`.
  unfoldable pub batches_of :
      ℕ → ℕ → List (BufferedEvent M) → List (Action M) → List (List (BufferedEvent M))
  batches_of maxlen seq since [] = []
  batches_of maxlen seq since (pushes message now ∷ rest) =
      batches_of maxlen (seq + 1)
        (since ++ (record { message = message; received_at = now; seq = seq } ∷ [])) rest
  batches_of maxlen seq since (drains ∷ rest) = last_n maxlen since ∷ batches_of maxlen seq [] rest

  -- The events lost in a sequence of calls: at each drain, and at the end, those before the last
  -- `maxlen`.
  unfoldable pub lost : ℕ → ℕ → List (Action M) → ℕ
  lost maxlen since [] = since - maxlen
  lost maxlen since (pushes message now ∷ rest) = lost maxlen (since + 1) rest
  lost maxlen since (drains ∷ rest) = (since - maxlen) + lost maxlen 0 rest

  -- A push keeps the buffer the last `maxlen` of the messages since the drain.
  push-last_n :
      (message : M) (now : ℕ) (since : List (BufferedEvent M)) (b : TelemetryEventBuffer M)
      → b.buf ≡ last_n b.maxlen since
      → let (event, b') = push message now b in b'.buf ≡ last_n b.maxlen (since ++ (event ∷ []))
  unfolding push
  push-last_n message now since b e =
      let event : BufferedEvent M = record {
        message = message;
        received_at = now;
        seq = b.next_seq;
      } in
      ground (
        arith,
        last_n-append b.maxlen since event,
        length-last_n b.maxlen since,
        length-append (last_n b.maxlen since) (event ∷ []),
      )

  serve-batches :
      (actions : List (Action M)) (since : List (BufferedEvent M)) (b : TelemetryEventBuffer M)
      → b.buf ≡ last_n b.maxlen since
      → (serve actions b).0 ≡ batches_of b.maxlen b.next_seq since actions
  unfolding serve batches_of push drain
  serve-batches [] since b e = refl
  serve-batches (drains ∷ rest) since b e =
      ap₂ ◌∷◌ e (serve-batches rest [] (record b { buf = [] }) (sym (last_n-nil b.maxlen)))
  serve-batches (pushes message now ∷ rest) since b e =
      let (event, b') = push message now b in
      serve-batches rest (since ++ (event ∷ [])) b' (push-last_n message now since b e)

  serve-dropped :
      (actions : List (Action M)) (since : List (BufferedEvent M)) (b : TelemetryEventBuffer M)
      → b.buf ≡ last_n b.maxlen since
      → (serve actions b).1.dropped + (length since - b.maxlen)
        ≡ b.dropped + lost b.maxlen (length since) actions
  unfolding serve lost push drain
  serve-dropped [] since b e = refl
  serve-dropped (drains ∷ rest) since b e =
      omega (arith, serve-dropped rest [] (record b { buf = [] }) (sym (last_n-nil b.maxlen)))
  serve-dropped (pushes message now ∷ rest) since b e =
      let (event, b') = push message now b in
      ground (
        arith,
        serve-dropped rest (since ++ (event ∷ [])) b' (push-last_n message now since b e),
        length-append since (event ∷ []),
        length-last_n b.maxlen since,
      )

  abbrev empty_buffer : ℕ → TelemetryEventBuffer M
  empty_buffer maxlen = record { maxlen = maxlen; buf = []; next_seq = 0; dropped = 0 }

  make_buffer-empty :
      (maxlen : ℕ) (b : TelemetryEventBuffer M)
      → make_buffer maxlen ≡ ok b
      → b ≡ empty_buffer maxlen
  unfolding make_buffer
  make_buffer-empty maxlen b h = ground arith

  -- Whatever sequence of pushes and drains a new buffer serves, each drain hands over the last
  -- `maxlen` messages pushed since the drain before, in order and numbered from the session's start,
  -- and `dropped_count` at the end is the number of the messages that no drain can hand over.
  pub serve-refines :
      (maxlen : ℕ) (b : TelemetryEventBuffer M) (actions : List (Action M))
      → make_buffer maxlen ≡ ok b
      → let (batches, end) = serve actions b in
        (batches ≡ batches_of maxlen 0 [] actions) × (end.dropped ≡ lost maxlen 0 actions)
  serve-refines maxlen b actions h =
      let start = empty_buffer maxlen in
      subst
        (λ b.
          ((serve actions b).0 ≡ batches_of maxlen 0 [] actions)
          × ((serve actions b).1.dropped ≡ lost maxlen 0 actions))
        (sym (make_buffer-empty maxlen b h))
        (
          serve-batches actions [] start (sym (last_n-nil maxlen)),
          omega (arith, serve-dropped actions [] start (sym (last_n-nil maxlen))),
        )
