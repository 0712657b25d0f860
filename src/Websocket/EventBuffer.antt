-- ===== src/Websocket/EventBuffer.antt =====
-- The bounded buffer between the WebSocket handler and the preprocessing layer
-- (`TelemetryEventBuffer` of websocket/server.py). Each method runs under the buffer's lock, so a
-- run of the two threads is a sequence of its calls.
pub mod Refinement
use ai_proctor_engine.Base.{
  ℕ, ◌+◌, List, [], ◌∷◌, ◌++◌, length, drop, ◌==◌, if◌then◌else◌, Outcome, ok, raised, value_error,
}

pub record BufferedEvent (M : Type 0) : Type 0 where
  pub message : M
  pub received_at : ℕ
  pub seq : ℕ

pub record TelemetryEventBuffer (M : Type 0) : Type 0 where
  pub maxlen : ℕ
  pub buf : List (BufferedEvent M)
  pub next_seq : ℕ
  pub dropped : ℕ

-- `__init__`: a length that is not positive is refused, and on ℕ that is zero.
unfoldable pub make_buffer : {M : Type 0} → ℕ → Outcome (TelemetryEventBuffer M)
make_buffer maxlen =
    if maxlen == 0
    then raised value_error
    else ok (record { maxlen = maxlen; buf = []; next_seq = 0; dropped = 0 })

module _ {M : Type 0} where
  -- `deque.append` on a deque with a `maxlen`: the oldest entry of a full one goes.
  unfoldable pub push : M → ℕ → TelemetryEventBuffer M → BufferedEvent M × TelemetryEventBuffer M
  push message now b =
      let was_full = length b.buf == b.maxlen in
      let event : BufferedEvent M = record {
        message = message;
        received_at = now;
        seq = b.next_seq;
      } in
      (
        event,
        record b {
          buf = if was_full then drop 1 (b.buf ++ (event ∷ [])) else b.buf ++ (event ∷ []);
          next_seq = b.next_seq + 1;
          dropped = if was_full then b.dropped + 1 else b.dropped;
        },
      )

  unfoldable pub drain : TelemetryEventBuffer M → List (BufferedEvent M) × TelemetryEventBuffer M
  drain b = (b.buf, record b { buf = [] })
