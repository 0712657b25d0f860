-- ===== src/Websocket/Routes/MessageLoop/Accepted.antt =====
-- What an open connection accepts, buffers and acknowledges.
use ai_proctor_engine.Base.{
  ℕ, suc, String, str_eq, ◌+◌, ◌-◌, ◌≤◌, ◌≡◌, refl, sym, ap, ◌∙◌, ◌⊎◌, subst, Bool, true, false,
  List, [], ◌∷◌, ◌++◌, length, append-nil, append_assoc, if◌then◌else◌, Bool-cases, inl, inr, arith,
}
use ai_proctor_engine.Floats.{FloatOps}
use ai_proctor_engine.Inference.{Fields, null, bool, int, float, text, arr, obj}
use ai_proctor_engine.Websocket.Messages.{ClientMessage}
use ai_proctor_engine.Websocket.Messages.Parsing.{
  Pydantic, envelope_validation, unhashable_type, Parsed, message, rejected, lookup,
  parse_client_message,
}
use ai_proctor_engine.Websocket.Messages.Parsing.Acceptance.{parse_client_message-valid}
use ai_proctor_engine.Websocket.Routes.Handshake.{protocol_error, session_mismatch}
use ai_proctor_engine.Websocket.Routes.MessageLoop.{
  Incoming, unreadable, value, Ended, closed, crashed, Connection, is_pong, handle_payload,
  handle_message, Turn, again, over, receive_parsed, receive, message_loop,
}
use ai_proctor_engine.Websocket.Routes.MessageLoop.Handled.{
  numbers, buffered, push_all, Handled, delivers, fails, handle_payload-Handled, is_pong-text, Took,
  Took-none,
}
use ai_proctor_engine.Websocket.Routes.MessageLoop.Texts.{
  Pong, pong, Takes, own, Stops, no_json, no_object, refuses, unhashable, foreign, Reads, waits,
  skips, takes, drops, stops,
}

module _ {F : Type 0} ⦃ops : FloatOps F⦄ (pydantic : Pydantic F) (session_id : String) where
  -- What one text does to a connection.
  data Reply (t : Incoming F) (conn : Connection F) : Turn F → Type 0 where
    skipped : Pong pydantic session_id t → Reply t conn (again conn)
    handled :
        (m : ClientMessage F) (now : ℕ) (delivered : Bool) (turn : Turn F)
        → Takes pydantic session_id t m now delivered
        → Handled m now conn delivered turn
        → Reply t conn turn
    stopped : (e : Ended) → Stops pydantic session_id t e → Reply t conn (over e conn)

  parsed-Reply :
      (p : Parsed F) (raw : Fields F) (now : ℕ) (delivered : Bool) (conn : Connection F)
      → parse_client_message pydantic raw ≡ p
      → Reply
          (value (obj raw) now delivered)
          conn
          (receive_parsed pydantic session_id p now delivered conn)
  unfolding receive_parsed handle_message
  parsed-Reply (rejected envelope_validation) raw now delivered conn h =
      stopped (closed protocol_error) (refuses raw now delivered h)
  parsed-Reply (rejected unhashable_type) raw now delivered conn h =
      stopped crashed (unhashable raw now delivered h)
  parsed-Reply (message m) raw now delivered conn h =
      let reply = Reply (value (obj raw) now delivered) conn in
      elim (Bool-cases (str_eq m.session_id session_id)) [
        | inr e ↦
            subst reply {x = over (closed session_mismatch) conn} (ground (arith, e))
              (stopped (closed session_mismatch) (foreign raw m now delivered h e))
        | inl e ↦
            subst reply {x = handle_payload m.payload m now delivered conn} (ground (arith, e)) (
              handled m now delivered (handle_payload m.payload m now delivered conn)
                (own raw m now delivered h e (parse_client_message-valid pydantic raw m h))
                (handle_payload-Handled m.payload m now delivered conn refl))
      ]

  receive-Reply :
      (t : Incoming F) (conn : Connection F) → Reply t conn (receive pydantic session_id t conn)
  unfolding receive
  receive-Reply unreadable conn = stopped (closed protocol_error) no_json
  receive-Reply (value null now d) conn = stopped crashed (no_object null now d refl)
  receive-Reply (value (bool b) now d) conn = stopped crashed (no_object (bool b) now d refl)
  receive-Reply (value (int n) now d) conn = stopped crashed (no_object (int n) now d refl)
  receive-Reply (value (float v) now d) conn = stopped crashed (no_object (float v) now d refl)
  receive-Reply (value (text s) now d) conn = stopped crashed (no_object (text s) now d refl)
  receive-Reply (value (arr items) now d) conn = stopped crashed (no_object (arr items) now d refl)
  receive-Reply (value (obj raw) now d) conn =
      let reply = Reply (value (obj raw) now d) conn in
      elim (Bool-cases (is_pong (lookup "type" raw))) [
        | inl e ↦
            subst reply {x = again conn} (ground (arith, e))
              (skipped (pong raw now d (is_pong-text (lookup "type" raw) e)))
        | inr e ↦
            let parsed = parse_client_message pydantic raw in
            subst reply {x = receive_parsed pydantic session_id parsed now d conn}
              (ground (arith, e)) (parsed-Reply parsed raw now d conn refl)
      ]

  -- What a connection read of its texts, and what it took in from them.
  abbrev Read : List (Incoming F) → Connection F → Ended × Connection F → Type 0
  Read ts conn end =
      (ms : List (ClientMessage F × ℕ)) × (all_sent : Bool) × Reads pydantic session_id ts end.0 ms
        all_sent
      × Took ms all_sent conn end.1

  Took-one :
      (m : ClientMessage F) (now : ℕ) (ms : List (ClientMessage F × ℕ)) (all_sent : Bool)
      (conn middle after : Connection F)
      → middle.sent ≡ conn.sent ++ (conn.delivery.seq ∷ [])
      → middle.delivery.seq ≡ conn.delivery.seq + 1
      → middle.buffer ≡ buffered m.payload m now conn.buffer
      → Took ms all_sent middle after
      → (all_sent ≡ true) ⊎ (1 ≤ length ms)
      → Took ((m, now) ∷ ms) all_sent conn after
  unfolding push_all
  Took-one m now ms all_sent conn middle after sent seq buffer t enough =
      let count = if all_sent then length ms else length ms - 1 in
      let whole : suc count ≡ (if all_sent then suc (length ms) else suc (length ms) - 1) =
        ground (arith, enough) in
      record {
        acknowledged =
            t.acknowledged
            ∙ ap (λ s. s ++ numbers middle.delivery.seq count) sent
            ∙ append_assoc conn.sent (conn.delivery.seq ∷ []) (numbers middle.delivery.seq count)
            ∙ ap (λ k. conn.sent ++ (conn.delivery.seq ∷ numbers k count)) seq
            ∙ ap (λ n. conn.sent ++ numbers conn.delivery.seq n) whole;
        next = omega (arith, seq, t.next);
        pushed = t.pushed ∙ ap (push_all ms) buffer;
      }

  Reads-enough :
      (ts : List (Incoming F)) (e : Ended) (ms : List (ClientMessage F × ℕ)) (all_sent : Bool)
      → Reads pydantic session_id ts e ms all_sent
      → (all_sent ≡ true) ⊎ (1 ≤ length ms)
  Reads-enough ts e ms all_sent waits = inl refl
  Reads-enough ts e ms all_sent (skips t rest e' ms' sent p later) =
      Reads-enough rest e ms all_sent later
  Reads-enough ts e ms all_sent (takes t rest e' m now ms' sent p later) = inr (omega arith)
  Reads-enough ts e ms all_sent (drops t rest m now p) = inr (omega arith)
  Reads-enough ts e ms all_sent (stops t rest e' p) = inl refl

  turn-Read :
      (t : Incoming F) (ts : List (Incoming F)) (conn : Connection F) (m : ClientMessage F)
      (now : ℕ) (delivered : Bool) (turn : Turn F)
      → receive pydantic session_id t conn ≡ turn
      → Takes pydantic session_id t m now delivered
      → Handled m now conn delivered turn
      → ((c : Connection F) → Read ts c (message_loop pydantic session_id ts c))
      → Read (t ∷ ts) conn (message_loop pydantic session_id (t ∷ ts) conn)
  unfolding message_loop push_all
  turn-Read t ts conn m now delivered turn h mine (delivers middle sent seq buffer) later =
      let (ms, all_sent, reads, took) = later middle in
      let end = message_loop pydantic session_id ts middle in
      let onward : message_loop pydantic session_id (t ∷ ts) conn ≡ end = ground (arith, h) in
      subst (Read (t ∷ ts) conn) (sym onward) (
        (m, now) ∷ ms,
        all_sent,
        takes t ts end.0 m now ms all_sent mine reads,
        Took-one m now ms all_sent conn middle end.1 sent seq buffer took
            (Reads-enough ts end.0 ms all_sent reads),
      )
  turn-Read t ts conn m now delivered turn h mine (fails after sent seq buffer) later =
      let onward : message_loop pydantic session_id (t ∷ ts) conn ≡ (crashed, after) =
        ground (arith, h) in
      subst (Read (t ∷ ts) conn) (sym onward) (
        (m, now) ∷ [],
        false,
        drops t ts m now mine,
        record { acknowledged = sent ∙ sym (append-nil conn.sent); next = seq; pushed = buffer },
      )

  reply-Read :
      (t : Incoming F) (ts : List (Incoming F)) (conn : Connection F) (turn : Turn F)
      → receive pydantic session_id t conn ≡ turn
      → Reply t conn turn
      → ((c : Connection F) → Read ts c (message_loop pydantic session_id ts c))
      → Read (t ∷ ts) conn (message_loop pydantic session_id (t ∷ ts) conn)
  unfolding message_loop
  reply-Read t ts conn turn h (skipped p) later =
      let (ms, all_sent, reads, took) = later conn in
      let end = message_loop pydantic session_id ts conn in
      let onward : message_loop pydantic session_id (t ∷ ts) conn ≡ end = ground (arith, h) in
      subst (Read (t ∷ ts) conn) (sym onward)
        (ms, all_sent, skips t ts end.0 ms all_sent p reads, took)
  reply-Read t ts conn turn h (handled m now delivered turn' mine result) later =
      turn-Read t ts conn m now delivered turn h mine result later
  reply-Read t ts conn turn h (stopped e p) later =
      let onward : message_loop pydantic session_id (t ∷ ts) conn ≡ (e, conn) = ground (arith, h) in
      subst (Read (t ∷ ts) conn) (sym onward) ([], true, stops t ts e p, Took-none conn)

  -- A connection reads the texts of its client in order up to the one that ends it, if one does:
  -- pongs are skipped, and each other text up to there is a message of the token's session that
  -- passes every check of its payload. The buffer got the telemetry of these messages in order, and
  -- the client one acknowledgement for each, numbered without a gap; where the sending of an
  -- acknowledgement fails, the connection ends and only the last message has none.
  pub message_loop-Took :
      (ts : List (Incoming F)) (conn : Connection F)
      → let (ended, after) = message_loop pydantic session_id ts conn in
        (ms : List (ClientMessage F × ℕ)) × (all_sent : Bool) × Reads pydantic session_id ts ended
          ms all_sent
        × Took ms all_sent conn after
  unfolding message_loop
  message_loop-Took [] conn = ([], true, waits, Took-none conn)
  message_loop-Took (t ∷ ts) conn =
      reply-Read t ts conn (receive pydantic session_id t conn) refl (receive-Reply t conn)
        (message_loop-Took ts)
