-- ===== src/Websocket/Routes/MessageLoop.antt =====
-- The receiving of messages over an open connection (`_message_loop` of
-- websocket/routes.py).
pub mod Accepted
pub mod Handled
pub mod Texts
use ai_proctor_engine.Base.{
  ℕ, String, str_eq, ◌+◌, Bool, true, false, not, Option, none, some, List, [], ◌∷◌, ◌++◌,
  if◌then◌else◌,
}
use ai_proctor_engine.Floats.{FloatOps}
use ai_proctor_engine.Inference.{Json, text, obj, Fields}
use ai_proctor_engine.Websocket.Messages.{
  KillSwitchAcknowledgePayload, ClientMessage, Payload, light, heavy_frame, audio, browser,
  kill_switch,
}
use ai_proctor_engine.Websocket.Messages.Parsing.{
  Pydantic, ParseError, envelope_validation, unhashable_type, Parsed, message, rejected, lookup,
  parse_client_message,
}
use ai_proctor_engine.Websocket.EventBuffer.{BufferedEvent, TelemetryEventBuffer, push}
use ai_proctor_engine.Websocket.Delivery.{
  DeliveryService, next_ack, record_kill_switch_ack, prepare_kill_switch, Prepared, prepared,
  already_pending, KillSwitchDeliver,
}
use ai_proctor_engine.Websocket.Routes.Handshake.{CloseCode, protocol_error, session_mismatch}

-- A text of the client, by what `json.loads` makes of it, with the time of its receipt, and whether
-- an acknowledgement that is sent for it reaches the connection: `send_json` raises when the client
-- has gone.
pub data Incoming (F : Type 0) : Type 0 where
  unreadable : Incoming F
  value : Json F → ℕ → Bool → Incoming F

-- The loop waits for the next text, has closed the connection, or is left by an exception.
pub data Ended : Type 0 where
  waiting : Ended
  closed : CloseCode → Ended
  crashed : Ended

-- The sequence numbers that were sent to the client, in order.
pub record Connection (F : Type 0) : Type 0 where
  pub delivery : DeliveryService
  pub buffer : TelemetryEventBuffer (ClientMessage F)
  pub sent : List ℕ

-- What the loop does with one text: it goes on with a new state, or ends with one.
pub data Turn (F : Type 0) : Type 0 where
  again : Connection F → Turn F
  over : Ended → Connection F → Turn F

pub is_pong : {F : Type 0} → Option (Json F) → Bool
is_pong (some (text s)) = str_eq s "pong"
is_pong _ = false

module _ {F : Type 0} where
  -- `next_ack` and its sending: the number is used up also when the sending fails.
  unfoldable pub acknowledge : Bool → Connection F → Turn F
  unfolding next_ack
  acknowledge delivered conn =
      let (seq, delivery) = next_ack conn.delivery in
      if delivered
      then again (record conn { delivery = delivery; sent = conn.sent ++ (seq ∷ []) })
      else over crashed (record conn { delivery = delivery })

  buffer_message : ClientMessage F → ℕ → Connection F → Connection F
  unfolding push
  buffer_message m now conn = record conn { buffer = (push m now conn.buffer).1 }

  pub handle_payload : Payload F → ClientMessage F → ℕ → Bool → Connection F → Turn F
  unfolding acknowledge record_kill_switch_ack buffer_message
  handle_payload (kill_switch p) m now delivered conn =
      acknowledge delivered
        (record conn { delivery = (record_kill_switch_ack p.flag_id conn.delivery).1 })
  handle_payload (light p) m now delivered conn = acknowledge delivered (buffer_message m now conn)
  handle_payload (heavy_frame p) m now delivered conn =
      acknowledge delivered (buffer_message m now conn)
  handle_payload (audio p) m now delivered conn = acknowledge delivered (buffer_message m now conn)
  handle_payload (browser p) m now delivered conn =
      acknowledge delivered (buffer_message m now conn)

  -- An accepted message: an acknowledgement of a kill switch, or telemetry for the buffer.
  unfoldable pub handle_message : ClientMessage F → ℕ → Bool → Connection F → Turn F
  unfolding handle_payload
  handle_message m now delivered conn = handle_payload m.payload m now delivered conn

module _ {F : Type 0} ⦃ops : FloatOps F⦄ (pydantic : Pydantic F) (session_id : String) where
  receive_parsed : Parsed F → ℕ → Bool → Connection F → Turn F
  unfolding handle_message
  receive_parsed (rejected envelope_validation) now delivered conn =
      over (closed protocol_error) conn
  receive_parsed (rejected unhashable_type) now delivered conn = over crashed conn
  receive_parsed (message m) now delivered conn =
      if not (str_eq m.session_id session_id)
      then over (closed session_mismatch) conn
      else handle_message m now delivered conn

  -- A JSON value that is no object has no `get`.
  unfoldable pub receive : Incoming F → Connection F → Turn F
  unfolding receive_parsed is_pong lookup parse_client_message
  receive unreadable conn = over (closed protocol_error) conn
  receive (value (obj raw) now delivered) conn =
      if is_pong (lookup "type" raw)
      then again conn
      else receive_parsed (parse_client_message pydantic raw) now delivered conn
  receive (value _ now delivered) conn = over crashed conn

  -- The texts of a connection in order, and what is left when it ends.
  unfoldable pub message_loop : List (Incoming F) → Connection F → Ended × Connection F
  unfolding receive
  message_loop [] conn = (waiting, conn)
  message_loop (t ∷ ts) conn = elim (receive t conn) [
    | over ended conn' ↦ (ended, conn')
    | again conn' ↦ message_loop ts conn'
  ]
