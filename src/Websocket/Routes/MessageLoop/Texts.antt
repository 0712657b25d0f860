-- ===== src/Websocket/Routes/MessageLoop/Texts.antt =====
-- The texts of a client, by what the message loop makes of each.
use ai_proctor_engine.Base.{ℕ, String, str_eq, ◌≡◌, Bool, true, false, some, List, [], ◌∷◌}
use ai_proctor_engine.Floats.{FloatOps}
use ai_proctor_engine.Inference.{Json, Fields, text, obj}
use ai_proctor_engine.Websocket.Messages.{ClientMessage, payload_valid}
use ai_proctor_engine.Websocket.Messages.Parsing.{
  Pydantic, envelope_validation, unhashable_type, message, rejected, lookup, parse_client_message,
}
use ai_proctor_engine.Websocket.Routes.Handshake.{protocol_error, session_mismatch}
use ai_proctor_engine.Websocket.Routes.MessageLoop.{
  Incoming, unreadable, value, Ended, waiting, closed, crashed,
}

abbrev pub is_object : {F : Type 0} → Json F → Bool
is_object (obj raw) = true
is_object _ = false

module _ {F : Type 0} ⦃ops : FloatOps F⦄ (pydantic : Pydantic F) (session_id : String) where
  -- The answer of a client to a ping.
  pub data Pong : Incoming F → Type 0 where
    pong :
        (raw : Fields F) (now : ℕ) (delivered : Bool)
        → lookup "type" raw ≡ some (text "pong")
        → Pong (value (obj raw) now delivered)

  -- The text of a message of the token's session that passed every check of its payload.
  pub data Takes : Incoming F → ClientMessage F → ℕ → Bool → Type 0 where
    own :
        (raw : Fields F) (m : ClientMessage F) (now : ℕ) (delivered : Bool)
        → parse_client_message pydantic raw ≡ message m
        → str_eq m.session_id session_id ≡ true
        → payload_valid m.payload ≡ true
        → Takes (value (obj raw) now delivered) m now delivered

  -- A text that ends the connection: it is no JSON, no object, no message that is accepted, or a
  -- message of another session.
  pub data Stops : Incoming F → Ended → Type 0 where
    no_json : Stops unreadable (closed protocol_error)
    no_object :
        (v : Json F) (now : ℕ) (delivered : Bool)
        → is_object v ≡ false
        → Stops (value v now delivered) crashed
    refuses :
        (raw : Fields F) (now : ℕ) (delivered : Bool)
        → parse_client_message pydantic raw ≡ rejected envelope_validation
        → Stops (value (obj raw) now delivered) (closed protocol_error)
    unhashable :
        (raw : Fields F) (now : ℕ) (delivered : Bool)
        → parse_client_message pydantic raw ≡ rejected unhashable_type
        → Stops (value (obj raw) now delivered) crashed
    foreign :
        (raw : Fields F) (m : ClientMessage F) (now : ℕ) (delivered : Bool)
        → parse_client_message pydantic raw ≡ message m
        → str_eq m.session_id session_id ≡ false
        → Stops (value (obj raw) now delivered) (closed session_mismatch)

  -- The messages of the texts that a connection reads, in order, and how it ends: pongs are skipped,
  -- and the texts behind the one that ends it are not read. The Boolean is false where the sending of
  -- the last acknowledgement ends it.
  pub data Reads : List (Incoming F) → Ended → List (ClientMessage F × ℕ) → Bool → Type 0 where
    waits : Reads [] waiting [] true
    skips :
        (t : Incoming F) (ts : List (Incoming F)) (e : Ended) (ms : List (ClientMessage F × ℕ))
        (all_sent : Bool)
        → Pong t
        → Reads ts e ms all_sent
        → Reads (t ∷ ts) e ms all_sent
    takes :
        (t : Incoming F) (ts : List (Incoming F)) (e : Ended) (m : ClientMessage F) (now : ℕ)
        (ms : List (ClientMessage F × ℕ)) (all_sent : Bool)
        → Takes t m now true
        → Reads ts e ms all_sent
        → Reads (t ∷ ts) e ((m, now) ∷ ms) all_sent
    drops :
        (t : Incoming F) (ts : List (Incoming F)) (m : ClientMessage F) (now : ℕ)
        → Takes t m now false
        → Reads (t ∷ ts) crashed ((m, now) ∷ []) false
    stops :
        (t : Incoming F) (ts : List (Incoming F)) (e : Ended) → Stops t e → Reads (t ∷ ts) e [] true
