-- ===== src/Tests/Connections.antt =====
-- The connections of clients and their audio on concrete headers, texts and samples.
use ai_proctor_engine.Base.{
  Bool, true, ℕ, String, str_eq, ◌*◌, ◌/◌, ◌≡◌, refl, false, Option, none, some, List, [], ◌∷◌,
  if◌then◌else◌,
}
use ai_proctor_engine.Tests.{thousandths}
use ai_proctor_engine.Inference.{Json, end, field, int, text, obj}
use ai_proctor_engine.Lti.Roles.{learner}
use ai_proctor_engine.Orchestration.StateMachine.{pending}
use ai_proctor_engine.Orchestration.AdminService.Overrides.{approved}
use ai_proctor_engine.Websocket.Messages.{ClientMessage}
use ai_proctor_engine.Websocket.Messages.Parsing.{Pydantic}
use ai_proctor_engine.Websocket.Routes.Handshake.{Decoded, claims, expired, Tables, Services}
use ai_proctor_engine.Websocket.Routes.MessageLoop.{
  Incoming, unreadable, value, Connection, message_loop,
}
use ai_proctor_engine.Websocket.Routes.MessageLoop.Accepted.{message_loop-Took}
use ai_proctor_engine.Websocket.Routes.MessageLoop.Handled.{Took}
use ai_proctor_engine.Websocket.Routes.MessageLoop.Texts.{Reads}
use ai_proctor_engine.Preprocessing.Audio.{AudioFrame, audio, split_into_vad_frames}
use ai_proctor_engine.Preprocessing.Audio.Splitting.{IsCut, split_into_vad_frames-IsCut}

abbrev decode : String → Decoded
decode t =
    if str_eq t "token"
    then claims (record { subject = "lms-7"; session_id = "exam"; role = learner })
    else expired

-- The identity backend is missing, and an override covers the time.
abbrev services : Services
services = record {
  decode_session_token = decode;
  uuid = λ s. if str_eq s "exam" then some 5 else none;
  backend_available = false;
  now = 15;
}

abbrev tables : Tables
tables = record {
  sessions =
      record {
        id = 5;
        status = pending;
        consent_recorded_at = some 9;
        identity_unavailable = false;
      }
      ∷ [];
  overrides =
      record {
        id = 7;
        exam_session_id = 5;
        requested_by_admin_id = 2;
        department = "maths";
        reason = "no camera";
        status = approved;
        approved_by_admin_id = some 1;
        valid_from = 10;
        valid_until = 20;
        decided_at = some 12;
      }
      ∷ [];
  terminations = [];
}

read_text : Json ℕ → Option String
read_text (text s) = some s
read_text _ = none

read_count : Json ℕ → Option ℕ
read_count (int n) = some n
read_count _ = none

abbrev pydantic : Pydantic ℕ
pydantic = record {
  as_string = read_text;
  as_int = read_count;
  as_float = read_count;
  as_datetime = read_count;
}

abbrev browser_message : String → Json ℕ
browser_message session = obj (
    field "type" (text "browser_event") (
      field "session_id" (text session) (
        field "captured_at" (int 3) (
          field "payload" (obj (field "event_type" (text "blur") (field "detail" (obj end) end)))
            end))))

-- The acknowledgement of the second message is not sent.
abbrev texts : List (Incoming ℕ)
texts =
    value (browser_message "exam") 1 true
    ∷ value (browser_message "exam") 2 false
    ∷ value (browser_message "other") 3 true
    ∷ unreadable
    ∷ []

abbrev connection : Connection ℕ
connection = record {
  delivery = record {
    seq = 0;
    ack_grace = 5;
    max_retries = 3;
    pending_kill = none;
    kill_switch_acked = false;
  };
  buffer = record { maxlen = 10; buf = []; next_seq = 0; dropped = 0 };
  sent = [];
}

message_loop-Took_example :
    let (ended, after) = message_loop pydantic "exam" texts connection in
    (ms : List (ClientMessage ℕ × ℕ)) × (all_sent : Bool) × Reads pydantic "exam" texts ended ms
      all_sent
    × Took ms all_sent connection after
message_loop-Took_example = message_loop-Took pydantic "exam" texts connection

split_into_vad_frames-IsCut_example :
    (frames : List (AudioFrame ℕ)) × (split_into_vad_frames 0 8000 10 500 (1 ∷ 2 ∷ 3 ∷ [])
      ≡ audio frames)
    × IsCut 0 (8000 * 10 / 1000) 10 500 (1 ∷ 2 ∷ 3 ∷ []) frames
split_into_vad_frames-IsCut_example =
    split_into_vad_frames-IsCut 0 8000 10 500 (1 ∷ 2 ∷ 3 ∷ []) refl refl
