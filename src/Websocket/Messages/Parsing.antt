-- ===== src/Websocket/Messages/Parsing.antt =====
-- How a JSON object becomes a message (`parse_client_message` of websocket/client.py).
pub mod Acceptance
use ai_proctor_engine.Base.{
  ℕ, String, str_eq, ◌≡◌, refl, Bool, true, false, not, ◌&&◌, Option, none, some, List, [], ◌∷◌,
  any, if◌then◌else◌, Bool-cases, Option-cases,
}
use ai_proctor_engine.Base.Options.{◌>>=◌, checked}
use ai_proctor_engine.Floats.{FloatOps}
use ai_proctor_engine.Inference.{
  Json, null, bool, int, float, text, arr, obj, Items, nil, item, Fields, end, field,
}
use ai_proctor_engine.Websocket.Messages.{
  ClientMessageType, telemetry_light, telemetry_heavy_frame, audio_chunk, browser_event,
  kill_switch_ack, TelemetryLightPayload, TelemetryHeavyFramePayload, TelemetryAudioChunkPayload,
  TelemetryBrowserEventPayload, KillSwitchAcknowledgePayload, Payload, light, heavy_frame, audio,
  browser, kill_switch, ClientMessage, has_string, nonempty, payload_valid,
}

-- How pydantic reads a value as the type of a field. A number below zero breaks a constraint of
-- every integer field of the models, so it is read as no integer.
pub record Pydantic (F : Type 0) : Type 0 where
  pub as_string : Json F → Option String
  pub as_int : Json F → Option ℕ
  pub as_float : Json F → Option F
  pub as_datetime : Json F → Option ℕ

-- The exceptions that leave the parser.
pub data ParseError : Type 0 where
  envelope_validation unhashable_type : ParseError

pub data Parsed (F : Type 0) : Type 0 where
  message : ClientMessage F → Parsed F
  rejected : ParseError → Parsed F

-- `_TYPE_TO_MODEL.get(msg_type)` on a string.
unfoldable pub type_to_model : String → Option ClientMessageType
type_to_model s =
    if str_eq s "telemetry_light"
    then some telemetry_light
    else if str_eq s "telemetry_heavy_frame"
    then some telemetry_heavy_frame
    else if str_eq s "audio_chunk"
    then some audio_chunk
    else if str_eq s "browser_event"
    then some browser_event
    else if str_eq s "kill_switch_ack"
    then some kill_switch_ack
    else none

module _ {F : Type 0} where
  validated : Option (ClientMessage F) → Parsed F
  validated none = rejected envelope_validation
  validated (some m) = message m

  -- `dict.get`
  unfoldable pub lookup : String → Fields F → Option (Json F)
  lookup key end = none
  lookup key (field name v rest) =
      let found = lookup key rest in if str_eq key name then some v else found

  -- No field besides those that the model declares (`extra="forbid"`).
  unfoldable pub only : List String → Fields F → Bool
  only names end = true
  only names (field name v rest) = has_string name names && only names rest

  -- The value's keys, for a `dict`.
  as_dict : Json F → Option (Fields F)
  as_dict (obj fields) = some fields
  as_dict _ = none

  as_list : {A : Type 0} → (Json F → Option A) → Items F → Option (List A)
  as_list read nil = some []
  as_list read (item v rest) =
      let others = as_list read rest in read v >>= (λ a. others >>= (λ xs. some (a ∷ xs)))

  list_of : {A : Type 0} → (Json F → Option A) → Json F → Option (List A)
  unfolding as_list
  list_of read (arr items) = as_list read items
  list_of read _ = none

  -- `T | None`
  nullable : {A : Type 0} → (Json F → Option A) → Json F → Option (Option A)
  nullable read null = some none
  nullable read v = read v >>= (λ a. some (some a))

  required : {A : Type 0} → String → (Json F → Option A) → Fields F → Option A
  unfolding lookup
  required key read fields = lookup key fields >>= read

  defaulted : {A : Type 0} → A → String → (Json F → Option A) → Fields F → Option A
  unfolding lookup
  defaulted default key read fields = elim (lookup key fields) [
    | none ↦ some default
    | some v ↦ read v
  ]

module _ {F : Type 0} ⦃ops : FloatOps F⦄ (pydantic : Pydantic F) where
  -- `Literal["face_presence"]`
  face_presence : Json F → Option String
  face_presence v = pydantic.as_string v >>= checked (λ s. str_eq s "face_presence")

  read_light : Fields F → Option (TelemetryLightPayload F)
  unfolding required defaulted nullable list_of face_presence
  read_light fields = do
    modality ← defaulted "face_presence" "modality" face_presence fields
    face_count ← required "face_count" pydantic.as_int fields
    confidence ← required "confidence" pydantic.as_float fields
    bbox ← defaulted none "bbox" (nullable (list_of pydantic.as_float)) fields
    some (record { face_count = face_count; confidence = confidence; bbox = bbox })

  read_heavy_frame : Fields F → Option TelemetryHeavyFramePayload
  unfolding required list_of
  read_heavy_frame fields = do
    frame ← required "frame" pydantic.as_string fields
    resolution ← required "resolution" (list_of pydantic.as_int) fields
    encoding ← required "encoding" pydantic.as_string fields
    some (record { frame = frame; resolution = resolution; encoding = encoding })

  read_audio_chunk : Fields F → Option TelemetryAudioChunkPayload
  unfolding required
  read_audio_chunk fields = do
    chunk ← required "audio" pydantic.as_string fields
    rate ← required "sample_rate_hz" pydantic.as_int fields
    duration ← required "duration_ms" pydantic.as_int fields
    some (record { audio = chunk; sample_rate_hz = rate; duration_ms = duration })

  read_browser_event : Fields F → Option (TelemetryBrowserEventPayload F)
  unfolding required defaulted as_dict
  read_browser_event fields = do
    event_type ← required "event_type" pydantic.as_string fields
    detail ← defaulted end "detail" as_dict fields
    some (record { event_type = event_type; detail = detail })

  read_kill_switch_ack : Fields F → Option KillSwitchAcknowledgePayload
  unfolding required defaulted nullable
  read_kill_switch_ack fields = do
    flag_id ← required "flag_id" pydantic.as_string fields
    answered ← defaulted none "answered_questions" (nullable pydantic.as_int) fields
    some (record { flag_id = flag_id; answered_questions = answered })

  -- The payload's model: its fields, none besides them, then its constraints and validators.
  read_payload : ClientMessageType → Fields F → Option (Payload F)
  unfolding only read_light read_heavy_frame read_audio_chunk read_browser_event
      read_kill_switch_ack
  read_payload telemetry_light fields =
      if only ("modality" ∷ "face_count" ∷ "confidence" ∷ "bbox" ∷ []) fields
      then read_light fields >>= (λ p. some (light p))
      else none
  read_payload telemetry_heavy_frame fields =
      if only ("frame" ∷ "resolution" ∷ "encoding" ∷ []) fields
      then read_heavy_frame fields >>= (λ p. some (heavy_frame p))
      else none
  read_payload audio_chunk fields =
      if only ("audio" ∷ "sample_rate_hz" ∷ "duration_ms" ∷ []) fields
      then read_audio_chunk fields >>= (λ p. some (audio p))
      else none
  read_payload browser_event fields =
      if only ("event_type" ∷ "detail" ∷ []) fields
      then read_browser_event fields >>= (λ p. some (browser p))
      else none
  read_payload kill_switch_ack fields =
      if only ("flag_id" ∷ "answered_questions" ∷ []) fields
      then read_kill_switch_ack fields >>= (λ p. some (kill_switch p))
      else none

  -- The fields of the envelope, and the constraints on them.
  read_envelope : ClientMessageType → Fields F → Option (ClientMessage F)
  unfolding required as_dict read_payload
  read_envelope kind raw = do
    session_id ← required "session_id" (λ v. pydantic.as_string v >>= checked nonempty) raw
    captured_at ← required "captured_at" pydantic.as_datetime raw
    fields ← required "payload" as_dict raw
    payload ← read_payload kind fields >>= checked payload_valid
    some (record { session_id = session_id; captured_at = captured_at; payload = payload })

  -- `model_cls.model_validate(raw)`
  unfoldable pub model_validate : ClientMessageType → Fields F → Option (ClientMessage F)
  unfolding only read_envelope
  model_validate kind raw =
      if only ("type" ∷ "session_id" ∷ "captured_at" ∷ "payload" ∷ []) raw
      then read_envelope kind raw
      else none

  parse_typed : Option (Json F) → Fields F → Parsed F
  unfolding validated
  parse_typed (some (text s)) raw = elim (type_to_model s) [
    | none ↦ rejected envelope_validation
    | some kind ↦ validated (model_validate kind raw)
  ]
  parse_typed (some (arr items)) raw = rejected unhashable_type
  parse_typed (some (obj fields)) raw = rejected unhashable_type
  parse_typed _ raw = rejected envelope_validation

  -- The table is a `dict`, so a list or an object as the type raises `TypeError`.
  unfoldable pub parse_client_message : Fields F → Parsed F
  unfolding lookup parse_typed
  parse_client_message raw = parse_typed (lookup "type" raw) raw
