-- ===== src/Websocket/Messages.antt =====
-- The messages of the exam client and their validation (websocket/client.py). Pydantic is not built
-- from the source: what it reads from a JSON value is an argument, and the fields that a model
-- declares, their constraints and its validators are written out.
pub mod Parsing
use ai_proctor_engine.Base.{
  ℕ, String, str_eq, Bool, true, false, not, ◌&&◌, Option, none, some, List, [], ◌∷◌, length, any,
  all, ◌==◌,
}
use Prim.Native.String.{len}
use ai_proctor_engine.Floats.{FloatOps}
use ai_proctor_engine.Inference.{Fields}

pub data ClientMessageType : Type 0 where
  telemetry_light telemetry_heavy_frame audio_chunk browser_event kill_switch_ack :
      ClientMessageType

pub record TelemetryLightPayload (F : Type 0) : Type 0 where
  pub face_count : ℕ
  pub confidence : F
  pub bbox : Option (List F)

pub record TelemetryHeavyFramePayload : Type 0 where
  pub frame : String
  pub resolution : List ℕ
  pub encoding : String

pub record TelemetryAudioChunkPayload : Type 0 where
  pub audio : String
  pub sample_rate_hz : ℕ
  pub duration_ms : ℕ

pub record TelemetryBrowserEventPayload (F : Type 0) : Type 0 where
  pub event_type : String
  pub detail : Fields F

pub record KillSwitchAcknowledgePayload : Type 0 where
  pub flag_id : String
  pub answered_questions : Option ℕ

-- The payload of each class of the union, under the name of its class.
pub data Payload (F : Type 0) : Type 0 where
  light : TelemetryLightPayload F → Payload F
  heavy_frame : TelemetryHeavyFramePayload → Payload F
  audio : TelemetryAudioChunkPayload → Payload F
  browser : TelemetryBrowserEventPayload F → Payload F
  kill_switch : KillSwitchAcknowledgePayload → Payload F

-- `ClientMessage`: the envelope's fields and the payload. The time is in milliseconds.
pub record ClientMessage (F : Type 0) : Type 0 where
  pub session_id : String
  pub captured_at : ℕ
  pub payload : Payload F

abbrev pub valid_sample_rates : List ℕ
valid_sample_rates = 8000 ∷ 16000 ∷ 32000 ∷ 48000 ∷ []

abbrev pub valid_frame_durations : List ℕ
valid_frame_durations = 10 ∷ 20 ∷ 30 ∷ []

abbrev pub valid_browser_events : List String
valid_browser_events =
    "visibilitychange" ∷ "blur" ∷ "focus" ∷ "fullscreenchange" ∷ "copy" ∷ "paste" ∷ "contextmenu"
    ∷ []

abbrev pub valid_frame_encodings : List String
valid_frame_encodings = "jpeg" ∷ "png" ∷ "webp" ∷ []

-- Python's `in` on a frozenset of strings, and on one of numbers.
abbrev pub has_string : String → List String → Bool
has_string s = any (str_eq s)

abbrev pub has_number : ℕ → List ℕ → Bool
has_number n = any (λ m. n == m)

abbrev pub nonempty : String → Bool
nonempty s = not (len s == 0)

unfoldable pub resolution_positive : List ℕ → Bool
resolution_positive (w ∷ h ∷ []) = not (w == 0) && not (h == 0)
resolution_positive _ = false

unfoldable pub heavy_frame_valid : TelemetryHeavyFramePayload → Bool
heavy_frame_valid p =
    nonempty p.frame
    && (resolution_positive p.resolution && has_string p.encoding valid_frame_encodings)

unfoldable pub audio_chunk_valid : TelemetryAudioChunkPayload → Bool
audio_chunk_valid p =
    nonempty p.audio
    && (has_number p.sample_rate_hz valid_sample_rates
        && has_number p.duration_ms valid_frame_durations)

unfoldable pub browser_event_valid : {F : Type 0} → TelemetryBrowserEventPayload F → Bool
browser_event_valid p = has_string p.event_type valid_browser_events

unfoldable pub kill_switch_ack_valid : KillSwitchAcknowledgePayload → Bool
kill_switch_ack_valid p = nonempty p.flag_id

module _ {F : Type 0} ⦃ops : FloatOps F⦄ where
  unfoldable pub in_unit : F → Bool
  in_unit v = ops.le ops.zero_f v && ops.le v ops.one_f

  -- Four components, each of them normalised; no box is fine.
  unfoldable pub bbox_values_normalised : Option (List F) → Bool
  bbox_values_normalised none = true
  bbox_values_normalised (some v) = (length v == 4) && all in_unit v

  unfoldable pub light_valid : TelemetryLightPayload F → Bool
  light_valid p = in_unit p.confidence && bbox_values_normalised p.bbox

  -- The constraints and validators of the payload's model.
  unfoldable pub payload_valid : Payload F → Bool
  payload_valid (light p) = light_valid p
  payload_valid (heavy_frame p) = heavy_frame_valid p
  payload_valid (audio p) = audio_chunk_valid p
  payload_valid (browser p) = browser_event_valid p
  payload_valid (kill_switch p) = kill_switch_ack_valid p
