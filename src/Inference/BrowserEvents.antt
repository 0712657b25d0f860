-- ===== src/Inference/BrowserEvents.antt =====
-- The classification of browser events (inference/browser_events.py).
use ai_proctor_engine.Base.{
  String, not, Option, none, some, [], if◌then◌else◌, Outcome, ok, raised, value_error,
}
use ai_proctor_engine.Floats.{FloatOps}
use ai_proctor_engine.Inference.{
  ConfidenceInterval, Fields, end, field, text, obj, BrowserEventResult,
}
use ai_proctor_engine.Websocket.Messages.{has_string, valid_browser_events}

module _ {F : Type 0} ⦃ops : FloatOps F⦄ where
  abbrev pub deterministic_confidence : ConfidenceInterval F
  deterministic_confidence = record { lower = ops.one_f; score = ops.one_f; upper = ops.one_f }

  abbrev browser_result : String → Fields F → BrowserEventResult F
  browser_result event_type detail = record {
    base = record {
      modality = "browser";
      event_type = event_type;
      confidence = deterministic_confidence;
      bounding_boxes = [];
      raw_value = field "event_type" (text event_type) (field "detail" (obj detail) end);
    };
    detail = detail;
  }

  default_detail : Option (Fields F) → Fields F
  default_detail none = end
  default_detail (some detail) = detail

  unfoldable pub classify_browser_event :
      String → Option (Fields F) → Outcome (BrowserEventResult F)
  unfolding default_detail
  classify_browser_event event_type detail =
      if not (has_string event_type valid_browser_events)
      then raised value_error
      else ok (browser_result event_type (default_detail detail))
