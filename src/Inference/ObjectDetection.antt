-- ===== src/Inference/ObjectDetection.antt =====
-- The detector of denied objects (inference/object_detection.py). The YOLO model is an argument: its
-- boxes for a frame, and the names of its classes.
use ai_proctor_engine.Base.{
  ℕ, String, str_eq, not, Option, none, some, List, [], ◌∷◌, any, if◌then◌else◌, Outcome, ok, ◌>>=◌,
}
use ai_proctor_engine.Floats.{FloatOps, FloatArith, clamp}
use ai_proctor_engine.Inference.{
  ConfidenceInterval, BoundingBox, make_box, end, field, float, text, ObjectDetectionResult,
}
use ai_proctor_engine.Inference.Intervals.{point}

-- An entry of YOLO's boxes: `cls`, `conf` and the corners `xyxyn`.
pub record YoloBox (F : Type 0) : Type 0 where
  pub cls : ℕ
  pub conf : F
  pub x1 : F
  pub y1 : F
  pub x2 : F
  pub y2 : F

-- An entry of the filtered list.
pub record Detection (F : Type 0) : Type 0 where
  pub class_name : String
  pub confidence : F
  pub x : F
  pub y : F
  pub w : F
  pub h : F

-- `DENYLIST_CLASSES`, the values of `COCO_DENYLIST_IDS`.
abbrev pub denylist_classes : List String
denylist_classes = "tv" ∷ "laptop" ∷ "cell phone" ∷ "book" ∷ []

module _ {F : Type 0} ⦃ops : FloatOps F⦄ (num : FloatArith F) where
  abbrev detection : String → YoloBox F → Detection F
  detection name b = record {
    class_name = name;
    confidence = b.conf;
    x = clamp b.x1;
    y = clamp b.y1;
    w = num.sub (clamp b.x2) (clamp b.x1);
    h = num.sub (clamp b.y2) (clamp b.y1);
  }

  -- The names answer `""` for a class that they do not have.
  unfoldable pub filter_denylist_detections :
      (ℕ → String) → List String → List (YoloBox F) → List (Detection F)
  filter_denylist_detections names denylist [] = []
  filter_denylist_detections names denylist (b ∷ boxes) =
      let others = filter_denylist_detections names denylist boxes in
      if not (any (str_eq (names b.cls)) denylist)
      then others
      else detection (names b.cls) b ∷ others

abbrev detected :
    {F : Type 0} → Detection F → BoundingBox F → ConfidenceInterval F → ObjectDetectionResult F
detected det box confidence = record {
  base = record {
    modality = "object";
    event_type = det.class_name;
    confidence = confidence;
    bounding_boxes = box ∷ [];
    raw_value =
        field "detected_class" (text det.class_name)
          (field "yolo_confidence" (float det.confidence) end);
  };
  detected_class = det.class_name;
}

module _ {F : Type 0} ⦃ops : FloatOps F⦄ where
  unfoldable pub detection_results : List (Detection F) → Outcome (List (ObjectDetectionResult F))
  unfolding point make_box
  detection_results [] = ok []
  detection_results (det ∷ dets) =
      let others = detection_results dets in
      make_box det.x det.y det.w det.h >>= (λ box.
        point det.confidence >>= (λ c. others >>= (λ results. ok (detected det box c ∷ results))))

boxes_or_none : {F : Type 0} → Option (List (YoloBox F)) → List (YoloBox F)
boxes_or_none none = []
boxes_or_none (some boxes) = boxes

module _ {F A : Type 0} ⦃ops : FloatOps F⦄ (num : FloatArith F) where
  -- `ObjectDetectorRunner.run`: `predict` answers no boxes, boxes, or raises.
  unfoldable pub run_detector :
      (A → Outcome (Option (List (YoloBox F))))
      → (ℕ → String)
      → A
      → Outcome (List (ObjectDetectionResult F))
  unfolding filter_denylist_detections detection_results boxes_or_none
  run_detector predict names frame = predict frame >>= (λ boxes.
      detection_results
        (filter_denylist_detections num names denylist_classes (boxes_or_none boxes)))
