-- ===== src/Inference.antt =====
-- The results that the inference modules hand to the fusion engine
-- (proctoring_engine/inference/_types.py).
pub mod BrowserEvents
pub mod AudioVad
pub mod IdentityMatch
pub mod LivenessCheck
pub mod ObjectDetection
pub mod HeadPoseGaze
pub mod Intervals
use ai_proctor_engine.Base.{
  ℕ, String, ◌≡◌, Bool, true, ◌&&◌, Option, List, if◌then◌else◌, not, Outcome, ok, raised,
  value_error,
}
use ai_proctor_engine.Floats.{FloatOps}

-- A value of a `dict[str, Any]`.
mutual
  pub data Json (F : Type 0) : Type 0 where
    null : Json F
    bool : Bool → Json F
    int : ℕ → Json F
    float : F → Json F
    text : String → Json F
    arr : Items F → Json F
    obj : Fields F → Json F

  pub data Items (F : Type 0) : Type 0 where
    nil : Items F
    item : Json F → Items F → Items F

  pub data Fields (F : Type 0) : Type 0 where
    end : Fields F
    field : String → Json F → Fields F → Fields F

pub record ConfidenceInterval (F : Type 0) : Type 0 where
  pub lower : F
  pub score : F
  pub upper : F

pub record BoundingBox (F : Type 0) : Type 0 where
  pub x : F
  pub y : F
  pub w : F
  pub h : F

pub record InferenceResult (F : Type 0) : Type 0 where
  pub modality : String
  pub event_type : String
  pub confidence : ConfidenceInterval F
  pub bounding_boxes : List (BoundingBox F)
  pub raw_value : Fields F

pub record FacePresenceResult (F : Type 0) : Type 0 where
  pub base : InferenceResult F
  pub open base use *
  pub face_count : ℕ

pub record IdentityMatchResult (F : Type 0) : Type 0 where
  pub base : InferenceResult F
  pub open base use *
  pub similarity : F

-- `off_screen` is `none` for a frame without landmarks.
pub record HeadPoseGazeResult (F : Type 0) : Type 0 where
  pub base : InferenceResult F
  pub open base use *
  pub off_screen : Option Bool
  pub yaw : F
  pub pitch : F
  pub roll : F
  pub ear : F
  pub iris_offset : F

pub record ObjectDetectionResult (F : Type 0) : Type 0 where
  pub base : InferenceResult F
  pub open base use *
  pub detected_class : String

pub record AudioVadResult (F : Type 0) : Type 0 where
  pub base : InferenceResult F
  pub open base use *
  pub speech_ratio : F
  pub rms_db : F
  pub speech_frames : ℕ
  pub total_frames : ℕ

pub record LivenessResult (F : Type 0) : Type 0 where
  pub base : InferenceResult F
  pub open base use *
  pub is_real : Bool

pub record BrowserEventResult (F : Type 0) : Type 0 where
  pub base : InferenceResult F
  pub open base use *
  pub detail : Fields F

module _ {F : Type 0} ⦃ops : FloatOps F⦄ where
  unfoldable pub in_unit : F → Bool
  in_unit v = ops.le ops.zero_f v && ops.le v ops.one_f

  -- `ConfidenceInterval(...)`, with the checks of `__post_init__` in their order.
  unfoldable pub make_interval : F → F → F → Outcome (ConfidenceInterval F)
  unfolding in_unit
  make_interval lower score upper =
      if not (in_unit lower)
      then raised value_error
      else if not (in_unit score)
      then raised value_error
      else if not (in_unit upper)
      then raised value_error
      else if ops.lt score lower
      then raised value_error
      else if ops.lt upper score
      then raised value_error
      else ok (record { lower = lower; score = score; upper = upper })

  -- `BoundingBox(...)`, with its check of the four values in their order.
  unfoldable pub make_box : F → F → F → F → Outcome (BoundingBox F)
  unfolding in_unit
  make_box x y w h =
      if not (in_unit x)
      then raised value_error
      else if not (in_unit y)
      then raised value_error
      else if not (in_unit w)
      then raised value_error
      else if not (in_unit h)
      then raised value_error
      else ok (record { x = x; y = y; w = w; h = h })

  -- `to_dict`
  unfoldable pub box_to_dict : BoundingBox F → Fields F
  box_to_dict b =
      field "x" (float b.x)
        (field "y" (float b.y) (field "w" (float b.w) (field "h" (float b.h) end)))

  -- `0 <= lower <= score <= upper <= 1`
  pub record InUnit (c : ConfidenceInterval F) : Type 0 where
    pub low : ops.le ops.zero_f c.lower ≡ true
    pub left : ops.le c.lower c.score ≡ true
    pub right : ops.le c.score c.upper ≡ true
    pub high : ops.le c.upper ops.one_f ≡ true

  abbrev pub Between : F → F → F → Type 0
  Between lo hi s = (ops.le lo s ≡ true) × (ops.le s hi ≡ true)
