-- ===== src/Preprocessing/Frames.antt =====
-- The decoding of image frames (preprocessing/frames.py). base64 and OpenCV are arguments.
use ai_proctor_engine.Base.{
  ℕ, String, str_eq, Bool, false, not, ◌||◌, Option, none, some, List, [], ◌∷◌, any, ◌==◌,
  if◌then◌else◌,
}
use ai_proctor_engine.Base.Options.{◌>>=◌}

-- A frame with its array of type `A`.
pub record DecodedFrame (A : Type 0) : Type 0 where
  pub array : A
  pub width : ℕ
  pub height : ℕ
  pub channels : ℕ
  pub encoding : String

-- `base64.b64decode(encoded, validate=True)`, whether a payload is blank, `cv2.imdecode` in colour,
-- the shape of an array, and the two colour conversions.
pub record ImageCodec (A : Type 0) : Type 0 where
  pub blank : String → Bool
  pub b64decode : String → Option (List ℕ)
  pub imdecode : List ℕ → Option A
  pub shape : A → List ℕ
  pub bgra_to_bgr : A → A
  pub bgr_to_rgb : A → A

abbrev pub accepted_encodings : List String
accepted_encodings = "jpeg" ∷ "png" ∷ "webp" ∷ []

module _ {A : Type 0} (codec : ImageCodec A) where
  -- `none` stands for the `FrameDecodeError`, which carries a text and the encoding.
  unfoldable pub decode_base64_to_bytes : String → String → Option (List ℕ)
  decode_base64_to_bytes encoded encoding =
      if not (any (str_eq encoding) accepted_encodings)
      then none
      else if codec.blank encoded
      then none
      else codec.b64decode encoded

  framed : String → A → List ℕ → Option (DecodedFrame A)
  framed encoding arr (height ∷ width ∷ channels ∷ []) =
      if (channels == 3) || (channels == 4)
      then some (record {
        array = arr;
        width = width;
        height = height;
        channels = channels;
        encoding = encoding;
      })
      else none
  framed encoding arr _ = none

  unfoldable pub decode_jpeg_frame : String → String → Option (DecodedFrame A)
  unfolding decode_base64_to_bytes framed
  decode_jpeg_frame encoded encoding = do
    raw ← decode_base64_to_bytes encoded encoding
    arr ← codec.imdecode raw
    framed encoding arr (codec.shape arr)

  has_alpha : List ℕ → Bool
  has_alpha (height ∷ width ∷ channels ∷ rest) = channels == 4
  has_alpha _ = false

  unfoldable pub normalize_for_mediapipe : DecodedFrame A → DecodedFrame A
  unfolding has_alpha
  normalize_for_mediapipe frame = record {
    array = codec.bgr_to_rgb (
        if has_alpha (codec.shape frame.array) then codec.bgra_to_bgr frame.array else frame.array);
    width = frame.width;
    height = frame.height;
    channels = 3;
    encoding = "rgb";
  }
