-- ===== src/Orchestration/FrameDispatcher/FaceBox.antt =====
-- The box of a face in pixels (`_extract_face_bbox_pixel_coords` of
-- orchestration/_frame_dispatcher.py).
pub mod Bounds
use ai_proctor_engine.Base.{
  ℕ, zero, suc, String, str_eq, ◌+◌, ◌-◌, ◌≡◌, Bool, true, false, not, ◌||◌, Option, none, some,
  List, [], ◌∷◌, map, ltb, leb, if◌then◌else◌,
}
use ai_proctor_engine.Floats.{FloatOps, min_f, max_f}
use ai_proctor_engine.Inference.{Json, float, arr, Items, nil, item, Fields, HeadPoseGazeResult}
use ai_proctor_engine.Websocket.Messages.Parsing.{lookup}
use ai_proctor_engine.Base.Options.{◌>>=◌}

-- Python's `int`: a number, or one below zero as in -1 - n.
pub data ℤ : Type 0 where
  pos negsuc : ℕ → ℤ

-- `int(v * n)` of a coordinate and a number of pixels, and `int(n * 0.3)` of a span.
pub record PixelOps (F : Type 0) : Type 0 where
  pub to_pixel : F → ℕ → ℤ
  pub thirty_percent : ℕ → ℕ

unfoldable pub plus : ℤ → ℕ → ℤ
plus (pos m) n = pos (m + n)
plus (negsuc m) n = if ltb m n then pos (n - (m + 1)) else negsuc (m - n)

-- `max(0, a - n)`
unfoldable pub minus_floor : ℤ → ℕ → ℕ
minus_floor (pos m) n = m - n
minus_floor (negsuc m) n = 0

-- `max(1, int((b - a) * 0.3))`: a span below zero truncates to at most zero.
unfoldable pub pad : (ℕ → ℕ) → ℤ → ℤ → ℕ
pad thirty (pos a) (pos b) =
    if ltb a b then (if ltb 1 (thirty (b - a)) then thirty (b - a) else 1) else 1
pad thirty (negsuc a) (pos b) = if ltb 1 (thirty (b + (a + 1))) then thirty (b + (a + 1)) else 1
pad thirty (pos a) (negsuc b) = 1
pad thirty (negsuc a) (negsuc b) =
    if ltb b a then (if ltb 1 (thirty (a - b)) then thirty (a - b) else 1) else 1

-- `min(w, b)` where it is above `x1`, which is never negative.
unfoldable pub above : ℕ → ℕ → ℤ → Option ℕ
above x1 w (negsuc b) = none
above x1 w (pos b) = let x2 = if ltb b w then b else w in if leb x2 x1 then none else some x2

-- The padded and clipped span of one axis, from the two ends in pixels.
unfoldable pub span : (ℕ → ℕ) → ℕ → ℤ → ℤ → Option (ℕ × ℕ)
unfolding plus minus_floor pad above
span thirty size a b =
    let p = pad thirty a b in
    let low = minus_floor a p in above low size (plus b p) >>= (λ high. some (low, high))

-- A box `[x1, y1, x2, y2]`.
pub record Box : Type 0 where
  pub x1 : ℕ
  pub y1 : ℕ
  pub x2 : ℕ
  pub y2 : ℕ

module _ {F : Type 0} where
  -- The first two entries of a point of the landmarks, which are triples of floats.
  coordinates : Json F → Option (F × F)
  coordinates (arr (item (float x) (item (float y) rest))) = some (x, y)
  coordinates _ = none

  points : Items F → Option (List (F × F))
  unfolding coordinates
  points nil = some []
  points (item v rest) =
      let others = points rest in coordinates v >>= (λ p. others >>= (λ ps. some (p ∷ ps)))

  -- `raw_value.get("landmarks")`, where it is a list.
  unfoldable pub landmarks : HeadPoseGazeResult F → Option (List (F × F))
  unfolding lookup points
  landmarks result = elim (lookup "landmarks" result.raw_value) [
    | some (arr items) ↦ points items
    | _ ↦ none
  ]

module _ {F : Type 0} ⦃ops : FloatOps F⦄ where
  unfoldable pub least : F → List F → F
  least best [] = best
  least best (x ∷ xs) = least (min_f best x) xs

  unfoldable pub greatest : F → List F → F
  greatest best [] = best
  greatest best (x ∷ xs) = greatest (max_f best x) xs

  -- The clipped ends of an axis in pixels: `max(0.0, min(xs))` and `min(1.0, max(xs))`.
  unfoldable pub ends : PixelOps F → ℕ → F → List F → ℤ × ℤ
  unfolding least greatest
  ends pixels size x xs = (
    pixels.to_pixel (max_f ops.zero_f (least x xs)) size,
    pixels.to_pixel (min_f ops.one_f (greatest x xs)) size,
  )

  unfoldable pub axis : PixelOps F → ℕ → List F → Option (ℕ × ℕ)
  unfolding ends span
  axis pixels size [] = none
  axis pixels size (x ∷ xs) =
      let (a, b) = ends pixels size x xs in span pixels.thirty_percent size a b

  -- The box, or none without landmarks or when an axis has no extent.
  unfoldable pub extract_face_bbox_pixel_coords :
      PixelOps F → ℕ → ℕ → HeadPoseGazeResult F → Option Box
  unfolding landmarks axis
  extract_face_bbox_pixel_coords pixels width height result = do
    ps ← landmarks result
    xs ← axis pixels width (map (λ p. p.0) ps)
    ys ← axis pixels height (map (λ p. p.1) ps)
    some (record { x1 = xs.0; y1 = ys.0; x2 = xs.1; y2 = ys.1 })
