-- ===== src/Orchestration/FrameDispatcher/FaceBox/Bounds.antt =====
-- The bounds of the box of a face (`_extract_face_bbox_pixel_coords`).
use ai_proctor_engine.Base.{
  ℕ, ◌≤◌, ◌<◌, ◌≡◌, some, List, [], ◌∷◌, map, Option-cases, inl, inr, arith,
}
use ai_proctor_engine.Floats.{FloatOps}
use ai_proctor_engine.Inference.{HeadPoseGazeResult}
use ai_proctor_engine.Orchestration.FrameDispatcher.FaceBox.{
  ℤ, pos, negsuc, PixelOps, plus, minus_floor, pad, above, span, Box, landmarks, axis, ends,
  extract_face_bbox_pixel_coords,
}

-- The ends of an interval of pixels in a frame's axis.
abbrev pub Inside : ℕ → ℕ → ℕ → Type 0
Inside size low high = (low < high) × (high ≤ size)

above-Inside :
    (low size : ℕ) (b : ℤ) (high : ℕ) → above low size b ≡ some high → Inside size low high
unfolding above
above-Inside low size (negsuc b) high h = ground (arith, h)
above-Inside low size (pos b) high h = ground (arith, h)

span-Inside :
    (thirty : ℕ → ℕ) (size : ℕ) (a b : ℤ) (s : ℕ × ℕ)
    → span thirty size a b ≡ some s
    → Inside size s.0 s.1
unfolding span
span-Inside thirty size a b s h =
    let p = pad thirty a b in
    let low = minus_floor a p in
    elim (Option-cases (above low size (plus b p))) [
      | inl e ↦ ground (arith, h, e)
      | inr (high, e) ↦ ground (arith, h, e, above-Inside low size (plus b p) high e)
    ]

module _ {F : Type 0} ⦃ops : FloatOps F⦄ (pixels : PixelOps F) where
  axis-Inside :
      (size : ℕ) (xs : List F) (s : ℕ × ℕ) → axis pixels size xs ≡ some s → Inside size s.0 s.1
  unfolding axis
  axis-Inside size [] s h = ground (arith, h)
  axis-Inside size (x ∷ xs) s h =
      let (a, b) = ends pixels size x xs in span-Inside pixels.thirty_percent size a b s h

  -- A box that is found is not empty and lies in the frame, whatever the landmarks are.
  pub extract_face_bbox_pixel_coords-Inside :
      (width height : ℕ) (result : HeadPoseGazeResult F) (box : Box)
      → extract_face_bbox_pixel_coords pixels width height result ≡ some box
      → Inside width box.x1 box.x2 × Inside height box.y1 box.y2
  unfolding extract_face_bbox_pixel_coords
  extract_face_bbox_pixel_coords-Inside width height result box h =
      elim (Option-cases (landmarks result)) [
        | inl e ↦ ground (arith, h, e)
        | inr (ps, e) ↦ elim (Option-cases (axis pixels width (map (λ p. p.0) ps))) [
          | inl e1 ↦ ground (arith, h, e, e1)
          | inr (xs, e1) ↦ elim (Option-cases (axis pixels height (map (λ p. p.1) ps))) [
            | inl e2 ↦ ground (arith, h, e, e1, e2)
            | inr (ys, e2) ↦
                ground (arith, h, e, e1, e2, axis-Inside width _ xs e1, axis-Inside height _ ys e2)
          ]
        ]
      ]
