-- ===== src/Inference/HeadPoseGaze.antt =====
-- The head-pose and gaze classifier (inference/head_pose_gaze.py). The landmark model, numpy, OpenCV
-- and the functions of `math` are arguments; a mesh of landmarks is read at the indices that the
-- source names, all of which a mesh of 478 points has.
use ai_proctor_engine.Base.{
  ℕ, Bool, true, ◌&&◌, ◌||◌, Option, none, some, List, [], ◌∷◌, map, if◌then◌else◌, Outcome, ok,
  ◌>>=◌,
}
use ai_proctor_engine.Floats.{FloatOps, FloatArith, min_f, max_f, clamp}
use ai_proctor_engine.Inference.{
  ConfidenceInterval, Items, nil, item, end, field, float, text, arr, HeadPoseGazeResult,
}
use ai_proctor_engine.Inference.Intervals.{point, point_of}

-- A point `(x, y, z)` of the mesh.
pub record Landmark (F : Type 0) : Type 0 where
  pub x : F
  pub y : F
  pub z : F

-- What a frame's face gives: its landmarks as a list, and the same by index.
pub record Mesh (F : Type 0) : Type 0 where
  pub points : List (Landmark F)
  pub at : ℕ → Landmark F

-- `np.linalg.norm` of a difference of two points, the functions of `math`, and OpenCV's pose: the
-- rotation matrix for image points, a focal length and a centre, if it was found.
pub record Geometry (F : Type 0) : Type 0 where
  pub norm : F → F → F
  pub sqrt : F → F
  pub atan2 : F → F → F
  pub degrees : F → F
  pub negated : F → F
  pub of_int : ℕ → F
  pub tiny : F
  pub hundredth : F
  pub solve_pnp : List (F × F) → F → F × F → Option (ℕ → ℕ → F)

-- The thresholds of a `FaceLandmarkerRunner`.
pub record FaceLandmarkerRunner (F : Type 0) : Type 0 where
  pub yaw_threshold : F
  pub high_yaw_bypass : F
  pub iris_threshold : F
  pub ear_threshold : F

-- The indices of an eye's contour: outer and inner corner, then two pairs of an upper and a lower.
pub record EyeIds : Type 0 where
  pub outer : ℕ
  pub inner : ℕ
  pub upper1 : ℕ
  pub lower1 : ℕ
  pub upper2 : ℕ
  pub lower2 : ℕ

abbrev pub left_eye_ids : EyeIds
left_eye_ids = record {
  outer = 33;
  inner = 133;
  upper1 = 160;
  lower1 = 144;
  upper2 = 158;
  lower2 = 153;
}

abbrev pub right_eye_ids : EyeIds
right_eye_ids = record {
  outer = 362;
  inner = 263;
  upper1 = 387;
  lower1 = 373;
  upper2 = 385;
  lower2 = 380;
}

abbrev pub left_iris_ids : List ℕ
left_iris_ids = 468 ∷ 469 ∷ 470 ∷ 471 ∷ []

abbrev pub right_iris_ids : List ℕ
right_iris_ids = 473 ∷ 474 ∷ 475 ∷ 476 ∷ []

abbrev pub solve_pnp_landmark_ids : List ℕ
solve_pnp_landmark_ids = 1 ∷ 152 ∷ 33 ∷ 263 ∷ 61 ∷ 291 ∷ []

module _ {F : Type 0} ⦃ops : FloatOps F⦄ (num : FloatArith F) (geo : Geometry F) where
  distance : Landmark F → Landmark F → F
  distance p q = geo.norm (num.sub p.x q.x) (num.sub p.y q.y)

  unfoldable pub compute_ear : Mesh F → EyeIds → F
  unfolding distance
  compute_ear mesh ids =
      let vertical_1 = distance (mesh.at ids.upper1) (mesh.at ids.lower1) in
      let vertical_2 = distance (mesh.at ids.upper2) (mesh.at ids.lower2) in
      let horizontal = distance (mesh.at ids.outer) (mesh.at ids.inner) in
      if num.same horizontal ops.zero_f
      then ops.zero_f
      else num.div (ops.add vertical_1 vertical_2) (num.mul (geo.of_int 2) horizontal)

  half : F → F → F
  half a b = num.div (ops.add a b) (geo.of_int 2)

  unfoldable pub compute_iris_offset : Mesh F → List ℕ → ℕ → ℕ → F
  unfolding distance half
  compute_iris_offset mesh iris_ids eye_outer_id eye_inner_id =
      let centroid_x = ops.over (ops.total (map (λ i. (mesh.at i).x) iris_ids)) 4 in
      let centroid_y = ops.over (ops.total (map (λ i. (mesh.at i).y) iris_ids)) 4 in
      let outer = mesh.at eye_outer_id in
      let inner = mesh.at eye_inner_id in
      let eye_width = distance outer inner in
      if num.same eye_width ops.zero_f
      then ops.zero_f
      else num.div
          (geo.norm (num.sub centroid_x (half outer.x inner.x))
            (num.sub centroid_y (half outer.y inner.y)))
          eye_width

  -- The Euler angles of a rotation matrix, as yaw, pitch and roll in degrees.
  euler : (ℕ → ℕ → F) → F × F × F
  euler r =
      let sy = geo.sqrt (ops.add (num.mul (r 0 0) (r 0 0)) (num.mul (r 1 0) (r 1 0))) in
      let yaw = geo.degrees (geo.atan2 (geo.negated (r 2 0)) sy) in
      let singular = ops.lt sy geo.tiny in
      (
        yaw,
        geo.degrees (
            if singular
            then geo.atan2 (geo.negated (r 1 2)) (r 1 1)
            else geo.atan2 (r 2 1) (r 2 2)),
        geo.degrees (if singular then ops.zero_f else geo.atan2 (r 1 0) (r 0 0)),
      )

  pose_of : Option (ℕ → ℕ → F) → F × F × F
  unfolding euler
  pose_of none = (ops.zero_f, ops.zero_f, ops.zero_f)
  pose_of (some rotation) = euler rotation

  in_pixels : Mesh F → ℕ → ℕ → ℕ → F × F
  in_pixels mesh width height i =
      (num.mul (mesh.at i).x (geo.of_int width), num.mul (mesh.at i).y (geo.of_int height))

  unfoldable pub compute_head_pose : Mesh F → ℕ → ℕ → F × F × F
  unfolding pose_of in_pixels
  compute_head_pose mesh width height =
      let focal_length = geo.of_int width in
      let centre : F × F =
        (num.div (geo.of_int width) (geo.of_int 2), num.div (geo.of_int height) (geo.of_int 2)) in
      pose_of (
        geo.solve_pnp (map (in_pixels mesh width height) solve_pnp_landmark_ids) focal_length
          centre)

  -- The signals of one face.
  pub record Signals : Type 0 where
    pub yaw : F
    pub pitch : F
    pub roll : F
    pub ear : F
    pub iris_offset : F

  unfoldable pub signals : Mesh F → ℕ → ℕ → Signals
  unfolding compute_head_pose compute_ear compute_iris_offset half
  signals mesh width height =
      let (yaw, pitch, roll) = compute_head_pose mesh width height in
      record {
        yaw = yaw;
        pitch = pitch;
        roll = roll;
        ear = half (compute_ear mesh left_eye_ids) (compute_ear mesh right_eye_ids);
        iris_offset =
            half (compute_iris_offset mesh left_iris_ids 33 133)
              (compute_iris_offset mesh right_iris_ids 362 263);
      }

  -- The classification: at extreme yaw the state of the eyes is not asked.
  unfoldable pub is_off_screen : FaceLandmarkerRunner F → Signals → Bool
  is_off_screen runner s =
      let eyes_open = ops.le runner.ear_threshold s.ear in
      let yaw_off = ops.lt runner.yaw_threshold (num.absolute s.yaw) in
      let iris_off = ops.lt runner.iris_threshold s.iris_offset in
      if ops.lt runner.high_yaw_bypass (num.absolute s.yaw)
      then true
      else eyes_open && (yaw_off || iris_off)

  unfoldable pub gaze_confidence : FaceLandmarkerRunner F → Signals → F
  unfolding is_off_screen
  gaze_confidence runner s =
      let yaw_ratio =
        min_f (num.div (num.absolute s.yaw) (max_f runner.yaw_threshold ops.one_f)) ops.one_f in
      let iris_ratio =
        min_f (num.div s.iris_offset (max_f runner.iris_threshold geo.hundredth)) ops.one_f in
      clamp
        (if is_off_screen runner s then max_f yaw_ratio iris_ratio else num.sub ops.one_f yaw_ratio)

  landmark_items : List (Landmark F) → Items F
  landmark_items [] = nil
  landmark_items (p ∷ ps) =
      item (arr (item (float p.x) (item (float p.y) (item (float p.z) nil)))) (landmark_items ps)

  unfoldable pub gaze_result :
      FaceLandmarkerRunner F → Mesh F → Signals → ConfidenceInterval F → HeadPoseGazeResult F
  unfolding is_off_screen landmark_items
  gaze_result runner mesh s confidence = record {
    base = record {
      modality = "gaze";
      event_type = if is_off_screen runner s then "off_screen" else "on_screen";
      confidence = confidence;
      bounding_boxes = [];
      raw_value = field "yaw" (float s.yaw) (
          field "pitch" (float s.pitch) (
            field "roll" (float s.roll) (
              field "ear" (float s.ear) (
                field "iris_offset" (float s.iris_offset) (
                  field "yaw_threshold" (float runner.yaw_threshold) (
                    field "iris_threshold" (float runner.iris_threshold) (
                      field "ear_threshold" (float runner.ear_threshold)
                        (field "landmarks" (arr (landmark_items mesh.points)) end))))))));
    };
    off_screen = some (is_off_screen runner s);
    yaw = s.yaw;
    pitch = s.pitch;
    roll = s.roll;
    ear = s.ear;
    iris_offset = s.iris_offset;
  }

  no_landmarks : HeadPoseGazeResult F
  no_landmarks = record {
    base = record {
      modality = "gaze";
      event_type = "no_landmarks";
      confidence = point_of ops.one_f;
      bounding_boxes = [];
      raw_value = field "reason" (text "no_landmarks") end;
    };
    off_screen = none;
    yaw = ops.zero_f;
    pitch = ops.zero_f;
    roll = ops.zero_f;
    ear = ops.zero_f;
    iris_offset = ops.zero_f;
  }

  landmarker_result :
      FaceLandmarkerRunner F → ℕ → ℕ → Option (Mesh F) → Outcome (HeadPoseGazeResult F)
  unfolding no_landmarks gaze_result gaze_confidence signals point
  landmarker_result runner width height none = point ops.one_f >>= (λ c. ok no_landmarks)
  landmarker_result runner width height (some mesh) =
      let s = signals mesh width height in
      point (gaze_confidence runner s) >>= (λ c. ok (gaze_result runner mesh s c))

  -- `FaceLandmarkerRunner.run` on a frame of a width and a height, where `detect` finds a face or none.
  unfoldable pub run_landmarker :
      {A : Type 0}
      → (A → Outcome (Option (Mesh F)))
      → FaceLandmarkerRunner F
      → A
      → ℕ
      → ℕ
      → Outcome (HeadPoseGazeResult F)
  unfolding landmarker_result
  run_landmarker detect runner frame width height =
      detect frame >>= landmarker_result runner width height
