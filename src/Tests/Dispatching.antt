-- ===== src/Tests/Dispatching.antt =====
-- The dispatcher of a session on concrete messages.
use ai_proctor_engine.Base.{
  ℕ, ◌+◌, ◌*◌, ◌/◌, ◌≤◌, ◌≡◌, refl, false, some, none, List, [], ◌∷◌, ok, raised, value_error,
  arith,
}
use ai_proctor_engine.Tests.{thousandths, policy, context, result}
use ai_proctor_engine.Inference.{end, item, nil, field, float, arr, HeadPoseGazeResult}
use ai_proctor_engine.Fusion.Aggregator.{init}
use ai_proctor_engine.Fusion.Session.{Call}
use ai_proctor_engine.Websocket.Messages.{ClientMessage, light, heavy_frame}
use ai_proctor_engine.Websocket.EventBuffer.{BufferedEvent, TelemetryEventBuffer, push, drain}
use ai_proctor_engine.Orchestration.FrameDispatcher.{FrameDispatcherConfig, FrameDispatcher, World}
use ai_proctor_engine.Orchestration.FrameDispatcher.FaceBox.{
  PixelOps, pos, Box, extract_face_bbox_pixel_coords, landmarks, axis, ends, span, plus,
  minus_floor, pad, above, least, greatest,
}
use ai_proctor_engine.Orchestration.FrameDispatcher.FaceBox.Bounds.{
  Inside, extract_face_bbox_pixel_coords-Inside,
}
use ai_proctor_engine.Orchestration.FrameDispatcher.Loop.{start_dispatcher, run_batch}
use ai_proctor_engine.Orchestration.FrameDispatcher.Loop.Sessions.{About, Served, run_batch-Served}
use ai_proctor_engine.Orchestration.FrameDispatcher.Loop.Handover.{held, minted, run_batch-held}
use ai_proctor_engine.Orchestration.FrameDispatcher.Loop.Interleavings.{
  Action, pushed, polled, never, arrivals, run_system, run_system-in_order,
}
use ai_proctor_engine.Orchestration.FrameDispatcher.Loop.Spoofing.{blind, run_batch-blind}

abbrev config : FrameDispatcherConfig ℕ
config = record {
  policy_snapshot = policy;
  context = context;
  scheduler = record {
    head_pose_period = 1;
    object_detection_period = 1;
    identity_match_period = 5;
    liveness_period = 5;
  };
  enrollment_embedding = none;
  identity_backend_unavailable = false;
}

abbrev pixels : PixelOps ℕ
pixels = record { to_pixel = λ v n. pos (v * n / 1000); thirty_percent = λ n. n * 3 / 10 }

abbrev face_landmarks : HeadPoseGazeResult ℕ
face_landmarks = record {
  base = record result {
    raw_value =
        field "landmarks"
          (arr (
            item (arr (item (float 200) (item (float 300) nil)))
              (item (arr (item (float 400) (item (float 700) nil))) nil)))
          end;
  };
  off_screen = some false;
  yaw = 0;
  pitch = 0;
  roll = 0;
  ear = 0;
  iris_offset = 0;
}

abbrev box : Box
box = record { x1 = 90; y1 = 87; x2 = 294; y2 = 393 }

extract_face_bbox_pixel_coords-Inside_example : Inside 640 90 294 × Inside 480 87 393
unfolding extract_face_bbox_pixel_coords landmarks axis ends span plus minus_floor pad above least
    greatest
extract_face_bbox_pixel_coords-Inside_example =
    extract_face_bbox_pixel_coords-Inside pixels 640 480 face_landmarks box refl

-- Every event has its sequence number plus 100 as its UUID; the module for objects cannot be
-- constructed, and the one for liveness takes every face for a spoof.
abbrev world : ℕ → World ℕ ℕ
world seq = record {
  telemetry_event_id = seq + 100;
  now = λ n. n;
  pixels = pixels;
  decode_frame =
      λ p. some (record { array = 0; width = 640; height = 480; channels = 3; encoding = "jpeg" });
  face_landmarker = ok (λ frame. ok face_landmarks);
  object_detector = raised value_error;
  crop_rgb = λ image box. image;
  identity_runner = λ image enrolled threshold. raised value_error;
  liveness_runner = some (λ image box threshold. ok (record { base = result; is_real = false }));
  hear = λ chunk. raised value_error;
}

abbrev faces : ℕ → ClientMessage ℕ
faces n = record {
  session_id = "exam";
  captured_at = 0;
  payload = light (record { face_count = n; confidence = 400; bbox = none });
}

abbrev camera : ClientMessage ℕ
camera = record {
  session_id = "exam";
  captured_at = 0;
  payload = heavy_frame (record { frame = "f"; resolution = 640 ∷ 480 ∷ []; encoding = "jpeg" });
}

abbrev event : ℕ → ClientMessage ℕ → BufferedEvent (ClientMessage ℕ)
event n m = record { message = m; received_at = n; seq = n }

abbrev events : List (BufferedEvent (ClientMessage ℕ))
events = event 0 (faces 2) ∷ event 1 camera ∷ event 2 (faces 2) ∷ []

abbrev idle : FrameDispatcher ℕ
idle = start_dispatcher init

run_batch-Served_example :
    (calls : List (Call ℕ)) × About config world events calls
    × Served config calls idle (run_batch config world never events idle)
run_batch-Served_example = run_batch-Served config world never events idle

once : (id : ℕ) → held id idle + minted config world id events ≤ 1
once id = ground arith

-- The first light message, which is kept or handed over with the flag.
run_batch-held_example :
    held 100 (run_batch config world never events idle)
    ≡ held 100 idle + minted config world 100 events
run_batch-held_example = run_batch-held config world events idle once 100

abbrev buffer : TelemetryEventBuffer (ClientMessage ℕ)
buffer = record { maxlen = 2; buf = []; next_seq = 0; dropped = 0 }

abbrev actions : List (Action ℕ)
actions = pushed (faces 2) 1 ∷ pushed camera 2 ∷ polled ∷ pushed (faces 2) 3 ∷ []

run_system-in_order_example :
    (run_system config world (polled ∷ []) (run_system config world actions (buffer, idle))).1
    ≡ run_batch config world never (arrivals 0 actions) idle
unfolding run_system push drain
run_system-in_order_example = run_system-in_order config world actions buffer idle refl

run_batch-blind_example :
    run_batch config world never events idle
    ≡ run_batch config (λ seq. blind config (world seq)) never events idle
run_batch-blind_example = run_batch-blind config world never events idle refl refl
