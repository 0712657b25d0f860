-- ===== src/Preprocessing/Scheduler.antt =====
-- The cadence of the heavy-frame inference modules (preprocessing/scheduler.py).
pub mod Cadence
use ai_proctor_engine.Base.{
  ℕ, Bool, true, false, ◌≡◌, List, [], ◌∷◌, map, keep, any, not, ◌%◌, ◌==◌, if◌then◌else◌, Outcome,
  ok, raised, value_error,
}

pub data InferenceModality : Type 0 where
  head_pose_gaze object_detection identity_match liveness : InferenceModality

pub data ScheduleDecision : Type 0 where
  run skip : ScheduleDecision

-- The `reason` is text for the log.
pub record ModalityDecision : Type 0 where
  pub modality : InferenceModality
  pub decision : ScheduleDecision

pub record InferenceDecision : Type 0 where
  pub frame_seq : ℕ
  pub decisions : List ModalityDecision

pub record ModalityScheduler : Type 0 where
  pub head_pose_period : ℕ
  pub object_detection_period : ℕ
  pub identity_match_period : ℕ
  pub liveness_period : ℕ

-- A period that is not positive is refused, and on ℕ that is zero.
unfoldable pub make_scheduler : ℕ → ℕ → ℕ → ℕ → Outcome ModalityScheduler
make_scheduler head_pose objects identity live =
    if head_pose == 0
    then raised value_error
    else if objects == 0
    then raised value_error
    else if identity == 0
    then raised value_error
    else if live == 0
    then raised value_error
    else ok (record {
      head_pose_period = head_pose;
      object_detection_period = objects;
      identity_match_period = identity;
      liveness_period = live;
    })

unfoldable pub period_for : ModalityScheduler → InferenceModality → ℕ
period_for s head_pose_gaze = s.head_pose_period
period_for s object_detection = s.object_detection_period
period_for s identity_match = s.identity_match_period
period_for s liveness = s.liveness_period

abbrev pub modalities : List InferenceModality
modalities = head_pose_gaze ∷ object_detection ∷ identity_match ∷ liveness ∷ []

decide : ModalityScheduler → ℕ → InferenceModality → ModalityDecision
decide s frame_seq modality = record {
  modality = modality;
  decision = if frame_seq % period_for s modality == 0 then run else skip;
}

-- `decide_for_frame`: a sequence number on ℕ is never negative.
unfoldable pub decide_for_frame : ModalityScheduler → ℕ → InferenceDecision
unfolding decide
decide_for_frame s frame_seq = record {
  frame_seq = frame_seq;
  decisions = map (decide s frame_seq) modalities;
}

is_run : ScheduleDecision → Bool
is_run run = true
is_run skip = false

unfoldable pub code : InferenceModality → ℕ
code head_pose_gaze = 0
code object_detection = 1
code identity_match = 2
code liveness = 3

unfoldable pub modalities_to_run : InferenceDecision → List InferenceModality
unfolding is_run
modalities_to_run d = map (λ m. m.modality) (keep (λ m. is_run m.decision) d.decisions)

unfoldable pub modalities_to_skip : InferenceDecision → List InferenceModality
unfolding is_run
modalities_to_skip d = map (λ m. m.modality) (keep (λ m. not (is_run m.decision)) d.decisions)

-- The first decision for the modality.
decision_for : InferenceModality → List ModalityDecision → Bool
unfolding code is_run
decision_for modality [] = false
decision_for modality (d ∷ rest) =
    if code d.modality == code modality then is_run d.decision else decision_for modality rest

unfoldable pub should_run : InferenceDecision → InferenceModality → Bool
unfolding decision_for
should_run d modality = decision_for modality d.decisions
