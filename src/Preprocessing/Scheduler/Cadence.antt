-- ===== src/Preprocessing/Scheduler/Cadence.antt =====
-- How often a modality runs.
use native.Mathlib.Nat.{mod-lt, zero-mod}
use ai_proctor_engine.Base.{
  ℕ, zero, suc, ◌+◌, ◌-◌, ◌*◌, ◌%◌, ◌<◌, ◌≤◌, ◌≡◌, ◌==◌, any, not, if◌then◌else◌, arith, ok,
  next_remainder,
}
use ai_proctor_engine.Preprocessing.Scheduler.{
  InferenceModality, head_pose_gaze, object_detection, identity_match, liveness, ModalityScheduler,
  make_scheduler, period_for, decide_for_frame, modalities_to_run, modalities_to_skip, should_run,
  code,
}

-- The constructor lets only positive periods through.
make_scheduler-positive :
    (a b c d : ℕ) (s : ModalityScheduler) (modality : InferenceModality)
    → make_scheduler a b c d ≡ ok s
    → 0 < period_for s modality
unfolding make_scheduler period_for
make_scheduler-positive a b c d s head_pose_gaze h = ground arith
make_scheduler-positive a b c d s object_detection h = ground arith
make_scheduler-positive a b c d s identity_match h = ground arith
make_scheduler-positive a b c d s liveness h = ground arith

more_runs : (c p : ℕ) → (c + 1) * p ≡ c * p + p
more_runs c p = omega arith

module _ (s : ModalityScheduler) (modality : InferenceModality) where
  -- How many of the first frames of a session run the modality.
  unfoldable pub runs_in : ℕ → ℕ
  runs_in zero = 0
  runs_in (suc n) = if should_run (decide_for_frame s n) modality then runs_in n + 1 else runs_in n

  -- On every frame a modality is in exactly one of the two lists of the decision, in that of the
  -- modules to run exactly when its period divides the frame's number, and `should_run` says so.
  pub should_run-lists :
      (n : ℕ)
      → let decision = decide_for_frame s n in
        let due = n % period_for s modality == 0 in
        (should_run decision modality ≡ due)
        × (any (λ m. code m == code modality) (modalities_to_run decision) ≡ due)
        × (any (λ m. code m == code modality) (modalities_to_skip decision) ≡ not due)
  unfolding should_run decide_for_frame modalities_to_run modalities_to_skip period_for code
  should_run-lists n = elim modality [
    | head_pose_gaze ↦ ground arith
    | object_detection ↦ ground arith
    | identity_match ↦ ground arith
    | liveness ↦ ground arith
  ]

  -- What is left to the next run.
  due_in : ℕ → ℕ → ℕ
  due_in period r = if r == 0 then 0 else period - r

  runs_in-exact :
      0 < period_for s modality
      → (n : ℕ)
      → runs_in n * period_for s modality
        ≡ n + due_in (period_for s modality) (n % period_for s modality)
  unfolding runs_in due_in
  runs_in-exact pos zero = rw (zero-mod (period_for s modality)) (omega arith)
  runs_in-exact pos (suc n) = ground (
    arith,
    runs_in-exact pos n,
    next_remainder n (period_for s modality) pos,
    mod-lt n pos,
    (should_run-lists n).0,
    more_runs (runs_in n) (period_for s modality),
  )

  -- A modality with a positive period runs at its rate from the first frame on: over the first
  -- `frames` heavy frames, its runs times its period is `frames` rounded up to a multiple.
  pub runs_in-rate :
      0 < period_for s modality
      → (frames : ℕ)
      → (frames ≤ runs_in frames * period_for s modality)
        × (runs_in frames * period_for s modality < frames + period_for s modality)
  unfolding due_in
  runs_in-rate pos frames = ground (arith, runs_in-exact pos frames, mod-lt frames pos)
