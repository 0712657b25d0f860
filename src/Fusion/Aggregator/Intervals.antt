-- ===== src/Fusion/Aggregator/Intervals.antt =====
-- The confidence interval over a window of scores, as `process_liveness` and
-- `process_identity_match` compute it.
pub mod Bounds
use ai_proctor_engine.Base.{List, [], ◌∷◌, length, if◌then◌else◌, Outcome, raised, zero_division}
use ai_proctor_engine.Floats.{FloatOps}
use ai_proctor_engine.Inference.{ConfidenceInterval, make_interval}

module _ {F : Type 0} ⦃ops : FloatOps F⦄ where
  -- Python's `min` and `max` keep the first of equal values.
  min_f : F → F → F
  min_f a b = if ops.lt b a then b else a

  max_f : F → F → F
  max_f a b = if ops.lt a b then b else a

  min_of : F → List F → F
  min_of m [] = m
  min_of m (x ∷ xs) = min_of (min_f m x) xs

  max_of : F → List F → F
  max_of m [] = m
  max_of m (x ∷ xs) = max_of (max_f m x) xs

  -- `sum(scores) / len(scores)` raises on an empty window.
  unfoldable pub window_interval : List F → Outcome (ConfidenceInterval F)
  unfolding min_of max_of min_f max_f
  window_interval [] = raised zero_division
  window_interval (x ∷ xs) =
      let mean_score = ops.over (ops.total (x ∷ xs)) (length (x ∷ xs)) in
      let min_score = min_of x xs in
      let max_score = max_of x xs in
      let clamped_mean = max_f min_score (min_f max_score mean_score) in
      make_interval min_score clamped_mean max_score
