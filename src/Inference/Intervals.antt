-- ===== src/Inference/Intervals.antt =====
-- The construction of single-frame intervals and of results (proctoring_engine/inference).
use ai_proctor_engine.Base.{◌≡◌, true, Outcome, ok, arith}
use ai_proctor_engine.Floats.{FloatOps, FloatLaws, clamp, clamp-InUnit}
use ai_proctor_engine.Inference.{ConfidenceInterval, make_interval, InUnit, in_unit}

module _ {F : Type 0} ⦃ops : FloatOps F⦄ where
  -- `ConfidenceInterval(lower=score, score=score, upper=score)`
  unfoldable pub point : F → Outcome (ConfidenceInterval F)
  point score = make_interval score score score

  abbrev pub point_of : F → ConfidenceInterval F
  point_of score = record { lower = score; score = score; upper = score }

  module _ (laws : FloatLaws ops) where
    -- A score in the unit interval makes an interval.
    pub point-ok :
        (score : F)
        → ops.le ops.zero_f score ≡ true
        → ops.le score ops.one_f ≡ true
        → point score ≡ ok (point_of score)
    unfolding point make_interval in_unit
    point-ok score low high =
        ground (arith, low, high, laws.not_lt_of_le score score (laws.le_refl score))

    pub point-InUnit :
        (score : F)
        → ops.le ops.zero_f score ≡ true
        → ops.le score ops.one_f ≡ true
        → InUnit (point_of score)
    point-InUnit score low high = record {
      low = low;
      left = laws.le_refl score;
      right = laws.le_refl score;
      high = high;
    }

    pub point-clamp : (v : F) → point (clamp v) ≡ ok (point_of (clamp v))
    point-clamp v = let (low, high) = clamp-InUnit laws v in point-ok (clamp v) low high
