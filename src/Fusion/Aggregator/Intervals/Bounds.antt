-- ===== src/Fusion/Aggregator/Intervals/Bounds.antt =====
-- The bounds of the confidence interval over a window of scores.
use ai_proctor_engine.Base.{◌≡◌, ◌<◌, true, List, [], ◌∷◌, length, All, ok, arith}
use ai_proctor_engine.Floats.{FloatOps, FloatLaws}
use ai_proctor_engine.Inference.{ConfidenceInterval, make_interval, InUnit, Between}
use ai_proctor_engine.Fusion.Aggregator.Intervals.{min_f, max_f, min_of, max_of, window_interval}

module _ {F : Type 0} ⦃ops : FloatOps F⦄ (laws : FloatLaws ops) where
  min_f-le : (a b : F) → (ops.le (min_f a b) a ≡ true) × (ops.le (min_f a b) b ≡ true)
  unfolding min_f
  min_f-le a b =
      ground (arith, laws.le_refl a, laws.le_refl b, laws.le_of_lt b a, laws.le_of_not_lt b a)

  le-max_f : (a b : F) → (ops.le a (max_f a b) ≡ true) × (ops.le b (max_f a b) ≡ true)
  unfolding max_f
  le-max_f a b =
      ground (arith, laws.le_refl a, laws.le_refl b, laws.le_of_lt a b, laws.le_of_not_lt a b)

  clamp-Between : (lo hi m : F) → ops.le lo hi ≡ true → Between lo hi (max_f lo (min_f hi m))
  unfolding max_f min_f
  clamp-Between lo hi m h = ground (
    arith,
    laws.le_refl lo,
    laws.le_refl hi,
    laws.le_of_lt m hi,
    laws.le_of_lt lo m,
    laws.le_of_not_lt lo m,
    laws.le_of_lt lo hi,
  )

  -- A lower bound of the first score and the rest, from one of their minimum.
  below :
      (a m : F) (xs : List F)
      → ops.le a (min_of m xs) ≡ true
      → (ops.le a m ≡ true) × All (λ s. ops.le a s ≡ true) xs
  unfolding min_of
  below a m [] h = (h, tt)
  below a m (x ∷ xs) h =
      let (first, rest) = below a (min_f m x) xs h in
      let (left, right) = min_f-le m x in
      (laws.le_trans a (min_f m x) m first left, (laws.le_trans a (min_f m x) x first right, rest))

  above :
      (b m : F) (xs : List F)
      → ops.le (max_of m xs) b ≡ true
      → (ops.le m b ≡ true) × All (λ s. ops.le s b ≡ true) xs
  unfolding max_of
  above b m [] h = (h, tt)
  above b m (x ∷ xs) h =
      let (first, rest) = above b (max_f m x) xs h in
      let (left, right) = le-max_f m x in
      (laws.le_trans m (max_f m x) b left first, (laws.le_trans x (max_f m x) b right first, rest))

  zip-Between :
      (lo hi : F) (xs : List F)
      → All (λ s. ops.le lo s ≡ true) xs
      → All (λ s. ops.le s hi ≡ true) xs
      → All (Between lo hi) xs
  zip-Between lo hi [] a b = tt
  zip-Between lo hi (x ∷ xs) a b = ((a.0, b.0), zip-Between lo hi xs a.1 b.1)

  -- Bounds of the scores bound their minimum and their maximum.
  min_of-Between :
      (lo hi m : F) (xs : List F)
      → Between lo hi m
      → All (Between lo hi) xs
      → Between lo hi (min_of m xs)
  unfolding min_of min_f
  min_of-Between lo hi m [] h hs = h
  min_of-Between lo hi m (x ∷ xs) h hs = min_of-Between lo hi (min_f m x) xs (ground arith) hs.1

  max_of-Between :
      (lo hi m : F) (xs : List F)
      → Between lo hi m
      → All (Between lo hi) xs
      → Between lo hi (max_of m xs)
  unfolding max_of max_f
  max_of-Between lo hi m [] h hs = h
  max_of-Between lo hi m (x ∷ xs) h hs = max_of-Between lo hi (max_f m x) xs (ground arith) hs.1

  make_interval-ok :
      (lower score upper : F)
      → ops.le ops.zero_f lower ≡ true
      → Between lower upper score
      → ops.le upper ops.one_f ≡ true
      → make_interval lower score upper
        ≡ ok (record { lower = lower; score = score; upper = upper })
  unfolding make_interval
  make_interval-ok lower score upper low h high = ground (
    arith,
    laws.not_lt_of_le score lower,
    laws.not_lt_of_le upper score,
    laws.le_trans ops.zero_f lower score,
    laws.le_trans ops.zero_f score upper,
    laws.le_trans lower score upper,
    laws.le_trans score upper ops.one_f,
    laws.le_trans lower upper ops.one_f,
  )

  -- On a window of one score or more that all lie in [0, 1], the computation raises nothing: its
  -- interval passes the constructor's checks, and every score of the window lies in it.
  pub window_interval_sound :
      (x : F) (xs : List F)
      → All (Between ops.zero_f ops.one_f) (x ∷ xs)
      → (c : ConfidenceInterval F) × (window_interval (x ∷ xs) ≡ ok c)
        × InUnit c
        × All (Between c.lower c.upper) (x ∷ xs)
  unfolding window_interval
  window_interval_sound x xs (h, hs) =
      let m = min_of x xs in
      let (lower, lowers) = below m x xs (laws.le_refl m) in
      let top = max_of x xs in
      let (upper, uppers) = above top x xs (laws.le_refl top) in
      let middle =
        clamp-Between m top (ops.over (ops.total (x ∷ xs)) (length (x ∷ xs)))
          (laws.le_trans m x top lower upper) in
      let low = (min_of-Between ops.zero_f ops.one_f x xs h hs).0 in
      let high = (max_of-Between ops.zero_f ops.one_f x xs h hs).1 in
      (
        _,
        make_interval-ok m _ top low middle high,
        record { low = low; left = middle.0; right = middle.1; high = high },
        ((lower, upper), zip-Between m top xs lowers uppers),
      )

  -- The same for a window that is known by its length.
  pub window_interval-ok :
      (xs : List F)
      → 0 < length xs
      → All (Between ops.zero_f ops.one_f) xs
      → (c : ConfidenceInterval F) × (window_interval xs ≡ ok c)
        × InUnit c
        × All (Between c.lower c.upper) xs
  window_interval-ok [] pos h = absurd (omega arith)
  window_interval-ok (x ∷ xs) pos h = window_interval_sound x xs h
