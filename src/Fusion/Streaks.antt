-- ===== src/Fusion/Streaks.antt =====
-- The plain search that the confirmation rules stand for: the first time that `k` frames in a row
-- pass a test. Each frame comes with the id of its telemetry event.
use native.Mathlib.Nat.{mod-lt, mod-le, zero-mod}
use ai_proctor_engine.Base.{
  ◌%◌, ◌==◌, next_remainder, ℕ, ◌≤◌, ◌<◌, ◌≡◌, Bool, List, [], ◌∷◌, ◌++◌, length, leb,
  if◌then◌else◌, All, arith, length-append, ltb, last_n, tail_run, tail_run-append, tail_run-le,
  last_n-append_suc, last_n-zero, length-last_n,
}

module _ {ℓ} {A : Type ℓ} (p : A → Bool) (k : ℕ) where
  -- The ids of the first streak of `k` frames, when the frames of `acc` passed before: one list, or
  -- none.
  unfoldable pub first_streak : List ℕ → List (A × ℕ) → List (List ℕ)
  first_streak acc [] = []
  first_streak acc ((a, id) ∷ rest) =
      let longer = acc ++ (id ∷ []) in
      let goes_on = first_streak longer rest in
      let broken = first_streak [] rest in
      if p a then if leb k (length longer) then longer ∷ [] else goes_on else broken

  pub first_streak-length :
      (acc : List ℕ) (frames : List (A × ℕ))
      → length acc < k
      → (length (first_streak acc frames) ≤ 1)
        × All (λ ids. length ids ≡ k) (first_streak acc frames)
  unfolding first_streak
  first_streak-length acc [] h = (omega arith, tt)
  first_streak-length acc ((a, id) ∷ rest) h = ground (
    arith,
    length-append acc (id ∷ []),
    first_streak-length (acc ++ (id ∷ [])) rest,
    first_streak-length [] rest,
  )

  -- The ids of every block of `k` passing frames in a row, block after block without overlap.
  unfoldable pub all_streaks : List ℕ → List (A × ℕ) → List (List ℕ)
  all_streaks acc [] = []
  all_streaks acc ((a, id) ∷ rest) =
      let longer = acc ++ (id ∷ []) in
      let confirmed = longer ∷ all_streaks [] rest in
      let goes_on = all_streaks longer rest in
      let broken = all_streaks [] rest in
      if p a then if leb k (length longer) then confirmed else goes_on else broken

  pub all_streaks-length :
      (acc : List ℕ) (frames : List (A × ℕ))
      → length acc < k
      → All (λ ids. length ids ≡ k) (all_streaks acc frames)
  unfolding all_streaks
  all_streaks-length acc [] h = tt
  all_streaks-length acc ((a, id) ∷ rest) h = ground (
    arith,
    length-append acc (id ∷ []),
    all_streaks-length (acc ++ (id ∷ [])) rest,
    all_streaks-length [] rest,
  )

  -- The search along a history: its memory is the run of passing frames at the history's end.
  pub first_streak-history :
      (xs : List A) (ids : List ℕ) (a : A) (id : ℕ) (rest : List (A × ℕ))
      → 0 < k
      → length xs ≡ length ids
      → first_streak (last_n (tail_run p xs) ids) ((a, id) ∷ rest) ≡ (
          let t = tail_run p (xs ++ (a ∷ [])) in
          let acc = last_n t (ids ++ (id ∷ [])) in
          if ltb t k then first_streak acc rest else acc ∷ [])
  unfolding first_streak
  first_streak-history xs ids a id rest pos paired = ground (
    arith,
    tail_run-append p xs a,
    tail_run-le p xs,
    last_n-append_suc (tail_run p xs) ids id,
    last_n-zero (ids ++ (id ∷ [])),
    length-append (last_n (tail_run p xs) ids) (id ∷ []),
    length-last_n (tail_run p xs) ids,
  )

  -- The same for the blocks: the memory is the run's remainder.
  pub all_streaks-history :
      (xs : List A) (ids : List ℕ) (a : A) (id : ℕ) (rest : List (A × ℕ))
      → 0 < k
      → length xs ≡ length ids
      → all_streaks (last_n (tail_run p xs % k) ids) ((a, id) ∷ rest) ≡ (
          let t = tail_run p (xs ++ (a ∷ [])) in
          let ids' = ids ++ (id ∷ []) in
          let on = all_streaks (last_n (t % k) ids') rest in
          if p a then if t % k == 0 then last_n k ids' ∷ on else on else on)
  unfolding all_streaks
  all_streaks-history xs ids a id rest pos paired = ground (
    arith,
    tail_run-append p xs a,
    tail_run-le p xs,
    next_remainder (tail_run p xs) k,
    mod-lt (tail_run p xs) pos,
    mod-le (tail_run p xs) k,
    last_n-append_suc (tail_run p xs % k) ids id,
    last_n-zero (ids ++ (id ∷ [])),
    length-append (last_n (tail_run p xs % k) ids) (id ∷ []),
    length-last_n (tail_run p xs % k) ids,
    zero-mod k,
  )
