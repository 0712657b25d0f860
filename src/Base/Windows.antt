-- ===== src/Base/Windows.antt =====
-- The last entries of a history, and the run of entries at its end that pass a test.
use Prim.Native.Nat.{ℕ, zero, suc, ◌+◌, ◌-◌, ◌≤◌, ◌<◌, min}
use mathlib.Core.Path.{◌≡◌, refl, ap, ap₂, sym, ◌∙◌}
use mathlib.Core.Bool.{Bool, true, false, not}
use mathlib.Core.Logic.{inl, inr}
use mathlib.Core.List.{List, [], ◌∷◌, ◌++◌}
use native.Mathlib.Omega.{arith}
use ai_proctor_engine.Base.Tests.{if◌then◌else◌, ltb, ltb→lt, Bool-cases}
use ai_proctor_engine.Base.Lists.{All, length, drop, any, length-append, length-drop}

module _ {ℓ} {A : Type ℓ} where
  -- The last `n` entries, or all where there are fewer.
  unfoldable pub last_n : ℕ → List A → List A
  last_n n xs = drop (length xs - n) xs

  drop-nil : (n : ℕ) → (let none_left : List A = [] in drop n none_left ≡ [])
  drop-nil zero = refl
  drop-nil (suc n) = refl

  pub last_n-nil : (n : ℕ) → (let none_left : List A = [] in last_n n none_left ≡ [])
  unfolding last_n
  last_n-nil n = drop-nil (0 - n)

  pub length-last_n : (n : ℕ) (xs : List A) → length (last_n n xs) ≡ min n (length xs)
  unfolding last_n
  length-last_n n xs = omega (arith, length-drop (length xs - n) xs)

  drop-append_le :
      (n : ℕ) (xs : List A) (x : A)
      → n ≤ length xs
      → drop n (xs ++ (x ∷ [])) ≡ drop n xs ++ (x ∷ [])
  drop-append_le zero xs x h = refl
  drop-append_le (suc n) [] x h = absurd (omega arith)
  drop-append_le (suc n) (y ∷ xs) x h = drop-append_le n xs x (omega arith)

  drop_one-drop : (n : ℕ) (xs : List A) → drop 1 (drop n xs) ≡ drop (suc n) xs
  drop_one-drop zero xs = refl
  drop_one-drop (suc n) [] = refl
  drop_one-drop (suc n) (x ∷ xs) = drop_one-drop n xs

  window_length :
      (n : ℕ) (xs : List A) (x : A) → length (last_n n xs ++ (x ∷ [])) ≡ min n (length xs) + 1
  window_length n xs x = omega (arith, length-append (last_n n xs) (x ∷ []), length-last_n n xs)

  window_long :
      (n : ℕ) (xs : List A) (x : A)
      → ltb n (length xs + 1) ≡ true
      → ltb n (length (last_n n xs ++ (x ∷ []))) ≡ true
  window_long n xs x h = rw window_length (ground arith)

  window_short :
      (n : ℕ) (xs : List A) (x : A)
      → ltb n (length xs + 1) ≡ false
      → ltb n (length (last_n n xs ++ (x ∷ []))) ≡ false
  window_short n xs x h = rw window_length (ground arith)

  grows :
      (n : ℕ) (xs : List A) (x : A)
      → ltb n (length xs + 1) ≡ true
      → last_n n (xs ++ (x ∷ [])) ≡ drop 1 (last_n n xs ++ (x ∷ []))
  unfolding last_n
  grows n xs x h =
      let k = length xs - n in
      ap (λ m. drop m (xs ++ (x ∷ []))) (more n xs x h)
      ∙ sym (drop_one-drop k (xs ++ (x ∷ [])))
      ∙ ap (drop 1) (drop-append_le k xs x (omega arith))
    where
      more :
          (n : ℕ) (xs : List A) (x : A)
          → ltb n (length xs + 1) ≡ true
          → length (xs ++ (x ∷ [])) - n ≡ suc (length xs - n)
      more n xs x h = omega (arith, length-append xs (x ∷ []), ltb→lt n (length xs + 1) h)

  stays :
      (n : ℕ) (xs : List A) (x : A)
      → ltb n (length xs + 1) ≡ false
      → last_n n (xs ++ (x ∷ [])) ≡ last_n n xs ++ (x ∷ [])
  unfolding last_n
  stays n xs x h =
      ap (λ m. drop m (xs ++ (x ∷ []))) (none_to_drop n xs x h)
      ∙ drop-append_le (length xs - n) xs x (omega arith)
    where
      none_to_drop :
          (n : ℕ) (xs : List A) (x : A)
          → ltb n (length xs + 1) ≡ false
          → length (xs ++ (x ∷ [])) - n ≡ length xs - n
      none_to_drop n xs x h = grind (arith, length-append xs (x ∷ []))

  -- Appending to the window and dropping the oldest when it is too long keeps it the last entries.
  pub last_n-append :
      (n : ℕ) (xs : List A) (x : A)
      → last_n n (xs ++ (x ∷ []))
        ≡ (let ys = last_n n xs ++ (x ∷ []) in if ltb n (length ys) then drop 1 ys else ys)
  last_n-append n xs x = elim (Bool-cases (ltb n (length xs + 1))) [
    | inl full ↦ rw (grows n xs x full, window_long n xs x full)
    | inr short ↦ rw (stays n xs x short, window_short n xs x short)
  ]

  -- One more entry at the end of the last `n`.
  pub last_n-append_suc :
      (n : ℕ) (xs : List A) (x : A) → last_n (suc n) (xs ++ (x ∷ [])) ≡ last_n n xs ++ (x ∷ [])
  unfolding last_n
  last_n-append_suc n xs x =
      ap (λ m. drop m (xs ++ (x ∷ []))) shift ∙ drop-append_le (length xs - n) xs x (omega arith)
    where
      shift : length (xs ++ (x ∷ [])) - suc n ≡ length xs - n
      shift = omega (arith, length-append xs (x ∷ []))

  drop_all : (xs : List A) → drop (length xs) xs ≡ []
  drop_all [] = refl
  drop_all (x ∷ xs) = drop_all xs

  pub last_n-zero : (xs : List A) → last_n 0 xs ≡ []
  unfolding last_n
  last_n-zero xs = ap (λ m. drop m xs) (omega arith) ∙ drop_all xs

  All-drop {κ} : (P : A → Type κ) (n : ℕ) (xs : List A) → All P xs → All P (drop n xs)
  All-drop P zero xs h = h
  All-drop P (suc n) [] h = h
  All-drop P (suc n) (x ∷ xs) h = All-drop P n xs h.1

  pub All-last_n {κ} : (P : A → Type κ) (n : ℕ) (xs : List A) → All P xs → All P (last_n n xs)
  unfolding last_n
  All-last_n P n xs h = All-drop P (length xs - n) xs h

module _ {ℓ} {A : Type ℓ} (p : A → Bool) where
  -- How many entries at the end pass the test, when `acc` did before.
  abbrev run_from : ℕ → List A → ℕ
  run_from acc [] = acc
  run_from acc (x ∷ xs) = run_from (if p x then suc acc else 0) xs

  unfoldable pub tail_run : List A → ℕ
  tail_run xs = run_from 0 xs

  run_from-append :
      (acc : ℕ) (xs : List A) (x : A)
      → run_from acc (xs ++ (x ∷ [])) ≡ (if p x then suc (run_from acc xs) else 0)
  run_from-append acc [] x = refl
  run_from-append acc (y ∷ xs) x = run_from-append (if p y then suc acc else 0) xs x

  pub tail_run-append :
      (xs : List A) (x : A) → tail_run (xs ++ (x ∷ [])) ≡ (if p x then suc (tail_run xs) else 0)
  unfolding tail_run
  tail_run-append xs x = run_from-append 0 xs x

  run_from-le : (acc : ℕ) (xs : List A) → run_from acc xs ≤ acc + length xs
  run_from-le acc [] = omega arith
  run_from-le acc (x ∷ xs) = ground (arith, run_from-le (suc acc) xs, run_from-le 0 xs)

  -- A start only counts when every entry passes.
  run_from-zero :
      (acc : ℕ) (xs : List A)
      → run_from acc xs ≡ (if any (λ x. not (p x)) xs then run_from 0 xs else acc + length xs)
  run_from-zero acc [] = omega arith
  run_from-zero acc (x ∷ xs) = ground (arith, run_from-zero (suc acc) xs, run_from-zero 1 xs)

  any-run_from : (xs : List A) → any (λ x. not (p x)) xs ≡ true → run_from 0 xs < length xs
  any-run_from [] h = cc
  any-run_from (x ∷ xs) h = ground (arith, run_from-zero 1 xs, run_from-le 0 xs, any-run_from xs)

  -- No entry fails exactly when the run is as long as the list.
  pub any-tail_run : (xs : List A) → any (λ x. not (p x)) xs ≡ ltb (tail_run xs) (length xs)
  unfolding tail_run
  any-tail_run xs = ground (arith, run_from-zero 0 xs, any-run_from xs)

  pub tail_run-le : (xs : List A) → tail_run xs ≤ length xs
  unfolding tail_run
  tail_run-le xs = omega (arith, run_from-le 0 xs)

  run_from-drop :
      (n acc : ℕ) (xs : List A) → run_from 0 (drop n xs) ≡ min (run_from acc xs) (length xs - n)
  run_from-drop zero acc xs =
      ground (arith, run_from-zero acc xs, run_from-zero 0 xs, run_from-le 0 xs)
  run_from-drop (suc n) acc [] = omega arith
  run_from-drop (suc n) acc (x ∷ xs) =
      omega (arith, run_from-drop n (if p x then suc acc else 0) xs)

  -- The run at the end of a window is the history's, cut to the window.
  pub tail_run-last_n : (n : ℕ) (xs : List A) → tail_run (last_n n xs) ≡ min n (tail_run xs)
  unfolding tail_run last_n
  tail_run-last_n n xs = omega (arith, run_from-drop (length xs - n) 0 xs, run_from-le 0 xs)

any-not-not {ℓ} :
    {A : Type ℓ} (q : A → Bool) (xs : List A) → any (λ x. not (not (q x))) xs ≡ any q xs
any-not-not q [] = refl
any-not-not q (x ∷ xs) = ground (arith, any-not-not q xs)

-- Some entry of a window passes exactly when the run of failing entries is shorter than it.
pub any-last_n {ℓ} :
    {A : Type ℓ} (q : A → Bool) (n : ℕ) (xs : List A)
    → any q (last_n n xs) ≡ ltb (min n (tail_run (λ x. not (q x)) xs)) (min n (length xs))
any-last_n {A} q n xs =
    let p : A → Bool = λ x. not (q x) in
    sym (any-not-not q (last_n n xs))
    ∙ any-tail_run p (last_n n xs)
    ∙ ap₂ ltb (tail_run-last_n p n xs) (length-last_n n xs)
