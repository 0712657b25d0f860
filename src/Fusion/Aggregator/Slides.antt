-- ===== src/Fusion/Aggregator/Slides.antt =====
-- A window that `slide` keeps holds the last frames of its history.
use ai_proctor_engine.Base.{
  ℕ, ◌≡◌, List, [], ◌∷◌, ◌++◌, length, arith, length-append, last_n, last_n-append, length-last_n,
}
use ai_proctor_engine.Fusion.Aggregator.{slide}

module _ {ℓ} {A : Type ℓ} where
  same_length :
      (n : ℕ) (rs : List A) (ids : List ℕ) (r : A) (id : ℕ)
      → length rs ≡ length ids
      → length (last_n n rs ++ (r ∷ [])) ≡ length (last_n n ids ++ (id ∷ []))
  same_length n rs ids r id h = omega (
    arith,
    length-append (last_n n rs) (r ∷ []),
    length-append (last_n n ids) (id ∷ []),
    length-last_n n rs,
    length-last_n n ids,
  )

  pub slide-last_n :
      (n : ℕ) (rs : List A) (ids : List ℕ) (r : A) (id : ℕ)
      → length rs ≡ length ids
      → slide n (last_n n rs) (last_n n ids) r id
        ≡ (last_n n (rs ++ (r ∷ [])), last_n n (ids ++ (id ∷ [])))
  unfolding slide
  slide-last_n n rs ids r id h =
      ground (arith, last_n-append n rs r, last_n-append n ids id, same_length n rs ids r id)
