-- ===== src/Fusion/Exemptions/Matching.antt =====
-- Which exemption `find_matching_exemption` returns.
use ai_proctor_engine.Base.{
  ℕ, String, eq_iff, ◌≤◌, ◌<◌, ◌≡◌, refl, ap, ◌⊎◌, inl, inr, Option, none, some, List, [], ◌∷◌,
  ◌++◌, All, arith,
}
use ai_proctor_engine.Fusion.Types.{ExemptionRecord}
use ai_proctor_engine.Fusion.Exemptions.{find_matching_exemption}

-- The instant lies before the expiry, where there is one.
abbrev pub Unexpired : ℕ → Option ℕ → Type 0
Unexpired now none = Unit
Unexpired now (some at) = now < at

module _ (participant_id : ℕ) (object_class exam_reference : String) (now : ℕ) where
  pub record Applies (ex : ExemptionRecord) : Type 0 where
    pub participant : ex.participant_id ≡ participant_id
    pub object : ex.object_class ≡ object_class
    pub exam : ex.exam_reference ≡ exam_reference
    pub started : ex.effective_at ≤ now
    pub unexpired : Unexpired now ex.expires_at

  abbrev pub FirstOf : List ExemptionRecord → Option ExemptionRecord → Type 0
  FirstOf exs none = All (λ ex. ¬ Applies ex) exs
  FirstOf exs (some ex) =
      (before : List ExemptionRecord) × (after : List ExemptionRecord) × (exs
        ≡ before ++ ex ∷ after)
      × Applies ex
      × All (λ e. ¬ Applies e) before

  Applies-or_skips :
      (ex : ExemptionRecord) (rest : List ExemptionRecord)
      → (Applies ex
          × (find_matching_exemption participant_id object_class exam_reference now (ex ∷ rest)
              ≡ some ex))
        ⊎ ((¬ Applies ex)
            × (find_matching_exemption participant_id object_class exam_reference now (ex ∷ rest)
                ≡ find_matching_exemption participant_id object_class exam_reference now rest))
  unfolding find_matching_exemption
  Applies-or_skips ex rest =
      ground (arith, eq_iff ex.object_class object_class, eq_iff ex.exam_reference exam_reference)

  -- The search returns the first record that applies, and nothing exactly when none does.
  pub find_matching_exemption-FirstOf :
      (exs : List ExemptionRecord)
      → FirstOf exs (find_matching_exemption participant_id object_class exam_reference now exs)
  unfolding find_matching_exemption
  find_matching_exemption-FirstOf [] = tt
  find_matching_exemption-FirstOf (ex ∷ rest) =
      let tail = find_matching_exemption-FirstOf rest in
      elim (Applies-or_skips ex rest) [
        | inl (here, e) ↦ rw e ([], rest, refl, here, tt)
        | inr (skip, e) ↦ rw e (
            later (find_matching_exemption participant_id object_class exam_reference now rest) skip
              tail)
      ]
    where
      later : (r : Option ExemptionRecord) → ¬ Applies ex → FirstOf rest r → FirstOf (ex ∷ rest) r
      later none skip h = (skip, h)
      later (some x) skip (before, after, e, a, none_before) =
          (ex ∷ before, after, ap (◌∷◌ ex) e, a, (skip, none_before))
