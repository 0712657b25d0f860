-- ===== src/Floats.antt =====
-- The floating-point numbers of the engine. Python's `float` is not built from the source, so it
-- is a type with the operations that the engine calls, and the laws that it relies on are named
-- apart: they are those of IEEE 754 for values that are no NaN.
use ai_proctor_engine.Base.{
  ℕ, ◌≡◌, Bool, true, false, List, if◌then◌else◌, Bool-cases, inl, inr, arith,
}

pub record FloatOps (F : Type 0) : Type 0 where
  pub zero_f : F
  pub one_f : F
  pub add : F → F → F
  pub lt : F → F → Bool
  pub le : F → F → Bool
  -- `sum` of a list (its rounding differs between versions of Python), and division by a count
  pub total : List F → F
  pub over : F → ℕ → F

-- The order is total, and adding a weight that is not negative never lowers a score.
pub record FloatLaws {F : Type 0} (ops : FloatOps F) : Type 0 where
  pub le_of_not_lt : (a b : F) → ops.lt a b ≡ false → ops.le b a ≡ true
  pub le_of_lt : (a b : F) → ops.lt a b ≡ true → ops.le a b ≡ true
  pub not_lt_of_le : (a b : F) → ops.le b a ≡ true → ops.lt a b ≡ false
  pub le_refl : (a : F) → ops.le a a ≡ true
  pub le_trans : (a b c : F) → ops.le a b ≡ true → ops.le b c ≡ true → ops.le a c ≡ true
  pub add_zero : (a : F) → ops.add a ops.zero_f ≡ a
  pub le-add : (a w : F) → ops.le ops.zero_f w ≡ true → ops.le a (ops.add a w) ≡ true
  pub zero-le-one : ops.le ops.zero_f ops.one_f ≡ true

-- What the inference modules compute with besides.
pub record FloatArith (F : Type 0) : Type 0 where
  pub sub : F → F → F
  pub mul : F → F → F
  pub div : F → F → F
  pub absolute : F → F
  -- `==`
  pub same : F → F → Bool
  -- the quotient of two counts
  pub ratio : ℕ → ℕ → F

module _ {F : Type 0} ⦃ops : FloatOps F⦄ where
  -- Python's `min` and `max` of two, which keep the first of equals.
  abbrev pub min_f : F → F → F
  min_f a b = if ops.lt b a then b else a

  abbrev pub max_f : F → F → F
  max_f a b = if ops.lt a b then b else a

  -- `max(0.0, min(1.0, v))`
  unfoldable pub clamp : F → F
  clamp v = max_f ops.zero_f (min_f ops.one_f v)

  pub min_f-le : (laws : FloatLaws ops) (a b : F) → ops.le (min_f a b) a ≡ true
  min_f-le laws a b = elim (Bool-cases (ops.lt b a)) [
    | inl e ↦ ground (arith, e, laws.le_of_lt b a e)
    | inr e ↦ ground (arith, e, laws.le_refl a)
  ]

  pub max_f-ge : (laws : FloatLaws ops) (a b : F) → ops.le a (max_f a b) ≡ true
  max_f-ge laws a b = elim (Bool-cases (ops.lt a b)) [
    | inl e ↦ ground (arith, e, laws.le_of_lt a b e)
    | inr e ↦ ground (arith, e, laws.le_refl a)
  ]

  pub clamp-InUnit :
      (laws : FloatLaws ops) (v : F)
      → (ops.le ops.zero_f (clamp v) ≡ true) × (ops.le (clamp v) ops.one_f ≡ true)
  unfolding clamp
  clamp-InUnit laws v =
      let low = max_f-ge laws ops.zero_f (min_f ops.one_f v) in
      let inner = min_f-le laws ops.one_f v in
      elim (Bool-cases (ops.lt ops.zero_f (min_f ops.one_f v))) [
        | inl e ↦ (low, ground (arith, e, inner))
        | inr e ↦ (low, ground (arith, e, laws.zero-le-one))
      ]
