-- ===== src/Base/Outcomes.antt =====
-- What a call that may raise hands back: a value, or the exception's kind.

-- The exceptions of Python's own that the modelled code can meet.
pub data Raised : Type 0 where
  value_error zero_division attribute_error key_error buffer_flush_error audio_error : Raised

pub data Outcome {ℓ} (A : Type ℓ) : Type ℓ where
  ok : A → Outcome A
  raised : Raised → Outcome A

infixl 5 ◌>>=◌
abbrev pub ◌>>=◌ {ℓ κ} : {A : Type ℓ} {B : Type κ} → Outcome A → (A → Outcome B) → Outcome B
ok a >>= f = f a
raised e >>= f = raised e
