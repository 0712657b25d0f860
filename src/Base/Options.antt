-- ===== src/Base/Options.antt =====
-- The chains of results that may be missing, for the modules that use `Option` and not `Outcome`.
use mathlib.Core.Bool.{Bool}
use mathlib.Core.Option.{Option, none, some}
use ai_proctor_engine.Base.Tests.{if◌then◌else◌}

infixl 5 ◌>>=◌
abbrev pub ◌>>=◌ {ℓ κ} : {A : Type ℓ} {B : Type κ} → Option A → (A → Option B) → Option B
none >>= k = none
some a >>= k = k a

-- A value that passes a test.
abbrev pub checked {ℓ} : {A : Type ℓ} → (A → Bool) → A → Option A
checked p a = if p a then some a else none
