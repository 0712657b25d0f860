-- ===== src/Base/Modular.antt =====
-- A counter and its remainder.
use Prim.Native.Nat.{ℕ, suc, ◌%◌, ◌<◌}
use mathlib.Core.Path.{◌≡◌, ap, ◌∙◌}
use mathlib.Core.Logic.{inl, inr}
use native.Mathlib.Nat.{mod-lt, mod-eq_of_lt, mod_self, suc-mod}
use native.Mathlib.Omega.{arith}
use ai_proctor_engine.Base.Tests.{◌==◌, if◌then◌else◌, ==_iff, Bool-cases}

-- The next remainder, by a test.
pub next_remainder : (t k : ℕ) → 0 < k → suc t % k ≡ (if suc (t % k) == k then 0 else suc (t % k))
next_remainder t k h = suc-mod t k ∙ elim (Bool-cases (suc (t % k) == k)) [
  | inl full ↦ rw full (ap (λ n. n % k) ((==_iff _ _).0 full) ∙ mod_self k)
  | inr part ↦ rw part (mod-eq_of_lt (ground (arith, mod-lt t h)))
]
