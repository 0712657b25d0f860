-- ===== src/Orchestration/StateMachine.antt =====
-- The transitions of an exam session's status (orchestration/_state_machine.py).
pub mod Histories
use ai_proctor_engine.Base.{ℕ, Bool, true, false, not, List, [], ◌∷◌, any, ◌==◌, if◌then◌else◌}

pub data SessionStatus : Type 0 where
  pending active completed terminated reinstated under_review : SessionStatus

-- The exception, with the two statuses that it carries.
pub record InvalidSessionTransition : Type 0 where
  pub current : SessionStatus
  pub target : SessionStatus

pub data Move : Type 0 where
  moved : Move
  refused : InvalidSessionTransition → Move

-- The status of the session's row, as the object in memory has it and as the database has it.
pub record StoredSession : Type 0 where
  pub status : SessionStatus
  pub committed : SessionStatus

code : SessionStatus → ℕ
code pending = 0
code active = 1
code completed = 2
code terminated = 3
code reinstated = 4
code under_review = 5

-- `_ALLOWED`, and `allowed_targets`: every status is a key of the table.
unfoldable pub allowed_targets : SessionStatus → List SessionStatus
allowed_targets pending = active ∷ terminated ∷ []
allowed_targets active = completed ∷ terminated ∷ under_review ∷ []
allowed_targets completed = under_review ∷ []
allowed_targets terminated = under_review ∷ reinstated ∷ []
allowed_targets reinstated = under_review ∷ []
allowed_targets under_review = []

unfoldable pub can_transition : SessionStatus → SessionStatus → Bool
unfolding allowed_targets code
can_transition current target = any (λ s. code s == code target) (allowed_targets current)

unfoldable pub assert_transition : SessionStatus → SessionStatus → Move
assert_transition current target =
    if not (can_transition current target)
    then refused (record { current = current; target = target })
    else moved

-- The assertion first, then the field, then `db.commit()`.
unfoldable pub apply_transition : SessionStatus → StoredSession → Move × StoredSession
apply_transition target session = elim (assert_transition session.status target) [
  | refused e ↦ (refused e, session)
  | moved ↦ (moved, record { status = target; committed = target })
]
