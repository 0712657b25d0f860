-- ===== src/Evidence/Retention/Progress.antt =====
-- A run of the deletion ends, and what it leaves.
use ai_proctor_engine.Base.{ℕ, suc, ◌≡◌, ◌⊎◌, false, Option, some, List, []}
use ai_proctor_engine.Evidence.Retention.{EvidenceArtifact, Answers, RetentionRun}
use ai_proctor_engine.Evidence.Retention.Causes.{Justified}
use ai_proctor_engine.Evidence.Retention.Rows.{due}

module _ (answers : Answers) where
  -- The run has an end, which is justified: no expired row is left there but those that failed, or
  -- the run's last call was a commit that failed.
  Ends : ℕ → List EvidenceArtifact → Option RetentionRun → Type 0
  Ends now start result =
      (end : RetentionRun) × (result ≡ some end)
      × ((due now end ≡ []) ⊎ ((n : ℕ) × (end.calls ≡ suc n) × (answers.commit n ≡ false)))
      × Justified answers now start end
