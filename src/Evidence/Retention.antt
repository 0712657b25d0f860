-- ===== src/Evidence/Retention.antt =====
-- The deletion of expired evidence (`run_retention_deletion` of evidence/retention.py).
-- What the object store and the database answer is not in the repository: it is a function of the
-- number of calls made so far, so that any run of answers is one.
pub mod Progress
pub mod Rows
pub mod Causes
pub mod Batches
use text.Mathlib.Text.{starts_with, get?}
use Prim.Native.String.{len}
use ai_proctor_engine.Base.{
  ℕ, zero, suc, String, ◌+◌, ◌-◌, Bool, true, false, not, ◌&&◌, Option, none, some, List, [], ◌∷◌,
  keep, any, ltb, ◌==◌, if◌then◌else◌,
}

-- The row of an artifact.
pub record EvidenceArtifact : Type 0 where
  pub id : ℕ
  pub storage_uri : String
  pub retention_expires_at : ℕ

-- `storage_uri[5:]` after the prefix, which is five bytes; the whole URI for the fakes of the tests.
unfoldable pub extract_storage_key : String → Option String
extract_storage_key storage_uri =
    if starts_with storage_uri "s3://"
    then get? storage_uri 5 (len storage_uri)
    else if starts_with storage_uri "evidence/"
    then some storage_uri
    else none

-- What `store.delete` ends with; `store_error` is any `EvidenceStoreError` but the first.
pub data Deletion : Type 0 where
  deleted not_found store_error : Deletion

-- The answers of the store to a deletion, of the database to the flush of one, and to a commit.
pub record Answers : Type 0 where
  pub delete_blob : ℕ → String → Deletion
  pub flush_row : ℕ → ℕ → Bool
  pub commit : ℕ → Bool

-- The committed rows in the order of their ids, the ids deleted in the open transaction, and the
-- variables of the run.
pub record RetentionRun : Type 0 where
  pub rows : List EvidenceArtifact
  pub gone : List ℕ
  pub failed_artifact_ids : List ℕ
  pub artifacts_deleted : ℕ
  pub storage_errors : ℕ
  pub batch_deleted : ℕ
  pub calls : ℕ

abbrev pub has_id : ℕ → List ℕ → Bool
has_id id ids = any (λ i. i == id) ids

abbrev pub is_expired : ℕ → EvidenceArtifact → Bool
is_expired now a = ltb a.retention_expires_at now

unfoldable pub take : ℕ → List EvidenceArtifact → List EvidenceArtifact
take zero others = []
take (suc n) [] = []
take (suc n) (a ∷ others) = a ∷ take n others

abbrev pub is_due : ℕ → List ℕ → EvidenceArtifact → Bool
is_due now failed a = is_expired now a && not (has_id a.id failed)

-- The query of a batch.
unfoldable pub select_batch : ℕ → ℕ → RetentionRun → List EvidenceArtifact
select_batch now batch_size r = take batch_size (keep (is_due now r.failed_artifact_ids) r.rows)

abbrev mark_failed : EvidenceArtifact → RetentionRun → RetentionRun
mark_failed a r = record r { failed_artifact_ids = a.id ∷ r.failed_artifact_ids }

module _ (answers : Answers) where
  -- The row goes in the open transaction; a flush that fails rolls the transaction back.
  unfoldable pub delete_row : EvidenceArtifact → RetentionRun → RetentionRun
  delete_row a r =
      let r' = record r { calls = r.calls + 1 } in
      if answers.flush_row r.calls a.id
      then record r' {
        gone = a.id ∷ r.gone;
        batch_deleted = r.batch_deleted + 1;
        artifacts_deleted = r.artifacts_deleted + 1;
      }
      else mark_failed a (record r' { gone = [] })

  -- One artifact of the batch: the blob first, then the row.
  unfoldable pub delete_artifact : EvidenceArtifact → RetentionRun → RetentionRun
  delete_artifact a r = elim (extract_storage_key a.storage_uri) [
    | none ↦ mark_failed a (record r { storage_errors = r.storage_errors + 1 })
    | some key ↦
        let r' = record r { calls = r.calls + 1 } in
        elim (answers.delete_blob r.calls key) [
          | store_error ↦ mark_failed a (record r' { storage_errors = r.storage_errors + 1 })
          | _ ↦ delete_row a r'
        ]
  ]

  unfoldable pub delete_batch : List EvidenceArtifact → RetentionRun → RetentionRun
  delete_batch [] r = r
  delete_batch (a ∷ others) r = delete_batch others (delete_artifact a r)

  -- The commit of a batch that deleted something; the Boolean says that the loop goes on.
  unfoldable pub commit_batch : RetentionRun → Bool × RetentionRun
  commit_batch r =
      let r' = record r { calls = r.calls + 1 } in
      if r.batch_deleted == 0
      then (true, r)
      else if answers.commit r.calls
      then (true, record r' { rows = keep (λ a. not (has_id a.id r.gone)) r.rows; gone = [] })
      else (
        false,
        record r' { gone = []; artifacts_deleted = r.artifacts_deleted - r.batch_deleted },
      )

  -- The loop on fuel: `none` when the fuel runs out.
  unfoldable pub run_retention_deletion : ℕ → ℕ → ℕ → RetentionRun → Option RetentionRun
  run_retention_deletion now batch_size zero r = none
  run_retention_deletion now batch_size (suc fuel) r =
      let batch = select_batch now batch_size r in
      let (goes_on, r') = commit_batch (delete_batch batch (record r { batch_deleted = 0 })) in
      let rest = run_retention_deletion now batch_size fuel r' in
      elim batch [ [] ↦ some r | a ∷ others ↦ if goes_on then rest else some r' ]

-- What a run starts with.
abbrev pub start_run : List EvidenceArtifact → RetentionRun
start_run rows = record {
  rows = rows;
  gone = [];
  failed_artifact_ids = [];
  artifacts_deleted = 0;
  storage_errors = 0;
  batch_deleted = 0;
  calls = 0;
}
