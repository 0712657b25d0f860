-- ===== src/Evidence/Retention/Causes.antt =====
-- Why a run of the deletion has failed on an artifact, and what happened to the rows that it
-- deleted.
use ai_proctor_engine.Base.{
  ℕ, String, ◌≤◌, ◌<◌, ◌≡◌, refl, subst, ◌⊎◌, inl, inr, true, false, none, some, List, ◌∷◌, All,
  All-map, arith,
}
use ai_proctor_engine.Evidence.Retention.{
  EvidenceArtifact, Answers, RetentionRun, deleted, not_found, store_error, is_expired,
  extract_storage_key,
}
use ai_proctor_engine.Evidence.Retention.Rows.{In}

-- The first `calls` answers of a run over these rows explain what it did.
module _ (answers : Answers) (now : ℕ) (start : List EvidenceArtifact) where
  -- The key of the artifact's blob was not read from its URI, or the store failed to delete the blob,
  -- or the database to delete the row.
  pub data Cause (calls : ℕ) (a : EvidenceArtifact) : Type 0 where
    no_key : extract_storage_key a.storage_uri ≡ none → Cause calls a
    store_failed :
        (key : String) (n : ℕ)
        → extract_storage_key a.storage_uri ≡ some key
        → n < calls
        → answers.delete_blob n key ≡ store_error
        → Cause calls a
    flush_failed : (n : ℕ) → n < calls → answers.flush_row n a.id ≡ false → Cause calls a

  -- An expired row of this id failed.
  pub record Failure (calls id : ℕ) : Type 0 where
    pub artifact : EvidenceArtifact
    pub among : In artifact start
    pub named : artifact.id ≡ id
    pub expired : is_expired now artifact ≡ true
    pub cause : Cause calls artifact

  -- The blob of an expired row of this id was deleted, or was not there any more.
  pub record Erased (calls id : ℕ) : Type 0 where
    pub artifact : EvidenceArtifact
    pub among : In artifact start
    pub named : artifact.id ≡ id
    pub expired : is_expired now artifact ≡ true
    pub key : String
    pub keyed : extract_storage_key artifact.storage_uri ≡ some key
    pub asked : ℕ
    pub before : asked < calls
    pub answer :
        (answers.delete_blob asked key ≡ deleted) ⊎ (answers.delete_blob asked key ≡ not_found)

  -- Every failure has its cause, and every row is there unless its blob is not.
  pub record Justified (r : RetentionRun) : Type 0 where
    pub failed : All (Failure r.calls) r.failed_artifact_ids
    pub gone : All (Erased r.calls) r.gone
    pub older : (x : EvidenceArtifact) → In x r.rows → In x start
    pub kept : (x : EvidenceArtifact) → In x start → In x r.rows ⊎ Erased r.calls x.id

  Cause-later :
      (calls later : ℕ) (a : EvidenceArtifact) → calls ≤ later → Cause calls a → Cause later a
  Cause-later calls later a h (no_key e) = no_key e
  Cause-later calls later a h (store_failed key n e before lost) =
      store_failed key n e (omega (arith, h, before)) lost
  Cause-later calls later a h (flush_failed n before lost) =
      flush_failed n (omega (arith, h, before)) lost

  Failure-later : (calls later id : ℕ) → calls ≤ later → Failure calls id → Failure later id
  Failure-later calls later id h f = record {
    artifact = f.artifact;
    among = f.among;
    named = f.named;
    expired = f.expired;
    cause = Cause-later calls later f.artifact h f.cause;
  }

  pub Erased-later : (calls later id : ℕ) → calls ≤ later → Erased calls id → Erased later id
  Erased-later calls later id h e = record {
    artifact = e.artifact;
    among = e.among;
    named = e.named;
    expired = e.expired;
    key = e.key;
    keyed = e.keyed;
    asked = e.asked;
    before = omega (arith, h, e.before);
    answer = e.answer;
  }

  -- Another call that explains no more.
  pub Justified-later :
      (r : RetentionRun) (later : ℕ)
      → r.calls ≤ later
      → Justified r
      → Justified (record r { calls = later })
  Justified-later r later h j = record {
    failed =
        All-map _ _ r.failed_artifact_ids (λ id f. Failure-later r.calls later id h f) j.failed;
    gone = All-map _ _ r.gone (λ id e. Erased-later r.calls later id h e) j.gone;
    older = j.older;
    kept = λ x among. elim (j.kept x among) [
      | inl there ↦ inl there
      | inr erased ↦ inr (Erased-later r.calls later x.id h erased)
    ];
  }

  pub Justified-failed :
      (a : EvidenceArtifact) (r : RetentionRun)
      → In a start
      → is_expired now a ≡ true
      → Cause r.calls a
      → Justified r
      → Justified (record r { failed_artifact_ids = a.id ∷ r.failed_artifact_ids })
  Justified-failed a r among old cause j = record {
    failed = (
      record { artifact = a; among = among; named = refl; expired = old; cause = cause },
      j.failed,
    );
    gone = j.gone;
    older = j.older;
    kept = j.kept;
  }

  -- The fields that `Justified` speaks of.
  abbrev pub fields : RetentionRun → List EvidenceArtifact × List ℕ × List ℕ × ℕ
  fields r = (r.rows, r.gone, r.failed_artifact_ids, r.calls)

  abbrev of_fields : List EvidenceArtifact × List ℕ × List ℕ × ℕ → RetentionRun
  of_fields f = record {
    rows = f.0;
    gone = f.1;
    failed_artifact_ids = f.2;
    artifacts_deleted = 0;
    storage_errors = 0;
    batch_deleted = 0;
    calls = f.3;
  }

  plain : (r : RetentionRun) → Justified r → Justified (of_fields (fields r))
  plain r j = record { failed = j.failed; gone = j.gone; older = j.older; kept = j.kept }

  full : (r : RetentionRun) → Justified (of_fields (fields r)) → Justified r
  full r j = record { failed = j.failed; gone = j.gone; older = j.older; kept = j.kept }

  pub Justified-same : (r r' : RetentionRun) → fields r ≡ fields r' → Justified r → Justified r'
  Justified-same r r' e j = full r' (subst (λ f. Justified (of_fields f)) e (plain r j))
