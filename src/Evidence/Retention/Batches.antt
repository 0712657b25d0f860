-- ===== src/Evidence/Retention/Batches.antt =====
-- The causes of failures through one batch of the deletion, from its query to its commit.
use ai_proctor_engine.Base.{
  ℕ, ◌+◌, ◌≡◌, refl, subst, ◌⊎◌, inl, inr, true, not, List, [], ◌∷◌, keep, ◌==◌, All, arith,
  Bool-cases, Option-cases,
}
use ai_proctor_engine.Evidence.Retention.{
  EvidenceArtifact, Answers, RetentionRun, Deletion, deleted, not_found, store_error, has_id,
  is_expired, is_due, select_batch, extract_storage_key, delete_row, delete_artifact, delete_batch,
  commit_batch,
}
use ai_proctor_engine.Evidence.Retention.Rows.{due, In, In-take, In-keep, keep-In}
use ai_proctor_engine.Evidence.Retention.Causes.{
  no_key, store_failed, flush_failed, Erased, Justified, Justified-later, Justified-failed,
  Erased-later, Justified-same,
}

module _ (answers : Answers) (now : ℕ) (start : List EvidenceArtifact) where
  delete_row-Justified :
      (a : EvidenceArtifact) (r : RetentionRun)
      → Erased answers now start r.calls a.id
      → In a start
      → is_expired now a ≡ true
      → Justified answers now start r
      → Justified answers now start (delete_row answers a r)
  unfolding delete_row
  delete_row-Justified a r erased among old j =
      let r1 = record r { calls = r.calls + 1 } in
      let j1 = Justified-later answers now start r (r.calls + 1) (omega arith) j in
      elim (Bool-cases (answers.flush_row r.calls a.id)) [
        | inl flushed ↦
            let done : Justified answers now start (record r1 { gone = a.id ∷ r.gone }) = record {
              failed = j1.failed;
              gone = (
                Erased-later answers now start r.calls (r.calls + 1) a.id (omega arith) erased,
                j1.gone,
              );
              older = j1.older;
              kept = j1.kept;
            } in
            Justified-same answers now start (record r1 { gone = a.id ∷ r.gone })
              (delete_row answers a r) (ground (arith, flushed)) done
        | inr lost ↦
            let back : Justified answers now start (record r1 { gone = [] }) = record {
              failed = j1.failed;
              gone = tt;
              older = j1.older;
              kept = j1.kept;
            } in
            Justified-same answers now start
              (record r1 { gone = []; failed_artifact_ids = a.id ∷ r.failed_artifact_ids })
              (delete_row answers a r) (ground (arith, lost))
              (Justified-failed answers now start a (record r1 { gone = [] }) among old
                (flush_failed r.calls (omega arith) lost) back)
      ]

  Deletion-cases : (d : Deletion) → (d ≡ store_error) ⊎ ((d ≡ deleted) ⊎ (d ≡ not_found))
  Deletion-cases store_error = inl refl
  Deletion-cases deleted = inr (inl refl)
  Deletion-cases not_found = inr (inr refl)

  delete_artifact-Justified :
      (a : EvidenceArtifact) (r : RetentionRun)
      → In a start
      → is_expired now a ≡ true
      → Justified answers now start r
      → Justified answers now start (delete_artifact answers a r)
  unfolding delete_artifact
  delete_artifact-Justified a r among old j =
      elim (Option-cases (extract_storage_key a.storage_uri)) [
        | inl unread ↦
            Justified-same answers now start
              (record r { failed_artifact_ids = a.id ∷ r.failed_artifact_ids })
              (delete_artifact answers a r) (ground (arith, unread))
              (Justified-failed answers now start a r among old (no_key unread) j)
        | inr (key, keyed) ↦
            let r1 = record r { calls = r.calls + 1 } in
            let j1 = Justified-later answers now start r (r.calls + 1) (omega arith) j in
            elim (Deletion-cases (answers.delete_blob r.calls key)) [
              | inl lost ↦
                  Justified-same answers now start
                    (record r1 { failed_artifact_ids = a.id ∷ r.failed_artifact_ids })
                    (delete_artifact answers a r) (ground (arith, keyed, lost))
                    (Justified-failed answers now start a r1 among old
                      (store_failed key r.calls keyed (omega arith) lost) j1)
              | inr ended ↦
                  let erased : Erased answers now start r1.calls a.id = record {
                    artifact = a;
                    among = among;
                    named = refl;
                    expired = old;
                    key = key;
                    keyed = keyed;
                    asked = r.calls;
                    before = omega arith;
                    answer = ended;
                  } in
                  Justified-same answers now start (delete_row answers a r1)
                    (delete_artifact answers a r) (ground (arith, keyed, ended))
                    (delete_row-Justified a r1 erased among old j1)
            ]
      ]

  abbrev Old : EvidenceArtifact → Type 0
  Old a = In a start × (is_expired now a ≡ true)

  delete_batch-Justified :
      (batch : List EvidenceArtifact) (r : RetentionRun)
      → ((a : EvidenceArtifact) → In a batch → Old a)
      → Justified answers now start r
      → Justified answers now start (delete_batch answers batch r)
  unfolding delete_batch
  delete_batch-Justified [] r old j = j
  delete_batch-Justified (a ∷ others) r old j =
      let (among, expired) = old a (inl refl) in
      delete_batch-Justified others (delete_artifact answers a r) (λ b h. old b (inr h))
        (delete_artifact-Justified a r among expired j)

  has_id-All :
      (calls id : ℕ) (ids : List ℕ)
      → All (Erased answers now start calls) ids
      → has_id id ids ≡ true
      → Erased answers now start calls id
  has_id-All calls id [] all h = ground (arith, h)
  has_id-All calls id (i ∷ ids) (first, all) h = elim (Bool-cases (i == id)) [
    | inl e ↦
        let same : i ≡ id = ground (arith, e) in subst (Erased answers now start calls) same first
    | inr e ↦ has_id-All calls id ids all (ground (arith, h, e))
  ]

  commit_batch-Justified :
      (r : RetentionRun)
      → Justified answers now start r
      → Justified answers now start (commit_batch answers r).1
  unfolding commit_batch
  commit_batch-Justified r j =
      let r1 = record r { calls = r.calls + 1 } in
      let j1 = Justified-later answers now start r (r.calls + 1) (omega arith) j in
      let result = (commit_batch answers r).1 in
      elim (Bool-cases (r.batch_deleted == 0)) [
        | inl idle ↦ Justified-same answers now start r result (ground (arith, idle)) j
        | inr busy ↦ elim (Bool-cases (answers.commit r.calls)) [
          | inl committed ↦
              let left = λ (a : EvidenceArtifact). not (has_id a.id r.gone) in
              let done : Justified answers now start
                  (record r1 { rows = keep left r.rows; gone = [] }) =
                record {
                  failed = j1.failed;
                  gone = tt;
                  older = λ x h. j1.older x (In-keep left x r.rows h).0;
                  kept = λ x h. elim (j1.kept x h) [
                    | inr erased ↦ inr erased
                    | inl there ↦ elim (Bool-cases (has_id x.id r.gone)) [
                      | inl out ↦ inr (has_id-All r1.calls x.id r.gone j1.gone out)
                      | inr in_rows ↦ inl (keep-In left x r.rows there (ground (arith, in_rows)))
                    ]
                  ];
                } in
              Justified-same answers now start (record r1 { rows = keep left r.rows; gone = [] })
                result (ground (arith, busy, committed)) done
          | inr lost ↦
              let back : Justified answers now start (record r1 { gone = [] }) = record {
                failed = j1.failed;
                gone = tt;
                older = j1.older;
                kept = j1.kept;
              } in
              Justified-same answers now start (record r1 { gone = [] }) result
                (ground (arith, busy, lost)) back
        ]
      ]

  -- One batch, from its query to its commit.
  pub batch-Justified :
      (batch_size : ℕ) (r : RetentionRun)
      → Justified answers now start r
      → Justified answers now start
          (commit_batch answers (
            delete_batch answers
              (select_batch now batch_size r)
              (record r { batch_deleted = 0 }))).1
  unfolding select_batch
  batch-Justified batch_size r j =
      let r0 = record r { batch_deleted = 0 } in
      let batch = select_batch now batch_size r in
      let old : (a : EvidenceArtifact) → In a batch → Old a = λ a h.
        let (among, is) =
          In-keep (is_due now r.failed_artifact_ids) a r.rows
            (In-take batch_size a (due now r) h) in
        (j.older a among, ground (arith, is)) in
      commit_batch-Justified (delete_batch answers batch r0)
        (delete_batch-Justified batch r0 old (Justified-same answers now start r r0 refl j))
