-- ===== src/Evidence/Retention/Rows.antt =====
-- Lists of rows that shrink, and what the run keeps of its variables.
use ai_proctor_engine.Base.{
  ℕ, zero, suc, ◌≤◌, ◌<◌, ◌≡◌, refl, ap, sym, subst, ◌∙◌, ◌⊎◌, inl, inr, Bool, true, false, ◌&&◌,
  List, [], ◌∷◌, keep, length, arith, Bool-cases,
}
use ai_proctor_engine.Evidence.Retention.{EvidenceArtifact, RetentionRun, has_id, take, is_due}

-- The rows of a run that it may still delete.
abbrev pub due : ℕ → RetentionRun → List EvidenceArtifact
due now r = keep (is_due now r.failed_artifact_ids) r.rows

pub length-keep_le :
    (p q : EvidenceArtifact → Bool) (others : List EvidenceArtifact)
    → ((a : EvidenceArtifact) → q a ≡ true → p a ≡ true)
    → length (keep q others) ≤ length (keep p others)
length-keep_le p q [] h = omega arith
length-keep_le p q (a ∷ others) h = ground (arith, h a, length-keep_le p q others h)

pub has_id-head : (id : ℕ) (ids : List ℕ) → has_id id (id ∷ ids) ≡ true
has_id-head id ids = ground arith

pub has_id-tail :
    (id other : ℕ) (ids : List ℕ) → has_id id ids ≡ true → has_id id (other ∷ ids) ≡ true
has_id-tail id other ids h = ground (arith, h)

-- The artifact is dealt with: it failed, or it is deleted in the open transaction.
abbrev pub Dealt : EvidenceArtifact → RetentionRun → Type 0
Dealt a r = (has_id a.id r.failed_artifact_ids ≡ true) ⊎ (has_id a.id r.gone ≡ true)

-- The committed rows are as they were, and there is no new failure, or one, the artifact's.
abbrev pub Keeps : EvidenceArtifact → RetentionRun → RetentionRun → Type 0
Keeps a r r' =
    (r'.rows ≡ r.rows)
    × ((r'.failed_artifact_ids ≡ r.failed_artifact_ids)
        ⊎ (r'.failed_artifact_ids ≡ a.id ∷ r.failed_artifact_ids))

abbrev pub Grows : RetentionRun → RetentionRun → Type 0
Grows r r' =
    (id : ℕ) → has_id id r.failed_artifact_ids ≡ true → has_id id r'.failed_artifact_ids ≡ true

pub grows :
    (a : EvidenceArtifact) (r r' : RetentionRun)
    → (r'.failed_artifact_ids ≡ r.failed_artifact_ids)
      ⊎ (r'.failed_artifact_ids ≡ a.id ∷ r.failed_artifact_ids)
    → Grows r r'
grows a r r' (inl e) id h = subst (λ l. has_id id l ≡ true) (sym e) h
grows a r r' (inr e) id h =
    subst (λ l. has_id id l ≡ true) (sym e) (has_id-tail id a.id r.failed_artifact_ids h)

-- Rows are deleted in the open transaction only where the batch counts a deletion.
abbrev pub Counted : RetentionRun → Type 0
Counted r = (r.gone ≡ []) ⊎ (0 < r.batch_deleted)

abbrev pub In : EvidenceArtifact → List EvidenceArtifact → Type 0
In x [] = ⊥
In x (y ∷ ys) = (x ≡ y) ⊎ In x ys

pub length-keep-all :
    (p : EvidenceArtifact → Bool) (rows : List EvidenceArtifact)
    → length (keep p rows) ≤ length rows
length-keep-all p [] = omega arith
length-keep-all p (a ∷ rows) = ground (arith, length-keep-all p rows)

pub length-keep_lt :
    (p q : EvidenceArtifact → Bool) (rows : List EvidenceArtifact) (last : EvidenceArtifact)
    → ((a : EvidenceArtifact) → q a ≡ true → p a ≡ true)
    → In last rows
    → p last ≡ true
    → q last ≡ false
    → length (keep q rows) < length (keep p rows)
length-keep_lt p q [] last h among was missing = elim among [ ]
length-keep_lt p q (a ∷ rows) last h (inl here) was missing =
    ground (arith, ap p here, ap q here, length-keep_le p q rows h)
length-keep_lt p q (a ∷ rows) last h (inr there) was missing =
    ground (arith, h a, length-keep_lt p q rows last h there was missing)

pub keep-keep :
    (p q : EvidenceArtifact → Bool) (rows : List EvidenceArtifact)
    → keep p (keep q rows) ≡ keep (λ a. q a && p a) rows
keep-keep p q [] = refl
keep-keep p q (a ∷ rows) = ground (arith, keep-keep p q rows)

pub In-take :
    (n : ℕ) (x : EvidenceArtifact) (rows : List EvidenceArtifact) → In x (take n rows) → In x rows
unfolding take
In-take zero x rows h = elim h [ ]
In-take (suc n) x [] h = h
In-take (suc n) x (a ∷ rows) (inl e) = inl e
In-take (suc n) x (a ∷ rows) (inr h) = inr (In-take n x rows h)

pub In-keep :
    (p : EvidenceArtifact → Bool) (x : EvidenceArtifact) (rows : List EvidenceArtifact)
    → In x (keep p rows)
    → In x rows × (p x ≡ true)
In-keep p x [] h = elim h [ ]
In-keep p x (a ∷ rows) h = elim (Bool-cases (p a)) [
  | inl taken ↦
      let e : keep p (a ∷ rows) ≡ a ∷ keep p rows = ground (arith, taken) in
      elim (subst (In x) e h) [
        | inl here ↦ (inl here, ap p here ∙ taken)
        | inr there ↦ let (among, holds) = In-keep p x rows there in (inr among, holds)
      ]
  | inr dropped ↦
      let e : keep p (a ∷ rows) ≡ keep p rows = ground (arith, dropped) in
      let (among, holds) = In-keep p x rows (subst (In x) e h) in (inr among, holds)
]

pub keep-In :
    (p : EvidenceArtifact → Bool) (x : EvidenceArtifact) (rows : List EvidenceArtifact)
    → In x rows
    → p x ≡ true
    → In x (keep p rows)
keep-In p x [] h holds = h
keep-In p x (a ∷ rows) (inl here) holds =
    let taken : p a ≡ true = sym (ap p here) ∙ holds in
    let e : keep p (a ∷ rows) ≡ a ∷ keep p rows = ground (arith, taken) in
    subst (In x) (sym e) (inl here)
keep-In p x (a ∷ rows) (inr there) holds = elim (Bool-cases (p a)) [
  | inl taken ↦
      let e : keep p (a ∷ rows) ≡ a ∷ keep p rows = ground (arith, taken) in
      subst (In x) (sym e) (inr (keep-In p x rows there holds))
  | inr dropped ↦
      let e : keep p (a ∷ rows) ≡ keep p rows = ground (arith, dropped) in
      subst (In x) (sym e) (keep-In p x rows there holds)
]
