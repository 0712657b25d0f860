-- ===== src/Tests/Upkeep.antt =====
-- The deletion of expired evidence on concrete rows and answers, and the rolling buffer on frames.
use ai_proctor_engine.Base.{
  ℕ, String, ◌≡◌, refl, zero, suc, ap, ok, true, not, Option, none, some, List, [], ◌∷◌, length,
  ◌==◌, suc,
}
use Prim.Native.Char.{Char}
use Prim.Native.String.{[] as nil_text, ◌∷◌ as cons_text}
use ai_proctor_engine.Evidence.StorageKey.{
  UuidText, artifact_extension, build_storage_key, parse_storage_key,
}
use ai_proctor_engine.Evidence.StorageKey.RoundTrip.{Without, parse_storage_key-build_storage_key}
use ai_proctor_engine.Evidence.Retention.{
  EvidenceArtifact, deleted, Answers, RetentionRun, run_retention_deletion, start_run, delete_batch,
  delete_artifact, delete_row, commit_batch, select_batch, take, extract_storage_key,
}
use ai_proctor_engine.Preprocessing.RollingBuffer.{
  RollingBufferConfig, RollingBufferEntry, InMemoryRollingBuffer,
}
use ai_proctor_engine.Preprocessing.RollingBuffer.Eviction.{
  Longest, accepted, append_all, append_all-Longest,
}

abbrev artifact : ℕ → String → EvidenceArtifact
artifact id uri = record { id = id; storage_uri = uri; retention_expires_at = 100 }

abbrev rows : List EvidenceArtifact
rows = artifact 1 "s3://evidence/a" ∷ artifact 2 "s3://evidence/b" ∷ []

-- The flush of the row 2 fails.
abbrev answers : Answers
answers = record {
  delete_blob = λ n key. deleted;
  flush_row = λ n id. not (id == 2);
  commit = λ n. true;
}

outcome : Option RetentionRun → List ℕ
outcome none = []
outcome (some r) = r.artifacts_deleted ∷ length r.rows ∷ []

-- The failed flush takes the deletion of row 1 back, and the count counts it twice: two deletions,
-- and one row of two left.
counted_twice : outcome (run_retention_deletion answers 200 10 3 (start_run rows)) ≡ 2 ∷ 1 ∷ []
unfolding outcome run_retention_deletion delete_batch delete_artifact delete_row commit_batch
    select_batch take extract_storage_key
counted_twice = refl

abbrev config : RollingBufferConfig
config = record {
  capture_interval_ms = 300;
  window_seconds = 15;
  max_bytes_per_entry = 30;
  max_entries = 2;
  max_total_bytes = 50;
}

abbrev frame : ℕ → ℕ → RollingBufferEntry
frame at size = record {
  captured_at = at;
  encoded_length = size;
  encoded_padding = 0;
  encoding = "jpeg";
  width = 640;
  height = 480;
  size_bytes = size;
}

abbrev frames : List RollingBufferEntry
frames = frame 1 20 ∷ frame 2 30 ∷ frame 3 90 ∷ frame 4 28 ∷ []

abbrev empty_buffer : InMemoryRollingBuffer
empty_buffer = record { session_id = "s"; config = config; entries = [] }

append_all-Longest_example :
    Longest config (accepted config frames) (append_all frames empty_buffer).entries
append_all-Longest_example = append_all-Longest frames empty_buffer refl

abbrev digit : Char
digit = "x"

-- A UUID is written as that many digits.
digits : ℕ → String
digits zero = nil_text
digits (suc n) = cons_text digit (digits n)

count_digits : String → ℕ
count_digits nil_text = 0
count_digits (cons_text c s) = suc (count_digits s)

abbrev uuid : UuidText
uuid = record { print = digits; parse = λ s. some (count_digits s) }

digits_back : (u : ℕ) → count_digits (digits u) ≡ u
unfolding digits count_digits
digits_back zero = refl
digits_back (suc n) = ap suc (digits_back n)

digits_plain : (u : ℕ) → Without 47 (digits u)
unfolding digits
digits_plain zero = tt
digits_plain (suc n) = (refl, digits_plain n)

parse_storage_key-build_storage_key_example :
    (key : String) × (build_storage_key uuid 2 3 "clip" ≡ ok key)
    × (parse_storage_key uuid key ≡ ok (2, 3, "clip"))
unfolding artifact_extension
parse_storage_key-build_storage_key_example =
    parse_storage_key-build_storage_key uuid 2 3 "clip" "webm" (λ u. ap some (digits_back u))
      digits_plain refl
