-- ===== src/Evidence/StorageKey/RoundTrip.antt =====
-- The parsing of the keys that were built (`build_storage_key`, `parse_storage_key`).
use Prim.Native.Char.{Char, code}
use Prim.Native.String.{[] as nil_text, ◌∷◌ as cons_text}
use text.Mathlib.TextLemmas.{nil-append, cons-append, append_assoc, append-nil}
use ai_proctor_engine.Base.{
  ℕ, String, str_eq, eq_iff, ◌==◌, ◌≡◌, refl, sym, ap, ◌∙◌, subst, true, false, some, [], ◌∷◌, ok,
  Bool-cases, inl, inr, arith,
}
use ai_proctor_engine.Base.Strings.{with_char, split_from, split_on, joined_text}
use ai_proctor_engine.Evidence.StorageKey.{
  artifact_extension, UuidText, file_name, key_of, build_storage_key, rsplit_dot, artifact_of,
  uuid_of, parse_parts, parse_storage_key,
}

-- The character of the code does not occur in the text.
abbrev pub Without : ℕ → String → Type 0
Without sep nil_text = Unit
Without sep (cons_text c s) = ((code c == sep) ≡ false) × Without sep s

with_char-joined :
    (cur : String) (c : Char) (s : String)
    → joined_text (with_char cur c) s ≡ joined_text cur (cons_text c s)
with_char-joined cur c s =
    append_assoc cur (cons_text c nil_text) s
    ∙ ap (joined_text cur) (cons-append c nil_text s ∙ ap (cons_text c) (nil-append s))

split_from-end :
    (sep : ℕ) (cur s : String) → Without sep s → split_from sep cur s ≡ joined_text cur s ∷ []
unfolding split_from
split_from-end sep cur nil_text w = ap (λ x. x ∷ []) (sym (append-nil cur))
split_from-end sep cur (cons_text c s) (n, w) =
    let rest = split_from-end sep (with_char cur c) s w in
    let same = with_char-joined cur c s in ground (arith, n, rest, same)

abbrev slash : Char
slash = "/"

slash-cons : (rest : String) → joined_text "/" rest ≡ cons_text slash rest
slash-cons rest = cons-append slash nil_text rest ∙ ap (cons_text slash) (nil-append rest)

-- A part before a slash is split off.
split_from-slash :
    (cur s rest : String)
    → Without 47 s
    → split_from 47 cur (joined_text s (joined_text "/" rest))
      ≡ joined_text cur s ∷ split_from 47 "" rest
unfolding split_from
split_from-slash cur nil_text rest w =
    ap (split_from 47 cur) (nil-append (joined_text "/" rest) ∙ slash-cons rest)
    ∙ ap (λ x. x ∷ split_from 47 "" rest) (sym (append-nil cur))
split_from-slash cur (cons_text c s) rest (n, w) =
    let later = split_from-slash (with_char cur c) s rest w in
    let same = with_char-joined cur c s in
    let step : split_from 47 cur (cons_text c (joined_text s (joined_text "/" rest)))
        ≡ joined_text cur (cons_text c s) ∷ split_from 47 "" rest =
      ground (arith, n, later, same) in
    ap (split_from 47 cur) (cons-append c s (joined_text "/" rest)) ∙ step

-- What the parser reads of the file's name that the builder wrote, which has no slash.
record Named (artifact_type ext : String) : Type 0 where
  read : artifact_of (rsplit_dot (file_name artifact_type ext)) ≡ ok artifact_type
  plain : Without 47 (file_name artifact_type ext)

Named-at :
    (artifact_type ext name file_ext : String)
    → str_eq artifact_type name ≡ true
    → some file_ext ≡ some ext
    → Named name file_ext
    → Named artifact_type ext
Named-at artifact_type ext name file_ext e h n =
    let same : name ≡ artifact_type = sym ((eq_iff artifact_type name).0 e) in
    let same_ext : file_ext ≡ ext = ground (arith, h) in
    subst (λ a. Named a ext) same (subst (Named name) same_ext n)

frame_file : Named "frame" "jpg"
unfolding artifact_of rsplit_dot artifact_extension
frame_file = record {
  read = refl;
  plain = (refl, (refl, (refl, (refl, (refl, (refl, (refl, (refl, (refl, tt)))))))));
}

clip_file : Named "clip" "webm"
unfolding artifact_of rsplit_dot artifact_extension
clip_file = record {
  read = refl;
  plain = (refl, (refl, (refl, (refl, (refl, (refl, (refl, (refl, (refl, tt)))))))));
}

audio_file : Named "audio" "webm"
unfolding artifact_of rsplit_dot artifact_extension
audio_file = record {
  read = refl;
  plain = (refl, (refl, (refl, (refl, (refl, (refl, (refl, (refl, (refl, (refl, tt))))))))));
}

event_export_file : Named "event_export" "json"
unfolding artifact_of rsplit_dot artifact_extension
event_export_file = record {
  read = refl;
  plain = (
    refl,
    (
      refl,
      (
        refl,
        (
          refl,
          (
            refl,
            (
              refl,
              (
                refl,
                (refl, (refl, (refl, (refl, (refl, (refl, (refl, (refl, (refl, (refl, tt)))))))))),
              ),
            ),
          ),
        ),
      ),
    ),
  );
}

-- The names of the four types of artifacts.
artifact_extension-Named :
    (artifact_type ext : String)
    → artifact_extension artifact_type ≡ some ext
    → Named artifact_type ext
unfolding artifact_extension
artifact_extension-Named artifact_type ext h = elim (Bool-cases (str_eq artifact_type "frame")) [
  | inl e ↦ Named-at artifact_type ext "frame" "jpg" e (ground (arith, h, e)) frame_file
  | inr a ↦ elim (Bool-cases (str_eq artifact_type "clip")) [
    | inl e ↦ Named-at artifact_type ext "clip" "webm" e (ground (arith, h, a, e)) clip_file
    | inr b ↦ elim (Bool-cases (str_eq artifact_type "audio")) [
      | inl e ↦ Named-at artifact_type ext "audio" "webm" e (ground (arith, h, a, b, e)) audio_file
      | inr c ↦ elim (Bool-cases (str_eq artifact_type "event_export")) [
        | inl e ↦
            Named-at artifact_type ext "event_export" "json" e (ground (arith, h, a, b, c, e))
              event_export_file
        | inr e ↦ ground (arith, h, a, b, c, e)
      ]
    ]
  ]
]

evidence_plain : Without 47 "evidence"
evidence_plain = (refl, (refl, (refl, (refl, (refl, (refl, (refl, (refl, tt))))))))

-- The parts of a key.
split_on-key :
    (session flag file : String)
    → Without 47 session
    → Without 47 flag
    → Without 47 file
    → split_on 47 (key_of session flag file) ≡ "evidence" ∷ session ∷ flag ∷ file ∷ []
unfolding split_on
split_on-key session flag file p q r =
    let rest = joined_text flag (joined_text "/" file) in
    split_from-slash "" "evidence" (joined_text session (joined_text "/" rest)) evidence_plain
    ∙ ap (λ ps. "evidence" ∷ ps)
        (split_from-slash "" session rest p
          ∙ ap (λ ps. joined_text "" session ∷ ps)
              (split_from-slash "" flag file q
                ∙ ap (λ ps. joined_text "" flag ∷ ps) (split_from-end 47 "" file r))
          ∙ ground (arith, nil-append session, nil-append flag, nil-append file))

module _ (uuid : UuidText) (session flag : ℕ) (artifact_type ext : String) where
  -- Where the text of a UUID has no slash and is read back to it, a key that is built for a known
  -- type of artifact is built, and is parsed to the same session, flag and type.
  pub parse_storage_key-build_storage_key :
      ((u : ℕ) → uuid.parse (uuid.print u) ≡ some u)
      → ((u : ℕ) → Without 47 (uuid.print u))
      → artifact_extension artifact_type ≡ some ext
      → (key : String) × (build_storage_key uuid session flag artifact_type ≡ ok key)
        × (parse_storage_key uuid key ≡ ok (session, flag, artifact_type))
  unfolding build_storage_key parse_storage_key parse_parts uuid_of
  parse_storage_key-build_storage_key back plain e =
      let file = file_name artifact_type ext in
      let named = artifact_extension-Named artifact_type ext e in
      let parts =
        split_on-key (uuid.print session) (uuid.print flag) file (plain session) (plain flag)
          named.plain in
      (
        key_of (uuid.print session) (uuid.print flag) file,
        ground (arith, e),
        ap (parse_parts uuid) parts ∙ ground (arith, back session, back flag, named.read),
      )
