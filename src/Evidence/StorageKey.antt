-- ===== src/Evidence/StorageKey.antt =====
-- The storage keys of evidence (evidence/_storage_key.py). The text of a UUID and its parser are the
-- standard library's, and are arguments.
pub mod RoundTrip
use ai_proctor_engine.Base.{
  ℕ, String, str_eq, ◌==◌, not, Option, none, some, List, [], ◌∷◌, if◌then◌else◌, Outcome, ok,
  raised, value_error, ◌>>=◌,
}
use ai_proctor_engine.Base.Strings.{split_on, joined_text}
use Prim.Native.Char.{code}
use Prim.Native.String.{[] as nil_text, ◌∷◌ as cons_text}

-- `_ARTIFACT_EXTENSIONS.get`
unfoldable pub artifact_extension : String → Option String
artifact_extension artifact_type =
    if str_eq artifact_type "frame"
    then some "jpg"
    else if str_eq artifact_type "clip"
    then some "webm"
    else if str_eq artifact_type "audio"
    then some "webm"
    else if str_eq artifact_type "event_export"
    then some "json"
    else none

-- `str(uuid)` and `uuid.UUID(text)`
pub record UuidText : Type 0 where
  pub print : ℕ → String
  pub parse : String → Option ℕ

abbrev pub file_name : String → String → String
file_name artifact_type ext = joined_text artifact_type (joined_text "." ext)

abbrev pub key_of : String → String → String → String
key_of session flag file = joined_text "evidence" (
    joined_text "/"
      (joined_text session (joined_text "/" (joined_text flag (joined_text "/" file)))))

unfoldable pub build_storage_key : UuidText → ℕ → ℕ → String → Outcome String
unfolding artifact_extension
build_storage_key uuid session flag artifact_type = elim (artifact_extension artifact_type) [
  | none ↦ raised value_error
  | some ext ↦ ok (key_of (uuid.print session) (uuid.print flag) (file_name artifact_type ext))
]

unfoldable pub get_artifact_extension : String → Outcome String
unfolding artifact_extension
get_artifact_extension artifact_type = elim (artifact_extension artifact_type) [
  | none ↦ raised value_error
  | some ext ↦ ok ext
]

-- `s.rsplit(".", 1)` of a text with a dot: what is before the last one, and what is after it.
unfoldable pub rsplit_dot : String → Option (String × String)
rsplit_dot nil_text = none
rsplit_dot (cons_text c s) =
    let later = rsplit_dot s in
    elim later [
      | some (before, after) ↦ some (cons_text c before, after)
      | none ↦ if code c == 46 then some ("", s) else none
    ]

artifact_of : Option (String × String) → Outcome String
unfolding artifact_extension
artifact_of none = raised value_error
artifact_of (some (artifact_type, ext)) = elim (artifact_extension artifact_type) [
  | none ↦ raised value_error
  | some expected ↦ if not (str_eq ext expected) then raised value_error else ok artifact_type
]

uuid_of : Option ℕ → Outcome ℕ
uuid_of none = raised value_error
uuid_of (some u) = ok u

parse_parts : UuidText → List String → Outcome (ℕ × ℕ × String)
unfolding uuid_of artifact_of rsplit_dot
parse_parts uuid (root ∷ session ∷ flag ∷ file ∷ []) =
    if not (str_eq root "evidence")
    then raised value_error
    else uuid_of (uuid.parse session) >>= (λ s.
      uuid_of (uuid.parse flag)
      >>= (λ f. artifact_of (rsplit_dot file) >>= (λ artifact_type. ok (s, f, artifact_type))))
parse_parts uuid _ = raised value_error

-- "/" is the character 47.
unfoldable pub parse_storage_key : UuidText → String → Outcome (ℕ × ℕ × String)
unfolding parse_parts
parse_storage_key uuid key = parse_parts uuid (split_on 47 key)
