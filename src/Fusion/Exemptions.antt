-- ===== src/Fusion/Exemptions.antt =====
-- The match of a detection against the accommodation exemptions (fusion/exemptions.py).
pub mod Matching
use ai_proctor_engine.Base.{
  ℕ, String, str_eq, Bool, true, false, not, Option, none, some, List, [], ◌∷◌, ◌==◌, ltb, leb,
  if◌then◌else◌,
}
use ai_proctor_engine.Fusion.Types.{ExemptionRecord}

abbrev pub suppressed_severity : String
suppressed_severity = "low"

-- `ex.expires_at is not None and now >= ex.expires_at`
has_expired : ℕ → Option ℕ → Bool
has_expired now none = false
has_expired now (some at) = leb at now

unfoldable pub find_matching_exemption :
    ℕ → String → String → ℕ → List ExemptionRecord → Option ExemptionRecord
unfolding has_expired
find_matching_exemption participant_id object_class exam_reference now [] = none
find_matching_exemption participant_id object_class exam_reference now (ex ∷ rest) =
    let next = find_matching_exemption participant_id object_class exam_reference now rest in
    if not (ex.participant_id == participant_id)
    then next
    else if not (str_eq ex.object_class object_class)
    then next
    else if not (str_eq ex.exam_reference exam_reference)
    then next
    else if ltb now ex.effective_at
    then next
    else if has_expired now ex.expires_at
    then next
    else some ex
