-- ===== src/Orchestration/AdminService/Exemptions.antt =====
-- The registry of accommodation exemptions: `create_exemption`, `_validate_exemption_request` and
-- `list_exemptions`, with the constraints of the request's model (orchestration/_schemas.py) and of
-- the table (`AccommodationExemption` of models.py).
pub mod Registry
use ai_proctor_engine.Base.{
  ℕ, String, str_eq, ◌==◌, leb, Bool, true, not, ◌&&◌, Option, none, some, List, [], ◌∷◌, ◌++◌, any,
  keep, if◌then◌else◌,
}
use Prim.Native.String.{len}
use mathlib.Core.List.{reverse}
use ai_proctor_engine.Orchestration.AdminService.{
  AdminUser, exemption_validation, Answer, answer, refused,
}

-- `CreateExemptionRequest`
pub record ExemptionRequest : Type 0 where
  pub participant_id : ℕ
  pub exam_reference : String
  pub object_class : String
  pub approval_reason : String
  pub effective_at : ℕ
  pub expires_at : Option ℕ

pub record AccommodationExemption : Type 0 where
  pub id : ℕ
  pub participant_id : ℕ
  pub exam_reference : String
  pub object_class : String
  pub approved_by : String
  pub approved_by_admin_id : ℕ
  pub approval_reason : String
  pub effective_at : ℕ
  pub expires_at : Option ℕ

-- The ids of the participants and of the administrators, to which a row refers, and the exemptions
-- in the order of their creation.
pub record ExemptionTables : Type 0 where
  pub participants : List ℕ
  pub admin_users : List ℕ
  pub exemptions : List AccommodationExemption

expires_after : ℕ → Option ℕ → Bool
expires_after effective_at none = true
expires_after effective_at (some expires_at) = not (leb expires_at effective_at)

sized : ℕ → String → Bool
sized most s = leb 1 (len s) && leb (len s) most

-- The constraints of the request's fields.
unfoldable pub request_valid : ExemptionRequest → Bool
unfolding sized
request_valid r =
    sized 512 r.exam_reference && (sized 128 r.object_class && leb 1 (len r.approval_reason))

unfoldable pub validate_exemption_request : ExemptionRequest → Bool
unfolding expires_after
validate_exemption_request r = expires_after r.effective_at r.expires_at

abbrev pub exemption_row : ℕ → ExemptionRequest → AdminUser → AccommodationExemption
exemption_row id request approver = record {
  id = id;
  participant_id = request.participant_id;
  exam_reference = request.exam_reference;
  object_class = request.object_class;
  approved_by = approver.lms_user_reference;
  approved_by_admin_id = approver.id;
  approval_reason = request.approval_reason;
  effective_at = request.effective_at;
  expires_at = request.expires_at;
}

-- Whether the commit of a row keeps the check of the table and its two references.
unfoldable pub insertable : AccommodationExemption → ExemptionTables → Bool
unfolding expires_after
insertable row db =
    expires_after row.effective_at row.expires_at
    && (any (λ p. p == row.participant_id) db.participants
        && any (λ a. a == row.approved_by_admin_id) db.admin_users)

unfoldable pub create_exemption :
    ℕ
    → ExemptionRequest
    → AdminUser
    → ExemptionTables
    → Answer AccommodationExemption × ExemptionTables
unfolding validate_exemption_request insertable
create_exemption id request approver db =
    if not (validate_exemption_request request)
    then (refused exemption_validation, db)
    else if not (insertable (exemption_row id request approver) db)
    then (refused exemption_validation, db)
    else (
      answer (exemption_row id request approver),
      record db { exemptions = db.exemptions ++ (exemption_row id request approver ∷ []) },
    )

of_participant : Option ℕ → AccommodationExemption → Bool
of_participant none e = true
of_participant (some p) e = e.participant_id == p

of_class : Option String → AccommodationExemption → Bool
of_class none e = true
of_class (some c) e = str_eq e.object_class c

-- The filters stack, and the newest row is first.
unfoldable pub list_exemptions :
    Option ℕ → Option String → ExemptionTables → List AccommodationExemption
unfolding of_participant of_class
list_exemptions participant object_class db =
    keep (λ e. of_participant participant e && of_class object_class e) (reverse db.exemptions)
