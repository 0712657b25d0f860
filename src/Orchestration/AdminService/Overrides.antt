-- ===== src/Orchestration/AdminService/Overrides.antt =====
-- The override requests of identity checks: `create_identity_override_request`,
-- `list_identity_override_requests`, `approve_identity_override_request` and
-- `reject_identity_override_request`.
pub mod TwoPersons
use ai_proctor_engine.Base.{
  ℕ, String, str_eq, ◌==◌, leb, Bool, true, false, not, ◌&&◌, Option, none, some, List, [], ◌∷◌,
  ◌++◌, any, keep, if◌then◌else◌,
}
use mathlib.Core.List.{reverse}
use ai_proctor_engine.Orchestration.AdminService.{
  AdminRole, head, AdminUser, AdminServiceError, flag_not_found, exemption_validation,
  override_not_found, self_approval_or_role, Answer, answer, refused, same_role, role_code,
}

pub data OverrideStatus : Type 0 where
  pending approved rejected : OverrideStatus

unfoldable pub status_code : OverrideStatus → ℕ
status_code pending = 0
status_code approved = 1
status_code rejected = 2

pub record OverrideRequest : Type 0 where
  pub id : ℕ
  pub exam_session_id : ℕ
  pub requested_by_admin_id : ℕ
  pub department : String
  pub reason : String
  pub status : OverrideStatus
  pub approved_by_admin_id : Option ℕ
  pub valid_from : ℕ
  pub valid_until : ℕ
  pub decided_at : Option ℕ

-- `CreateIdentityOverrideRequest`
pub record NewOverride : Type 0 where
  pub exam_session_id : ℕ
  pub department : String
  pub reason : String
  pub valid_from : ℕ
  pub valid_until : ℕ

-- The ids of the exam sessions, and the requests in the order of their creation.
pub record OverrideTables : Type 0 where
  pub sessions : List ℕ
  pub overrides : List OverrideRequest

abbrev pub new_override : ℕ → NewOverride → AdminUser → OverrideRequest
new_override id request by = record {
  id = id;
  exam_session_id = request.exam_session_id;
  requested_by_admin_id = by.id;
  department = request.department;
  reason = request.reason;
  status = pending;
  approved_by_admin_id = none;
  valid_from = request.valid_from;
  valid_until = request.valid_until;
  decided_at = none;
}

unfoldable pub create_identity_override_request :
    ℕ → NewOverride → AdminUser → OverrideTables → Answer OverrideRequest × OverrideTables
create_identity_override_request id request by db =
    if not (any (λ s. s == request.exam_session_id) db.sessions)
    then (refused flag_not_found, db)
    else if leb request.valid_until request.valid_from
    then (refused exemption_validation, db)
    else (
      answer (new_override id request by),
      record db { overrides = db.overrides ++ (new_override id request by ∷ []) },
    )

unfoldable pub find_override : ℕ → List OverrideRequest → Option OverrideRequest
find_override id [] = none
find_override id (o ∷ rest) =
    let found = find_override id rest in if o.id == id then some o else found

abbrev pub decided : OverrideStatus → ℕ → ℕ → OverrideRequest → OverrideRequest
decided status by now o = record o {
  status = status;
  approved_by_admin_id = some by;
  decided_at = some now;
}

-- The row with the id, decided.
unfoldable pub decide_row : ℕ → OverrideStatus → ℕ → ℕ → List OverrideRequest → List OverrideRequest
decide_row id status by now [] = []
decide_row id status by now (o ∷ rest) =
    let others = decide_row id status by now rest in
    if o.id == id then decided status by now o ∷ rest else o ∷ others

approve_found :
    Option OverrideRequest
    → ℕ
    → AdminUser
    → ℕ
    → OverrideTables
    → Answer OverrideRequest × OverrideTables
unfolding decide_row role_code
approve_found none id by now db = (refused override_not_found, db)
approve_found (some o) id by now db =
    if not (same_role by.role head)
    then (refused self_approval_or_role, db)
    else if by.id == o.requested_by_admin_id
    then (refused self_approval_or_role, db)
    else (
      answer (decided approved by.id now o),
      record db { overrides = decide_row id approved by.id now db.overrides },
    )

unfoldable pub approve_identity_override_request :
    ℕ → AdminUser → ℕ → OverrideTables → Answer OverrideRequest × OverrideTables
unfolding approve_found find_override
approve_identity_override_request id by now db =
    approve_found (find_override id db.overrides) id by now db

reject_found :
    Option OverrideRequest
    → ℕ
    → AdminUser
    → ℕ
    → OverrideTables
    → Answer OverrideRequest × OverrideTables
unfolding decide_row
reject_found none id by now db = (refused override_not_found, db)
reject_found (some o) id by now db = (
  answer (decided rejected by.id now o),
  record db { overrides = decide_row id rejected by.id now db.overrides },
)

unfoldable pub reject_identity_override_request :
    ℕ → AdminUser → ℕ → OverrideTables → Answer OverrideRequest × OverrideTables
unfolding reject_found find_override
reject_identity_override_request id by now db =
    reject_found (find_override id db.overrides) id by now db

matches : (ℕ → Bool) → Option ℕ → Bool
matches test none = true
matches test (some x) = test x

text_matches : String → Option String → Bool
text_matches s none = true
text_matches s (some t) = str_eq s t

status_matches : OverrideStatus → Option OverrideStatus → Bool
unfolding status_code
status_matches s none = true
status_matches s (some t) = status_code s == status_code t

-- The filters stack, and the newest request is first.
unfoldable pub list_identity_override_requests :
    Option ℕ → Option String → Option OverrideStatus → OverrideTables → List OverrideRequest
unfolding matches text_matches status_matches
list_identity_override_requests session department status db =
    keep
      (λ o.
        matches (λ s. o.exam_session_id == s) session
        && (text_matches o.department department && status_matches o.status status))
      (reverse db.overrides)

-- The calls of the routes.
pub data OverrideCall : Type 0 where
  create : ℕ → NewOverride → AdminUser → OverrideCall
  approve reject : ℕ → AdminUser → ℕ → OverrideCall

unfoldable pub serve_override : OverrideCall → OverrideTables → OverrideTables
unfolding create_identity_override_request approve_identity_override_request
    reject_identity_override_request
serve_override (create id request by) db = (create_identity_override_request id request by db).1
serve_override (approve id by now) db = (approve_identity_override_request id by now db).1
serve_override (reject id by now) db = (reject_identity_override_request id by now db).1

unfoldable pub serve_overrides : List OverrideCall → OverrideTables → OverrideTables
serve_overrides [] db = db
serve_overrides (c ∷ cs) db = serve_overrides cs (serve_override c db)
