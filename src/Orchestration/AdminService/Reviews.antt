-- ===== src/Orchestration/AdminService/Reviews.antt =====
-- The flags of a session and their reviews: `list_flags_for_session`, `assert_session_exists` and
-- `record_proctor_review`.
pub mod Trail
use ai_proctor_engine.Base.{
  ℕ, String, ◌==◌, ◌+◌, Bool, true, false, not, ◌&&◌, ◌||◌, Option, none, some, List, [], ◌∷◌, ◌++◌,
  keep, if◌then◌else◌,
}
use ai_proctor_engine.Orchestration.AdminService.{
  AdminUser, AdminServiceError, flag_not_found, review_transition, Answer, answer, refused,
}
use ai_proctor_engine.Orchestration.StateMachine.{
  SessionStatus, active, completed, terminated, reinstated, under_review, pending, Move, moved,
  assert_transition,
}
use ai_proctor_engine.Orchestration.StateMachine as Machine

pub data ReviewDecision : Type 0 where
  upheld overturned annotated needs_more_info : ReviewDecision

-- What the service reads of a flag.
pub record Flag : Type 0 where
  pub id : ℕ
  pub exam_session_id : ℕ
  pub suppressed_by_exemption_id : Option ℕ

pub record ExamSession : Type 0 where
  pub id : ℕ
  pub status : SessionStatus

pub record ProctorReview : Type 0 where
  pub id : ℕ
  pub flag_id : ℕ
  pub reviewer_reference : String
  pub reviewer_admin_id : ℕ
  pub decision : ReviewDecision
  pub notes : Option String

-- The rows in the order of their creation.
pub record ReviewTables : Type 0 where
  pub flags : List Flag
  pub sessions : List ExamSession
  pub reviews : List ProctorReview

pub record ReviewResult : Type 0 where
  pub review : ProctorReview
  pub session_status : SessionStatus

unfoldable pub get_flag : ℕ → List Flag → Option Flag
get_flag id [] = none
get_flag id (f ∷ rest) = let found = get_flag id rest in if f.id == id then some f else found

unfoldable pub get_session : ℕ → List ExamSession → Option ExamSession
get_session id [] = none
get_session id (s ∷ rest) = let found = get_session id rest in if s.id == id then some s else found

unfoldable pub set_status : ℕ → SessionStatus → List ExamSession → List ExamSession
set_status id status [] = []
set_status id status (s ∷ rest) =
    let others = set_status id status rest in
    if s.id == id then record s { status = status } ∷ rest else s ∷ others

is_suppressed : Option ℕ → Bool
is_suppressed none = false
is_suppressed (some id) = true

visible_from : Bool → List Flag → List Flag × ℕ
unfolding is_suppressed
visible_from include [] = ([], 0)
visible_from include (f ∷ rest) =
    let (visible, omitted) = visible_from include rest in
    if is_suppressed f.suppressed_by_exemption_id && not include
    then (visible, omitted + 1)
    else (f ∷ visible, omitted)

-- The visible flags, and how many were left out.
unfoldable pub list_flags_for_session : ℕ → Bool → ReviewTables → List Flag × ℕ
unfolding visible_from
list_flags_for_session session_id include_suppressed db =
    visible_from include_suppressed (keep (λ f. f.exam_session_id == session_id) db.flags)

unfoldable pub assert_session_exists : ℕ → ReviewTables → Answer ExamSession
unfolding get_session
assert_session_exists id db = elim (get_session id db.sessions) [
  | none ↦ refused flag_not_found
  | some session ↦ answer session
]

-- The status that the decision asks for, if it asks for one.
unfoldable pub wanted : ReviewDecision → SessionStatus → Option SessionStatus
wanted upheld active = some under_review
wanted upheld terminated = some under_review
wanted upheld completed = some under_review
wanted overturned terminated = some reinstated
wanted _ _ = none

abbrev pub review_row : ℕ → ℕ → ReviewDecision → Option String → AdminUser → ProctorReview
review_row id flag_id decision notes reviewer = record {
  id = id;
  flag_id = flag_id;
  reviewer_reference = reviewer.lms_user_reference;
  reviewer_admin_id = reviewer.id;
  decision = decision;
  notes = notes;
}

abbrev pub moved_tables : ProctorReview → ExamSession → SessionStatus → ReviewTables → ReviewTables
moved_tables review session target db = record db {
  sessions = set_status session.id target db.sessions;
  reviews = db.reviews ++ (review ∷ []);
}

-- The transition is asserted before the field is set; the review and the status are committed
-- together. An error leaves what was flushed uncommitted.
move_session :
    Option SessionStatus
    → ProctorReview
    → ExamSession
    → ReviewTables
    → Answer ReviewResult × ReviewTables
unfolding set_status
move_session none review session db = (
  answer (record { review = review; session_status = session.status }),
  record db { reviews = db.reviews ++ (review ∷ []) },
)
move_session (some target) review session db = elim (assert_transition session.status target) [
  | Machine.refused e ↦ (refused review_transition, db)
  | moved ↦ (
    answer (record { review = review; session_status = target }),
    moved_tables review session target db,
  )
]

review_in : Option ExamSession → ProctorReview → ReviewTables → Answer ReviewResult × ReviewTables
unfolding move_session wanted
review_in none review db = (refused flag_not_found, db)
review_in (some session) review db =
    move_session (wanted review.decision session.status) review session db

unfoldable pub record_proctor_review :
    ℕ
    → ℕ
    → ReviewDecision
    → Option String
    → AdminUser
    → ReviewTables
    → Answer ReviewResult × ReviewTables
unfolding review_in get_flag get_session
record_proctor_review id flag_id decision notes reviewer db = elim (get_flag flag_id db.flags) [
  | none ↦ (refused flag_not_found, db)
  | some flag ↦
      review_in (get_session flag.exam_session_id db.sessions)
        (review_row id flag_id decision notes reviewer) db
]
