-- ===== src/Orchestration/AdminService/Reviews/Trail.antt =====
-- What a review leaves behind.
use ai_proctor_engine.Base.{
  ℕ, String, ◌==◌, ◌≡◌, refl, sym, ◌⊎◌, true, false, Option, some, List, [], ◌∷◌, ◌++◌, Replaced,
  here, there, Option-cases, Bool-cases, inl, inr, arith, subst,
}
use ai_proctor_engine.Orchestration.AdminService.{AdminUser, Answer, answer}
use ai_proctor_engine.Orchestration.StateMachine.{
  SessionStatus, active, completed, terminated, reinstated, under_review, pending,
  assert_transition, can_transition, allowed_targets,
}
use ai_proctor_engine.Orchestration.AdminService.Reviews.{
  ReviewDecision, upheld, overturned, annotated, needs_more_info, Flag, ExamSession, ProctorReview,
  ReviewTables, ReviewResult, get_flag, get_session, set_status, wanted, review_row, moved_tables,
  move_session, review_in, record_proctor_review,
}

-- Every status that a decision asks for may be reached.
wanted-allowed :
    (decision : ReviewDecision) (status target : SessionStatus)
    → wanted decision status ≡ some target
    → can_transition status target ≡ true
unfolding wanted can_transition allowed_targets
wanted-allowed upheld active target h = ground (arith, h)
wanted-allowed upheld terminated target h = ground (arith, h)
wanted-allowed upheld completed target h = ground (arith, h)
wanted-allowed upheld pending target h = ground (arith, h)
wanted-allowed upheld reinstated target h = ground (arith, h)
wanted-allowed upheld under_review target h = ground (arith, h)
wanted-allowed overturned active target h = ground (arith, h)
wanted-allowed overturned terminated target h = ground (arith, h)
wanted-allowed overturned completed target h = ground (arith, h)
wanted-allowed overturned pending target h = ground (arith, h)
wanted-allowed overturned reinstated target h = ground (arith, h)
wanted-allowed overturned under_review target h = ground (arith, h)
wanted-allowed annotated status target h = ground (arith, h)
wanted-allowed needs_more_info status target h = ground (arith, h)

-- The moves that decisions ask for: an upheld flag puts its session under review, unless that is
-- pending, reinstated or under review already, and an overturned one reinstates a terminated session.
pub data Asks : ReviewDecision → SessionStatus → SessionStatus → Type 0 where
  review_active : Asks upheld active under_review
  review_terminated : Asks upheld terminated under_review
  review_completed : Asks upheld completed under_review
  reinstate : Asks overturned terminated reinstated

wanted-Asks :
    (decision : ReviewDecision) (status target : SessionStatus)
    → wanted decision status ≡ some target
    → Asks decision status target
unfolding wanted
wanted-Asks upheld active target h = subst (Asks upheld active) (ground (arith, h)) review_active
wanted-Asks upheld terminated target h =
    subst (Asks upheld terminated) (ground (arith, h)) review_terminated
wanted-Asks upheld completed target h =
    subst (Asks upheld completed) (ground (arith, h)) review_completed
wanted-Asks upheld pending target h = ground (arith, h)
wanted-Asks upheld reinstated target h = ground (arith, h)
wanted-Asks upheld under_review target h = ground (arith, h)
wanted-Asks overturned active target h = ground (arith, h)
wanted-Asks overturned terminated target h =
    subst (Asks overturned terminated) (ground (arith, h)) reinstate
wanted-Asks overturned completed target h = ground (arith, h)
wanted-Asks overturned pending target h = ground (arith, h)
wanted-Asks overturned reinstated target h = ground (arith, h)
wanted-Asks overturned under_review target h = ground (arith, h)
wanted-Asks annotated status target h = ground (arith, h)
wanted-Asks needs_more_info status target h = ground (arith, h)

Asks-wanted :
    (decision : ReviewDecision) (status target : SessionStatus)
    → Asks decision status target
    → wanted decision status ≡ some target
unfolding wanted
Asks-wanted decision status target review_active = refl
Asks-wanted decision status target review_terminated = refl
Asks-wanted decision status target review_completed = refl
Asks-wanted decision status target reinstate = refl

get_session-id :
    (id : ℕ) (sessions : List ExamSession) (session : ExamSession)
    → get_session id sessions ≡ some session
    → (session.id == id) ≡ true
unfolding get_session
get_session-id id [] session h = ground (arith, h)
get_session-id id (s ∷ rest) session h = elim (Bool-cases (s.id == id)) [
  | inl e ↦
      let same : s ≡ session = ground (arith, h, e) in
      subst (λ (x : ExamSession). (x.id == id) ≡ true) same e
  | inr e ↦ get_session-id id rest session (ground (arith, h, e))
]

set_status-Replaced :
    (id : ℕ) (sessions : List ExamSession) (session : ExamSession) (target : SessionStatus)
    → get_session id sessions ≡ some session
    → Replaced
        (λ s. s.id == session.id)
        (record session { status = target })
        sessions
        (set_status session.id target sessions)
unfolding get_session set_status
set_status-Replaced id [] session target h = ground (arith, h)
set_status-Replaced id (s ∷ rest) session target h = elim (Bool-cases (s.id == id)) [
  | inl e ↦
      let same : s ≡ session = ground (arith, h, e) in
      subst
        (λ (x : ExamSession).
          Replaced (λ r. r.id == x.id) (record x { status = target }) (s ∷ rest)
            (set_status x.id target (s ∷ rest)))
        same
        (subst (Replaced (λ r. r.id == s.id) (record s { status = target }) (s ∷ rest))
          (ground arith) (here s rest (ground arith)))
  | inr e ↦
      let found : get_session id rest ≡ some session = ground (arith, h, e) in
      let own = get_session-id id rest session found in
      let other : (s.id == session.id) ≡ false = ground (arith, e, own) in
      subst (Replaced (λ r. r.id == session.id) (record session { status = target }) (s ∷ rest))
        (ground (arith, other))
        (there s rest (set_status session.id target rest) other
          (set_status-Replaced id rest session target found))
]

-- A review of a flag of this session that was recorded: its row comes after all the older ones and
-- the flags are as they were. Either the decision asks for no move, and no session changes, or the
-- flag's own session makes the move, which the state machine allows, and no other does.
pub record Recorded (review : ProctorReview) (session : ExamSession) (before : ReviewTables)
    (status : SessionStatus) (after : ReviewTables) : Type 0 where
  pub flags : after.flags ≡ before.flags
  pub appended : after.reviews ≡ before.reviews ++ (review ∷ [])
  pub sessions :
      (((target : SessionStatus) → ¬ (Asks review.decision session.status target))
        × (status ≡ session.status)
        × (after.sessions ≡ before.sessions))
      ⊎ ((Asks review.decision session.status status)
          × (can_transition session.status status ≡ true)
          × Replaced
              (λ s. s.id == session.id)
              (record session { status = status })
              before.sessions
              after.sessions)

-- The reply of a review that found its flag and its session.
abbrev pub Accepted :
    ProctorReview → ExamSession → ReviewTables → Answer ReviewResult × ReviewTables → Type 0
Accepted review session db reply =
    (r : ReviewResult) × (reply.0 ≡ answer r)
    × (r.review ≡ review)
    × Recorded review session db r.session_status reply.1

move_session-Accepted :
    (id : ℕ) (review : ProctorReview) (session : ExamSession) (db : ReviewTables)
    → get_session id db.sessions ≡ some session
    → Accepted review session db
        (move_session (wanted review.decision session.status) review session db)
unfolding move_session assert_transition
move_session-Accepted id review session db found =
    elim (Option-cases (wanted review.decision session.status)) [
      | inl e ↦
          subst (λ w. Accepted review session db (move_session w review session db)) (sym e)
            (
              record { review = review; session_status = session.status },
              refl,
              refl,
              record {
                flags = refl;
                appended = refl;
                sessions = inl (
                  λ target asks.
                      ground (arith, e, Asks-wanted review.decision session.status target asks),
                  refl,
                  refl,
                );
              },
            )
      | inr (target, e) ↦
          let may = wanted-allowed review.decision session.status target e in
          let done : move_session (some target) review session db ≡ (
            answer (record { review = review; session_status = target }),
            moved_tables review session target db,
          ) =
            ground (arith, may) in
          subst (λ w. Accepted review session db (move_session w review session db)) (sym e)
            (subst (Accepted review session db) (sym done) (
              record { review = review; session_status = target },
              refl,
              refl,
              record {
                flags = refl;
                appended = refl;
                sessions = inr (
                  wanted-Asks review.decision session.status target e,
                  may,
                  set_status-Replaced id db.sessions session target found,
                );
              },
            ))
    ]

-- A review of a flag that is there, of a session that is there, is always recorded: the state
-- machine never refuses the move that it asks for. The review's row is appended and the flags stay
-- as they were. An upheld flag, of whatever rule, puts its session under review, unless that is
-- pending, reinstated or under review already, and an overturned one reinstates a terminated
-- session; the reply has the session's new status, and no other session changes.
pub record_proctor_review-Recorded :
    (id flag_id : ℕ) (decision : ReviewDecision) (notes : Option String) (reviewer : AdminUser)
    (db : ReviewTables) (flag : Flag) (session : ExamSession)
    → get_flag flag_id db.flags ≡ some flag
    → get_session flag.exam_session_id db.sessions ≡ some session
    → let reply = record_proctor_review id flag_id decision notes reviewer db in
      (r : ReviewResult) × (reply.0 ≡ answer r)
      × (r.review ≡ review_row id flag_id decision notes reviewer)
      × Recorded (review_row id flag_id decision notes reviewer) session db r.session_status reply.1
unfolding record_proctor_review review_in
record_proctor_review-Recorded id flag_id decision notes reviewer db flag session h k =
    let review = review_row id flag_id decision notes reviewer in
    let done : record_proctor_review id flag_id decision notes reviewer db
        ≡ move_session (wanted decision session.status) review session db =
      ground (arith, h, k) in
    subst (Accepted review session db) (sym done)
      (move_session-Accepted flag.exam_session_id review session db k)
