-- ===== src/Tests/Admins.antt =====
-- The operations of the administrators on concrete tables.
use ai_proctor_engine.Base.{ℕ, ◌≡◌, refl, ◌==◌, true, false, none, some, List, [], ◌∷◌, ◌++◌, All}
use ai_proctor_engine.Tests.{thousandths}
use ai_proctor_engine.Inference.{end}
use ai_proctor_engine.Fusion.Types.{flag_for_review, medium_accumulate}
use ai_proctor_engine.Orchestration.FlagPersistence.{critical}
use ai_proctor_engine.Orchestration.StateMachine.{terminated}
use ai_proctor_engine.Orchestration.AdminService.{
  AdminUser, admin, proctor, head, AdminRole, answer,
}
use ai_proctor_engine.Orchestration.AdminService.Roles.{AdminRoleAudit, RoleTables, request_roles}
use ai_proctor_engine.Orchestration.AdminService.Roles.Escalation.{replay, request_roles-replay}
use ai_proctor_engine.Orchestration.AdminService.Overrides.{
  NewOverride, OverrideCall, create, approve, serve_overrides,
}
use ai_proctor_engine.Orchestration.AdminService.Overrides.TwoPersons.{
  Backed, serve_overrides-Backed,
}
use ai_proctor_engine.Orchestration.AdminService.Reviews.{
  Flag, ExamSession, ReviewTables, ReviewResult, overturned, get_flag, get_session, review_row,
  record_proctor_review,
}
use ai_proctor_engine.Orchestration.AdminService.Reviews.Trail.{
  Recorded, record_proctor_review-Recorded,
}
use ai_proctor_engine.Orchestration.AdminService.Policies.{PolicyConfig}
use ai_proctor_engine.Orchestration.AdminService.Thresholds.{PolicySettings, PolicyRequest}

abbrev dean : AdminUser
dean = record { id = 1; lms_user_reference = "dean"; role = head; department = none }

abbrev teacher : AdminUser
teacher = record { id = 2; lms_user_reference = "teacher"; role = admin; department = some "maths" }

abbrev staff : RoleTables
staff = record { admin_users = dean ∷ teacher ∷ []; audits = [] }

-- The teacher asks for its own promotion, then for the dean's demotion.
abbrev requests : List (ℕ × ℕ × AdminRole)
requests = (2, 2, head) ∷ (2, 1, proctor) ∷ (9, 1, admin) ∷ []

request_roles-replay_example :
    let after = request_roles requests staff in
    (news : List AdminRoleAudit) × (after.audits ≡ staff.audits ++ news)
    × (after.admin_users ≡ replay news staff.admin_users)
    × All (λ a. (a.changed_by_admin_id == a.target_admin_id) ≡ false) news
request_roles-replay_example = request_roles-replay requests staff

abbrev request_override : NewOverride
request_override = record {
  exam_session_id = 5;
  department = "maths";
  reason = "no camera";
  valid_from = 10;
  valid_until = 20;
}

abbrev override_calls : List OverrideCall
override_calls = create 7 request_override teacher ∷ approve 7 teacher 11 ∷ approve 7 dean 12 ∷ []

serve_overrides-Backed_example :
    All
      (Backed override_calls)
      (serve_overrides override_calls (record { sessions = 5 ∷ []; overrides = [] })).overrides
serve_overrides-Backed_example = serve_overrides-Backed override_calls (5 ∷ [])

abbrev flag : Flag
flag = record { id = 11; exam_session_id = 5; suppressed_by_exemption_id = none }

abbrev ended_session : ExamSession
ended_session = record { id = 5; status = terminated }

abbrev tables : ReviewTables
tables = record { flags = flag ∷ []; sessions = ended_session ∷ []; reviews = [] }

record_proctor_review-Recorded_example :
    let reply = record_proctor_review 21 11 overturned none dean tables in
    (r : ReviewResult) × (reply.0 ≡ answer r)
    × (r.review ≡ review_row 21 11 overturned none dean)
    × Recorded (review_row 21 11 overturned none dean) ended_session tables r.session_status reply.1
unfolding get_flag get_session
record_proctor_review-Recorded_example =
    record_proctor_review-Recorded 21 11 overturned none dean tables flag ended_session refl refl

abbrev settings : PolicySettings ℕ
settings = record {
  termination_severity = critical;
  terminate_on_second_face = true;
  second_face_confirmation_frames = 2;
  gaze_min_duration_ms = 100;
  gaze_window_seconds = 60;
  gaze_warning_limit = 1;
  gaze_termination_limit = 2;
  medium_score_termination_threshold = 1500;
  medium_score_action = flag_for_review;
  liveness_check_enabled = true;
  liveness_check_action = some medium_accumulate;
  liveness_score_threshold = 500;
  liveness_confirmation_frames = 2;
  identity_similarity_threshold = 500;
  identity_confirmation_frames = 2;
  audio_noise_floor_dbfs = 0;
  audio_speech_ratio_threshold = 500;
  extra_rules = end;
}

abbrev request : PolicyRequest ℕ
request = record { name = "finals"; settings = settings; is_active = true; retire_previous = true }

abbrev policies : List (PolicyConfig ℕ)
policies =
    record {
      id = 3;
      name = "finals";
      version = 1;
      is_active = true;
      retired_at = none;
      created_by_id = 1;
      settings = settings;
    }
    ∷ []
