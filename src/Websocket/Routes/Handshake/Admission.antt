-- ===== src/Websocket/Routes/Handshake/Admission.antt =====
-- Who gets a connection, and what the handshake does to the database.
use ai_proctor_engine.Base.{
  String, ◌==◌, ◌≡◌, ◌⊎◌, true, false, not, Option, some, [], ◌∷◌, ◌++◌, any, keep, length, ltb,
  if◌then◌else◌, none, Replaced,
}
use ai_proctor_engine.Orchestration.StateMachine.{pending, active, terminated}
use ai_proctor_engine.Websocket.Routes.Handshake.{
  SessionClaims, claims, expired, invalid, ExamSession, Tables, CloseCode,
  identity_backend_unavailable, auth_expired, auth_failed, not_learner, session_invalid,
  consent_required, Handshake, closed, opened, crashed, Services, extract_token_from_subprotocol,
  is_learner, has_consent, lookup_session, covers,
}

-- The session of a row is open to a learner: its token is verified, it is a learner's, the row of its
-- session is found and has consent.
pub record Vetted (services : Services) (header : Option String) (db : Tables) (c : SessionClaims)
    (row : ExamSession) : Type 0 where
  pub token : String
  pub offered : extract_token_from_subprotocol header ≡ some token
  pub verified : services.decode_session_token token ≡ claims c
  pub learner : is_learner c.role ≡ true
  pub found : lookup_session services c.session_id db ≡ some row
  pub consent : has_consent row.consent_recorded_at ≡ true

-- The row goes on as active, marked where the identity backend is missing.
abbrev pub running : Services → ExamSession → ExamSession
running services row = record row {
  status = active;
  identity_unavailable = if services.backend_available then row.identity_unavailable else true;
}

-- Everything that a connection was let in on, with what it does to the tables: the row of a pending
-- session becomes the running one, and nothing else changes.
pub record Admitted (services : Services) (header : Option String) (db : Tables) (c : SessionClaims)
    (row : ExamSession) (after : Tables) : Type 0 where
  pub vetted : Vetted services header db c row
  pub checked :
      (services.backend_available ≡ true)
      ⊎ ((length (keep (covers services.now row) db.overrides) ≡ 1))
  pub sessions :
      ((row.status ≡ pending)
        × Replaced (λ r. r.id == row.id) (running services row) db.sessions after.sessions)
      ⊎ ((row.status ≡ active) × (after.sessions ≡ db.sessions))
  pub overrides : after.overrides ≡ db.overrides
  pub terminations : after.terminations ≡ db.terminations

-- Why a connection is refused, with the code for it.
pub data Refusal (services : Services) (header : Option String) (db : Tables)
    : CloseCode → Type 0 where
  no_token : extract_token_from_subprotocol header ≡ none → Refusal services header db auth_failed
  invalid_token :
      (token : String)
      → extract_token_from_subprotocol header ≡ some token
      → services.decode_session_token token ≡ invalid
      → Refusal services header db auth_failed
  expired_token :
      (token : String)
      → extract_token_from_subprotocol header ≡ some token
      → services.decode_session_token token ≡ expired
      → Refusal services header db auth_expired
  other_role :
      (token : String) (c : SessionClaims)
      → extract_token_from_subprotocol header ≡ some token
      → services.decode_session_token token ≡ claims c
      → is_learner c.role ≡ false
      → Refusal services header db not_learner
  no_session :
      (token : String) (c : SessionClaims)
      → extract_token_from_subprotocol header ≡ some token
      → services.decode_session_token token ≡ claims c
      → is_learner c.role ≡ true
      → lookup_session services c.session_id db ≡ none
      → Refusal services header db session_invalid
  no_consent :
      (token : String) (c : SessionClaims) (row : ExamSession)
      → extract_token_from_subprotocol header ≡ some token
      → services.decode_session_token token ≡ claims c
      → is_learner c.role ≡ true
      → lookup_session services c.session_id db ≡ some row
      → has_consent row.consent_recorded_at ≡ false
      → Refusal services header db consent_required

-- A session that is ended for want of the identity check, and what that does to the tables.
pub record Terminated (row : ExamSession) (db after : Tables) : Type 0 where
  pub sessions :
      Replaced (λ r. r.id == row.id) (record row { status = terminated }) db.sessions after.sessions
  pub overrides : after.overrides ≡ db.overrides
  pub terminations :
      after.terminations
      ≡ db.terminations
        ++ (record { exam_session_id = row.id; reason = "identity_backend_unavailable_no_override" }
            ∷ [])

-- How a handshake ends: with a running session, refused, left by the exception of a query that met
-- several overrides, or with the session ended for want of the identity check.
pub data Ending (services : Services) (header : Option String) (db : Tables)
    : Handshake × Tables → Type 0 where
  admitted :
      (c : SessionClaims) (row : ExamSession) (after : Tables)
      → Admitted services header db c row after
      → Ending services header db
          (opened c (running services row) (not services.backend_available), after)
  refused :
      (code : CloseCode)
      → Refusal services header db code
      → Ending services header db (closed code, db)
  failed :
      (c : SessionClaims) (row : ExamSession)
      → Vetted services header db c row
      → services.backend_available ≡ false
      → ltb 1 (length (keep (covers services.now row) db.overrides)) ≡ true
      → Ending services header db (crashed, db)
  ended :
      (c : SessionClaims) (row : ExamSession) (after : Tables)
      → Vetted services header db c row
      → services.backend_available ≡ false
      → any (covers services.now row) db.overrides ≡ false
      → Terminated row db after
      → Ending services header db (closed identity_backend_unavailable, after)
