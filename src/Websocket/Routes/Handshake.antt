-- ===== src/Websocket/Routes/Handshake.antt =====
-- What happens before a connection carries messages (`_extract_token_from_subprotocol`,
-- `_echo_subprotocol`, `_lookup_session`, `_activate_session` and the first part of
-- `websocket_endpoint` of websocket/routes.py). The token's signature and UUID's parser are not of
-- this code, so they are arguments, as is whether the identity backend can be constructed.
pub mod Admission
pub mod Rows
use ai_proctor_engine.Base.{
  ℕ, String, str_eq, ◌==◌, ltb, leb, length, Bool, true, false, not, ◌&&◌, ◌||◌, Option, none, some,
  List, [], ◌∷◌, ◌++◌, any, keep, map, if◌then◌else◌,
}
use ai_proctor_engine.Base.Strings.{split_on, strip, skip}
use text.Mathlib.Text.{starts_with}
use ai_proctor_engine.Lti.Roles.{AppRole, learner}
use ai_proctor_engine.Orchestration.StateMachine.{
  SessionStatus, pending, active, completed, terminated, reinstated, under_review,
}
use ai_proctor_engine.Orchestration.AdminService.Overrides.{OverrideRequest, status_code}

abbrev pub subprotocol_prefix : String
subprotocol_prefix = "proctoring-v1."

-- The offered values that carry the prefix; the prefix has 14 characters, and "," is 44.
matching : String → List String
matching raw =
    keep (λ v. starts_with v subprotocol_prefix)
      (keep (λ v. not (str_eq v "")) (map strip (split_on 44 raw)))

the_one : List String → Option String
the_one (v ∷ []) = some v
the_one _ = none

unfoldable pub echo_subprotocol : Option String → Option String
unfolding the_one matching
echo_subprotocol none = none
echo_subprotocol (some raw) = if str_eq raw "" then none else the_one (matching raw)

after_prefix : Option String → Option String
after_prefix none = none
after_prefix (some v) = some (skip 14 v)

unfoldable pub extract_token_from_subprotocol : Option String → Option String
unfolding the_one matching after_prefix
extract_token_from_subprotocol none = none
extract_token_from_subprotocol (some raw) =
    if str_eq raw "" then none else after_prefix (the_one (matching raw))

-- What the endpoint reads of the claims.
pub record SessionClaims : Type 0 where
  pub subject : String
  pub session_id : String
  pub role : AppRole

-- `decode_session_token`
pub data Decoded : Type 0 where
  claims : SessionClaims → Decoded
  expired invalid : Decoded

pub record ExamSession : Type 0 where
  pub id : ℕ
  pub status : SessionStatus
  pub consent_recorded_at : Option ℕ
  pub identity_unavailable : Bool

-- A termination that no flag triggered.
pub record TerminationRecord : Type 0 where
  pub exam_session_id : ℕ
  pub reason : String

pub record Tables : Type 0 where
  pub sessions : List ExamSession
  pub overrides : List OverrideRequest
  pub terminations : List TerminationRecord

-- The close codes.
pub data CloseCode : Type 0 where
  auth_failed auth_expired session_invalid session_mismatch not_learner protocol_error
        heartbeat_timeout identity_backend_unavailable consent_required :
      CloseCode

unfoldable pub code_number : CloseCode → ℕ
code_number auth_failed = 4001
code_number auth_expired = 4002
code_number session_invalid = 4003
code_number session_mismatch = 4004
code_number not_learner = 4005
code_number protocol_error = 4006
code_number heartbeat_timeout = 4007
code_number identity_backend_unavailable = 4008
code_number consent_required = 4009

-- The connection is closed, goes on for a session, or is left by an exception; the flag is the one
-- for the dispatcher.
pub data Handshake : Type 0 where
  closed : CloseCode → Handshake
  opened : SessionClaims → ExamSession → Bool → Handshake
  crashed : Handshake

-- What the endpoint calls, and the time of the database.
pub record Services : Type 0 where
  pub decode_session_token : String → Decoded
  pub uuid : String → Option ℕ
  pub backend_available : Bool
  pub now : ℕ

unfoldable pub connectable : SessionStatus → Bool
connectable pending = true
connectable active = true
connectable _ = false

find_connectable : ℕ → List ExamSession → Option ExamSession
unfolding connectable
find_connectable sid [] = none
find_connectable sid (s ∷ rest) =
    let found = find_connectable sid rest in
    if (s.id == sid) && connectable s.status then some s else found

unfoldable pub lookup_session : Services → String → Tables → Option ExamSession
unfolding find_connectable
lookup_session services session_id db = elim (services.uuid session_id) [
  | none ↦ none
  | some sid ↦ find_connectable sid db.sessions
]

-- The row of a session as it is stored again.
unfoldable pub store_session : ExamSession → List ExamSession → List ExamSession
store_session s [] = []
store_session s (r ∷ rest) =
    let others = store_session s rest in if r.id == s.id then s ∷ rest else r ∷ others

-- `_activate_session`: the row in memory, and the table. Only a pending session is committed.
unfoldable pub activate : SessionStatus → SessionStatus
activate pending = active
activate other = other

unfoldable pub activated : ExamSession → ExamSession
unfolding activate
activated s = record s { status = activate s.status }

is_pending : SessionStatus → Bool
is_pending pending = true
is_pending _ = false

unfoldable pub activate_session : ExamSession → Tables → Tables
unfolding activated is_pending store_session
activate_session s db =
    if is_pending s.status
    then record db { sessions = store_session (activated s) db.sessions }
    else db

-- An approved override of the session that is in its time.
unfoldable pub covers : ℕ → ExamSession → OverrideRequest → Bool
unfolding status_code
covers now s o =
    (o.exam_session_id == s.id)
    && ((status_code o.status == 1) && (leb o.valid_from now && leb now o.valid_until))

-- The three cases of the identity backend. Without it and without an override the session ends. The
-- query takes one override at most, and several raise `MultipleResultsFound`.
unfoldable pub admit : Services → SessionClaims → ExamSession → Tables → Handshake × Tables
unfolding activated activate_session covers store_session
admit services c s db =
    if services.backend_available
    then (opened c (activated s) false, activate_session s db)
    else if ltb 1 (length (keep (covers services.now s) db.overrides))
    then (crashed, db)
    else if any (covers services.now s) db.overrides
    then (
      opened c (activated (record s { identity_unavailable = true })) true,
      activate_session (record s { identity_unavailable = true }) db,
    )
    else (
      closed identity_backend_unavailable,
      record db {
        sessions = store_session (record s { status = terminated }) db.sessions;
        terminations =
            db.terminations
            ++ (record {
              exam_session_id = s.id;
              reason = "identity_backend_unavailable_no_override";
            }
                ∷ []);
      },
    )

unfoldable pub has_consent : Option ℕ → Bool
has_consent none = false
has_consent (some at) = true

unfoldable pub is_learner : AppRole → Bool
is_learner learner = true
is_learner _ = false

with_claims : Services → Decoded → Tables → Handshake × Tables
unfolding has_consent is_learner admit lookup_session
with_claims services expired db = (closed auth_expired, db)
with_claims services invalid db = (closed auth_failed, db)
with_claims services (claims c) db =
    if not (is_learner c.role)
    then (closed not_learner, db)
    else elim (lookup_session services c.session_id db) [
      | none ↦ (closed session_invalid, db)
      | some s ↦
          if not (has_consent s.consent_recorded_at)
          then (closed consent_required, db)
          else admit services c s db
    ]

-- The endpoint up to the start of the dispatcher, from the subprotocol header.
unfoldable pub handshake : Services → Option String → Tables → Handshake × Tables
unfolding with_claims extract_token_from_subprotocol
handshake services header db = elim (extract_token_from_subprotocol header) [
  | none ↦ (closed auth_failed, db)
  | some token ↦ with_claims services (services.decode_session_token token) db
]
