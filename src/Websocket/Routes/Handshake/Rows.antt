-- ===== src/Websocket/Routes/Handshake/Rows.antt =====
-- The row of a session in the table, from its search to its storing.
use ai_proctor_engine.Base.{
  ℕ, String, ◌==◌, ◌≡◌, refl, sym, subst, ◌⊎◌, Bool, true, ◌&&◌, some, List, [], ◌∷◌, ap, Replaced,
  here, there, Bool-cases, Option-cases, inl, inr, arith,
}
use ai_proctor_engine.Orchestration.StateMachine.{
  SessionStatus, pending, active, completed, terminated, reinstated, under_review,
}
use ai_proctor_engine.Websocket.Routes.Handshake.{
  ExamSession, Tables, Services, lookup_session, activate, activated, store_session, connectable,
  find_connectable, activate_session, is_pending,
}

connectable-cases :
    (status : SessionStatus) → connectable status ≡ true → (status ≡ pending) ⊎ (status ≡ active)
unfolding connectable
connectable-cases pending h = inl refl
connectable-cases active h = inr refl
connectable-cases completed h = ground (arith, h)
connectable-cases terminated h = ground (arith, h)
connectable-cases reinstated h = ground (arith, h)
connectable-cases under_review h = ground (arith, h)

-- The row is found by its id and can be connected to, so it is stored again in its place.
pub record Stored (row : ExamSession) (rows : List ExamSession) : Type 0 where
  pub status : (row.status ≡ pending) ⊎ (row.status ≡ active)
  pub replaced :
      (s : ExamSession)
      → s.id ≡ row.id
      → Replaced (λ r. r.id == row.id) s rows (store_session s rows)

store-here :
    (row s : ExamSession) (rest : List ExamSession)
    → s.id ≡ row.id
    → Replaced (λ r. r.id == row.id) s (row ∷ rest) (store_session s (row ∷ rest))
unfolding store_session
store-here row s rest same =
    subst (Replaced (λ r. r.id == row.id) s (row ∷ rest)) (ground (arith, same))
      (here row rest (ground arith))

store-there :
    (r row s : ExamSession) (rest : List ExamSession)
    → s.id ≡ row.id
    → Replaced (λ r. r.id == row.id) s rest (store_session s rest)
    → Replaced (λ r. r.id == row.id) s (r ∷ rest) (store_session s (r ∷ rest))
unfolding store_session
store-there r row s rest same later = elim (Bool-cases (r.id == row.id)) [
  | inl e ↦
      subst (Replaced (λ r. r.id == row.id) s (r ∷ rest)) (ground (arith, same, e)) (here r rest e)
  | inr e ↦
      subst (Replaced (λ r. r.id == row.id) s (r ∷ rest)) (ground (arith, same, e))
        (there r rest (store_session s rest) e later)
]

find_connectable-Stored :
    (sid : ℕ) (rows : List ExamSession) (row : ExamSession)
    → find_connectable sid rows ≡ some row
    → Stored row rows
unfolding find_connectable
find_connectable-Stored sid [] row h = ground (arith, h)
find_connectable-Stored sid (r ∷ rest) row h =
    elim (Bool-cases ((r.id == sid) && connectable r.status)) [
      | inl e ↦
          let same : r ≡ row = ground (arith, h, e) in
          subst (λ (x : ExamSession). Stored x (r ∷ rest)) same
            (record {
              status = connectable-cases r.status (ground (arith, e));
              replaced = λ s own. store-here r s rest own;
            })
      | inr e ↦
          let later = find_connectable-Stored sid rest row (ground (arith, h, e)) in
          record {
            status = later.status;
            replaced = λ s own. store-there r row s rest own (later.replaced s own);
          }
    ]

pub lookup_session-Stored :
    (services : Services) (session_id : String) (db : Tables) (row : ExamSession)
    → lookup_session services session_id db ≡ some row
    → Stored row db.sessions
unfolding lookup_session
lookup_session-Stored services session_id db row h =
    elim (Option-cases (services.uuid session_id)) [
      | inl e ↦ ground (arith, h, e)
      | inr (sid, e) ↦ find_connectable-Stored sid db.sessions row (ground (arith, h, e))
    ]

-- A row to go on with is the found one, with the mark that the identity backend asks for.
abbrev pub marked : Bool → ExamSession → ExamSession
marked mark row = record row { identity_unavailable = mark }

pub activated-active :
    (mark : Bool) (row : ExamSession)
    → (row.status ≡ pending) ⊎ (row.status ≡ active)
    → activated (marked mark row) ≡ record row { status = active; identity_unavailable = mark }
unfolding activated activate
activated-active mark row (inl h) =
    ap (λ st. record row { status = activate st; identity_unavailable = mark }) h
activated-active mark row (inr h) =
    ap (λ st. record row { status = activate st; identity_unavailable = mark }) h

-- The tables of a session that goes on.
abbrev pub Goes : Bool → ExamSession → Tables → Tables → Type 0
Goes mark row db after =
    (((row.status ≡ pending)
        × Replaced (λ r. r.id == row.id)
            (record row { status = active; identity_unavailable = mark }) db.sessions
            after.sessions)
      ⊎ ((row.status ≡ active) × (after.sessions ≡ db.sessions)))
    × (after.overrides ≡ db.overrides)
    × (after.terminations ≡ db.terminations)

pub activate_session-Goes :
    (mark : Bool) (row : ExamSession) (db : Tables)
    → Stored row db.sessions
    → Goes mark row db (activate_session (marked mark row) db)
unfolding activate_session is_pending
activate_session-Goes mark row db stored = elim stored.status [
  | inl h ↦
      let next : ExamSession = record row { status = active; identity_unavailable = mark } in
      let done : activate_session (marked mark row) db
          ≡ record db { sessions = store_session next db.sessions } =
        ground (arith, h, activated-active mark row (inl h)) in
      subst (Goes mark row db) (sym done) (inl (h, stored.replaced next refl), refl, refl)
  | inr h ↦
      let done : activate_session (marked mark row) db ≡ db = ground (arith, h) in
      subst (Goes mark row db) (sym done) (inr (h, refl), refl, refl)
]
