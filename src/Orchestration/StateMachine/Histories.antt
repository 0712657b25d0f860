-- ===== src/Orchestration/StateMachine/Histories.antt =====
-- The histories of a session's status: what a sequence of transitions can and cannot reach.
use ai_proctor_engine.Base.{
  ℕ, ◌+◌, ◌≤◌, ◌≡◌, refl, ◌⊎◌, inl, inr, true, false, List, [], ◌∷◌, length, arith,
}
use ai_proctor_engine.Orchestration.StateMachine.{
  SessionStatus, pending, active, completed, terminated, reinstated, under_review, StoredSession,
  moved, refused, can_transition, assert_transition, apply_transition,
}

-- How far the session is on its way.
abbrev pub rank : SessionStatus → ℕ
rank pending = 0
rank active = 1
rank completed = 2
rank terminated = 2
rank reinstated = 3
rank under_review = 4

rank_bounded : (s : SessionStatus) → rank s ≤ 4
rank_bounded pending = omega arith
rank_bounded _ = omega arith

-- The requests that were granted, with the session at the end: a refused one changes nothing.
unfoldable pub request : List SessionStatus → StoredSession → List SessionStatus × StoredSession
request [] session = ([], session)
request (target ∷ targets) session =
    let (move, session') = apply_transition target session in
    let (granted, end) = request targets session' in
    (elim move [ moved ↦ target ∷ granted | refused e ↦ granted ], end)

can_transition-rank :
    (current target : SessionStatus)
    → can_transition current target ≡ true
    → rank current + 1 ≤ rank target
unfolding can_transition
can_transition-rank pending pending h = ground arith
can_transition-rank active pending h = ground arith
can_transition-rank completed pending h = ground arith
can_transition-rank terminated pending h = ground arith
can_transition-rank reinstated pending h = ground arith
can_transition-rank under_review pending h = ground arith
can_transition-rank _ _ h = ground arith

-- Ended by a termination, whatever became of it since.
abbrev pub Closed : SessionStatus → Type 0
Closed s = (s ≡ terminated) ⊎ (s ≡ reinstated) ⊎ (s ≡ under_review)

can_transition-Closed :
    (current target : SessionStatus)
    → Closed current
    → can_transition current target ≡ true
    → Closed target
unfolding can_transition
can_transition-Closed pending target c h = ground arith
can_transition-Closed active target c h = ground arith
can_transition-Closed completed target c h = ground arith
can_transition-Closed terminated pending c h = ground arith
can_transition-Closed reinstated pending c h = ground arith
can_transition-Closed under_review pending c h = ground arith
can_transition-Closed _ _ c h = ground arith

-- A request is granted, and then the table allows it, or it changes nothing.
apply_transition-cases :
    (target : SessionStatus) (session : StoredSession)
    → ((can_transition session.status target ≡ true)
        × (apply_transition target session
            ≡ (moved, record { status = target; committed = target })))
      ⊎ ((can_transition session.status target ≡ false)
          × (apply_transition target session
              ≡ (refused (record { current = session.status; target = target }), session)))
unfolding apply_transition assert_transition
apply_transition-cases target session = ground arith

-- Whatever transitions are requested of a session, in whatever order, at most four are granted:
-- each one raises the session's rank, so no status comes back, and the row in the database follows
-- the status.
pub request-rank :
    (targets : List SessionStatus) (session : StoredSession)
    → session.committed ≡ session.status
    → let (granted, end) = request targets session in
      (length granted + rank session.status ≤ rank end.status)
      × (rank end.status ≤ 4)
      × (end.committed ≡ end.status)
unfolding request
request-rank [] session e = (omega arith, rank_bounded session.status, e)
request-rank (target ∷ targets) session e = elim (apply_transition-cases target session) [
  | inl (can, eq) ↦ ground (
    arith,
    can_transition-rank session.status target,
    request-rank targets (record { status = target; committed = target }) refl,
  )
  | inr (cannot, eq) ↦ ground (arith, request-rank targets session e)
]

-- A session that a termination has closed never becomes pending, active or completed again,
-- whatever transitions are requested of it.
pub terminated_stays_Closed :
    (targets : List SessionStatus) (session : StoredSession)
    → Closed session.status
    → Closed (request targets session).1.status
unfolding request
terminated_stays_Closed [] session c = c
terminated_stays_Closed (target ∷ targets) session c =
    elim (apply_transition-cases target session) [
      | inl (can, eq) ↦
          let next = can_transition-Closed session.status target c can in
          ground (
            arith,
            terminated_stays_Closed targets (record { status = target; committed = target }) next,
          )
      | inr (cannot, eq) ↦ ground (arith, terminated_stays_Closed targets session c)
    ]
