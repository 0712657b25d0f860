-- ===== src/Orchestration/AdminService/Overrides/TwoPersons.antt =====
-- An approved override has two persons behind it.
use ai_proctor_engine.Base.{
  ℕ, ◌==◌, ◌≡◌, sym, Bool, true, false, not, ◌&&◌, Option, none, some, List, [], ◌∷◌, ◌++◌, any,
  any-append_left, any-last, append_assoc, All, All-append, All-map, Bool-cases, Option-cases, inl,
  inr, arith, subst, append-nil,
}
use ai_proctor_engine.Orchestration.AdminService.{head, AdminUser, same_role}
use ai_proctor_engine.Orchestration.AdminService.Overrides.{
  OverrideStatus, approved, rejected, OverrideRequest, OverrideTables, NewOverride, new_override,
  decided, create_identity_override_request, find_override, decide_row, approve_found, reject_found,
  approve_identity_override_request, reject_identity_override_request, OverrideCall, create,
  approve, reject, serve_override, serve_overrides, status_code,
}

same_id : Option ℕ → ℕ → Bool
same_id none id = false
same_id (some a) id = a == id

-- The call is an approval of the row by another head than the admin that requested it, and the row
-- names its author.
unfoldable pub is_approval : OverrideRequest → OverrideCall → Bool
unfolding same_id
is_approval o (create id request by) = false
is_approval o (reject id by now) = false
is_approval o (approve id by now) =
    (id == o.id)
    && (same_role by.role head
        && (not (by.id == o.requested_by_admin_id) && same_id o.approved_by_admin_id by.id))

-- A row that is approved was approved in one of the calls.
abbrev pub Backed : List OverrideCall → OverrideRequest → Type 0
Backed calls o = (status_code o.status ≡ 1) → any (is_approval o) calls ≡ true

Backed-later :
    (calls : List OverrideCall) (c : OverrideCall) (o : OverrideRequest)
    → Backed calls o
    → Backed (calls ++ (c ∷ [])) o
Backed-later calls c o b h = any-append_left (is_approval o) calls (c ∷ []) (b h)

all_later :
    (calls : List OverrideCall) (c : OverrideCall) (rows : List OverrideRequest)
    → All (Backed calls) rows
    → All (Backed (calls ++ (c ∷ []))) rows
all_later calls c rows h =
    All-map (Backed calls) (Backed (calls ++ (c ∷ []))) rows (Backed-later calls c) h

-- The rows after a decision, where the decided row is backed by it.
decide_row-Backed :
    (calls : List OverrideCall) (c : OverrideCall) (id : ℕ) (status : OverrideStatus) (by now : ℕ)
    (rows : List OverrideRequest) (o : OverrideRequest)
    → find_override id rows ≡ some o
    → Backed (calls ++ (c ∷ [])) (decided status by now o)
    → All (Backed calls) rows
    → All (Backed (calls ++ (c ∷ []))) (decide_row id status by now rows)
unfolding find_override decide_row
decide_row-Backed calls c id status by now [] o h b hs = tt
decide_row-Backed calls c id status by now (x ∷ rest) o h b (hx, hs) =
    elim (Bool-cases (x.id == id)) [
      | inl e ↦
          let same : x ≡ o = ground (arith, h, e) in
          let rows = all_later calls c rest hs in
          ground (
            arith,
            e,
            subst (λ r. Backed (calls ++ (c ∷ [])) (decided status by now r)) (sym same) b,
            rows,
          )
      | inr e ↦
          let others =
            decide_row-Backed calls c id status by now rest o (ground (arith, h, e)) b hs in
          ground (arith, e, Backed-later calls c x hx, others)
    ]

find_override-id :
    (id : ℕ) (rows : List OverrideRequest) (o : OverrideRequest)
    → find_override id rows ≡ some o
    → (o.id == id) ≡ true
unfolding find_override
find_override-id id [] o h = ground (arith, h)
find_override-id id (x ∷ rest) o h = elim (Bool-cases (x.id == id)) [
  | inl e ↦ ground (arith, h, e)
  | inr e ↦ ground (arith, h, e, find_override-id id rest o)
]

decided-Backed :
    (calls : List OverrideCall) (id : ℕ) (by : AdminUser) (now : ℕ) (o : OverrideRequest)
    → (o.id == id) ≡ true
    → same_role by.role head ≡ true
    → (by.id == o.requested_by_admin_id) ≡ false
    → Backed (calls ++ (approve id by now ∷ [])) (decided approved by.id now o)
unfolding is_approval
decided-Backed calls id by now o h1 h2 h3 _ =
    any-last (is_approval (decided approved by.id now o)) calls (approve id by now)
      (ground (arith, h1, h2, h3))

approve-Backed :
    (calls : List OverrideCall) (id : ℕ) (by : AdminUser) (now : ℕ) (db : OverrideTables)
    → All (Backed calls) db.overrides
    → All
        (Backed (calls ++ (approve id by now ∷ [])))
        (approve_identity_override_request id by now db).1.overrides
unfolding approve_identity_override_request approve_found
approve-Backed calls id by now db h =
    let c = approve id by now in
    let before = all_later calls c db.overrides h in
    elim (Option-cases (find_override id db.overrides)) [
      | inl e ↦ ground (arith, e, before)
      | inr (o, e) ↦ elim (Bool-cases (same_role by.role head)) [
        | inr e1 ↦ ground (arith, e, e1, before)
        | inl e1 ↦ elim (Bool-cases (by.id == o.requested_by_admin_id)) [
          | inl e2 ↦ ground (arith, e, e1, e2, before)
          | inr e2 ↦
              let backed =
                decided-Backed calls id by now o (find_override-id id db.overrides o e) e1 e2 in
              let rows =
                decide_row-Backed calls c id approved by.id now db.overrides o e backed h in
              ground (arith, e, e1, e2, rows)
        ]
      ]
    ]

reject-Backed :
    (calls : List OverrideCall) (id : ℕ) (by : AdminUser) (now : ℕ) (db : OverrideTables)
    → All (Backed calls) db.overrides
    → All
        (Backed (calls ++ (reject id by now ∷ [])))
        (reject_identity_override_request id by now db).1.overrides
unfolding reject_identity_override_request reject_found status_code
reject-Backed calls id by now db h =
    let c = reject id by now in
    elim (Option-cases (find_override id db.overrides)) [
      | inl e ↦ ground (arith, e, all_later calls c db.overrides h)
      | inr (o, e) ↦
          let rows =
            decide_row-Backed calls c id rejected by.id now db.overrides o e
              (λ k. ground (arith, k)) h in
          ground (arith, e, rows)
    ]

create-Backed :
    (calls : List OverrideCall) (id : ℕ) (request : NewOverride) (by : AdminUser)
    (db : OverrideTables)
    → All (Backed calls) db.overrides
    → All
        (Backed (calls ++ (create id request by ∷ [])))
        (create_identity_override_request id request by db).1.overrides
unfolding create_identity_override_request status_code
create-Backed calls id request by db h =
    let c = create id request by in
    let before = all_later calls c db.overrides h in
    let fresh : Backed (calls ++ (c ∷ [])) (new_override id request by) = λ k. ground (arith, k) in
    let rows =
      All-append (Backed (calls ++ (c ∷ []))) db.overrides (new_override id request by ∷ []) before
        (fresh, tt) in
    ground (arith, before, rows)

serve_override-Backed :
    (calls : List OverrideCall) (c : OverrideCall) (db : OverrideTables)
    → All (Backed calls) db.overrides
    → All (Backed (calls ++ (c ∷ []))) (serve_override c db).overrides
unfolding serve_override
serve_override-Backed calls (create id request by) db h = create-Backed calls id request by db h
serve_override-Backed calls (approve id by now) db h = approve-Backed calls id by now db h
serve_override-Backed calls (reject id by now) db h = reject-Backed calls id by now db h

serve_from-Backed :
    (calls cs : List OverrideCall) (db : OverrideTables)
    → All (Backed calls) db.overrides
    → All (Backed (calls ++ cs)) (serve_overrides cs db).overrides
unfolding serve_overrides
serve_from-Backed calls [] db h =
    subst (λ k. All (Backed k) db.overrides) (sym (append-nil calls)) h
serve_from-Backed calls (c ∷ cs) db h =
    subst (λ k. All (Backed k) (serve_overrides cs (serve_override c db)).overrides)
      (append_assoc calls (c ∷ []) cs)
      (serve_from-Backed (calls ++ (c ∷ [])) cs (serve_override c db)
        (serve_override-Backed calls c db h))

-- From a database without requests and after any calls, every approved request was approved in one
-- of the calls by a head who had not requested it, and it names that head.
pub serve_overrides-Backed :
    (calls : List OverrideCall) (sessions : List ℕ)
    → All
        (Backed calls)
        (serve_overrides calls (record { sessions = sessions; overrides = [] })).overrides
serve_overrides-Backed calls sessions =
    serve_from-Backed [] calls (record { sessions = sessions; overrides = [] }) tt
