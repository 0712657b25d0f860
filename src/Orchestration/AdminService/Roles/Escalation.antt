-- ===== src/Orchestration/AdminService/Roles/Escalation.antt =====
-- What any requests of roles can do, and what the audit tells of them.
use ai_proctor_engine.Base.{
  ℕ, ◌==◌, ◌≡◌, refl, sym, ap, ◌∙◌, ◌⊎◌, Bool, false, not, ◌&&◌, ◌||◌, some, List, [], ◌∷◌, ◌++◌,
  any, append_assoc, append-nil, Bool-cases, Option-cases, inl, inr, arith, All, subst,
}
use ai_proctor_engine.Orchestration.AdminService.{AdminRole, admin, head, AdminUser, same_role}
use ai_proctor_engine.Orchestration.AdminService.Roles.{
  AdminRoleAudit, RoleTables, get_admin, set_role, changed, change_found, update_admin_user_role,
  request_role, request_roles,
}

-- The table after the changes that the audit rows name.
abbrev pub replay : List AdminRoleAudit → List AdminUser → List AdminUser
replay [] users = users
replay (a ∷ audits) users = replay audits (set_role a.target_admin_id a.new_role users)

-- Whether an admin of the table is a head.
abbrev pub some_head : List AdminUser → Bool
some_head users = any (λ a. same_role a.role head) users

set_role-no_head :
    (id : ℕ) (role : AdminRole) (users : List AdminUser)
    → same_role role head ≡ false
    → some_head users ≡ false
    → some_head (set_role id role users) ≡ false
unfolding set_role
set_role-no_head id role [] h k = refl
set_role-no_head id role (a ∷ rest) h k = ground (arith, h, k, set_role-no_head id role rest h)

get_admin-head :
    (id : ℕ) (users : List AdminUser) (a : AdminUser)
    → get_admin id users ≡ some a
    → some_head users ≡ false
    → same_role a.role head ≡ false
unfolding get_admin
get_admin-head id [] a h k = ground (arith, h)
get_admin-head id (b ∷ rest) a h k = elim (Bool-cases (b.id == id)) [
  | inl e ↦ ground (arith, e, h, k)
  | inr e ↦ ground (arith, e, h, k, get_admin-head id rest a)
]

-- What one request does, if it does anything: the change of one row, with its audit row, by
-- another admin, who is a head where the new role is.
record Change (before after : RoleTables) : Type 0 where
  audit : AdminRoleAudit
  by_other : (audit.changed_by_admin_id == audit.target_admin_id) ≡ false
  users : after.admin_users ≡ set_role audit.target_admin_id audit.new_role before.admin_users
  logged : after.audits ≡ before.audits ++ (audit ∷ [])
  no_head : some_head before.admin_users ≡ false → same_role audit.new_role head ≡ false

request_role-Change :
    (r : ℕ × ℕ × AdminRole) (db : RoleTables)
    → (request_role r db ≡ db) ⊎ Change db (request_role r db)
unfolding request_role update_admin_user_role change_found
request_role-Change (caller_id, target_id, new_role) db =
    elim (Option-cases (get_admin caller_id db.admin_users)) [
      | inl e ↦ inl (ground (arith, e))
      | inr (caller, e) ↦ elim (Bool-cases (caller.id == target_id)) [
        | inl e1 ↦ inl (ground (arith, e, e1))
        | inr e1 ↦ elim (Bool-cases (same_role new_role head && not (same_role caller.role head))) [
          | inl e2 ↦ inl (ground (arith, e, e1, e2))
          | inr e2 ↦
              elim (Bool-cases (not (same_role caller.role admin || same_role caller.role head))) [
                | inl e3 ↦ inl (ground (arith, e, e1, e2, e3))
                | inr e3 ↦ elim (Option-cases (get_admin target_id db.admin_users)) [
                  | inl e4 ↦ inl (ground (arith, e, e1, e2, e3, e4))
                  | inr (target, e4) ↦
                      let after = changed target_id new_role caller target db in
                      let done : request_role (caller_id, target_id, new_role) db ≡ after =
                        ground (arith, e, e1, e2, e3, e4) in
                      let change : Change db after = record {
                        audit = record {
                          target_admin_id = target_id;
                          changed_by_admin_id = caller.id;
                          previous_role = target.role;
                          new_role = new_role;
                        };
                        by_other = e1;
                        users = refl;
                        logged = refl;
                        no_head = λ k.
                            ground (arith, e2, get_admin-head caller_id db.admin_users caller e k);
                      } in
                      inr (subst (Change db) (sym done) change)
                ]
              ]
        ]
      ]
    ]

-- Whatever roles are requested of whatever admins, the audit gains exactly the rows whose replay
-- turns the old table into the new one, and no row of them is of an admin who changed its own role.
pub request_roles-replay :
    (rs : List (ℕ × ℕ × AdminRole)) (db : RoleTables)
    → let after = request_roles rs db in
      (news : List AdminRoleAudit) × (after.audits ≡ db.audits ++ news)
      × (after.admin_users ≡ replay news db.admin_users)
      × All (λ a. (a.changed_by_admin_id == a.target_admin_id) ≡ false) news
unfolding request_roles
request_roles-replay [] db = ([], sym (append-nil db.audits), refl, tt)
request_roles-replay (r ∷ rs) db =
    let middle = request_role r db in
    let (news, logged, users, others) = request_roles-replay rs middle in
    elim (request_role-Change r db) [
      | inl e ↦ (
        news,
        logged ∙ ap (λ (t : RoleTables). t.audits ++ news) e,
        users ∙ ap (λ (t : RoleTables). replay news t.admin_users) e,
        others,
      )
      | inr c ↦ (
        c.audit ∷ news,
        logged ∙ ap (λ older. older ++ news) c.logged ∙ append_assoc db.audits (c.audit ∷ []) news,
        users ∙ ap (replay news) c.users,
        (c.by_other, others),
      )
    ]

-- Where no admin is a head, no requests make one.
pub request_roles-no_head :
    (rs : List (ℕ × ℕ × AdminRole)) (db : RoleTables)
    → some_head db.admin_users ≡ false
    → some_head (request_roles rs db).admin_users ≡ false
unfolding request_roles
request_roles-no_head [] db h = h
request_roles-no_head (r ∷ rs) db h =
    request_roles-no_head rs (request_role r db) (elim (request_role-Change r db) [
      | inl e ↦ ap (λ (t : RoleTables). some_head t.admin_users) e ∙ h
      | inr c ↦
          ap some_head c.users
          ∙ set_role-no_head c.audit.target_admin_id c.audit.new_role db.admin_users (c.no_head h) h
    ])
