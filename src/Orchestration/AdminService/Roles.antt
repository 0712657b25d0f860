-- ===== src/Orchestration/AdminService/Roles.antt =====
-- The changes of administrators' roles and their audit (`update_admin_user_role`).
pub mod Escalation
use ai_proctor_engine.Base.{
  ℕ, String, ◌==◌, Bool, true, false, not, ◌&&◌, ◌||◌, Option, none, some, List, [], ◌∷◌, ◌++◌,
  if◌then◌else◌,
}
use ai_proctor_engine.Orchestration.AdminService.{
  AdminRole, admin, head, AdminUser, AdminServiceError, self_approval_or_role, admin_user_not_found,
  Answer, answer, refused, same_role, role_code,
}

-- A row of the audit; its reason is text.
pub record AdminRoleAudit : Type 0 where
  pub target_admin_id : ℕ
  pub changed_by_admin_id : ℕ
  pub previous_role : AdminRole
  pub new_role : AdminRole

pub record RoleTables : Type 0 where
  pub admin_users : List AdminUser
  pub audits : List AdminRoleAudit

-- `db.get(AdminUser, id)`
unfoldable pub get_admin : ℕ → List AdminUser → Option AdminUser
get_admin id [] = none
get_admin id (a ∷ rest) = let found = get_admin id rest in if a.id == id then some a else found

-- The row with the id, with another role.
unfoldable pub set_role : ℕ → AdminRole → List AdminUser → List AdminUser
set_role id role [] = []
set_role id role (a ∷ rest) =
    let others = set_role id role rest in
    if a.id == id then record a { role = role } ∷ rest else a ∷ others

abbrev pub changed : ℕ → AdminRole → AdminUser → AdminUser → RoleTables → RoleTables
changed target_id new_role caller target db = record {
  admin_users = set_role target_id new_role db.admin_users;
  audits =
      db.audits
      ++ (record {
        target_admin_id = target_id;
        changed_by_admin_id = caller.id;
        previous_role = target.role;
        new_role = new_role;
      }
          ∷ []);
}

change_found :
    ℕ → AdminRole → AdminUser → Option AdminUser → RoleTables → Answer AdminUser × RoleTables
change_found target_id new_role caller none db = (refused admin_user_not_found, db)
change_found target_id new_role caller (some target) db =
    (answer (record target { role = new_role }), changed target_id new_role caller target db)

unfoldable pub update_admin_user_role :
    ℕ → AdminRole → AdminUser → RoleTables → Answer AdminUser × RoleTables
unfolding change_found get_admin set_role role_code
update_admin_user_role target_id new_role caller db =
    if caller.id == target_id
    then (refused self_approval_or_role, db)
    else if same_role new_role head && not (same_role caller.role head)
    then (refused self_approval_or_role, db)
    else if not (same_role caller.role admin || same_role caller.role head)
    then (refused self_approval_or_role, db)
    else change_found target_id new_role caller (get_admin target_id db.admin_users) db

-- A request is by the admin of an id, whose row is loaded for it; without a row it is refused.
unfoldable pub request_role : ℕ × ℕ × AdminRole → RoleTables → RoleTables
unfolding update_admin_user_role
request_role (caller_id, target_id, new_role) db = elim (get_admin caller_id db.admin_users) [
  | none ↦ db
  | some caller ↦ (update_admin_user_role target_id new_role caller db).1
]

unfoldable pub request_roles : List (ℕ × ℕ × AdminRole) → RoleTables → RoleTables
request_roles [] db = db
request_roles (r ∷ rs) db = request_roles rs (request_role r db)
