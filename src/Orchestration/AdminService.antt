-- ===== src/Orchestration/AdminService.antt =====
-- The operations of the administrators (orchestration/_admin_service.py). Each takes the tables that
-- it touches, as the database has them, and hands back its result or its error with the tables that
-- it leaves committed. UUIDs of new rows and the time are arguments.
pub mod Roles
pub mod Overrides
pub mod Reviews
pub mod Thresholds
pub mod Policies
pub mod Exemptions
use ai_proctor_engine.Base.{ℕ, String, ◌==◌, Bool, Option}

pub data AdminRole : Type 0 where
  admin instructor proctor head : AdminRole

pub record AdminUser : Type 0 where
  pub id : ℕ
  pub lms_user_reference : String
  pub role : AdminRole
  pub department : Option String

-- The exceptions of the module.
pub data AdminServiceError : Type 0 where
  policy_versioning exemption_validation flag_not_found review_transition override_not_found
        admin_user_not_found self_approval_or_role :
      AdminServiceError

pub data Answer (A : Type 0) : Type 0 where
  answer : A → Answer A
  refused : AdminServiceError → Answer A

-- The roles as numbers, for the equality tests.
unfoldable pub role_code : AdminRole → ℕ
role_code admin = 0
role_code instructor = 1
role_code proctor = 2
role_code head = 3

abbrev pub same_role : AdminRole → AdminRole → Bool
same_role a b = role_code a == role_code b
