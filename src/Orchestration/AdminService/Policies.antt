-- ===== src/Orchestration/AdminService/Policies.antt =====
-- The versions of policies (`create_policy_version`, `list_policy_configs`), with the index of live
-- names (`PolicyConfig` of models.py).
pub mod Names
pub mod Versions
use ai_proctor_engine.Base.{
  ℕ, String, str_eq, ◌+◌, ◌*◌, ◌==◌, ltb, leb, Bool, true, false, not, ◌&&◌, ◌||◌, Option, none,
  some, List, [], ◌∷◌, ◌++◌, any, keep, if◌then◌else◌,
}
use ai_proctor_engine.Floats.{FloatOps}
use ai_proctor_engine.Fusion.Types.{MediumScoreAction, LivenessAction}
use ai_proctor_engine.Orchestration.AdminService.{
  AdminUser, AdminServiceError, policy_versioning, exemption_validation, Answer, answer, refused,
}
use ai_proctor_engine.Inference.{Fields, in_unit}
use ai_proctor_engine.Orchestration.FlagPersistence.{FlagSeverity}
use Prim.Native.String.{len}
use ai_proctor_engine.Orchestration.AdminService.Thresholds.{
  PolicySettings, PolicyRequest, is_set, fields_valid, validate_policy_request, check_constraints,
}

pub record PolicyConfig (F : Type 0) : Type 0 where
  pub id : ℕ
  pub name : String
  pub version : ℕ
  pub is_active : Bool
  pub retired_at : Option ℕ
  pub created_by_id : ℕ
  pub settings : PolicySettings F

pub record PolicyVersionResult (F : Type 0) : Type 0 where
  pub new_policy : PolicyConfig F
  pub superseded_previous_id : Option ℕ

-- The reply: a version, an exception of the service, or the one of `scalar_one_or_none` on a query
-- with several rows.
pub data Versioned (F : Type 0) : Type 0 where
  created : PolicyVersionResult F → Versioned F
  rejected : AdminServiceError → Versioned F
  multiple_results : Versioned F

module _ {F : Type 0} where
  -- `name == ... AND is_active AND retired_at IS NULL`
  unfoldable pub is_live : String → PolicyConfig F → Bool
  unfolding is_set
  is_live name row = str_eq row.name name && (row.is_active && not (is_set row.retired_at))

  -- `_resolve_previous_active`, as the rows that the query finds.
  unfoldable pub resolve_previous_active : String → List (PolicyConfig F) → List (PolicyConfig F)
  unfolding is_live
  resolve_previous_active name rows = keep (is_live name) rows

  -- `_resolve_max_version`
  unfoldable pub resolve_max_version : String → List (PolicyConfig F) → ℕ
  resolve_max_version name [] = 0
  resolve_max_version name (row ∷ rows) =
      let others = resolve_max_version name rows in
      if str_eq row.name name && ltb others row.version then row.version else others

  -- `previous.retired_at = now` on the row that the query found.
  unfoldable pub retire : String → ℕ → List (PolicyConfig F) → List (PolicyConfig F)
  unfolding is_live
  retire name now [] = []
  retire name now (row ∷ rows) =
      let others = retire name now rows in
      if is_live name row then record row { retired_at = some now } ∷ rows else row ∷ others

  abbrev pub new_row : ℕ → PolicyRequest F → ℕ → AdminUser → PolicyConfig F
  new_row id request version created_by = record {
    id = id;
    name = request.name;
    version = version;
    is_active = request.is_active;
    retired_at = none;
    created_by_id = created_by.id;
    settings = request.settings;
  }

module _ {F : Type 0} ⦃ops : FloatOps F⦄ where
  -- Whether the commit of a new row breaks a check of the table or the index of live names.
  unfoldable pub violates : PolicyConfig F → List (PolicyConfig F) → Bool
  unfolding check_constraints is_live
  violates row rows =
      not (check_constraints row.settings) || (is_live row.name row && any (is_live row.name) rows)

  -- The insert into `rows`, with the table as it was committed before.
  insert_version :
      PolicyConfig F
      → Option ℕ
      → List (PolicyConfig F)
      → List (PolicyConfig F)
      → Versioned F × List (PolicyConfig F)
  unfolding violates
  insert_version row superseded rows committed =
      if violates row rows then (rejected policy_versioning, committed) else (
        created (record { new_policy = row; superseded_previous_id = superseded }),
        rows ++ (row ∷ []),
      )

  create_after :
      List (PolicyConfig F)
      → ℕ
      → PolicyRequest F
      → AdminUser
      → ℕ
      → List (PolicyConfig F)
      → Versioned F × List (PolicyConfig F)
  unfolding insert_version resolve_max_version retire
  create_after [] id request created_by now rows =
      insert_version (new_row id request (resolve_max_version request.name rows + 1) created_by)
        none rows rows
  create_after (previous ∷ []) id request created_by now rows =
      if request.retire_previous
      then insert_version
          (new_row id request (resolve_max_version request.name rows + 1) created_by)
          (some previous.id) (retire request.name now rows) rows
      else (rejected policy_versioning, rows)
  create_after _ id request created_by now rows = (multiple_results, rows)

  unfoldable pub create_policy_version :
      ℕ
      → PolicyRequest F
      → AdminUser
      → ℕ
      → List (PolicyConfig F)
      → Versioned F × List (PolicyConfig F)
  unfolding create_after validate_policy_request resolve_previous_active
  create_policy_version id request created_by now rows =
      if not (validate_policy_request request.settings)
      then (rejected policy_versioning, rows)
      else create_after (resolve_previous_active request.name rows) id request created_by now rows

module _ {F : Type 0} where
  -- `order_by(name.asc(), version.desc())`, with the order of names of the database.
  comes_before : (String → String → Bool) → PolicyConfig F → PolicyConfig F → Bool
  comes_before name_lt p q =
      name_lt p.name q.name || (str_eq p.name q.name && ltb q.version p.version)

  insert_by :
      (String → String → Bool) → PolicyConfig F → List (PolicyConfig F) → List (PolicyConfig F)
  unfolding comes_before
  insert_by name_lt p [] = p ∷ []
  insert_by name_lt p (q ∷ rest) =
      let later = insert_by name_lt p rest in
      if comes_before name_lt q p then q ∷ later else p ∷ q ∷ rest

  sort_by : (String → String → Bool) → List (PolicyConfig F) → List (PolicyConfig F)
  unfolding insert_by
  sort_by name_lt [] = []
  sort_by name_lt (p ∷ rest) = insert_by name_lt p (sort_by name_lt rest)

  has_activity : Option Bool → PolicyConfig F → Bool
  has_activity none row = true
  has_activity (some true) row = row.is_active
  has_activity (some false) row = not row.is_active

  unfoldable pub list_policy_configs :
      (String → String → Bool) → Option Bool → List (PolicyConfig F) → List (PolicyConfig F)
  unfolding sort_by has_activity
  list_policy_configs name_lt is_active rows = sort_by name_lt (keep (has_activity is_active) rows)
