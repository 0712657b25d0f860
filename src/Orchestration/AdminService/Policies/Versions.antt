-- ===== src/Orchestration/AdminService/Policies/Versions.antt =====
-- What the creation of a version of a policy leaves behind.
use ai_proctor_engine.Base.{ℕ, ◌≡◌, none, List, [], ◌∷◌, ◌++◌, map, All, if◌then◌else◌}
use ai_proctor_engine.Floats.{FloatOps}
use ai_proctor_engine.Orchestration.AdminService.{AdminUser}
use ai_proctor_engine.Orchestration.AdminService.Policies.{
  PolicyConfig, PolicyVersionResult, Versioned, created,
}
use ai_proctor_engine.Orchestration.AdminService.Thresholds.{PolicyRequest}
use ai_proctor_engine.Orchestration.AdminService.Policies.Names.{
  Below, IsUnique, live_count, retired,
}

module _ {F : Type 0} ⦃ops : FloatOps F⦄ where
  -- What a creation leaves behind: behind the older rows, of which the live one of the name is
  -- retired and the others are as they were, a version as it was requested, above all others of the
  -- name, as the one live version of the name where the request is active.
  pub record Installed (request : PolicyRequest F) (by : AdminUser) (now : ℕ)
      (rows : List (PolicyConfig F)) (result : PolicyVersionResult F)
      (after : List (PolicyConfig F)) : Type 0 where
    pub name : result.new_policy.name ≡ request.name
    pub is_active : result.new_policy.is_active ≡ request.is_active
    pub retired_at : result.new_policy.retired_at ≡ none
    pub created_by : result.new_policy.created_by_id ≡ by.id
    pub settings : result.new_policy.settings ≡ request.settings
    pub stored : after ≡ map (retired request.name now) rows ++ (result.new_policy ∷ [])
    pub newest : All (Below request.name result.new_policy.version) rows
    pub live : live_count request.name after ≡ (if request.is_active then 1 else 0)
    pub unique : IsUnique after

  abbrev Succeeds :
      PolicyRequest F
      → AdminUser
      → ℕ
      → List (PolicyConfig F)
      → Versioned F × List (PolicyConfig F)
      → Type 0
  Succeeds request by now rows reply =
      (result : PolicyVersionResult F) × (reply.0 ≡ created result)
      × Installed request by now rows result reply.1
