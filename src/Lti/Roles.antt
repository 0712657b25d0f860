-- ===== src/Lti/Roles.antt =====
-- The roles of an LTI launch (lti/roles.py).
pub mod Privileges
use ai_proctor_engine.Base.{
  ℕ, String, str_eq, Bool, true, false, not, Option, none, some, List, [], ◌∷◌, ◌++◌, any, ltb,
  if◌then◌else◌, Outcome, ok, raised, value_error, key_error,
}

abbrev system_roles : List String
system_roles =
    "http://purl.imsglobal.org/vocab/lis/v2/system/person#Administrator"
    ∷ "http://purl.imsglobal.org/vocab/lis/v2/system/person#SysAdmin"
    ∷ "http://purl.imsglobal.org/vocab/lis/v2/system/person#SysSupport"
    ∷ "http://purl.imsglobal.org/vocab/lis/v2/system/person#None" ∷ []

abbrev institution_roles : List String
institution_roles =
    "http://purl.imsglobal.org/vocab/lis/v2/institution/person#Faculty"
    ∷ "http://purl.imsglobal.org/vocab/lis/v2/institution/person#Instructor"
    ∷ "http://purl.imsglobal.org/vocab/lis/v2/institution/person#TeachingAssistant"
    ∷ "http://purl.imsglobal.org/vocab/lis/v2/institution/person#ContentDeveloper"
    ∷ "http://purl.imsglobal.org/vocab/lis/v2/institution/person#Member"
    ∷ "http://purl.imsglobal.org/vocab/lis/v2/institution/person#Learner"
    ∷ "http://purl.imsglobal.org/vocab/lis/v2/institution/person#Student"
    ∷ "http://purl.imsglobal.org/vocab/lis/v2/institution/person#Staff"
    ∷ "http://purl.imsglobal.org/vocab/lis/v2/institution/person#Alumni"
    ∷ "http://purl.imsglobal.org/vocab/lis/v2/institution/person#ProspectiveStudent"
    ∷ "http://purl.imsglobal.org/vocab/lis/v2/institution/person#Guest"
    ∷ "http://purl.imsglobal.org/vocab/lis/v2/institution/person#Other" ∷ []

abbrev context_roles : List String
context_roles =
    "http://purl.imsglobal.org/vocab/lis/v2/membership#Administrator"
    ∷ "http://purl.imsglobal.org/vocab/lis/v2/membership#Instructor"
    ∷ "http://purl.imsglobal.org/vocab/lis/v2/membership#TeachingAssistant"
    ∷ "http://purl.imsglobal.org/vocab/lis/v2/membership#ContentDeveloper"
    ∷ "http://purl.imsglobal.org/vocab/lis/v2/membership#Learner"
    ∷ "http://purl.imsglobal.org/vocab/lis/v2/membership#Member" ∷ []

abbrev proctor_roles : List String
proctor_roles = "http://purl.imsglobal.org/vocab/lti/role/proctor#Proctor" ∷ []

abbrev pub known_roles : List String
known_roles = system_roles ++ institution_roles ++ context_roles ++ proctor_roles

pub data AppRole : Type 0 where
  learner instructor admin proctor : AppRole

abbrev role_to_app : List (String × AppRole)
role_to_app =
    ("http://purl.imsglobal.org/vocab/lis/v2/system/person#Administrator", admin)
    ∷ ("http://purl.imsglobal.org/vocab/lis/v2/system/person#SysAdmin", admin)
    ∷ ("http://purl.imsglobal.org/vocab/lis/v2/system/person#SysSupport", admin)
    ∷ ("http://purl.imsglobal.org/vocab/lis/v2/membership#Administrator", admin)
    ∷ ("http://purl.imsglobal.org/vocab/lti/role/proctor#Proctor", proctor)
    ∷ ("http://purl.imsglobal.org/vocab/lis/v2/institution/person#Faculty", instructor)
    ∷ ("http://purl.imsglobal.org/vocab/lis/v2/institution/person#Instructor", instructor)
    ∷ ("http://purl.imsglobal.org/vocab/lis/v2/institution/person#TeachingAssistant", instructor)
    ∷ ("http://purl.imsglobal.org/vocab/lis/v2/institution/person#ContentDeveloper", instructor)
    ∷ ("http://purl.imsglobal.org/vocab/lis/v2/membership#Instructor", instructor)
    ∷ ("http://purl.imsglobal.org/vocab/lis/v2/membership#TeachingAssistant", instructor)
    ∷ ("http://purl.imsglobal.org/vocab/lis/v2/membership#ContentDeveloper", instructor)
    ∷ ("http://purl.imsglobal.org/vocab/lis/v2/institution/person#Learner", learner)
    ∷ ("http://purl.imsglobal.org/vocab/lis/v2/institution/person#Student", learner)
    ∷ ("http://purl.imsglobal.org/vocab/lis/v2/membership#Learner", learner)
    ∷ ("http://purl.imsglobal.org/vocab/lis/v2/membership#Member", learner)
    ∷ ("http://purl.imsglobal.org/vocab/lis/v2/institution/person#Member", learner)
    ∷ ("http://purl.imsglobal.org/vocab/lis/v2/institution/person#Staff", learner)
    ∷ ("http://purl.imsglobal.org/vocab/lis/v2/institution/person#Alumni", learner)
    ∷ ("http://purl.imsglobal.org/vocab/lis/v2/institution/person#ProspectiveStudent", learner)
    ∷ ("http://purl.imsglobal.org/vocab/lis/v2/institution/person#Guest", learner)
    ∷ ("http://purl.imsglobal.org/vocab/lis/v2/institution/person#Other", learner)
    ∷ ("http://purl.imsglobal.org/vocab/lis/v2/system/person#None", learner)
    ∷ []

find_role : String → List (String × AppRole) → Option AppRole
find_role uri [] = none
find_role uri ((key, role) ∷ rest) = if str_eq key uri then some role else find_role uri rest

unfoldable pub role_of : String → Option AppRole
unfolding find_role
role_of uri = find_role uri role_to_app

unfoldable pub privilege : AppRole → ℕ
privilege learner = 0
privilege instructor = 1
privilege proctor = 2
privilege admin = 3

unfoldable pub is_known : String → Bool
is_known uri = any (λ known. str_eq known uri) known_roles

-- Python's `max` keeps the first of equal keys.
unfoldable pub max_role : AppRole → List AppRole → AppRole
max_role best [] = best
max_role best (role ∷ rest) =
    if ltb (privilege best) (privilege role) then max_role role rest else max_role best rest

-- `[_ROLE_TO_APP[uri] for uri in uris]`
unfoldable pub map_uris : List String → Outcome (List AppRole)
map_uris [] = ok []
map_uris (uri ∷ rest) = elim (role_of uri) [
  | none ↦ raised key_error
  | some role ↦ elim (map_uris rest) [ ok roles ↦ ok (role ∷ roles) | raised e ↦ raised e ]
]

unfoldable pub max_of_roles : Outcome (List AppRole) → Outcome AppRole
max_of_roles (ok (role ∷ roles)) = ok (max_role role roles)
max_of_roles (ok []) = raised value_error
max_of_roles (raised e) = raised e

unfoldable pub map_roles : List String → Outcome AppRole
map_roles [] = raised value_error
map_roles (uri ∷ rest) =
    if any (λ u. not (is_known u)) (uri ∷ rest)
    then raised value_error
    else max_of_roles (map_uris (uri ∷ rest))

unfoldable pub is_admin_route : AppRole → Bool
is_admin_route learner = false
is_admin_route _ = true
