-- ===== src/Tests/Launches.antt =====
-- The launch states and the roles on concrete launches.
use ai_proctor_engine.Base.{
  String, ◌≡◌, refl, ◌⊎◌, inr, true, not, any, All, List, [], ◌∷◌, ok, raised, value_error, arith,
}
use ai_proctor_engine.Lti.LaunchStates.{
  LaunchStateStore, find_entry, register, consume, consumed, missing,
}
use ai_proctor_engine.Base.Strings.{is_ascii}
use ai_proctor_engine.Lti.LaunchStates.OneShot.{
  Request, registers, consumes, peeks, purges, serve, consume-once, register-consume,
}
use ai_proctor_engine.Lti.Roles.{AppRole, is_known, map_roles}
use ai_proctor_engine.Lti.Roles.Privileges.{AtMost, Attained, map_roles_lem}

abbrev empty_store : LaunchStateStore
empty_store = record { ttl = 600; entries = [] }

abbrev pending_store : LaunchStateStore
pending_store = record empty_store {
  entries =
      ("s", record { nonce = "n"; redirect_uri = "exam"; lti_issuer = "lms"; issued_at = 10 }) ∷ [];
}

abbrev between : List Request
between =
    purges 300
    ∷ registers "t" "m" "other" "lms" 310 311
    ∷ consumes "s" "wrong" 320
    ∷ peeks "s" 400
    ∷ []

consume-once_example :
    (consume "s" "n" 500 (serve between (consume "s" "n" 200 pending_store).1)).0 ≡ missing
unfolding consume find_entry
consume-once_example =
    consume-once "s" "n" "n" "exam" "lms" 200 500 between pending_store refl
      (tt, (refl, (tt, (tt, tt))))

register-consume_example :
    (consume "s" "n" 500 (serve between (register "s" "n" "exam" "lms" 10 10 empty_store).1)).0
    ≡ consumed "exam" "lms"
unfolding is_ascii
register-consume_example =
    register-consume "s" "n" "exam" "lms" 10 10 500 between empty_store refl refl refl (omega arith)
      (omega arith, ((refl, omega arith), (inr (refl, omega arith), (omega arith, tt))))

abbrev roles : List String
roles =
    "http://purl.imsglobal.org/vocab/lis/v2/membership#Learner"
    ∷ "http://purl.imsglobal.org/vocab/lis/v2/membership#Administrator" ∷ []

map_roles_lem_example :
    ((any (λ u. not (is_known u)) roles ≡ true) × (map_roles roles ≡ raised value_error))
    ⊎ ((top : AppRole) × (map_roles roles ≡ ok top) × All (AtMost top) roles × Attained top roles)
map_roles_lem_example =
    map_roles_lem "http://purl.imsglobal.org/vocab/lis/v2/membership#Learner"
      ("http://purl.imsglobal.org/vocab/lis/v2/membership#Administrator" ∷ [])
