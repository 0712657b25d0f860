-- ===== src/Lti/Roles/Privileges.antt =====
-- The role of a launch is the one of greatest privilege.
use ai_proctor_engine.Base.{
  String, str_eq, eq_iff, eq_refl, ◌≤◌, ◌≡◌, refl, ap, sym, subst, ◌⊎◌, inl, inr, Bool, true, false,
  not, Option, none, some, List, [], ◌∷◌, any, All, ltb, arith, ok, raised, value_error, Bool-cases,
  ◌&&◌,
}
use ai_proctor_engine.Lti.Roles.{
  AppRole, known_roles, role_of, privilege, is_known, max_role, map_uris, max_of_roles, map_roles,
}

has_role : String → Bool
has_role uri = elim (role_of uri) [ none ↦ false | some role ↦ true ]

each : (String → Bool) → List String → Bool
each p [] = true
each p (x ∷ xs) = p x && each p xs

each-any :
    (p : String → Bool) (uri : String) (known : List String)
    → each p known ≡ true
    → any (λ k. str_eq k uri) known ≡ true
    → p uri ≡ true
unfolding each
each-any p uri [] all found = ground arith
each-any p uri (k ∷ known) all found = elim (Bool-cases (str_eq k uri)) [
  | inl same ↦ ground (arith, ap p ((eq_iff k uri).0 same))
  | inr differs ↦ ground (arith, each-any p uri known)
]

known_roles-has_role : each has_role known_roles ≡ true
unfolding each has_role role_of
known_roles-has_role = refl

-- A URI of the vocabulary is a key of the table.
is_known-role_of :
    (uri : String) → is_known uri ≡ true → (role : AppRole) × (role_of uri ≡ some role)
unfolding is_known has_role
is_known-role_of uri known =
    found (role_of uri) (each-any has_role uri known_roles known_roles-has_role known)
  where
    found :
        (role : Option AppRole)
        → (elim role [ none ↦ false | some r ↦ true ]) ≡ true
        → (r : AppRole) × (role ≡ some r)
    found none h = ground arith
    found (some r) h = (r, refl)

-- The role of the URI is one of at most this privilege.
abbrev pub AtMost : AppRole → String → Type 0
AtMost top uri = (role : AppRole) × (role_of uri ≡ some role) × (privilege role ≤ privilege top)

-- The roles are those of the URIs, one for one.
Assigned : List String → List AppRole → Type 0
Assigned [] [] = Unit
Assigned [] (role ∷ roles) = ⊥
Assigned (uri ∷ uris) [] = ⊥
Assigned (uri ∷ uris) (role ∷ roles) = (role_of uri ≡ some role) × Assigned uris roles

map_uris-total :
    (uris : List String)
    → any (λ u. not (is_known u)) uris ≡ false
    → (roles : List AppRole) × (map_uris uris ≡ ok roles) × Assigned uris roles
unfolding map_uris Assigned
map_uris-total [] known = ([], refl, tt)
map_uris-total (uri ∷ rest) known =
    let (role, e) = is_known-role_of uri (ground (arith, known)) in
    let (roles, es, assigned) = map_uris-total rest (ground (arith, known)) in
    (role ∷ roles, ground (arith, e, es), (e, assigned))

-- No role of the list, nor the best before it, is superior.
abbrev Tops : AppRole → AppRole → List AppRole → Type 0
Tops top best roles =
    (privilege best ≤ privilege top) × All (λ role. privilege role ≤ privilege top) roles

max_role-Tops : (best : AppRole) (roles : List AppRole) → Tops (max_role best roles) best roles
unfolding max_role
max_role-Tops best [] = (omega arith, tt)
max_role-Tops best (role ∷ rest) = elim (Bool-cases (ltb (privilege best) (privilege role))) [
  | inl more ↦
      let (self, others) = max_role-Tops role rest in
      let e : max_role best (role ∷ rest) ≡ max_role role rest = rw more in
      subst (λ top. Tops top best (role ∷ rest)) (sym e) (ground (arith, self), (self, others))
  | inr same ↦
      let (self, others) = max_role-Tops best rest in
      let e : max_role best (role ∷ rest) ≡ max_role best rest = rw same in
      subst (λ top. Tops top best (role ∷ rest)) (sym e) (self, (ground (arith, self), others))
]

-- Some URI has this role.
abbrev pub Attained : AppRole → List String → Type 0
Attained top uris =
    (uri : String) × (any (λ u. str_eq u uri) uris ≡ true) × (role_of uri ≡ some top)

max_role-Attained :
    (uri : String) (best : AppRole) (uris : List String) (roles : List AppRole)
    → role_of uri ≡ some best
    → Assigned uris roles
    → Attained (max_role best roles) (uri ∷ uris)
unfolding max_role Assigned
max_role-Attained uri best [] [] e h = (uri, ground (arith, eq_refl uri), e)
max_role-Attained uri best [] (role ∷ roles) e h = elim h [ ]
max_role-Attained uri best (next ∷ uris) [] e h = elim h [ ]
max_role-Attained uri best (next ∷ uris) (role ∷ roles) e (e', h) =
    let (u, among, top) = max_role-Attained uri best uris roles e h in
    let (v, among', top') = max_role-Attained next role uris roles e' h in
    elim (Bool-cases (ltb (privilege best) (privilege role))) [
      | inl more ↦ (v, ground (arith, among'), ground (arith, more, top'))
      | inr same ↦ (u, ground (arith, among), ground (arith, same, top))
    ]

at_most :
    (top : AppRole) (uris : List String) (roles : List AppRole)
    → Assigned uris roles
    → All (λ role. privilege role ≤ privilege top) roles
    → All (AtMost top) uris
unfolding Assigned
at_most top [] [] h k = tt
at_most top [] (role ∷ roles) h k = elim h [ ]
at_most top (uri ∷ uris) [] h k = elim h [ ]
at_most top (uri ∷ uris) (role ∷ roles) (e, h) (k, ks) = ((role, e, k), at_most top uris roles h ks)

-- A launch with a URI outside the vocabulary is refused, and otherwise one with a URI or more gets
-- the role of one of its URIs, to which no other of them is superior: the table has an entry for
-- every URI of the vocabulary.
pub map_roles_lem :
    (uri : String) (rest : List String)
    → let uris = uri ∷ rest in
      ((any (λ u. not (is_known u)) uris ≡ true) × (map_roles uris ≡ raised value_error))
      ⊎ ((top : AppRole) × (map_roles uris ≡ ok top) × All (AtMost top) uris × Attained top uris)
unfolding map_roles max_of_roles Assigned
map_roles_lem uri rest = elim (Bool-cases (any (λ u. not (is_known u)) (uri ∷ rest))) [
  | inl unknown ↦ inl (unknown, ground (arith, unknown))
  | inr known ↦
      let (roles, e, assigned) = map_uris-total (uri ∷ rest) known in
      inr (chosen roles e assigned known)
]
  where
    chosen :
        (roles : List AppRole)
        → map_uris (uri ∷ rest) ≡ ok roles
        → Assigned (uri ∷ rest) roles
        → any (λ u. not (is_known u)) (uri ∷ rest) ≡ false
        → (top : AppRole) × (map_roles (uri ∷ rest) ≡ ok top)
          × All (AtMost top) (uri ∷ rest)
          × Attained top (uri ∷ rest)
    chosen [] e assigned known = elim assigned [ ]
    chosen (role ∷ roles) e (first, others) known =
        let top = max_role role roles in
        (
          top,
          ground (arith, e, known),
          at_most top (uri ∷ rest) (role ∷ roles) (first, others) (max_role-Tops role roles),
          max_role-Attained uri role rest roles first others,
        )
