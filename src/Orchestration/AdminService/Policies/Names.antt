-- ===== src/Orchestration/AdminService/Policies/Names.antt =====
-- The live versions of a name, and what each step of a creation does to their number.
use ai_proctor_engine.Base.{
  ℕ, String, str_eq, eq_iff, ◌+◌, ◌-◌, ◌≤◌, ◌<◌, ◌≡◌, refl, sym, true, false, List, [], ◌∷◌, ◌++◌,
  any, length, map, All, All-map, some, if◌then◌else◌, Bool-cases, inl, inr, arith, subst,
}
use ai_proctor_engine.Orchestration.AdminService.Policies.{
  PolicyConfig, is_live, resolve_previous_active, resolve_max_version, retire,
}

module _ {F : Type 0} where
  -- The live versions of a name.
  abbrev pub live_count : String → List (PolicyConfig F) → ℕ
  live_count name [] = 0
  live_count name (row ∷ rows) = (if is_live name row then 1 else 0) + live_count name rows

  -- Every name has one live version at most.
  abbrev pub IsUnique : List (PolicyConfig F) → Type 0
  IsUnique rows = (name : String) → live_count name rows ≤ 1

  pub live_count-append :
      (name : String) (xs ys : List (PolicyConfig F))
      → live_count name (xs ++ ys) ≡ live_count name xs + live_count name ys
  live_count-append name [] ys = omega arith
  live_count-append name (x ∷ xs) ys = omega (arith, live_count-append name xs ys)

  pub live_count-none :
      (name : String) (rows : List (PolicyConfig F))
      → any (is_live name) rows ≡ false
      → live_count name rows ≡ 0
  live_count-none name [] h = refl
  live_count-none name (row ∷ rows) h = ground (arith, h, live_count-none name rows)

  pub none-live_count :
      (name : String) (rows : List (PolicyConfig F))
      → live_count name rows ≡ 0
      → any (is_live name) rows ≡ false
  none-live_count name [] h = refl
  none-live_count name (row ∷ rows) h = ground (arith, h, none-live_count name rows)

  pub resolve_previous_active-count :
      (name : String) (rows : List (PolicyConfig F))
      → length (resolve_previous_active name rows) ≡ live_count name rows
  unfolding resolve_previous_active
  resolve_previous_active-count name [] = refl
  resolve_previous_active-count name (row ∷ rows) =
      ground (arith, resolve_previous_active-count name rows)

  pub retire-own :
      (name : String) (now : ℕ) (rows : List (PolicyConfig F))
      → live_count name (retire name now rows) ≡ live_count name rows - 1
  unfolding retire is_live
  retire-own name now [] = refl
  retire-own name now (row ∷ rows) = elim (Bool-cases (is_live name row)) [
    | inl e ↦ ground (arith, e)
    | inr e ↦ ground (arith, e, retire-own name now rows)
  ]

  -- What a creation makes of an older row: a live version of the name is retired.
  abbrev pub retired : String → ℕ → PolicyConfig F → PolicyConfig F
  retired name now row = if is_live name row then record row { retired_at = some now } else row

  pub retired-none :
      (name : String) (now : ℕ) (rows : List (PolicyConfig F))
      → live_count name rows ≡ 0
      → map (retired name now) rows ≡ rows
  retired-none name now [] h = refl
  retired-none name now (row ∷ rows) h = ground (arith, h, retired-none name now rows)

  pub retire-retired :
      (name : String) (now : ℕ) (rows : List (PolicyConfig F))
      → live_count name rows ≤ 1
      → retire name now rows ≡ map (retired name now) rows
  unfolding retire
  retire-retired name now [] h = refl
  retire-retired name now (row ∷ rows) h = elim (Bool-cases (is_live name row)) [
    | inl e ↦
        let others : live_count name rows ≡ 0 = ground (arith, h, e) in
        ground (arith, e, retired-none name now rows others)
    | inr e ↦ ground (arith, e, h, retire-retired name now rows (ground (arith, e, h)))
  ]

  pub retire-other :
      (name other : String) (now : ℕ) (rows : List (PolicyConfig F))
      → live_count other (retire name now rows) ≤ live_count other rows
  unfolding retire is_live
  retire-other name other now [] = omega arith
  retire-other name other now (row ∷ rows) = elim (Bool-cases (is_live name row)) [
    | inl e ↦ ground (arith, e)
    | inr e ↦ ground (arith, e, retire-other name other now rows)
  ]

  -- The next version is above every version of the name.
  abbrev pub Below : String → ℕ → PolicyConfig F → Type 0
  Below name version row = str_eq row.name name ≡ true → row.version < version

  pub resolve_max_version-Below :
      (name : String) (rows : List (PolicyConfig F))
      → All (Below name (resolve_max_version name rows + 1)) rows
  unfolding resolve_max_version
  resolve_max_version-Below name [] = tt
  resolve_max_version-Below name (row ∷ rows) =
      let others = resolve_max_version name rows in
      (
        λ h. ground (arith, h),
        All-map (Below name (others + 1)) (Below name (resolve_max_version name (row ∷ rows) + 1))
            rows (λ r below h. ground (arith, below h)) (resolve_max_version-Below name rows),
      )

  -- A live row is live under its own name, and under no other.
  pub is_live-own :
      (name : String) (row : PolicyConfig F)
      → is_live name row ≡ true
      → (row.name ≡ name) × (is_live row.name row ≡ true)
  unfolding is_live
  is_live-own name row h =
      let same : row.name ≡ name = (eq_iff row.name name).0 (ground (arith, h)) in
      (same, subst (λ n. is_live n row ≡ true) (sym same) h)

  pub appended-IsUnique :
      (row : PolicyConfig F) (rows : List (PolicyConfig F))
      → IsUnique rows
      → (is_live row.name row ≡ true → live_count row.name rows ≡ 0)
      → IsUnique (rows ++ (row ∷ []))
  appended-IsUnique row rows u h name =
      let counted = live_count-append name rows (row ∷ []) in
      elim (Bool-cases (is_live name row)) [
        | inl e ↦
            let (same, own) = is_live-own name row e in
            let none_live = subst (λ n. live_count n rows ≡ 0) same (h own) in
            ground (arith, counted, e, none_live)
        | inr e ↦ ground (arith, counted, e, u name)
      ]
