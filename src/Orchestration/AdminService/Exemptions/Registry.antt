-- ===== src/Orchestration/AdminService/Exemptions/Registry.antt =====
-- What a created exemption does to the registry, and for whom it applies afterwards.
use ai_proctor_engine.Base.{
  ℕ, String, ◌≡◌, refl, sym, subst, ◌⊎◌, true, Option, none, some, [], ◌∷◌, ◌++◌, keep, ap, ◌∙◌,
  ◌&&◌, eq_refl, Bool-cases, inl, inr, arith,
}
use mathlib.Core.List.{reverse-append}
use ai_proctor_engine.Orchestration.AdminService.{
  AdminUser, exemption_validation, Answer, answer, refused,
}
use ai_proctor_engine.Orchestration.AdminService.Exemptions.{
  ExemptionRequest, AccommodationExemption, ExemptionTables, of_participant, of_class,
  validate_exemption_request, exemption_row, insertable, create_exemption, list_exemptions,
}

-- A new row that passes the filters comes before the rows that were there.
list_exemptions-newest :
    (participant : Option ℕ) (object_class : Option String) (row : AccommodationExemption)
    (db : ExemptionTables)
    → of_participant participant row ≡ true
    → of_class object_class row ≡ true
    → list_exemptions participant object_class
        (record db { exemptions = db.exemptions ++ (row ∷ []) })
      ≡ row ∷ list_exemptions participant object_class db
unfolding list_exemptions
list_exemptions-newest participant object_class row db h k =
    let order = reverse-append db.exemptions (row ∷ []) in
    ap (keep (λ e. of_participant participant e && of_class object_class e)) order
    ∙ ground (arith, h, k)

-- What the lists show of a reply: the refusal with the tables as they were, or the new row first.
abbrev pub Listed :
    ExemptionTables
    → AccommodationExemption
    → Answer AccommodationExemption × ExemptionTables
    → Type 0
Listed db row reply =
    (reply ≡ (refused exemption_validation, db))
    ⊎ ((reply.0 ≡ answer row)
        × (list_exemptions none none reply.1 ≡ row ∷ list_exemptions none none db)
        × (list_exemptions (some row.participant_id) (some row.object_class) reply.1
            ≡ row ∷ list_exemptions (some row.participant_id) (some row.object_class) db))

-- A creation is refused with the tables as they were, or the new row comes first in the list of all
-- rows and in the list of its participant and class, before the rows that were there.
pub create_exemption-Listed :
    (id : ℕ) (request : ExemptionRequest) (approver : AdminUser) (db : ExemptionTables)
    → Listed db (exemption_row id request approver) (create_exemption id request approver db)
unfolding create_exemption list_exemptions of_participant of_class
create_exemption-Listed id request approver db =
    let row = exemption_row id request approver in
    elim (Bool-cases (validate_exemption_request request)) [
      | inr e ↦ inl (ground (arith, e))
      | inl e ↦ elim (Bool-cases (insertable row db)) [
        | inr k ↦ inl (ground (arith, e, k))
        | inl k ↦
            let after : ExemptionTables = record db { exemptions = db.exemptions ++ (row ∷ []) } in
            let done : create_exemption id request approver db ≡ (answer row, after) =
              ground (arith, e, k) in
            subst (Listed db row) (sym done) (
              inr (
                refl,
                list_exemptions-newest none none row db refl refl,
                list_exemptions-newest (some row.participant_id) (some row.object_class) row db
                    (ground arith) (ground (arith, eq_refl row.object_class)),
              ))
      ]
    ]
