-- ===== src/Orchestration/FlagPersistence/Links.antt =====
-- The links of a flag to the events of its decision, and the rows of these events.
use ai_proctor_engine.Base.{
  any-append_left, any-last, append_assoc, All-append, ◌∙◌, All-map, ℕ, String, ◌+◌, ◌≡◌, refl, ap,
  sym, subst, ◌⊎◌, inl, inr, Bool, true, false, Option, none, some, List, [], ◌∷◌, ◌++◌, All,
  append-nil, ◌==◌, arith, Bool-cases,
}
use ai_proctor_engine.Fusion.Session.Validity.Decisions.{Known}
use ai_proctor_engine.Orchestration.FlagPersistence.{
  FlagTelemetryEvent, to_severity, link_events, has_id, FlagSeverity, low, medium, critical,
}
use ai_proctor_engine.Orchestration.FlagPersistence.Worker.{
  insert_telemetry_events, insert_telemetry_event,
}

pub to_severity-Known :
    (s : String) → Known s → (severity : FlagSeverity) × (to_severity s ≡ some severity)
unfolding to_severity
to_severity-Known s (inl e) = (critical, ap to_severity e)
to_severity-Known s (inr (inl e)) = (medium, ap to_severity e)
to_severity-Known s (inr (inr e)) = (low, ap to_severity e)

-- The links of a flag to these events, at the positions from `position` on.
abbrev pub numbered : ℕ → ℕ → List ℕ → List FlagTelemetryEvent
numbered flag_id position [] = []
numbered flag_id position (id ∷ ids) =
    record { flag_id = flag_id; telemetry_event_id = id; position = position }
    ∷ numbered flag_id (position + 1) ids

-- Every event is among the known ones.
abbrev pub AllKnown : List ℕ → List ℕ → Type 0
AllKnown known ids = All (λ id. has_id id known ≡ true) ids

-- No event is listed twice.
abbrev pub Distinct : List ℕ → Type 0
Distinct [] = Unit
Distinct (id ∷ ids) = (has_id id ids ≡ false) × Distinct ids

-- Some event is not known, or comes twice.
pub data Broken (known : List ℕ) : List ℕ → List ℕ → Type 0 where
  unknown :
      (linked : List ℕ) (id : ℕ) (ids : List ℕ)
      → has_id id known ≡ false
      → Broken known linked (id ∷ ids)
  twice :
      (linked : List ℕ) (id : ℕ) (ids : List ℕ)
      → has_id id linked ≡ true
      → Broken known linked (id ∷ ids)
  later :
      (linked : List ℕ) (id : ℕ) (ids : List ℕ)
      → Broken known (id ∷ linked) ids
      → Broken known linked (id ∷ ids)

fresh-more :
    (linked : List ℕ) (id : ℕ) (ids : List ℕ)
    → has_id id ids ≡ false
    → All (λ i. has_id i linked ≡ false) ids
    → All (λ i. has_id i (id ∷ linked) ≡ false) ids
fresh-more linked id [] h fresh = tt
fresh-more linked id (i ∷ ids) h (f, fresh) =
    (ground (arith, h, f), fresh-more linked id ids (ground (arith, h)) fresh)

-- Events that are known and differ are all linked.
pub link_events-Distinct :
    (flag_id position : ℕ) (known linked ids : List ℕ)
    → AllKnown known ids
    → Distinct ids
    → All (λ i. has_id i linked ≡ false) ids
    → link_events flag_id position known linked ids ≡ some (numbered flag_id position ids)
unfolding link_events
link_events-Distinct flag_id position known linked [] k d f = refl
link_events-Distinct flag_id position known linked (id ∷ ids) (k, ks) (d, ds) (f, fs) = ground (
  arith,
  k,
  f,
  link_events-Distinct flag_id (position + 1) known (id ∷ linked) ids ks ds
      (fresh-more linked id ids d fs),
)

-- Either all events are known and linked in order, or none is.
abbrev pub Linked : ℕ → ℕ → List ℕ → List ℕ → List ℕ → Option (List FlagTelemetryEvent) → Type 0
Linked flag_id position known linked ids result =
    ((result ≡ some (numbered flag_id position ids)) × AllKnown known ids)
    ⊎ ((result ≡ none) × Broken known linked ids)

pub link_events-Linked :
    (flag_id position : ℕ) (known linked ids : List ℕ)
    → Linked flag_id position known linked ids (link_events flag_id position known linked ids)
unfolding link_events
link_events-Linked flag_id position known linked [] = inl (refl, tt)
link_events-Linked flag_id position known linked (id ∷ ids) = elim (Bool-cases (has_id id known)) [
  | inr e ↦ inr (ground (arith, e), unknown linked id ids e)
  | inl e ↦ elim (Bool-cases (has_id id linked)) [
    | inl k ↦ inr (ground (arith, e, k), twice linked id ids k)
    | inr k ↦ elim (link_events-Linked flag_id (position + 1) known (id ∷ linked) ids) [
      | inl (done, all) ↦ inl (ground (arith, e, k, done), (e, all))
      | inr (failed, broken) ↦ inr (ground (arith, e, k, failed), later linked id ids broken)
    ]
  ]
]

-- Some event's row is there already, also by an earlier one of the same decision.
pub data Repeats : List ℕ → List ℕ → Type 0 where
  now : (known : List ℕ) (id : ℕ) (ids : List ℕ) → has_id id known ≡ true → Repeats known (id ∷ ids)
  after :
      (known : List ℕ) (id : ℕ) (ids : List ℕ)
      → Repeats (known ++ (id ∷ [])) ids
      → Repeats known (id ∷ ids)

-- The rows of these events are all there, behind the older ones, and no others were added.
abbrev pub Inserted : List ℕ → List ℕ → List ℕ → Type 0
Inserted known ids events =
    (new : List ℕ) × (events ≡ known ++ new) × AllKnown ids new × AllKnown events ids

Inserted-more :
    (known known' ids events : List ℕ) (id : ℕ) (own : List ℕ)
    → known' ≡ known ++ own
    → AllKnown (id ∷ []) own
    → has_id id known' ≡ true
    → Inserted known' ids events
    → Inserted known (id ∷ ids) events
Inserted-more known known' ids events id own e mine there (new, grown, named, all) =
    let whole : events ≡ known ++ (own ++ new) =
      grown ∙ ap (λ k. k ++ new) e ∙ append_assoc known own new in
    (
      own ++ new,
      whole,
      All-append _ own new (All-map _ _ own (λ x h. ground (arith, h)) mine)
          (All-map _ _ new (λ x h. ground (arith, h)) named),
      (
        subst (λ k. has_id id k ≡ true) (sym grown)
            (any-append_left (λ i. i == id) known' new there),
        all,
      ),
    )

pub insert_telemetry_events-Inserted :
    (raises : Bool) (known ids : List ℕ)
    → ((events : List ℕ) × (insert_telemetry_events raises known ids ≡ some events)
        × Inserted known ids events)
      ⊎ ((insert_telemetry_events raises known ids ≡ none) × (raises ≡ true) × Repeats known ids)
unfolding insert_telemetry_events insert_telemetry_event
insert_telemetry_events-Inserted raises known [] =
    inl (known, refl, ([], sym (append-nil known), tt, tt))
insert_telemetry_events-Inserted raises known (id ∷ ids) = elim (Bool-cases (has_id id known)) [
  | inr new ↦
      let known' = known ++ (id ∷ []) in
      let there = any-last (λ i. i == id) known id (ground arith) in
      elim (insert_telemetry_events-Inserted raises known' ids) [
        | inl (events, done, inserted) ↦ inl (
          events,
          ground (arith, new, done),
          Inserted-more known known' ids events id (id ∷ []) refl (ground arith, tt) there inserted,
        )
        | inr (failed, on, repeats) ↦
            inr (ground (arith, new, failed), on, after known id ids repeats)
      ]
  | inl old ↦ elim (Bool-cases raises) [
    | inl on ↦ inr (ground (arith, old, on), on, now known id ids old)
    | inr off ↦ elim (insert_telemetry_events-Inserted raises known ids) [
      | inl (events, done, inserted) ↦ inl (
        events,
        ground (arith, old, off, done),
        Inserted-more known known ids events id [] (sym (append-nil known)) tt old inserted,
      )
      | inr (failed, on, repeats) ↦ absurd (ground (arith, off, on))
    ]
  ]
]
