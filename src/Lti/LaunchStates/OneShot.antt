-- ===== src/Lti/LaunchStates/OneShot.antt =====
-- Sequences of requests to the store of pending launches (`InMemoryLaunchStateStore`).
use ai_proctor_engine.Base.{
  ℕ, String, str_eq, eq_iff, eq_refl, ◌+◌, ◌≤◌, ◌≡◌, refl, ap, ◌⊎◌, inl, inr, Bool, true, false,
  not, none, some, List, [], ◌∷◌, keep, All, arith, Bool-cases,
}
use ai_proctor_engine.Base.Strings.{is_ascii}
use ai_proctor_engine.Lti.LaunchStates.{
  Entry, LaunchStateStore, consumed, missing, find_entry, delete_entry, purge_locked, register,
  consume, peek, purge_expired, has_aged,
}

pub data Request : Type 0 where
  registers : String → String → String → String → ℕ → ℕ → Request
  consumes : String → String → ℕ → Request
  peeks : String → ℕ → Request
  purges : ℕ → Request

abbrev step : Request → LaunchStateStore → LaunchStateStore
step (registers state nonce redirect issuer now later) store =
    (register state nonce redirect issuer now later store).1
step (consumes state nonce now) store = (consume state nonce now store).1
step (peeks state now) store = (peek state now store).1
step (purges now) store = (purge_expired now store).1

unfoldable pub serve : List Request → LaunchStateStore → LaunchStateStore
serve [] store = store
serve (request ∷ rest) store = serve rest (step request store)

find_entry-delete_entry :
    (state : String) (entries : List (String × Entry))
    → find_entry state (delete_entry state entries) ≡ none
unfolding find_entry delete_entry
find_entry-delete_entry state [] = refl
find_entry-delete_entry state ((key, entry) ∷ rest) =
    ground (arith, find_entry-delete_entry state rest)

find_entry-delete_other :
    (state other : String) (entries : List (String × Entry))
    → str_eq other state ≡ false
    → find_entry state (delete_entry other entries) ≡ find_entry state entries
unfolding find_entry delete_entry
find_entry-delete_other state other [] h = refl
find_entry-delete_other state other ((key, entry) ∷ rest) h =
    ground (arith, eq_iff key other, eq_iff key state, find_entry-delete_other state other rest h)

find_entry-keep-none :
    (p : (String × Entry) → Bool) (state : String) (entries : List (String × Entry))
    → find_entry state entries ≡ none
    → find_entry state (keep p entries) ≡ none
unfolding find_entry
find_entry-keep-none p state [] h = refl
find_entry-keep-none p state ((key, entry) ∷ rest) h =
    ground (arith, find_entry-keep-none p state rest)

find_entry-keep-some :
    (p : (String × Entry) → Bool) (state : String) (entry : Entry) (entries : List (String × Entry))
    → find_entry state entries ≡ some entry
    → ((key : String) → p (key, entry) ≡ true)
    → find_entry state (keep p entries) ≡ some entry
unfolding find_entry
find_entry-keep-some p state entry [] h good = ground arith
find_entry-keep-some p state entry ((key, other) ∷ rest) h good =
    ground (arith, good key, find_entry-keep-some p state entry rest)

abbrev Gone : String → LaunchStateStore → Type 0
Gone state store = find_entry state store.entries ≡ none

-- The request does not register this state again.
abbrev pub Leaves : String → Request → Type 0
Leaves state (registers other nonce redirect issuer now later) = str_eq other state ≡ false
Leaves state _ = Unit

purge_locked-Gone :
    (state : String) (now : ℕ) (store : LaunchStateStore)
    → Gone state store
    → Gone state (purge_locked now store)
unfolding purge_locked
purge_locked-Gone state now store h =
    find_entry-keep-none (λ item. not (has_aged store.ttl now item.1)) state store.entries h

delete_entry-Gone :
    (state other : String) (entries : List (String × Entry))
    → find_entry state entries ≡ none
    → find_entry state (delete_entry other entries) ≡ none
unfolding delete_entry
delete_entry-Gone state other entries h =
    find_entry-keep-none (λ item. not (str_eq item.0 other)) state entries h

step-Gone :
    (state : String) (request : Request) (store : LaunchStateStore)
    → Gone state store
    → Leaves state request
    → Gone state (step request store)
unfolding register consume peek purge_expired find_entry
step-Gone state (registers other nonce redirect issuer now later) store h leaves =
    let purged = purge_locked later store in
    ground
      (arith, delete_entry-Gone state other purged.entries (purge_locked-Gone state later store h))
step-Gone state (consumes other nonce now) store h leaves =
    ground (arith, delete_entry-Gone state other store.entries h)
step-Gone state (peeks other now) store h leaves =
    ground (arith, purge_locked-Gone state now store h)
step-Gone state (purges now) store h leaves = purge_locked-Gone state now store h

serve-Gone :
    (state : String) (requests : List Request) (store : LaunchStateStore)
    → Gone state store
    → All (Leaves state) requests
    → Gone state (serve requests store)
unfolding serve
serve-Gone state [] store h leaves = h
serve-Gone state (request ∷ rest) store h (leaves, more) =
    serve-Gone state rest (step request store) (step-Gone state request store h leaves) more

-- A consumption is final: once a state is consumed, no later attempt consumes it, with any nonce and
-- at any time and whatever requests come in between, unless it is registered again.
pub consume-once :
    (state nonce again redirect issuer : String) (now later : ℕ) (requests : List Request)
    (store : LaunchStateStore)
    → (consume state nonce now store).0 ≡ consumed redirect issuer
    → All (Leaves state) requests
    → (consume state again later (serve requests (consume state nonce now store).1)).0 ≡ missing
unfolding consume
consume-once state nonce again redirect issuer now later requests store h leaves =
    let after = (consume state nonce now store).1 in
    let gone : Gone state after = ground (arith, find_entry-delete_entry state store.entries) in
    ground (arith, serve-Gone state requests after gone leaves)

-- The state is pending with this entry.
abbrev Live : ℕ → String → Entry → LaunchStateStore → Type 0
Live ttl state entry store = (find_entry state store.entries ≡ some entry) × (store.ttl ≡ ttl)

-- The request comes within the entry's time, and neither registers nor consumes it.
abbrev pub Spares : ℕ → String → Entry → Request → Type 0
Spares ttl state entry (registers other nonce redirect issuer now later) =
    (str_eq other state ≡ false) × (later ≤ entry.issued_at + ttl)
Spares ttl state entry (consumes other nonce now) =
    (str_eq other state ≡ false)
    ⊎ ((str_eq entry.nonce nonce ≡ false) × (now ≤ entry.issued_at + ttl))
Spares ttl state entry (peeks other now) = now ≤ entry.issued_at + ttl
Spares ttl state entry (purges now) = now ≤ entry.issued_at + ttl

purge_locked-Live :
    (ttl : ℕ) (state : String) (entry : Entry) (now : ℕ) (store : LaunchStateStore)
    → Live ttl state entry store
    → now ≤ entry.issued_at + ttl
    → Live ttl state entry (purge_locked now store)
unfolding purge_locked
purge_locked-Live ttl state entry now store (h, t) young = (
  find_entry-keep-some (λ item. not (has_aged store.ttl now item.1)) state entry store.entries h
      (λ key. ground arith),
  t,
)

step-Live :
    (ttl : ℕ) (state : String) (entry : Entry) (request : Request) (store : LaunchStateStore)
    → Live ttl state entry store
    → Spares ttl state entry request
    → Live ttl state entry (step request store)
unfolding register consume peek purge_expired find_entry
step-Live ttl state entry (registers other nonce redirect issuer now later) store h
      (differs, young) =
    let purged = purge_locked later store in
    ground (
      arith,
      find_entry-delete_other state other purged.entries differs,
      purge_locked-Live ttl state entry later store h young,
    )
step-Live ttl state entry (consumes other nonce now) store h spares =
    elim (Bool-cases (str_eq other state)) [
      | inl same ↦
          ground (arith, ap (λ s. find_entry s store.entries) ((eq_iff other state).0 same))
      | inr differs ↦ ground (arith, find_entry-delete_other state other store.entries differs)
    ]
step-Live ttl state entry (peeks other now) store h young =
    ground (arith, purge_locked-Live ttl state entry now store h young)
step-Live ttl state entry (purges now) store h young =
    purge_locked-Live ttl state entry now store h young

serve-Live :
    (ttl : ℕ) (state : String) (entry : Entry) (requests : List Request) (store : LaunchStateStore)
    → Live ttl state entry store
    → All (Spares ttl state entry) requests
    → Live ttl state entry (serve requests store)
unfolding serve
serve-Live ttl state entry [] store h spares = h
serve-Live ttl state entry (request ∷ rest) store h (now, more) =
    serve-Live ttl state entry rest (step request store)
      (step-Live ttl state entry request store h now) more

registered :
    (state nonce redirect issuer : String) (issued later : ℕ) (store : LaunchStateStore)
    → str_eq state "" ≡ false
    → str_eq nonce "" ≡ false
    → Live store.ttl state
        (record { nonce = nonce; redirect_uri = redirect; lti_issuer = issuer; issued_at = issued })
        (register state nonce redirect issuer issued later store).1
unfolding register find_entry purge_locked
registered state nonce redirect issuer issued later store s n = ground (arith, eq_refl state)

-- A launch that is registered with a nonce of ASCII characters can be completed: within its time, and whatever requests came since
-- that neither registered the state again nor consumed it, the right nonce gives back the redirect
-- URI and the issuer, also after attempts with a wrong nonce.
pub register-consume :
    (state nonce redirect issuer : String) (issued later at : ℕ) (requests : List Request)
    (store : LaunchStateStore)
    → str_eq state "" ≡ false
    → str_eq nonce "" ≡ false
    → is_ascii nonce ≡ true
    → at ≤ issued + store.ttl
    → (let entry : Entry = record {
      nonce = nonce;
      redirect_uri = redirect;
      lti_issuer = issuer;
      issued_at = issued;
    } in
        All (Spares store.ttl state entry) requests)
    → (consume state nonce at
        (serve requests (register state nonce redirect issuer issued later store).1)).0
      ≡ consumed redirect issuer
unfolding consume
register-consume state nonce redirect issuer issued later at requests store s n ascii young spares =
    let entry : Entry = record {
      nonce = nonce;
      redirect_uri = redirect;
      lti_issuer = issuer;
      issued_at = issued;
    } in
    let start = (register state nonce redirect issuer issued later store).1 in
    ground (
      arith,
      serve-Live store.ttl state entry requests start
          (registered state nonce redirect issuer issued later store s n) spares,
      eq_refl nonce,
      ascii,
    )
