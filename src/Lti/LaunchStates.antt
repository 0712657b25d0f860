-- ===== src/Lti/LaunchStates.antt =====
-- The store of pending launches (`InMemoryLaunchStateStore` of lti/state.py). The clock's readings
-- are arguments, in milliseconds, and each method that takes the lock is one step.
pub mod OneShot
use ai_proctor_engine.Base.{
  ℕ, String, str_eq, ◌+◌, Bool, true, false, not, Option, none, some, List, [], ◌∷◌, length, keep,
  map, ltb, ◌==◌, if◌then◌else◌, Outcome, ok, raised, value_error, ◌&&◌,
}
use ai_proctor_engine.Base.Strings.{is_ascii}

pub record Entry : Type 0 where
  pub nonce : String
  pub redirect_uri : String
  pub lti_issuer : String
  pub issued_at : ℕ

-- The dictionary's items: of two with one key the first counts.
pub record LaunchStateStore : Type 0 where
  pub ttl : ℕ
  pub entries : List (String × Entry)

-- What `consume` ends with: the redirect URI and the issuer, or the exception. `type_error` is that
-- of `secrets.compare_digest`, which compares texts of ASCII characters only.
pub data Consumed : Type 0 where
  consumed : String → String → Consumed
  missing expired nonce_mismatch type_error : Consumed

unfoldable pub make_store : ℕ → Outcome LaunchStateStore
make_store ttl = if ttl == 0 then raised value_error else ok (record { ttl = ttl; entries = [] })

unfoldable pub find_entry : String → List (String × Entry) → Option Entry
find_entry state [] = none
find_entry state ((key, entry) ∷ rest) =
    if str_eq key state then some entry else find_entry state rest

-- `del d[state]`, and `d[state] = entry` (the order of the items is never read).
unfoldable pub delete_entry : String → List (String × Entry) → List (String × Entry)
delete_entry state entries = keep (λ item. not (str_eq item.0 state)) entries

abbrev has_aged : ℕ → ℕ → Entry → Bool
has_aged ttl now entry = ltb (entry.issued_at + ttl) now

-- `_purge_expired_locked`, without its count.
unfoldable pub purge_locked : ℕ → LaunchStateStore → LaunchStateStore
purge_locked now store = record store {
  entries = keep (λ item. not (has_aged store.ttl now item.1)) store.entries;
}

-- The clock is read for the entry, and again by the purge.
unfoldable pub register :
    String
    → String
    → String
    → String
    → ℕ
    → ℕ
    → LaunchStateStore
    → Outcome {0} Unit × LaunchStateStore
register state nonce redirect_uri lti_issuer now later store =
    let entry : Entry = record {
      nonce = nonce;
      redirect_uri = redirect_uri;
      lti_issuer = lti_issuer;
      issued_at = now;
    } in
    let purged = purge_locked later store in
    if str_eq state ""
    then (raised value_error, store)
    else if str_eq nonce ""
    then (raised value_error, store)
    else (ok tt, record purged { entries = (state, entry) ∷ delete_entry state purged.entries })

unfoldable pub consume : String → String → ℕ → LaunchStateStore → Consumed × LaunchStateStore
unfolding is_ascii
consume state nonce now store =
    let deleted = record store { entries = delete_entry state store.entries } in
    if str_eq state "" then (missing, store) else elim (find_entry state store.entries) [
      | none ↦ (missing, store)
      | some entry ↦
          if has_aged store.ttl now entry
          then (expired, deleted)
          else if not (is_ascii entry.nonce && is_ascii nonce)
          then (type_error, store)
          else if not (str_eq entry.nonce nonce)
          then (nonce_mismatch, store)
          else (consumed entry.redirect_uri entry.lti_issuer, deleted)
    ]

unfoldable pub peek : String → ℕ → LaunchStateStore → Option String × LaunchStateStore
peek state now store =
    let purged = purge_locked now store in
    elim (find_entry state purged.entries) [
      | none ↦ (none, purged)
      | some entry ↦ (some entry.lti_issuer, purged)
    ]

unfoldable pub purge_expired : ℕ → LaunchStateStore → ℕ × LaunchStateStore
purge_expired now store =
    (length (keep (λ item. has_aged store.ttl now item.1) store.entries), purge_locked now store)
