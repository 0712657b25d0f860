-- ===== src/Preprocessing/RollingBuffer/Eviction.antt =====
-- What the buffer holds after any appends.
use ai_proctor_engine.Base.{
  ◌+◌, ◌≡◌, refl, ap, sym, subst, ◌∙◌, ◌⊎◌, inl, inr, true, false, List, [], ◌∷◌, ◌++◌, ltb, arith,
  ok, raised, Bool-cases, length-append, append-nil, append_assoc, keep, not,
}
use ai_proctor_engine.Preprocessing.RollingBuffer.{
  RollingBufferConfig, RollingBufferEntry, InMemoryRollingBuffer, approx_decoded_size, total_bytes,
  is_over, evict, append,
}

module _ (config : RollingBufferConfig) where
  -- The frames kept are the last ones, in bounds, and one more would break a bound.
  pub record Longest (all kept : List RollingBufferEntry) : Type 0 where
    pub gone : List RollingBufferEntry
    pub split : all ≡ gone ++ kept
    pub fits : is_over config kept ≡ false
    pub maximal :
        (gone ≡ [])
        ⊎ ((before : List RollingBufferEntry) × (e : RollingBufferEntry) × (gone
              ≡ before ++ (e ∷ []))
            × (is_over config (e ∷ kept) ≡ true))

  last_gone :
      (e : RollingBufferEntry) (entries kept gone : List RollingBufferEntry)
      → entries ≡ gone ++ kept
      → (gone ≡ [])
        ⊎ ((before : List RollingBufferEntry) × (x : RollingBufferEntry) × (gone
              ≡ before ++ (x ∷ []))
            × (is_over config (x ∷ kept) ≡ true))
      → is_over config (e ∷ entries) ≡ true
      → (before : List RollingBufferEntry) × (x : RollingBufferEntry) × (e ∷ gone
          ≡ before ++ (x ∷ []))
        × (is_over config (x ∷ kept) ≡ true)
  last_gone e entries kept gone split (inl none_gone) over = (
    [],
    e,
    ap (◌∷◌ e) none_gone,
    subst (λ l. is_over config (e ∷ l) ≡ true) (split ∙ ap (λ g. g ++ kept) none_gone) over,
  )
  last_gone e entries kept gone split (inr (before, x, shape, breaks)) over =
      (e ∷ before, x, ap (◌∷◌ e) shape, breaks)

  evict-Longest : (all : List RollingBufferEntry) → Longest all (evict config all)
  unfolding evict total_bytes
  evict-Longest [] = record { gone = []; split = refl; fits = ground arith; maximal = inl refl }
  evict-Longest (e ∷ entries) = elim (Bool-cases (is_over config (e ∷ entries))) [
    | inl over ↦
        let l = evict-Longest entries in
        let same : evict config (e ∷ entries) ≡ evict config entries = ground (arith, over) in
        subst (Longest (e ∷ entries)) (sym same) (record {
          gone = e ∷ l.gone;
          split = ap (◌∷◌ e) l.split;
          fits = l.fits;
          maximal = inr (last_gone e entries (evict config entries) l.gone l.split l.maximal over);
        })
    | inr fits ↦
        let same : evict config (e ∷ entries) ≡ e ∷ entries = ground (arith, fits) in
        subst (Longest (e ∷ entries)) (sym same)
          (record { gone = []; split = refl; fits = fits; maximal = inl refl })
  ]

  -- An entry more in front or behind never brings a list back into its bounds.
  total_bytes-append :
      (xs ys : List RollingBufferEntry) → total_bytes (xs ++ ys) ≡ total_bytes xs + total_bytes ys
  unfolding total_bytes
  total_bytes-append [] ys = omega arith
  total_bytes-append (x ∷ xs) ys = omega (arith, total_bytes-append xs ys)

  is_over-append :
      (xs ys : List RollingBufferEntry)
      → is_over config xs ≡ true
      → is_over config (xs ++ ys) ≡ true
  is_over-append xs ys h = ground (arith, h, length-append xs ys, total_bytes-append xs ys)

  evict-append :
      (xs ys : List RollingBufferEntry)
      → evict config (evict config xs ++ ys) ≡ evict config (xs ++ ys)
  unfolding evict
  evict-append [] ys = refl
  evict-append (x ∷ xs) ys = elim (Bool-cases (is_over config (x ∷ xs))) [
    | inl over ↦ ground (arith, over, evict-append xs ys, is_over-append (x ∷ xs) ys over)
    | inr fits ↦ ground (arith, fits)
  ]

-- The appends of a session: one that raises leaves the buffer as it is.
unfoldable pub append_all : List RollingBufferEntry → InMemoryRollingBuffer → InMemoryRollingBuffer
append_all [] b = b
append_all (e ∷ entries) b = elim (append e b) [
  | ok b' ↦ append_all entries b'
  | raised x ↦ append_all entries b
]

-- The entries of a session that are not too large.
abbrev pub accepted : RollingBufferConfig → List RollingBufferEntry → List RollingBufferEntry
accepted config entries =
    keep (λ e. not (ltb config.max_bytes_per_entry (approx_decoded_size e))) entries

append_all-evict :
    (entries history : List RollingBufferEntry) (b : InMemoryRollingBuffer)
    → b.entries ≡ evict b.config history
    → (append_all entries b).entries ≡ evict b.config (history ++ accepted b.config entries)
unfolding append_all append
append_all-evict [] history b e = e ∙ ap (evict b.config) (sym (append-nil history))
append_all-evict (x ∷ entries) history b e =
    elim (Bool-cases (ltb b.config.max_bytes_per_entry (approx_decoded_size x))) [
      | inl large ↦ ground (arith, large, append_all-evict entries history b e)
      | inr small ↦
          let b' = record b { entries = evict b.config (b.entries ++ (x ∷ [])) } in
          ground (
            arith,
            small,
            append_all-evict entries (history ++ (x ∷ [])) b' (
                ap (λ l. evict b.config (l ++ (x ∷ []))) e
                ∙ evict-append b.config history (x ∷ [])),
            append_assoc history (x ∷ []) (accepted b.config entries),
          )
    ]

-- After any appends an initially empty buffer holds the longest run of the last accepted frames that
-- keeps both bounds: the rest of the history lies before it, it has at most `max_entries` frames of
-- at most `max_total_bytes` in all, and the frame before it would break a bound.
pub append_all-Longest :
    (entries : List RollingBufferEntry) (b : InMemoryRollingBuffer)
    → b.entries ≡ []
    → Longest b.config (accepted b.config entries) (append_all entries b).entries
unfolding evict
append_all-Longest entries b e =
    subst (Longest b.config (accepted b.config entries)) (sym (append_all-evict entries [] b e))
      (evict-Longest b.config (accepted b.config entries))
