-- ===== src/Fusion/Session/Identities.antt =====
-- Path 5 over a whole session: the identity-mismatch flag against a plain search for a streak.
pub mod Frames
use mathlib.Core.Path.{ap₂}
use ai_proctor_engine.Base.{
  All-append, ℕ, suc, String, str_eq, ◌+◌, ◌≤◌, ◌<◌, ◌≡◌, refl, ap, sym, subst, ◌∙◌, ◌⊎◌, inl, inr,
  Bool, true, false, not, List, [], ◌∷◌, ◌++◌, map, any, All, length, ltb, leb, if◌then◌else◌, ok,
  raised, arith, length-append, append-nil, Bool-cases, ltb→lt, last_n, tail_run, last_n-append,
  last_n-append_suc, last_n-nil, last_n-zero, length-last_n, tail_run-append, tail_run-le,
  any-last_n, All-last_n,
}
use ai_proctor_engine.Floats.{FloatOps, FloatLaws}
use ai_proctor_engine.Inference.{IdentityMatchResult, ConfidenceInterval, InUnit, Between}
use ai_proctor_engine.Fusion.Types.{FlagDecision, PolicySnapshot, SessionContext}
use ai_proctor_engine.Fusion.Streaks.{first_streak, first_streak-length, first_streak-history}
use ai_proctor_engine.Fusion.Aggregator.{
  SessionAggregator, Reply, init, slide, accumulate, check_accumulated_threshold,
  rule_identity_mismatch,
}
use ai_proctor_engine.Fusion.Aggregator.Intervals.{window_interval}
use ai_proctor_engine.Fusion.Aggregator.Intervals.Bounds.{window_interval-ok}
use ai_proctor_engine.Fusion.Aggregator.Slides.{slide-last_n}
use ai_proctor_engine.Fusion.Aggregator.FacePresence.{process_face_presence}
use ai_proctor_engine.Fusion.Aggregator.Liveness.{process_liveness}
use ai_proctor_engine.Fusion.Aggregator.Gaze.{process_gaze, observe_gaze, evaluate_gaze, track_gaze}
use ai_proctor_engine.Fusion.Aggregator.Identity.{
  process_identity_match, check_identity_window, process_identity_check_unavailable, matches,
  mismatch_decision,
}
use ai_proctor_engine.Fusion.Aggregator.Objects.{object_rule, process_object_detection}
use ai_proctor_engine.Fusion.Aggregator.Signals.{process_browser_event, process_audio_vad}
use ai_proctor_engine.Fusion.Session.{
  Call, face, liveness, gaze, identity, identity_unavailable, object, browser, audio, emitted,
  ids_of, ids_of-run, process, run,
}
use ai_proctor_engine.Fusion.Session.Identities.Frames.{
  identity_part, identities, Similarities, mismatches, IsOther, Quiet, other-Quiet, size, search,
  Similar, identity-fired, fired_stays, after_fired,
}

module _ {F : Type 0} ⦃ops : FloatOps F⦄ (policy : PolicySnapshot F) (ctx : SessionContext F) where
  module _ (laws : FloatLaws ops) (pos : 0 < size policy ctx) where
    -- Before the flag the window holds the last frames of the history.
    record Tracks (rs : List (IdentityMatchResult F)) (ids : List ℕ) (agg : SessionAggregator F)
        : Type 0 where
      window : agg.identity_window ≡ last_n (size policy ctx) rs
      id_window : agg.identity_event_ids_window ≡ last_n (size policy ctx) ids
      paired : length rs ≡ length ids
      similar : All (Similar policy ctx) rs
      short : tail_run (mismatches policy ctx) rs < size policy ctx
      unfired : agg.identity_mismatch_fired ≡ false

    All-map :
        (xs : List (IdentityMatchResult F))
        → All (Similar policy ctx) xs
        → All (Between ops.zero_f ops.one_f) (map (λ r. r.similarity) xs)
    All-map [] h = tt
    All-map (x ∷ xs) h = (h.0, All-map xs h.1)

    length-scores :
        (xs : List (IdentityMatchResult F)) → length (map (λ r. r.similarity) xs) ≡ length xs
    length-scores [] = refl
    length-scores (x ∷ xs) = ap suc (length-scores xs)

    -- How a window is judged, by the run of mismatches at the end of its history.
    abbrev Judged : List (IdentityMatchResult F) → SessionAggregator F → Reply F → Type 0
    Judged rs agg reply =
        (tail_run (mismatches policy ctx) rs < size policy ctx) × (reply ≡ (ok [], agg))
        ⊎ (tail_run (mismatches policy ctx) rs ≡ size policy ctx)
          × ((c : ConfidenceInterval F) × InUnit c
              × (reply ≡ (
                ok (mismatch_decision policy c agg.identity_event_ids_window ∷ []),
                record agg { identity_mismatch_fired = true },
              )))

    window_ok :
        (rs : List (IdentityMatchResult F))
        → All (Similar policy ctx) rs
        → size policy ctx ≤ length rs
        → (c : ConfidenceInterval F) × (window_interval
              (map (λ r. r.similarity) (last_n (size policy ctx) rs))
            ≡ ok c)
          × InUnit c
    window_ok rs h long =
        let w = last_n (size policy ctx) rs in
        let (c, e, u, _) =
          window_interval-ok laws (map (λ r. r.similarity) w)
            (omega (arith, length-scores w, length-last_n (size policy ctx) rs))
            (All-map w (All-last_n (Similar policy ctx) (size policy ctx) rs h)) in
        (c, e, u)

    judge :
        (rs : List (IdentityMatchResult F)) (agg : SessionAggregator F)
        → agg.identity_window ≡ last_n (size policy ctx) rs
        → All (Similar policy ctx) rs
        → tail_run (mismatches policy ctx) rs ≤ size policy ctx
        → Judged rs agg (check_identity_window policy agg)
    unfolding check_identity_window
    judge rs agg e h le =
        elim (Bool-cases (ltb (tail_run (mismatches policy ctx) rs) (size policy ctx))) [
          | inl short ↦ inl (
            omega (arith, ltb→lt _ _ short),
            ground (
              arith,
              length-last_n (size policy ctx) rs,
              any-last_n (matches policy) (size policy ctx) rs,
              tail_run-le (mismatches policy ctx) rs,
            ),
          )
          | inr full ↦
              let (c, computed, valid) =
                window_ok rs h (ground (arith, tail_run-le (mismatches policy ctx) rs)) in
              inr (
                ground arith,
                (
                  c,
                  valid,
                  ground (
                    arith,
                    length-last_n (size policy ctx) rs,
                    any-last_n (matches policy) (size policy ctx) rs,
                    tail_run-le (mismatches policy ctx) rs,
                    computed,
                    ap (λ w. window_interval (map (λ r. r.similarity) w)) e,
                  ),
                ),
              )
        ]

    -- A call before the flag either goes on with the search, for a longer history, or ends it with
    -- the flag.
    abbrev Advances :
        Call F → List (Call F) → List (IdentityMatchResult F) → List ℕ → Reply F → Type 0
    Advances call calls rs ids (reply, agg') =
        ((rs' : List (IdentityMatchResult F)) × (ids' : List ℕ) × Tracks rs' ids' agg'
          × (ids_of rule_identity_mismatch (emitted reply) ≡ [])
          × (search policy ctx (last_n (tail_run (mismatches policy ctx) rs) ids)
                (identities (call ∷ calls))
              ≡ search policy ctx (last_n (tail_run (mismatches policy ctx) rs') ids')
                  (identities calls)))
        ⊎ (agg'.identity_mismatch_fired ≡ true)
          × (search policy ctx (last_n (tail_run (mismatches policy ctx) rs) ids)
                (identities (call ∷ calls))
              ≡ ids_of rule_identity_mismatch (emitted reply))

    identity-entered :
        (result : IdentityMatchResult F) (id : ℕ) (agg : SessionAggregator F)
        (rs : List (IdentityMatchResult F)) (ids : List ℕ)
        → Tracks rs ids agg
        → process policy ctx (identity result id) agg
          ≡ check_identity_window policy (record agg {
            identity_window = last_n (size policy ctx) (rs ++ (result ∷ []));
            identity_event_ids_window = last_n (size policy ctx) (ids ++ (id ∷ []));
          })
    unfolding process process_identity_match
    identity-entered result id agg rs ids t =
        ground (arith, slide-last_n (size policy ctx) rs ids result id)

    next_run :
        (rs : List (IdentityMatchResult F)) (r : IdentityMatchResult F)
        → tail_run (mismatches policy ctx) rs < size policy ctx
        → tail_run (mismatches policy ctx) (rs ++ (r ∷ [])) ≤ size policy ctx
    next_run rs r h = ground (arith, tail_run-append (mismatches policy ctx) rs r)

    identity-Advances :
        (result : IdentityMatchResult F) (id : ℕ) (calls : List (Call F))
        (agg : SessionAggregator F) (rs : List (IdentityMatchResult F)) (ids : List ℕ)
        → Tracks rs ids agg
        → Similar policy ctx result
        → Advances (identity result id) calls rs ids (process policy ctx (identity result id) agg)
    identity-Advances result id calls agg rs ids t h =
        let rs' = rs ++ (result ∷ []) in
        let ids' = ids ++ (id ∷ []) in
        let agg1 = record agg {
          identity_window = last_n (size policy ctx) rs';
          identity_event_ids_window = last_n (size policy ctx) ids';
        } in
        let paired : length rs' ≡ length ids' =
          omega (arith, t.paired, length-append rs (result ∷ []), length-append ids (id ∷ [])) in
        let similar = All-append (Similar policy ctx) rs (result ∷ []) t.similar (h, tt) in
        let e = identity-entered result id agg rs ids t in
        let s =
          first_streak-history (mismatches policy ctx) (size policy ctx) rs ids result id
            (identities calls) pos t.paired in
        elim (judge rs' agg1 refl similar (next_run rs result t.short)) [
          | inl (short, r) ↦ inl (
            rs',
            ids',
            subst (λ reply. Tracks rs' ids' reply.1) (sym (e ∙ r))
                (record {
                  window = refl;
                  id_window = refl;
                  paired = paired;
                  similar = similar;
                  short = short;
                  unfired = t.unfired;
                }),
            ground (arith, e ∙ r),
            ground (arith, s),
          )
          | inr (full, (c, _, r)) ↦ inr (ground (arith, e ∙ r), ground (arith, s, e ∙ r))
        ]

    kept :
        (rs : List (IdentityMatchResult F)) (ids : List ℕ) (agg agg' : SessionAggregator F)
        → identity_part agg' ≡ identity_part agg
        → Tracks rs ids agg
        → Tracks rs ids agg'
    kept rs ids agg agg' e t = record {
      window = ground arith;
      id_window = ground arith;
      paired = t.paired;
      similar = t.similar;
      short = t.short;
      unfired = ground arith;
    }

    advances :
        (call : Call F) (calls : List (Call F)) (agg : SessionAggregator F)
        (rs : List (IdentityMatchResult F)) (ids : List ℕ)
        → Tracks rs ids agg
        → Similarities call
        → Advances call calls rs ids (process policy ctx call agg)
    advances (identity result id) calls agg rs ids t h =
        identity-Advances result id calls agg rs ids t h
    advances call calls agg rs ids t h =
        let (part, quiet) = other-Quiet policy ctx call agg h in
        inl (rs, ids, kept rs ids agg (process policy ctx call agg).1 part t, quiet, refl)

    search_holds :
        (calls : List (Call F)) (agg : SessionAggregator F) (rs : List (IdentityMatchResult F))
        (ids : List ℕ)
        → Tracks rs ids agg
        → All Similarities calls
        → ids_of rule_identity_mismatch (run policy ctx calls agg).0
          ≡ search policy ctx (last_n (tail_run (mismatches policy ctx) rs) ids) (identities calls)
    unfolding run first_streak
    search_holds [] agg rs ids t h = refl
    search_holds (call ∷ calls) agg rs ids t (h, hs) =
        let agg' = (process policy ctx call agg).1 in
        let split = ids_of-run policy ctx rule_identity_mismatch call calls agg in
        elim (advances call calls agg rs ids t h) [
          | inl (rs', ids', t', quiet, e) ↦
              split ∙ ap₂ ◌++◌ quiet (search_holds calls agg' rs' ids' t' hs) ∙ sym e
          | inr (fired, e) ↦
              split ∙ ap₂ ◌++◌ (sym e) (after_fired policy ctx calls agg' fired) ∙ append-nil _
        ]

    -- Where every similarity lies in [0, 1] and `identity_confirmation_frames` is positive, the
    -- handler raises nothing that hides a flag: whatever other calls come in between, the ids of a
    -- session's identity-mismatch flags are those of its first streak of
    -- `identity_confirmation_frames` frames below the threshold, once.
    pub run-flags_first_mismatches :
        (calls : List (Call F))
        → All Similarities calls
        → ids_of rule_identity_mismatch (run policy ctx calls init).0
          ≡ search policy ctx [] (identities calls)
    unfolding last_n tail_run
    run-flags_first_mismatches calls h =
        search_holds calls init [] []
          (record {
            window = sym (last_n-nil (size policy ctx));
            id_window = sym (last_n-nil (size policy ctx));
            paired = refl;
            similar = tt;
            short = pos;
            unfired = refl;
          })
          h
