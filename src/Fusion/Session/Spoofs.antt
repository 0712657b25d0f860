-- ===== src/Fusion/Session/Spoofs.antt =====
-- Path 4 over a whole session: the liveness flags against a plain search for blocks of spoof frames.
pub mod Frames
use mathlib.Core.Path.{ap₂}
use native.Mathlib.Nat.{mod-eq_of_lt}
use ai_proctor_engine.Base.{
  All-append, ℕ, suc, String, str_eq, ◌+◌, ◌≤◌, ◌<◌, ◌≡◌, refl, ap, sym, subst, ◌∙◌, ◌⊎◌, inl, inr,
  Bool, true, false, not, ◌%◌, ◌==◌, List, [], ◌∷◌, ◌++◌, map, any, All, length, ltb, leb,
  if◌then◌else◌, ok, raised, arith, length-append, append-nil, Bool-cases, ltb→lt, last_n, tail_run,
  last_n-append, last_n-append_suc, last_n-nil, last_n-zero, length-last_n, tail_run-append,
  tail_run-le, any-last_n, All-last_n,
}
use ai_proctor_engine.Floats.{FloatOps, FloatLaws}
use ai_proctor_engine.Inference.{LivenessResult, ConfidenceInterval, InUnit, Between}
use ai_proctor_engine.Fusion.Types.{FlagDecision, PolicySnapshot, SessionContext}
use ai_proctor_engine.Fusion.Streaks.{all_streaks, all_streaks-length, all_streaks-history}
use ai_proctor_engine.Fusion.Aggregator.{
  SessionAggregator, Reply, init, slide, accumulate, check_accumulated_threshold,
  rule_liveness_check_failed,
}
use ai_proctor_engine.Fusion.Aggregator.Intervals.{window_interval}
use ai_proctor_engine.Fusion.Aggregator.Intervals.Bounds.{window_interval-ok}
use ai_proctor_engine.Fusion.Aggregator.Slides.{slide-last_n}
use ai_proctor_engine.Fusion.Aggregator.FacePresence.{process_face_presence}
use ai_proctor_engine.Fusion.Aggregator.Liveness.{
  process_liveness, check_spoof_window, flag_liveness, confirm_liveness,
}
use ai_proctor_engine.Fusion.Aggregator.Gaze.{process_gaze, observe_gaze, evaluate_gaze, track_gaze}
use ai_proctor_engine.Fusion.Aggregator.Identity.{
  process_identity_match, process_identity_check_unavailable,
}
use ai_proctor_engine.Fusion.Aggregator.Objects.{object_rule, process_object_detection}
use ai_proctor_engine.Fusion.Aggregator.Signals.{process_browser_event, process_audio_vad}
use ai_proctor_engine.Fusion.Session.{
  Call, face, liveness, gaze, identity, identity_unavailable, object, browser, audio, emitted,
  ids_of, ids_of-run, process, run,
}
use ai_proctor_engine.Fusion.Session.Spoofs.Frames.{
  liveness_part, liveness_frames, is_spoof, ValidCall, IsOther, Quiet, other-Quiet, size, search,
  Valid, off_call, off-run, flag_liveness-links,
}

module _ {F : Type 0} ⦃ops : FloatOps F⦄ (policy : PolicySnapshot F) (ctx : SessionContext F) where
  module _ (laws : FloatLaws ops) (pos : 0 < size policy ctx)
      (on : policy.liveness_check_enabled ≡ true) where
    record Tracks (rs : List (LivenessResult F)) (ids : List ℕ) (agg : SessionAggregator F)
        : Type 0 where
      window : agg.liveness_window ≡ last_n (size policy ctx) rs
      id_window : agg.liveness_event_ids_window ≡ last_n (size policy ctx) ids
      spoofs : agg.liveness_spoof_run_length ≡ tail_run is_spoof rs
      paired : length rs ≡ length ids
      valid : All (Valid policy ctx) rs

    All-scores :
        (xs : List (LivenessResult F))
        → All (Valid policy ctx) xs
        → All (Between ops.zero_f ops.one_f) (map (λ r. r.confidence.score) xs)
    All-scores [] h = tt
    All-scores (x ∷ xs) (v, h) =
        ((laws.le_trans _ _ _ v.low v.left, laws.le_trans _ _ _ v.right v.high), All-scores xs h)

    length-scores :
        (xs : List (LivenessResult F)) → length (map (λ r. r.confidence.score) xs) ≡ length xs
    length-scores [] = refl
    length-scores (x ∷ xs) = ap suc (length-scores xs)

    window_ok :
        (rs : List (LivenessResult F))
        → All (Valid policy ctx) rs
        → size policy ctx ≤ length rs
        → (c : ConfidenceInterval F) × (window_interval
              (map (λ r. r.confidence.score) (last_n (size policy ctx) rs))
            ≡ ok c)
          × InUnit c
    window_ok rs h long =
        let w = last_n (size policy ctx) rs in
        let (c, e, u, _) =
          window_interval-ok laws (map (λ r. r.confidence.score) w)
            (omega (arith, length-scores w, length-last_n (size policy ctx) rs))
            (All-scores w (All-last_n (Valid policy ctx) (size policy ctx) rs h)) in
        (c, e, u)

    -- How a window that ends in a spoof frame is judged, by the length of its run of spoofs.
    abbrev Judged : List (LivenessResult F) → SessionAggregator F → Reply F → Type 0
    Judged rs agg reply =
        ((tail_run is_spoof rs % (size policy ctx) == 0) ≡ false) × (reply ≡ (ok [], agg))
        ⊎ ((tail_run is_spoof rs % (size policy ctx) == 0) ≡ true)
          × ((c : ConfidenceInterval F) × InUnit c
              × (reply ≡ flag_liveness policy policy.liveness_check_action c agg))

    run_enough :
        (rs : List (LivenessResult F))
        → 0 < tail_run is_spoof rs
        → (tail_run is_spoof rs % (size policy ctx) == 0) ≡ true
        → size policy ctx ≤ tail_run is_spoof rs
    run_enough rs h full = elim (Bool-cases (ltb (tail_run is_spoof rs) (size policy ctx))) [
      | inl short ↦ absurd (ground (arith, mod-eq_of_lt (ltb→lt _ _ short)))
      | inr long ↦ ground arith
    ]

    long_enough :
        (rs : List (LivenessResult F))
        → 0 < tail_run is_spoof rs
        → (tail_run is_spoof rs % (size policy ctx) == 0) ≡ true
        → size policy ctx ≤ length rs
    long_enough rs h full = omega (arith, run_enough rs h full, tail_run-le is_spoof rs)

    judge :
        (rs : List (LivenessResult F)) (agg : SessionAggregator F)
        → agg.liveness_window ≡ last_n (size policy ctx) rs
        → agg.liveness_spoof_run_length ≡ tail_run is_spoof rs
        → All (Valid policy ctx) rs
        → 0 < tail_run is_spoof rs
        → Judged rs agg (check_spoof_window policy agg)
    unfolding check_spoof_window confirm_liveness
    judge rs agg e n h some_spoof =
        elim (Bool-cases (tail_run is_spoof rs % (size policy ctx) == 0)) [
          | inr part ↦ inl (part, ground arith)
          | inl full ↦
              let (c, computed, valid) = window_ok rs h (long_enough rs some_spoof full) in
              inr (
                full,
                (
                  c,
                  valid,
                  ground (
                    arith,
                    length-last_n (size policy ctx) rs,
                    any-last_n (λ r. r.is_real) (size policy ctx) rs,
                    tail_run-le is_spoof rs,
                    long_enough rs some_spoof full,
                    run_enough rs some_spoof full,
                    computed,
                    ap (λ w. window_interval (map (λ r. r.confidence.score) w)) e,
                  ),
                ),
              )
        ]

    memory : List (LivenessResult F) → List ℕ → List ℕ
    memory rs ids = last_n (tail_run is_spoof rs % (size policy ctx)) ids

    -- A call emits what the search finds in its frame, and the search goes on from there.
    abbrev Advances : Call F → List (Call F) → List (LivenessResult F) → List ℕ → Reply F → Type 0
    Advances call calls rs ids (reply, agg') =
        (rs' : List (LivenessResult F)) × (ids' : List ℕ) × Tracks rs' ids' agg'
        × (search policy ctx (memory rs ids) (liveness_frames (call ∷ calls))
            ≡ ids_of rule_liveness_check_failed (emitted reply)
              ++ (search policy ctx) (memory rs' ids') (liveness_frames calls))

    -- The state once the frame is in the window, with the count `n`.
    abbrev entered :
        SessionAggregator F → List (LivenessResult F) → List ℕ → ℕ → SessionAggregator F
    entered agg rs ids n = record agg {
      liveness_window = last_n (size policy ctx) rs;
      liveness_event_ids_window = last_n (size policy ctx) ids;
      liveness_spoof_run_length = n;
    }

    liveness-entered :
        (result : LivenessResult F) (id : ℕ) (agg : SessionAggregator F)
        (rs : List (LivenessResult F)) (ids : List ℕ)
        → Tracks rs ids agg
        → let rs' = rs ++ (result ∷ []) in
          let ids' = ids ++ (id ∷ []) in
          process policy ctx (liveness result id) agg ≡ (
            if result.is_real
            then (ok [], entered agg rs' ids' 0)
            else check_spoof_window policy (entered agg rs' ids' (tail_run is_spoof rs + 1)))
    unfolding process process_liveness
    liveness-entered result id agg rs ids t =
        ground (arith, slide-last_n (size policy ctx) rs ids result id, on)

    kept :
        (rs : List (LivenessResult F)) (ids : List ℕ) (agg agg' : SessionAggregator F)
        → liveness_part agg' ≡ liveness_part agg
        → Tracks rs ids agg
        → Tracks rs ids agg'
    kept rs ids agg agg' e t = record {
      window = ground arith;
      id_window = ground arith;
      spoofs = ground arith;
      paired = t.paired;
      valid = t.valid;
    }

    module _ (result : LivenessResult F) (id : ℕ) (agg : SessionAggregator F)
        (rs : List (LivenessResult F)) (ids : List ℕ) (t : Tracks rs ids agg)
        (h : Valid policy ctx result) where
      abbrev rs' : List (LivenessResult F)
      rs' = rs ++ (result ∷ [])

      abbrev ids' : List ℕ
      ids' = ids ++ (id ∷ [])

      next-Tracks : (n : ℕ) → n ≡ tail_run is_spoof rs' → Tracks rs' ids' (entered agg rs' ids' n)
      next-Tracks n e = record {
        window = refl;
        id_window = refl;
        spoofs = e;
        paired =
            omega (arith, t.paired, length-append rs (result ∷ []), length-append ids (id ∷ []));
        valid = All-append (Valid policy ctx) rs (result ∷ []) t.valid (h, tt);
      }

      real-Advances :
          (calls : List (Call F))
          → result.is_real ≡ true
          → Advances (liveness result id) calls rs ids (process policy ctx (liveness result id) agg)
      unfolding memory
      real-Advances calls real =
          let none_left : tail_run is_spoof rs' ≡ 0 =
            ground (arith, tail_run-append is_spoof rs result) in
          let e : process policy ctx (liveness result id) agg ≡ (ok [], entered agg rs' ids' 0) =
            ground (arith, liveness-entered result id agg rs ids t) in
          (
            rs',
            ids',
            subst (λ reply. Tracks rs' ids' reply.1) (sym e) (next-Tracks 0 (sym none_left)),
            ground (
              arith,
              e,
              all_streaks-history is_spoof (size policy ctx) rs ids result id
                  (liveness_frames calls) pos t.paired,
            ),
          )

      spoof-Advances :
          (calls : List (Call F))
          → result.is_real ≡ false
          → Advances (liveness result id) calls rs ids (process policy ctx (liveness result id) agg)
      unfolding memory
      spoof-Advances calls spoof =
          let count : tail_run is_spoof rs' ≡ tail_run is_spoof rs + 1 =
            ground (arith, tail_run-append is_spoof rs result) in
          let agg1 = entered agg rs' ids' (tail_run is_spoof rs + 1) in
          let t1 = next-Tracks (tail_run is_spoof rs + 1) (sym count) in
          let e : process policy ctx (liveness result id) agg ≡ check_spoof_window policy agg1 =
            ground (arith, liveness-entered result id agg rs ids t) in
          let s =
            all_streaks-history is_spoof (size policy ctx) rs ids result id (liveness_frames calls)
              pos t.paired in
          elim (judge rs' agg1 refl (sym count) t1.valid (omega (arith, count))) [
            | inl (part, r) ↦ (
              rs',
              ids',
              subst (λ reply. Tracks rs' ids' reply.1) (sym (e ∙ r)) t1,
              ground (arith, e ∙ r, s),
            )
            | inr (full, (c, _, r)) ↦
                let (links, part) = flag_liveness-links policy ctx c agg1 in
                (
                  rs',
                  ids',
                  subst (λ reply. Tracks rs' ids' reply.1) (sym (e ∙ r))
                      (kept rs' ids' agg1 _ part t1),
                  ground (arith, e ∙ r, s, links),
                )
          ]

    advances :
        (call : Call F) (calls : List (Call F)) (agg : SessionAggregator F)
        (rs : List (LivenessResult F)) (ids : List ℕ)
        → Tracks rs ids agg
        → ValidCall call
        → Advances call calls rs ids (process policy ctx call agg)
    advances (liveness result id) calls agg rs ids t h = elim (Bool-cases result.is_real) [
      | inl real ↦ real-Advances result id agg rs ids t h calls real
      | inr spoof ↦ spoof-Advances result id agg rs ids t h calls spoof
    ]
    advances call calls agg rs ids t h =
        let (part, quiet) = other-Quiet policy ctx call agg h in
        (rs, ids, kept rs ids agg (process policy ctx call agg).1 part t, ground (arith, quiet))

    search_holds :
        (calls : List (Call F)) (agg : SessionAggregator F) (rs : List (LivenessResult F))
        (ids : List ℕ)
        → Tracks rs ids agg
        → All ValidCall calls
        → ids_of rule_liveness_check_failed (run policy ctx calls agg).0
          ≡ search policy ctx (memory rs ids) (liveness_frames calls)
    unfolding run all_streaks
    search_holds [] agg rs ids t h = refl
    search_holds (call ∷ calls) agg rs ids t (h, hs) =
        let agg' = (process policy ctx call agg).1 in
        let (rs1, ids1, t1, e) = advances call calls agg rs ids t h in
        ids_of-run policy ctx rule_liveness_check_failed call calls agg
        ∙ ap (◌++◌ (ids_of rule_liveness_check_failed (emitted (process policy ctx call agg).0)))
            (search_holds calls agg' rs1 ids1 t1 hs)
        ∙ sym e

    from_init :
        (calls : List (Call F))
        → All ValidCall calls
        → ids_of rule_liveness_check_failed (run policy ctx calls init).0
          ≡ search policy ctx [] (liveness_frames calls)
    unfolding memory tail_run
    from_init calls h =
        search_holds calls init [] []
          (record {
            window = sym (last_n-nil (size policy ctx));
            id_window = sym (last_n-nil (size policy ctx));
            spoofs = refl;
            paired = refl;
            valid = tt;
          })
          h
        ∙ ap (λ acc. (search policy ctx) acc (liveness_frames calls))
            (last_n-nil (0 % (size policy ctx)))

  -- Where `liveness_confirmation_frames` is positive and the frames' confidence intervals are
  -- valid, whatever other calls come in between, the ids of a session's liveness flags are those of
  -- every block of `liveness_confirmation_frames` spoof frames in a row, without overlap (the
  -- window and the run-length test together), and there is none where the check is disabled.
  pub run-flags_spoof_blocks :
      (laws : FloatLaws ops) (calls : List (Call F))
      → 0 < size policy ctx
      → All ValidCall calls
      → ids_of rule_liveness_check_failed (run policy ctx calls init).0 ≡ (
          if policy.liveness_check_enabled
          then (search policy ctx) [] (liveness_frames calls)
          else [])
  run-flags_spoof_blocks laws calls pos h = elim (Bool-cases policy.liveness_check_enabled) [
    | inl on ↦ simp on (from_init laws pos on calls h)
    | inr off ↦ simp off (off-run policy ctx calls init off)
  ]
