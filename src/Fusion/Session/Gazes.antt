-- ===== src/Fusion/Session/Gazes.antt =====
-- Path 2 over a whole session: the gaze flags against the ladder over the whole history.
pub mod Ladder
pub mod Tracking
use mathlib.Core.Path.{ap₂}
use ai_proctor_engine.Base.{
  ℕ, suc, String, str_eq, ◌+◌, ◌≤◌, ◌<◌, ◌≡◌, ◌≢◌, refl, ap, sym, subst, ◌∙◌, ◌⊎◌, inl, inr, Bool,
  true, false, not, List, [], ◌∷◌, ◌++◌, map, keep, keep-append, Option, none, some, last?, any,
  All, length, ltb, leb, if◌then◌else◌, ok, raised, arith, length-append, append-nil, Bool-cases,
  ltb→lt, last_n, tail_run, last_n-append, last_n-append_suc, last_n-nil, last_n-zero,
  length-last_n, tail_run-append, tail_run-le, any-last_n, All-last_n,
}
use ai_proctor_engine.Floats.{FloatOps, FloatLaws}
use ai_proctor_engine.Inference.{HeadPoseGazeResult}
use ai_proctor_engine.Fusion.Types.{GazeAwayEvent, FlagDecision, PolicySnapshot, SessionContext}
use ai_proctor_engine.Fusion.Aggregator.{
  SessionAggregator, Reply, init, slide, accumulate, check_accumulated_threshold,
  rule_gaze_away_frequency,
}
use ai_proctor_engine.Fusion.Aggregator.Expiry.{
  recent, Ended, expire-eq-keep, keep-keep, Ended-keep, Ended-later, Ended-append,
}
use ai_proctor_engine.Fusion.Aggregator.FacePresence.{process_face_presence}
use ai_proctor_engine.Fusion.Aggregator.Liveness.{process_liveness}
use ai_proctor_engine.Fusion.Aggregator.Gaze.{
  process_gaze, observe_gaze, evaluate_gaze, track_gaze, window_ms, expire, all_event_ids,
  latest_event_ids,
}
use ai_proctor_engine.Fusion.Aggregator.Identity.{
  process_identity_match, process_identity_check_unavailable,
}
use ai_proctor_engine.Fusion.Aggregator.Objects.{object_rule, process_object_detection}
use ai_proctor_engine.Fusion.Aggregator.Signals.{process_browser_event, process_audio_vad}
use ai_proctor_engine.Fusion.Session.{
  Call, face, liveness, gaze, identity, identity_unavailable, object, browser, audio, emitted,
  ids_of, ids_of-run, process, run,
}
use ai_proctor_engine.Fusion.Session.Gazes.Ladder.{
  GazeFrame, gaze_frames, Chronological, Episodes, no_episodes, note, ladder, NeverBack, never_back,
}
use ai_proctor_engine.Fusion.Session.Gazes.Tracking.{
  gaze_part, IsOther, Quiet, other-Quiet, Tracks, observe-Tracks, kept,
}

module _ {F : Type 0} ⦃ops : FloatOps F⦄ (policy : PolicySnapshot F) (ctx : SessionContext F) where
  gaze-live :
      (result : HeadPoseGazeResult F) (id now : ℕ) (agg : SessionAggregator F)
      → agg.gaze_termination_fired ≡ false
      → process policy ctx (gaze result id now) agg
        ≡ evaluate_gaze policy result (observe_gaze policy result id now agg)
  unfolding process process_gaze
  gaze-live result id now agg h = ground arith

  gaze-fired :
      (result : HeadPoseGazeResult F) (id now : ℕ) (agg : SessionAggregator F)
      → agg.gaze_termination_fired ≡ true
      → process policy ctx (gaze result id now) agg ≡ (ok [], agg)
  unfolding process process_gaze
  gaze-fired result id now agg h = ground arith

  fired_stays :
      (call : Call F) (agg : SessionAggregator F)
      → agg.gaze_termination_fired ≡ true
      → let (reply, agg') = process policy ctx call agg in
        (agg'.gaze_termination_fired ≡ true)
        × (ids_of rule_gaze_away_frequency (emitted reply) ≡ [])
  fired_stays (gaze result id now) agg h = ground (arith, gaze-fired result id now agg)
  fired_stays call agg h = ground (arith, other-Quiet policy ctx call agg)

  after_fired :
      (calls : List (Call F)) (agg : SessionAggregator F)
      → agg.gaze_termination_fired ≡ true
      → ids_of rule_gaze_away_frequency (run policy ctx calls agg).0 ≡ []
  unfolding run
  after_fired [] agg h = refl
  after_fired (call ∷ calls) agg h =
      let (still, quiet) = fired_stays call agg h in
      ids_of-run policy ctx rule_gaze_away_frequency call calls agg
      ∙ ap₂ ◌++◌ quiet (after_fired calls (process policy ctx call agg).1 still)

  -- The evaluation by the number of events, and what it leaves of path 2.
  abbrev Judged : SessionAggregator F → Reply F → Type 0
  Judged agg (reply, agg') =
      ((leb policy.gaze_termination_limit (length agg.gaze_away_events) ≡ true)
        × (agg'.gaze_termination_fired ≡ true)
        × (ids_of rule_gaze_away_frequency (emitted reply)
            ≡ all_event_ids agg.gaze_away_events ∷ []))
      ⊎ ((leb policy.gaze_termination_limit (length agg.gaze_away_events) ≡ false)
          × (gaze_part agg' ≡ gaze_part agg)
          × (ids_of rule_gaze_away_frequency (emitted reply) ≡ (
              if leb policy.gaze_warning_limit (length agg.gaze_away_events)
              then latest_event_ids (last? agg.gaze_away_events) ∷ []
              else [])))

  judge :
      (result : HeadPoseGazeResult F) (agg : SessionAggregator F)
      → Judged agg (evaluate_gaze policy result agg)
  unfolding evaluate_gaze accumulate check_accumulated_threshold
  judge result agg = ground arith

  abbrev Advances : Call F → List (Call F) → Episodes → ℕ → Reply F → Type 0
  Advances call calls st last (reply, agg') =
      ((st' : Episodes) × (last' : ℕ) × Tracks policy ctx st' last' agg'
        × Chronological last' calls
        × (ladder policy st (gaze_frames (call ∷ calls))
            ≡ ids_of rule_gaze_away_frequency (emitted reply)
              ++ ladder policy st' (gaze_frames calls)))
      ⊎ (agg'.gaze_termination_fired ≡ true)
        × (ladder policy st (gaze_frames (call ∷ calls))
            ≡ ids_of rule_gaze_away_frequency (emitted reply))

  gaze-Advances :
      (result : HeadPoseGazeResult F) (id now : ℕ) (calls : List (Call F))
      (agg : SessionAggregator F) (st : Episodes) (last : ℕ)
      → Tracks policy ctx st last agg
      → Chronological last (gaze result id now ∷ calls)
      → Advances (gaze result id now) calls st last (process policy ctx (gaze result id now) agg)
  unfolding ladder
  gaze-Advances result id now calls agg st last t (h, hs) =
      let st' = note policy.gaze_min_duration_ms (result.off_screen, id, now) st in
      let agg1 = observe_gaze policy result id now agg in
      let t1 = observe-Tracks policy ctx result id now last st agg h t in
      let e : process policy ctx (gaze result id now) agg ≡ evaluate_gaze policy result agg1 =
        gaze-live result id now agg t.unfired in
      elim (judge result agg1) [
        | inl (full, fired, links) ↦ inr (ground (arith, e), ground (arith, e, t1.events))
        | inr (short, part, links) ↦ inl (
          st',
          now,
          subst (λ reply. (Tracks policy ctx) st' now reply.1) (sym e)
              (kept policy ctx st' now agg1 _ part t1),
          hs,
          ground (arith, e, t1.events),
        )
      ]

  other-Advances :
      (call : Call F) (calls : List (Call F)) (agg : SessionAggregator F) (st : Episodes) (last : ℕ)
      → Tracks policy ctx st last agg
      → IsOther policy ctx call
      → gaze_frames (call ∷ calls) ≡ gaze_frames calls
      → Chronological last calls
      → Advances call calls st last (process policy ctx call agg)
  other-Advances call calls agg st last t h e hs =
      let (part, quiet) = other-Quiet policy ctx call agg h in
      inl (
        st,
        last,
        kept policy ctx st last agg (process policy ctx call agg).1 part t,
        hs,
        ground (arith, quiet),
      )

  advances :
      (call : Call F) (calls : List (Call F)) (agg : SessionAggregator F) (st : Episodes) (last : ℕ)
      → Tracks policy ctx st last agg
      → Chronological last (call ∷ calls)
      → Advances call calls st last (process policy ctx call agg)
  advances (gaze result id now) calls agg st last t h =
      gaze-Advances result id now calls agg st last t h
  advances call calls agg st last t h = other-Advances call calls agg st last t tt refl h

  ladder_holds :
      (calls : List (Call F)) (agg : SessionAggregator F) (st : Episodes) (last : ℕ)
      → Tracks policy ctx st last agg
      → Chronological last calls
      → ids_of rule_gaze_away_frequency (run policy ctx calls agg).0
        ≡ ladder policy st (gaze_frames calls)
  unfolding run ladder
  ladder_holds [] agg st last t h = refl
  ladder_holds (call ∷ calls) agg st last t h =
      let (reply, agg') = process policy ctx call agg in
      let split = ids_of-run policy ctx rule_gaze_away_frequency call calls agg in
      elim (advances call calls agg st last t h) [
        | inl (st', last', t', h', e) ↦
            split
            ∙ ap (◌++◌ (ids_of rule_gaze_away_frequency (emitted reply)))
                (ladder_holds calls agg' st' last' t' h')
            ∙ sym e
        | inr (fired, e) ↦ split ∙ ap₂ ◌++◌ (sym e) (after_fired calls agg' fired) ∙ append-nil _
      ]

  -- Where the times of the gaze frames never fall, the deque with its pops is as good as the whole
  -- history: whatever other calls come in between, the linked ids of a session's gaze flags are
  -- those of the ladder that counts, at each frame, the episodes of the minimum duration that ended
  -- within the window, up to the first frame that reaches the termination limit.
  pub run-flags_ladder :
      (calls : List (Call F))
      → Chronological 0 calls
      → ids_of rule_gaze_away_frequency (run policy ctx calls init).0
        ≡ ladder policy no_episodes (gaze_frames calls)
  run-flags_ladder calls h =
      ladder_holds calls init no_episodes 0
        (record { events = refl; start = refl; ids = refl; ended = omega arith; unfired = refl }) h

  -- With positive limits, a session whose gaze frames never show the candidate back on screen gets
  -- no gaze flag, however long the gaze stays away: an episode counts only once it is over.
  pub NeverBack-unflagged :
      (calls : List (Call F))
      → Chronological 0 calls
      → 0 < policy.gaze_warning_limit
      → 0 < policy.gaze_termination_limit
      → NeverBack (gaze_frames calls)
      → ids_of rule_gaze_away_frequency (run policy ctx calls init).0 ≡ []
  NeverBack-unflagged calls h w t away =
      run-flags_ladder calls h ∙ never_back policy (gaze_frames calls) no_episodes refl w t away
