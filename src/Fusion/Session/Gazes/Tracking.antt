-- ===== src/Fusion/Session/Gazes/Tracking.antt =====
-- The deque of path 2 against the history: the fields that it keeps, and the calls that leave it alone.
use ai_proctor_engine.Base.{
  ℕ, String, str_eq, ◌≤◌, ◌≡◌, refl, ap, sym, ◌∙◌, inl, inr, Bool, true, false, List, [], ◌∷◌, ◌++◌,
  keep, keep-append, Option, none, some, arith, Bool-cases,
}
use ai_proctor_engine.Floats.{FloatOps}
use ai_proctor_engine.Inference.{HeadPoseGazeResult}
use ai_proctor_engine.Fusion.Types.{GazeAwayEvent, PolicySnapshot, SessionContext}
use ai_proctor_engine.Fusion.Aggregator.{
  SessionAggregator, Reply, slide, accumulate, check_accumulated_threshold,
  rule_gaze_away_frequency,
}
use ai_proctor_engine.Fusion.Aggregator.Expiry.{
  recent, Ended, expire-eq-keep, keep-keep, Ended-keep, Ended-later, Ended-append,
}
use ai_proctor_engine.Fusion.Aggregator.FacePresence.{process_face_presence}
use ai_proctor_engine.Fusion.Aggregator.Liveness.{process_liveness}
use ai_proctor_engine.Fusion.Aggregator.Gaze.{observe_gaze, track_gaze, window_ms, expire}
use ai_proctor_engine.Fusion.Aggregator.Identity.{
  process_identity_match, process_identity_check_unavailable,
}
use ai_proctor_engine.Fusion.Aggregator.Objects.{object_rule, process_object_detection}
use ai_proctor_engine.Fusion.Aggregator.Signals.{process_browser_event, process_audio_vad}
use ai_proctor_engine.Fusion.Session.{
  Call, face, liveness, gaze, identity, identity_unavailable, object, browser, audio, emitted,
  ids_of, process,
}
use ai_proctor_engine.Fusion.Session.Gazes.Ladder.{Episodes, note}

object_rule-other : (c : String) → str_eq (object_rule c) rule_gaze_away_frequency ≡ false
object_rule-other c = elim (Bool-cases (str_eq c "book")) [ inl e ↦ rw e | inr e ↦ rw e ]

-- The fields of path 2.
abbrev pub gaze_part :
    {F : Type 0} → SessionAggregator F → Option ℕ × List ℕ × List GazeAwayEvent × Bool
gaze_part agg = (
  agg.gaze_off_start_ms, agg.gaze_off_event_ids, agg.gaze_away_events, agg.gaze_termination_fired,
)

module _ {F : Type 0} ⦃ops : FloatOps F⦄ (policy : PolicySnapshot F) (ctx : SessionContext F) where
  abbrev pub IsOther : Call F → Type 0
  IsOther (gaze result id now) = ⊥
  IsOther _ = Unit

  abbrev pub Quiet : SessionAggregator F → Reply F → Type 0
  Quiet agg reply =
      (gaze_part reply.1 ≡ gaze_part agg) × (ids_of rule_gaze_away_frequency (emitted reply.0) ≡ [])

  pub other-Quiet :
      (call : Call F) (agg : SessionAggregator F)
      → IsOther call
      → Quiet agg (process policy ctx call agg)
  unfolding process process_liveness process_identity_match process_face_presence
      process_object_detection process_browser_event process_audio_vad
      process_identity_check_unavailable slide accumulate check_accumulated_threshold
  other-Quiet (gaze result id now) agg h = elim h [ ]
  other-Quiet (face result id) agg h = ground arith
  other-Quiet (identity result id) agg h = ground arith
  other-Quiet (liveness result id) agg h = ground arith
  other-Quiet (identity_unavailable id) agg h = ground arith
  other-Quiet (object result id now) agg h = ground (arith, object_rule-other result.detected_class)
  other-Quiet (browser result id) agg h = ground arith
  other-Quiet (audio result id) agg h = ground arith

  -- Before the termination flag the deque holds the recent episodes of the history.
  pub record Tracks (st : Episodes) (last : ℕ) (agg : SessionAggregator F) : Type 0 where
    pub events : agg.gaze_away_events ≡ keep (recent (window_ms policy) last) st.closed
    pub start : agg.gaze_off_start_ms ≡ st.start
    pub ids : agg.gaze_off_event_ids ≡ st.ids
    pub ended : Ended 0 last st.closed
    pub unfired : agg.gaze_termination_fired ≡ false

  -- One more episode, or none, before the pops.
  expire-keep :
      (last now : ℕ) (closed : List GazeAwayEvent)
      → last ≤ now
      → Ended 0 last closed
      → expire (window_ms policy) now (keep (recent (window_ms policy) last) closed)
        ≡ keep (recent (window_ms policy) now) closed
  expire-keep last now closed h e =
      expire-eq-keep (window_ms policy) now 0 last _
        (Ended-keep (window_ms policy) last 0 last closed e)
      ∙ keep-keep (window_ms policy) last now closed h

  expire-keep-append :
      (last : ℕ) (closed : List GazeAwayEvent) (ev : GazeAwayEvent)
      → last ≤ ev.ended_at_ms
      → Ended 0 last closed
      → expire
          (window_ms policy)
          ev.ended_at_ms
          (keep (recent (window_ms policy) last) closed ++ (ev ∷ []))
        ≡ keep (recent (window_ms policy) ev.ended_at_ms) (closed ++ (ev ∷ []))
  expire-keep-append last closed ev h e =
      let w = window_ms policy in
      let now = ev.ended_at_ms in
      let sorted = Ended-append 0 last _ ev h (Ended-keep w last 0 last closed e) in
      expire-eq-keep w now 0 now _ sorted
      ∙ keep-append (recent w now) (keep (recent w last) closed) (ev ∷ [])
      ∙ ap (λ l. l ++ keep (recent w now) (ev ∷ [])) (keep-keep w last now closed h)
      ∙ sym (keep-append (recent w now) closed (ev ∷ []))

  track-Tracks :
      (off : Option Bool) (start : Option ℕ) (id now last : ℕ) (st : Episodes)
      (agg : SessionAggregator F)
      → last ≤ now
      → st.start ≡ start
      → Tracks st last agg
      → let agg1 = track_gaze policy off id now agg in
        Tracks
          (note policy.gaze_min_duration_ms (off, id, now) st)
          now
          (record agg1 { gaze_away_events = expire (window_ms policy) now agg1.gaze_away_events })
  unfolding track_gaze note
  track-Tracks none start id now last st agg h s t = record {
    events = ap (expire _ now) t.events ∙ expire-keep last now st.closed h t.ended;
    start = t.start;
    ids = t.ids;
    ended = Ended-later 0 last now st.closed h t.ended;
    unfired = t.unfired;
  }
  track-Tracks (some true) start id now last st agg h s t = record {
    events = ap (expire _ now) t.events ∙ expire-keep last now st.closed h t.ended;
    start = ground arith;
    ids = ap (λ l. l ++ (id ∷ [])) t.ids;
    ended = Ended-later 0 last now st.closed h t.ended;
    unfired = t.unfired;
  }
  track-Tracks (some false) none id now last st agg h s t = record {
    events = ground (arith, expire-keep last now st.closed h t.ended);
    start = ground arith;
    ids = ground arith;
    ended = ground (arith, Ended-later 0 last now st.closed h t.ended);
    unfired = ground arith;
  }
  track-Tracks (some false) (some from) id now last st agg h s t =
      let ev : GazeAwayEvent = record {
        started_at_ms = from;
        ended_at_ms = now;
        contributing_event_ids = st.ids;
      } in
      record {
        events = ground (
          arith,
          expire-keep last now st.closed h t.ended,
          expire-keep-append last st.closed ev h t.ended,
        );
        start = ground arith;
        ids = ground arith;
        ended = ground (
          arith,
          Ended-later 0 last now st.closed h t.ended,
          Ended-append 0 last st.closed ev h t.ended,
        );
        unfired = ground arith;
      }

  pub observe-Tracks :
      (result : HeadPoseGazeResult F) (id now last : ℕ) (st : Episodes) (agg : SessionAggregator F)
      → last ≤ now
      → Tracks st last agg
      → Tracks
          (note policy.gaze_min_duration_ms (result.off_screen, id, now) st)
          now
          (observe_gaze policy result id now agg)
  unfolding observe_gaze
  observe-Tracks result id now last st agg h t =
      track-Tracks result.off_screen st.start id now last st agg h refl t

  pub kept :
      (st : Episodes) (last : ℕ) (agg agg' : SessionAggregator F)
      → gaze_part agg' ≡ gaze_part agg
      → Tracks st last agg
      → Tracks st last agg'
  kept st last agg agg' e t = record {
    events = ground arith;
    start = ground arith;
    ids = ground arith;
    ended = t.ended;
    unfired = ground arith;
  }
