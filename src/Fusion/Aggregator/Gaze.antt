-- ===== src/Fusion/Aggregator/Gaze.antt =====
-- Path 2: the gaze-away frequency ladder. Times are milliseconds since the epoch.
use ai_proctor_engine.Base.{
  ℕ, ◌+◌, ◌*◌, Bool, true, false, Option, none, some, List, [], ◌∷◌, ◌++◌, length, last?, ltb, leb,
  if◌then◌else◌, ok,
}
use ai_proctor_engine.Floats.{FloatOps}
use ai_proctor_engine.Inference.{HeadPoseGazeResult, int, end, field}
use ai_proctor_engine.Fusion.Types.{GazeAwayEvent, FlagDecision, PolicySnapshot, weight_for}
use ai_proctor_engine.Fusion.Aggregator.{
  SessionAggregator, Reply, rule_gaze_away_frequency, critical, medium, accumulate,
}

-- Pop from the front while the first event ended before the window's start. A sum stands for the
-- source's difference, which may be negative.
unfoldable pub expire : ℕ → ℕ → List GazeAwayEvent → List GazeAwayEvent
expire window_ms now [] = []
expire window_ms now (ev ∷ rest) =
    let popped = expire window_ms now rest in
    if ltb (ev.ended_at_ms + window_ms) now then popped else ev ∷ rest

unfoldable pub all_event_ids : List GazeAwayEvent → List ℕ
all_event_ids [] = []
all_event_ids (ev ∷ rest) = ev.contributing_event_ids ++ all_event_ids rest

unfoldable pub latest_event_ids : Option GazeAwayEvent → List ℕ
latest_event_ids none = []
latest_event_ids (some ev) = ev.contributing_event_ids

abbrev pub window_ms : {F : Type 0} → PolicySnapshot F → ℕ
window_ms policy = policy.gaze_window_seconds * 1000

start_or_keep : ℕ → Option ℕ → Option ℕ
start_or_keep now none = some now
start_or_keep now (some start) = some start

module _ {F : Type 0} ⦃ops : FloatOps F⦄ where
  -- On screen again: a streak of the minimum duration becomes an event, and any streak ends.
  close_streak : PolicySnapshot F → ℕ → Option ℕ → SessionAggregator F → SessionAggregator F
  close_streak policy now none agg = agg
  close_streak policy now (some start) agg =
      let event : GazeAwayEvent = record {
        started_at_ms = start;
        ended_at_ms = now;
        contributing_event_ids = agg.gaze_off_event_ids;
      } in
      record agg {
        gaze_away_events =
            if leb (start + policy.gaze_min_duration_ms) now
            then agg.gaze_away_events ++ (event ∷ [])
            else agg.gaze_away_events;
        gaze_off_start_ms = none;
        gaze_off_event_ids = [];
      }

  -- The first half of `process_gaze`: the streak and the events.
  unfoldable pub track_gaze :
      PolicySnapshot F → Option Bool → ℕ → ℕ → SessionAggregator F → SessionAggregator F
  unfolding start_or_keep close_streak
  track_gaze policy none id now agg = agg
  track_gaze policy (some true) id now agg = record agg {
    gaze_off_start_ms = start_or_keep now agg.gaze_off_start_ms;
    gaze_off_event_ids = agg.gaze_off_event_ids ++ (id ∷ []);
  }
  track_gaze policy (some false) id now agg = close_streak policy now agg.gaze_off_start_ms agg

  abbrev pub gaze_critical :
      PolicySnapshot F → HeadPoseGazeResult F → List GazeAwayEvent → FlagDecision F
  gaze_critical policy result events = record {
    rule_code = rule_gaze_away_frequency;
    severity = critical;
    confidence = result.confidence;
    triggered_termination = true;
    suppressed_by_exemption_id = none;
    detail = field "gaze_away_count" (int (length events)) (
        field "gaze_termination_limit" (int policy.gaze_termination_limit)
          (field "window_seconds" (int policy.gaze_window_seconds) end));
    contributing_event_ids = all_event_ids events;
    score_delta = ops.zero_f;
  }

  abbrev pub gaze_medium :
      PolicySnapshot F → HeadPoseGazeResult F → List GazeAwayEvent → FlagDecision F
  unfolding latest_event_ids
  gaze_medium policy result events = record {
    rule_code = rule_gaze_away_frequency;
    severity = medium;
    confidence = result.confidence;
    triggered_termination = false;
    suppressed_by_exemption_id = none;
    detail = field "gaze_away_count" (int (length events)) (
        field "gaze_warning_limit" (int policy.gaze_warning_limit)
          (field "window_seconds" (int policy.gaze_window_seconds) end));
    contributing_event_ids = latest_event_ids (last? events);
    score_delta = weight_for policy rule_gaze_away_frequency;
  }

  -- The second half: the count of the window against the two limits.
  unfoldable pub evaluate_gaze :
      PolicySnapshot F → HeadPoseGazeResult F → SessionAggregator F → Reply F
  unfolding latest_event_ids
  evaluate_gaze policy result agg =
      let events = agg.gaze_away_events in
      let count = length events in
      let warned =
        accumulate policy (gaze_medium policy result events)
          (weight_for policy rule_gaze_away_frequency) (latest_event_ids (last? events)) agg in
      if leb policy.gaze_termination_limit count
      then (
        ok (gaze_critical policy result events ∷ []),
        record agg { gaze_termination_fired = true },
      )
      else if leb policy.gaze_warning_limit count
      then (ok warned.0, warned.1)
      else (ok [], agg)

  -- The state that the limits are evaluated in.
  unfoldable pub observe_gaze :
      PolicySnapshot F → HeadPoseGazeResult F → ℕ → ℕ → SessionAggregator F → SessionAggregator F
  observe_gaze policy result id now agg =
      let tracked = track_gaze policy result.off_screen id now agg in
      record tracked { gaze_away_events = expire (window_ms policy) now tracked.gaze_away_events }

  unfoldable pub process_gaze :
      PolicySnapshot F → HeadPoseGazeResult F → ℕ → ℕ → SessionAggregator F → Reply F
  process_gaze policy result id now agg =
      if agg.gaze_termination_fired
      then (ok [], agg)
      else evaluate_gaze policy result (observe_gaze policy result id now agg)
