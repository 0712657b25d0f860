-- ===== src/Fusion/Session/Gazes/Ladder.antt =====
-- The ladder over the whole history of gaze frames, which path 2 of a session is compared with.
use ai_proctor_engine.Base.{
  ℕ, ◌+◌, ◌≤◌, ◌<◌, ◌≡◌, ◌≢◌, refl, Bool, true, false, List, [], ◌∷◌, ◌++◌, keep, Option, none,
  some, last?, length, leb, if◌then◌else◌, arith,
}
use ai_proctor_engine.Fusion.Types.{GazeAwayEvent, PolicySnapshot}
use ai_proctor_engine.Fusion.Aggregator.Expiry.{recent}
use ai_proctor_engine.Fusion.Aggregator.Gaze.{window_ms, all_event_ids, latest_event_ids}
use ai_proctor_engine.Fusion.Session.{Call, gaze}

-- A gaze frame: whether it is off screen, its id and its time.
abbrev pub GazeFrame : Type 0
GazeFrame = Option Bool × ℕ × ℕ

abbrev pub gaze_frames : {F : Type 0} → List (Call F) → List GazeFrame
gaze_frames [] = []
gaze_frames (gaze result id now ∷ calls) = (result.off_screen, id, now) ∷ gaze_frames calls
gaze_frames (_ ∷ calls) = gaze_frames calls

-- The times of the gaze frames never fall.
abbrev pub Chronological : {F : Type 0} → ℕ → List (Call F) → Type 0
Chronological last [] = Unit
Chronological last (gaze result id now ∷ calls) = (last ≤ now) × Chronological now calls
Chronological last (_ ∷ calls) = Chronological last calls

-- Every episode of the history, and the streak that is open.
pub record Episodes : Type 0 where
  pub closed : List GazeAwayEvent
  pub start : Option ℕ
  pub ids : List ℕ

abbrev pub no_episodes : Episodes
no_episodes = record { closed = []; start = none; ids = [] }

-- The streak ends at `now`: it is an episode when it lasted `min_ms` at least.
close_at : ℕ → ℕ → Option ℕ → Episodes → Episodes
close_at min_ms now none st = st
close_at min_ms now (some start) st =
    let episode : GazeAwayEvent = record {
      started_at_ms = start;
      ended_at_ms = now;
      contributing_event_ids = st.ids;
    } in
    record {
      closed = if leb (start + min_ms) now then st.closed ++ (episode ∷ []) else st.closed;
      start = none;
      ids = [];
    }

start_at : ℕ → Option ℕ → Option ℕ
start_at now none = some now
start_at now (some start) = some start

-- A frame without landmarks changes nothing.
unfoldable pub note : ℕ → GazeFrame → Episodes → Episodes
unfolding close_at start_at
note min_ms (none, id, now) st = st
note min_ms (some true, id, now) st = record st {
  start = start_at now st.start;
  ids = st.ids ++ (id ∷ []);
}
note min_ms (some false, id, now) st = close_at min_ms now st.start st

-- No frame is on screen.
abbrev pub NeverBack : List GazeFrame → Type 0
NeverBack [] = Unit
NeverBack ((off, id, now) ∷ rest) = (off ≢ some false) × NeverBack rest

module _ {F : Type 0} (policy : PolicySnapshot F) where
  -- The linked ids of the gaze flags: at each frame the episodes that ended in the last
  -- `gaze_window_seconds` are counted, and the ladder stops at the termination limit.
  unfoldable pub ladder : Episodes → List GazeFrame → List (List ℕ)
  unfolding note
  ladder st [] = []
  ladder st (frame ∷ rest) =
      let st' = note policy.gaze_min_duration_ms frame st in
      let seen = keep (recent (window_ms policy) frame.2) st'.closed in
      let on = ladder st' rest in
      if leb policy.gaze_termination_limit (length seen)
      then all_event_ids seen ∷ []
      else if leb policy.gaze_warning_limit (length seen)
      then latest_event_ids (last? seen) ∷ on
      else on

  pub never_back :
      (frames : List GazeFrame) (st : Episodes)
      → st.closed ≡ []
      → 0 < policy.gaze_warning_limit
      → 0 < policy.gaze_termination_limit
      → NeverBack frames
      → ladder st frames ≡ []
  unfolding ladder note
  never_back [] st e w t h = refl
  never_back ((none, id, now) ∷ rest) st e w t h = ground (arith, never_back rest st e w t h.1)
  never_back ((some true, id, now) ∷ rest) st e w t h = ground (
    arith,
    never_back rest (record st { start = start_at now st.start; ids = st.ids ++ (id ∷ []) }) e w t
        h.1,
  )
  never_back ((some false, id, now) ∷ rest) st e w t h = absurd (h.0 refl)
