-- ===== src/Fusion/Aggregator/Expiry.antt =====
-- The pops of `expire` against a filter of all the events.
use ai_proctor_engine.Base.{ℕ, ◌+◌, ◌≤◌, ◌≡◌, refl, Bool, List, [], ◌∷◌, ◌++◌, keep, leb, arith}
use ai_proctor_engine.Fusion.Types.{GazeAwayEvent}
use ai_proctor_engine.Fusion.Aggregator.Gaze.{expire}

-- The event ended at the window's start or later.
abbrev pub recent : ℕ → ℕ → GazeAwayEvent → Bool
recent window_ms now ev = leb now (ev.ended_at_ms + window_ms)

-- The events ended in this order, the last at `now` or before.
abbrev pub Ended : ℕ → ℕ → List GazeAwayEvent → Type 0
Ended from now [] = from ≤ now
Ended from now (ev ∷ rest) = (from ≤ ev.ended_at_ms) × Ended ev.ended_at_ms now rest

module _ (window_ms : ℕ) where
  keeps_all :
      (now from upto : ℕ) (events : List GazeAwayEvent)
      → now ≤ from + window_ms
      → Ended from upto events
      → keep (recent window_ms now) events ≡ events
  keeps_all now from upto [] h e = refl
  keeps_all now from upto (ev ∷ rest) h e =
      ground (arith, keeps_all now ev.ended_at_ms upto rest (omega arith) e.1)

  -- On events in the order of their ends, popping from the front is filtering.
  pub expire-eq-keep :
      (now from upto : ℕ) (events : List GazeAwayEvent)
      → Ended from upto events
      → expire window_ms now events ≡ keep (recent window_ms now) events
  unfolding expire
  expire-eq-keep now from upto [] e = refl
  expire-eq-keep now from upto (ev ∷ rest) e = ground (
    arith,
    keeps_all now ev.ended_at_ms upto rest,
    expire-eq-keep now ev.ended_at_ms upto rest e.1,
  )

  -- A filter at a later time makes an earlier one superfluous.
  pub keep-keep :
      (earlier now : ℕ) (events : List GazeAwayEvent)
      → earlier ≤ now
      → keep (recent window_ms now) (keep (recent window_ms earlier) events)
        ≡ keep (recent window_ms now) events
  keep-keep earlier now [] h = refl
  keep-keep earlier now (ev ∷ rest) h = ground (arith, keep-keep earlier now rest)

  Ended-weaken :
      (low from upto : ℕ) (events : List GazeAwayEvent)
      → low ≤ from
      → Ended from upto events
      → Ended low upto events
  Ended-weaken low from upto [] h e = omega arith
  Ended-weaken low from upto (ev ∷ rest) h e = (omega arith, e.1)

  pub Ended-keep :
      (now from upto : ℕ) (events : List GazeAwayEvent)
      → Ended from upto events
      → Ended from upto (keep (recent window_ms now) events)
  Ended-keep now from upto [] e = e
  Ended-keep now from upto (ev ∷ rest) e = ground (
    arith,
    Ended-keep now ev.ended_at_ms upto rest e.1,
    Ended-weaken from ev.ended_at_ms upto (keep (recent window_ms now) rest),
  )

pub Ended-later :
    (from upto now : ℕ) (events : List GazeAwayEvent)
    → upto ≤ now
    → Ended from upto events
    → Ended from now events
Ended-later from upto now [] h e = omega arith
Ended-later from upto now (ev ∷ rest) h e = (e.0, Ended-later ev.ended_at_ms upto now rest h e.1)

pub Ended-append :
    (from upto : ℕ) (events : List GazeAwayEvent) (ev : GazeAwayEvent)
    → upto ≤ ev.ended_at_ms
    → Ended from upto events
    → Ended from ev.ended_at_ms (events ++ (ev ∷ []))
Ended-append from upto [] ev h e = (omega arith, omega arith)
Ended-append from upto (x ∷ rest) ev h e = (e.0, Ended-append x.ended_at_ms upto rest ev h e.1)
