-- ===== src/Curve.antt =====
-- The load curve of a run (policies/cost.py: `site_load_curve`), in whole minutes and in a whole
-- unit of power. A negative change of load is a fall, so the load that is cut off at nought is the
-- rises less the falls.
pub mod Draws
use otto_q_core.Base.Sort.{sort}
use otto_q_core.Base.{
  ℕ, zero, suc, ◌+◌, ◌-◌, ◌/◌, Bool, true, ◌&&◌, ◌||◌, List, [], ◌∷◌, ◌++◌, ltb, leb, ◌==◌,
  if◌then◌else◌, Dict, Raises, raises, returns,
}

-- A charge segment of the run's state.
pub record LoadSegment : Type 0 where
  pub start : ℕ
  pub end : ℕ
  pub kw : ℕ

-- The change at an event.
pub data Delta : Type 0 where
  rise fall : ℕ → Delta

pub record Event : Type 0 where
  pub minute : ℕ
  pub delta : Delta

pub data CurveError : Type 0 where
  step_is_zero : CurveError

unfoldable pub segment_events : List LoadSegment → List Event
segment_events [] = []
segment_events (s ∷ segs) =
    record { minute = s.start; delta = rise s.kw }
    ∷ record { minute = s.end; delta = fall s.kw }
    ∷ segment_events segs

unfoldable pub events_of : Dict (List LoadSegment) → List Event
events_of [] = []
events_of ((asset, segs) ∷ rest) = segment_events segs ++ events_of rest

delta_le : Delta → Delta → Bool
delta_le (fall a) (fall b) = leb b a
delta_le (fall a) (rise b) = true
delta_le (rise a) (fall b) = a == 0 && b == 0
delta_le (rise a) (rise b) = leb a b

-- The order of `events.sort()`: by minute, then by change.
unfoldable pub event_le : Event → Event → Bool
unfolding delta_le
event_le e f = ltb e.minute f.minute || (e.minute == f.minute && delta_le e.delta f.delta)

abbrev pub rise_of : Delta → ℕ
rise_of (rise kw) = kw
rise_of (fall kw) = 0

abbrev pub fall_of : Delta → ℕ
fall_of (rise kw) = 0
fall_of (fall kw) = kw

-- The sum of what rises, and of what falls, up to a minute.
unfoldable pub sum_until : (Delta → ℕ) → ℕ → List Event → ℕ
sum_until f m [] = 0
sum_until f m (e ∷ events) =
    let rest = sum_until f m events in if leb e.minute m then f e.delta + rest else rest

unfoldable pub load_at : ℕ → List Event → ℕ
load_at m events = sum_until rise_of m events - sum_until fall_of m events

-- `range(0, end_min, step_min)` has `samples` minutes, each a step after the one before.
unfoldable pub curve_from : ℕ → ℕ → List Event → ℕ → ℕ → List (ℕ × ℕ)
curve_from step_min end_min events m zero = (end_min, 0) ∷ []
curve_from step_min end_min events m (suc samples) =
    (m, load_at m events) ∷ curve_from step_min end_min events (m + step_min) samples

unfoldable pub site_load_curve : Dict (List LoadSegment) → ℕ → ℕ → Raises CurveError (List (ℕ × ℕ))
site_load_curve segments step_min end_min =
    let events = sort event_le (events_of segments) in
    if step_min == 0
    then raises step_is_zero
    else returns (curve_from step_min end_min events 0 ((end_min + (step_min - 1)) / step_min))
