-- ===== src/Proposer/Measure.antt =====
-- The published figures, measured off the plan that ships (proposer/forward_proposer.py:
-- `_measure_plan` and `_check_optima`).
--
-- The sweep's running sum may fall below zero on a malformed plan. It is kept as two sums, of the
-- kW that started and of the kW that ended: only `max(peak, running)` reads it, and with a peak of
-- at least 0 that is the maximum with the truncated difference.
pub mod Peak
pub mod Optima
use otto_q_core.Base.Sort.{sort}
use otto_q_core.Base.{
  ℕ, ◌+◌, ◌-◌, ◌≤◌, max, Bool, true, false, not, ◌&&◌, ◌||◌, Option, none, some, List, [], ◌∷◌,
  ◌++◌, ltb, ◌==◌, if◌then◌else◌,
}
use otto_q_core.Plan.{Segment, Op, AssetPlan, Plan, is_charge, tardy_total, flow_total}
use otto_q_core.Intent.Solve.{Mode, weighted, min_tardy, min_peak, min_flow}

-- The event `(minute, +1, kw)`, or `(minute, -1, kw)` for an end.
pub record Event : Type 0 where
  pub time : ℕ
  pub ends : Bool
  pub kw : ℕ

-- The charge segments of a plan, in order.
unfoldable pub op_segments : List Op → List Segment
op_segments [] = []
op_segments (o ∷ os) = if is_charge o then o.segments ++ op_segments os else op_segments os

unfoldable pub charge_segments_of : List AssetPlan → List Segment
unfolding op_segments
charge_segments_of [] = []
charge_segments_of (a ∷ rest) = op_segments a.ops ++ charge_segments_of rest

unfoldable pub events_of : List Segment → List Event
events_of [] = []
events_of (s ∷ ss) =
    record { time = s.start; ends = false; kw = s.kw }
    ∷ record { time = s.finish; ends = true; kw = s.kw }
    ∷ events_of ss

-- The sort key `(e[0], e[1])`: by minute, ends before starts.
unfoldable pub event_le : Event → Event → Bool
event_le e f = ltb e.time f.time || (e.time == f.time && (e.ends || not f.ends))

-- The loop over the sorted events.
unfoldable pub sweep : ℕ → ℕ → ℕ → List Event → ℕ
sweep up down peak [] = peak
sweep up down peak (e ∷ es) =
    let up' = if e.ends then up else up + e.kw in
    let down' = if e.ends then down + e.kw else down in sweep up' down' (max peak (up' - down')) es

unfoldable pub peak_of : List Segment → ℕ
unfolding events_of event_le sweep
peak_of ss = sweep 0 0 0 (sort event_le (events_of ss))

pub record Measured : Type 0 where
  pub total_tardy_min : ℕ
  pub total_flow_min : ℕ
  pub site_peak_kw : ℕ

-- `_measure_plan`
unfoldable pub measure_plan : Plan → Measured
unfolding peak_of charge_segments_of
measure_plan p = record {
  total_tardy_min = tardy_total p.assets;
  total_flow_min = flow_total p.assets;
  site_peak_kw = peak_of (charge_segments_of p.assets);
}

-- `_OPTIMUM_OF`: the figure that answers to a mode's optimum.
pub optimum_of : Mode → Measured → Option ℕ
optimum_of min_tardy m = some m.total_tardy_min
optimum_of min_peak m = some m.site_peak_kw
optimum_of min_flow m = some m.total_flow_min
optimum_of weighted m = none

-- `optima`: a dict from a pass mode to what that pass reached, in insertion order.
abbrev pub Optima : Type 0
Optima = List (Mode × Option ℕ)

-- A figure within an optional ceiling.
abbrev pub Within : ℕ → Option ℕ → Type 0
Within n none = Unit
Within n (some v) = n ≤ v

-- `ChainError`: the mode, what was measured and the optimum that it exceeds.
pub data ChainError : Type 0 where
  ceiling_broken : Mode → ℕ → ℕ → ChainError

-- `_check_optima`: the first ceiling, in the order of `optima`, that is not honoured.
unfoldable pub check_optima : Measured → Optima → Option ChainError
unfolding optimum_of
check_optima m [] = none
check_optima m ((mode, none) ∷ rest) = check_optima m rest
check_optima m ((mode, some value) ∷ rest) = elim (optimum_of mode m) [
  | none ↦ check_optima m rest
  | some n ↦ if ltb value n then some (ceiling_broken mode n value) else check_optima m rest
]
