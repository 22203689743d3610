-- ===== src/Tariff/Meter.antt =====
-- The demand meter (sites/tariff.py: `_interval_peaks`, `_peak_for`).
pub mod Points
pub mod Conserves
pub mod Bounds
pub mod Errors
use otto_q_core.Base.Sort.{sort}
use otto_q_core.Base.{
  ℕ, zero, suc, ◌+◌, ◌-◌, ◌*◌, ◌/◌, min, max, String, Bool, true, ◌&&◌, ◌||◌, Option, none, some,
  List, [], ◌∷◌, ltb, leb, ◌==◌, str_eq, if◌then◌else◌, any, ◌>>=◌, raises, returns,
}
use otto_q_core.Tariff.{
  Billing, TouWindow, DemandComponent, or_empty, needs_coincident_minutes, undefined_window,
  division_by_zero, Tariff, contains, window,
}

-- A load curve: a power from each minute on, until the next point.
abbrev pub Load : Type 0
Load = List (ℕ × ℕ)

-- The order of pairs, by which `sorted` sorts the points.
pub point_le : ℕ × ℕ → ℕ × ℕ → Bool
point_le p q = ltb p.0 q.0 || p.0 == q.0 && leb p.1 q.1

-- One step of the curve: `t`, `seg_end` and `kw` of the loops over the points.
pub record Step : Type 0 where
  pub from : ℕ
  pub till : ℕ
  pub kw : ℕ

-- The points with their ends; the last one ends where it starts.
pub steps_of : Load → List Step
steps_of [] = []
steps_of (p ∷ []) = record { from = p.0; till = p.0; kw = p.1 } ∷ []
steps_of (p ∷ q ∷ ps) = record { from = p.0; till = q.0; kw = p.1 } ∷ steps_of (q ∷ ps)

-- `pts[-1][0]`
pub end_of : Load → ℕ
end_of [] = 0
end_of (p ∷ []) = p.0
end_of (p ∷ q ∷ ps) = end_of (q ∷ ps)

pub sorted_points : Load → Load
sorted_points load = sort point_le load

-- The energy of a step between two minutes.
pub step_energy : ℕ → ℕ → Step → ℕ
step_energy start stop s =
    let lo = max s.from start in
    let hi = min s.till stop in if ltb lo hi then s.kw * (hi - lo) else 0

-- The inner loop of `_interval_peaks`.
pub interval_energy : List Step → ℕ → ℕ → ℕ
interval_energy [] start stop = 0
interval_energy (s ∷ ss) start stop = step_energy start stop s + interval_energy ss start stop

-- The outer loop, with fuel for its passes.
pub readings : ℕ → List Step → ℕ → ℕ → ℕ → List (ℕ × ℕ)
readings zero ss interval end start = []
readings (suc fuel) ss interval end start =
    let rest = readings fuel ss interval end (start + interval) in
    if ltb start end
    then (start, interval_energy ss start (start + interval) / interval) ∷ rest
    else []

-- `_interval_peaks`. A pass with an interval of no length divides by zero; any other interval
-- moves on by a minute at least, so that the curve has no more passes than minutes.
pub interval_peaks : Load → ℕ → Billing (List (ℕ × ℕ))
interval_peaks load interval =
    let pts = sorted_points load in
    let end = end_of pts in
    if ltb 0 end && interval == 0
    then raises division_by_zero
    else returns (readings end (steps_of pts) interval end 0)

-- `max(vals) if vals else 0.0` over the readings that pass a test.
pub max_reading : (ℕ → Bool) → List (ℕ × ℕ) → ℕ
max_reading p [] = 0
max_reading p (r ∷ rs) = let rest = max_reading p rs in if p r.0 then max r.1 rest else rest

-- The readings at the system's peak minutes, which must be given.
pub coincident_peak : String → Option (List ℕ) → List (ℕ × ℕ) → Billing ℕ
coincident_peak label none rs = raises (needs_coincident_minutes label)
coincident_peak label (some minutes) rs =
    returns (max_reading (λ start. any (◌==◌ start) minutes) rs)

-- The readings inside a window, which must be defined.
pub window_peak : String → Option TouWindow → List (ℕ × ℕ) → Billing ℕ
window_peak label none rs = raises (undefined_window label)
window_peak label (some w) rs = returns (max_reading (contains w) rs)

-- The reading of a component by its basis.
pub peak_by : DemandComponent → Tariff → Option (List ℕ) → List (ℕ × ℕ) → Billing ℕ
peak_by comp t coincident [] = returns 0
peak_by comp t coincident (r ∷ rs) =
    if str_eq comp.basis "CP"
    then coincident_peak comp.label coincident (r ∷ rs)
    else if str_eq comp.basis "TOU"
    then window_peak comp.label (window t (or_empty comp.tou_window)) (r ∷ rs)
    else returns (max_reading (λ start. true) (r ∷ rs))

-- `_peak_for`
pub peak_for : Load → DemandComponent → Tariff → Option (List ℕ) → Billing ℕ
peak_for load comp t coincident =
    interval_peaks load comp.interval_min >>= peak_by comp t coincident
