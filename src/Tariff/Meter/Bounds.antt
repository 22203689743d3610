-- ===== src/Tariff/Meter/Bounds.antt =====
-- A reading is an average (sites/tariff.py: `_interval_peaks`, `_peak_for`).
use otto_q_core.Base.Sort.{All-sort}
use otto_q_core.Tariff.{TouWindow, or_empty, DemandComponent, Tariff, contains, window}
use native.Mathlib.Nat.{mul-le-mul_right, div-le_of_le-mul}
use otto_q_core.Base.{
  ℕ, zero, suc, ◌+◌, ◌-◌, ◌*◌, ◌≤◌, max, String, inl, inr, Bool, true, ◌&&◌, Option, none, some,
  List, [], ◌∷◌, arith, ltb, ◌==◌, str_eq, Bool-cases, any, All, Returned,
}
use otto_q_core.Tariff.Meter.{
  coincident_peak, window_peak, point_le, end_of, sorted_points, interval_peaks, max_reading,
  peak_by, peak_for, Step, steps_of, interval_energy, Load, readings,
}
use otto_q_core.Tariff.Meter.Points.{sorted_points-InTime, InTime}
use otto_q_core.Tariff.Meter.Conserves.{step_energy-overlap, overlap}

-- No step draws more than this.
abbrev pub AtMost : ℕ → List Step → Type 0
AtMost top = All λ s. s.kw ≤ top

abbrev sum_overlap : ℕ → ℕ → List Step → ℕ
sum_overlap a b [] = 0
sum_overlap a b (s ∷ ss) = overlap a b s + sum_overlap a b ss

-- The steps of a curve do not overlap each other.
sum_overlap-steps_of :
    (a b : ℕ) (p : ℕ × ℕ) (ps : Load)
    → InTime (p ∷ ps)
    → sum_overlap a b (steps_of (p ∷ ps)) ≤ b - max p.0 a
unfolding steps_of overlap
sum_overlap-steps_of a b p [] h = omega arith
sum_overlap-steps_of a b p (q ∷ ps) h = omega (arith, sum_overlap-steps_of a b q ps h.1, h.0)

interval_energy-le :
    (top a b : ℕ) (ss : List Step)
    → AtMost top ss
    → interval_energy ss a b ≤ top * sum_overlap a b ss
unfolding interval_energy
interval_energy-le top a b [] h = omega arith
interval_energy-le top a b (s ∷ ss) h = omega (
  arith,
  step_energy-overlap a b s,
  mul-le-mul_right (overlap a b s) h.0,
  interval_energy-le top a b ss h.1,
)

within :
    (top : ℕ) (load : Load) (a i : ℕ)
    → InTime load
    → AtMost top (steps_of load)
    → interval_energy (steps_of load) a (a + i) ≤ i * top
unfolding interval_energy steps_of
within top [] a i h k = omega arith
within top (p ∷ ps) a i h k = omega (
  arith,
  interval_energy-le top a (a + i) (steps_of (p ∷ ps)) k,
  mul-le-mul_right {m = sum_overlap a (a + i) (steps_of (p ∷ ps))} {n = i} top
      (omega (arith, sum_overlap-steps_of a (a + i) p ps h)),
)

-- No reading shows more than this.
abbrev pub ReadAtMost : ℕ → List (ℕ × ℕ) → Type 0
ReadAtMost top = All λ r. r.1 ≤ top

readings-ReadAtMost :
    (fuel top : ℕ) (pts : Load) (interval end start : ℕ)
    → InTime pts
    → AtMost top (steps_of pts)
    → ReadAtMost top (readings fuel (steps_of pts) interval end start)
unfolding readings
readings-ReadAtMost zero top pts interval end start h k = tt
readings-ReadAtMost (suc fuel) top pts interval end start h k = elim (Bool-cases (ltb start end)) [
  | inl e ↦ rw e (
    div-le_of_le-mul interval (within top pts start interval h k),
    readings-ReadAtMost fuel top pts interval end (start + interval) h k,
  )
  | inr e ↦ rw e tt
]

steps_of-AtMost : (top : ℕ) (pts : Load) → All (λ p. p.1 ≤ top) pts → AtMost top (steps_of pts)
unfolding steps_of
steps_of-AtMost top [] h = tt
steps_of-AtMost top (p ∷ []) h = h
steps_of-AtMost top (p ∷ q ∷ ps) h = (h.0, steps_of-AtMost top (q ∷ ps) h.1)

max_reading-le :
    (p : ℕ → Bool) (rs : List (ℕ × ℕ)) (top : ℕ) → ReadAtMost top rs → max_reading p rs ≤ top
unfolding max_reading
max_reading-le p [] top h = omega arith
max_reading-le p (r ∷ rs) top h = ground (arith, max_reading-le p rs top h.1, h.0)

sorted_points-AtMost :
    (top : ℕ) (load : Load) → All (λ p. p.1 ≤ top) load → AtMost top (steps_of (sorted_points load))
unfolding sorted_points
sorted_points-AtMost top load h = steps_of-AtMost top _ (All-sort point_le (λ p. p.1 ≤ top) load h)

coincident_peak-le :
    (label : String) (minutes : Option (List ℕ)) (rs : List (ℕ × ℕ)) (top : ℕ)
    → ReadAtMost top rs
    → Returned (λ kw. kw ≤ top) (coincident_peak label minutes rs)
unfolding coincident_peak
coincident_peak-le label none rs top h = tt
coincident_peak-le label (some ms) rs top h = max_reading-le (λ start. any (◌==◌ start) ms) rs top h

window_peak-le :
    (label : String) (w : Option TouWindow) (rs : List (ℕ × ℕ)) (top : ℕ)
    → ReadAtMost top rs
    → Returned (λ kw. kw ≤ top) (window_peak label w rs)
unfolding window_peak
window_peak-le label none rs top h = tt
window_peak-le label (some w) rs top h = max_reading-le (contains w) rs top h

peak_by-le :
    (comp : DemandComponent) (t : Tariff) (minutes : Option (List ℕ)) (rs : List (ℕ × ℕ)) (top : ℕ)
    → ReadAtMost top rs
    → Returned (λ kw. kw ≤ top) (peak_by comp t minutes rs)
unfolding peak_by
peak_by-le comp t minutes [] top h = omega arith
peak_by-le comp t minutes (r ∷ rs) top h = elim (Bool-cases (str_eq comp.basis "CP")) [
  | inl e ↦ rw e (coincident_peak-le comp.label minutes (r ∷ rs) top h)
  | inr e ↦ elim (Bool-cases (str_eq comp.basis "TOU")) [
    | inl k ↦
        rw e (rw k (window_peak-le comp.label (window t (or_empty comp.tou_window)) (r ∷ rs) top h))
    | inr k ↦ rw e (rw k (max_reading-le (λ start. true) (r ∷ rs) top h))
  ]
]

-- The measured demand of a component never exceeds the highest power of the curve, whatever its basis,
-- interval and windows: a reading is the average over its interval, and steps do not overlap.
pub peak_for-le :
    (load : Load) (comp : DemandComponent) (t : Tariff) (minutes : Option (List ℕ)) (top : ℕ)
    → All (λ p. p.1 ≤ top) load
    → Returned (λ kw. kw ≤ top) (peak_for load comp t minutes)
unfolding peak_for interval_peaks
peak_for-le load comp t minutes top h =
    let pts = sorted_points load in
    elim (Bool-cases (ltb 0 (end_of pts) && comp.interval_min == 0)) [
      | inl e ↦ rw e tt
      | inr e ↦ rw e (
          peak_by-le comp t minutes
            (readings (end_of pts) (steps_of pts) comp.interval_min (end_of pts) 0) top
            (readings-ReadAtMost (end_of pts) top pts comp.interval_min (end_of pts) 0
              (sorted_points-InTime load) (sorted_points-AtMost top load h)))
    ]
