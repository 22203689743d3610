-- ===== src/Curve/Draws.antt =====
-- What the load curve shows (policies/cost.py: `site_load_curve`).
use native.Mathlib.Nat.{lt-div-mul-add, div-mul-le_self}
use otto_q_core.Base.Sort.{sort, place}
use otto_q_core.Base.{
  ℕ, zero, suc, ◌+◌, ◌-◌, ◌*◌, ◌/◌, ◌≤◌, ◌<◌, ◌≡◌, refl, ap, ◌⊎◌, inl, inr, ◌&&◌, List, [], ◌∷◌,
  ◌++◌, arith, ltb, leb, ◌==◌, if◌then◌else◌, if-false, All, Dict, returns,
}
use otto_q_core.Curve.{
  Delta, segment_events, events_of, event_le, rise_of, fall_of, sum_until, load_at, curve_from,
  site_load_curve, LoadSegment, Event,
}

-- The power that the segments draw in a minute: from their start to before their end.
abbrev pub segments_draw : ℕ → List LoadSegment → ℕ
segments_draw m [] = 0
segments_draw m (s ∷ segs) =
    let rest = segments_draw m segs in if leb s.start m && ltb m s.end then s.kw + rest else rest

abbrev pub site_draw : Dict (List LoadSegment) → ℕ → ℕ
site_draw [] m = 0
site_draw ((asset, segs) ∷ rest) m = segments_draw m segs + site_draw rest m

-- No segment ends before it starts.
abbrev pub AreForward : Dict (List LoadSegment) → Type 0
AreForward = All λ entry. All (λ s. s.start ≤ s.end) entry.1

-- From a minute on, a point each step before the end, then the end with no load.
abbrev pub Samples : (ℕ → ℕ) → ℕ → ℕ → ℕ → List (ℕ × ℕ) → Type 0
Samples draw step_min end_min m [] = ⊥
Samples draw step_min end_min m (p ∷ rest) =
    ((p ≡ (end_min, 0)) × (rest ≡ []) × (end_min ≤ m))
    ⊎ ((p ≡ (m, draw m)) × (m < end_min) × Samples draw step_min end_min (m + step_min) rest)

module _ (f : Delta → ℕ) (m : ℕ) where
  sum_until-place :
      (e : Event) (events : List Event)
      → sum_until f m (place event_le e events) ≡ sum_until f m (e ∷ events)
  unfolding sum_until
  sum_until-place e [] = refl
  sum_until-place e (g ∷ events) = ground (arith, sum_until-place e events)

  sum_until-sort :
      (events : List Event) → sum_until f m (sort event_le events) ≡ sum_until f m events
  unfolding sum_until
  sum_until-sort [] = refl
  sum_until-sort (e ∷ events) =
      ground (arith, sum_until-place e (sort event_le events), sum_until-sort events)

  sum_until-append :
      (es fs : List Event) → sum_until f m (es ++ fs) ≡ sum_until f m es + sum_until f m fs
  unfolding sum_until
  sum_until-append [] fs = omega arith
  sum_until-append (e ∷ es) fs = ground (arith, sum_until-append es fs)

segment_events-draw :
    (m : ℕ) (segs : List LoadSegment)
    → All (λ s. s.start ≤ s.end) segs
    → sum_until rise_of m (segment_events segs)
      ≡ segments_draw m segs + sum_until fall_of m (segment_events segs)
unfolding sum_until segment_events
segment_events-draw m [] h = refl
segment_events-draw m (s ∷ segs) h = ground (arith, segment_events-draw m segs h.1)

events_of-draw :
    (m : ℕ) (segments : Dict (List LoadSegment))
    → AreForward segments
    → sum_until rise_of m (events_of segments)
      ≡ site_draw segments m + sum_until fall_of m (events_of segments)
unfolding sum_until events_of
events_of-draw m [] h = refl
events_of-draw m ((asset, segs) ∷ rest) h = omega (
  arith,
  sum_until-append rise_of m (segment_events segs) (events_of rest),
  sum_until-append fall_of m (segment_events segs) (events_of rest),
  segment_events-draw m segs h.0,
  events_of-draw m rest h.1,
)

load_at-draw :
    (m : ℕ) (segments : Dict (List LoadSegment))
    → AreForward segments
    → load_at m (sort event_le (events_of segments)) ≡ site_draw segments m
unfolding load_at
load_at-draw m segments h = omega (
  arith,
  sum_until-sort rise_of m (events_of segments),
  sum_until-sort fall_of m (events_of segments),
  events_of-draw m segments h,
)

curve_from-Samples :
    (draw : ℕ → ℕ) (step_min end_min : ℕ) (events : List Event) (m samples : ℕ)
    → ((k : ℕ) → load_at k events ≡ draw k)
    → end_min ≤ m + samples * step_min
    → m + samples * step_min < end_min + step_min
    → Samples draw step_min end_min m (curve_from step_min end_min events m samples)
unfolding curve_from
curve_from-Samples draw step_min end_min events m zero h lo hi = inl (refl, refl, omega arith)
curve_from-Samples draw step_min end_min events m (suc samples) h lo hi = inr (
  ap (λ l. (m, l)) (h m),
  omega arith,
  curve_from-Samples draw step_min end_min events (m + step_min) samples h (omega arith)
      (omega arith),
)

-- Where no segment ends before it starts and the step is not nought, the curve is returned without
-- an error: a point each step from midnight on and before the end, with the sum of the powers of
-- the segments that have started and not yet ended, and a last point at the end with no load.
pub site_load_curve-draws :
    (segments : Dict (List LoadSegment)) (step_min end_min : ℕ)
    → AreForward segments
    → 1 ≤ step_min
    → (curve : List (ℕ × ℕ)) × (site_load_curve segments step_min end_min ≡ returns curve)
      × Samples (site_draw segments) step_min end_min 0 curve
unfolding site_load_curve
site_load_curve-draws segments step_min end_min h g =
    let samples = (end_min + (step_min - 1)) / step_min in
    let events = sort event_le (events_of segments) in
    (
      curve_from step_min end_min events 0 samples,
      if-false {b = step_min == 0} _ _ (ground arith),
      curve_from-Samples (site_draw segments) step_min end_min events 0 samples
          (λ m. load_at-draw m segments h)
          (omega (arith, lt-div-mul-add {a = end_min + (step_min - 1)} {b = step_min} g))
          (omega (arith, div-mul-le_self (end_min + (step_min - 1)) step_min)),
    )
