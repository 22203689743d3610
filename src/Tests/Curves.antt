-- ===== src/Tests/Curves.antt =====
-- Two charges that overlap (policies/cost.py: `site_load_curve`).
use otto_q_core.Base.{ℕ, ◌≡◌, refl, List, [], ◌∷◌, arith, Dict, returns}
use otto_q_core.Curve.{
  segment_events, events_of, event_le, sum_until, load_at, curve_from, LoadSegment, site_load_curve,
}
use otto_q_core.Curve.Draws.{site_draw, Samples, site_load_curve-draws}

abbrev charges : Dict (List LoadSegment)
charges =
    ("robot", record { start = 10; end = 40; kw = 50 } ∷ [])
    ∷ ("van", record { start = 30; end = 45; kw = 20 } ∷ [])
    ∷ []

curve_of_charges :
    site_load_curve charges 15 50 ≡ returns ((0, 0) ∷ (15, 50) ∷ (30, 70) ∷ (45, 0) ∷ (50, 0) ∷ [])
unfolding site_load_curve curve_from load_at sum_until events_of segment_events event_le
curve_of_charges = refl

site_load_curve-draws_example :
    (curve : List (ℕ × ℕ)) × (site_load_curve charges 15 50 ≡ returns curve)
    × Samples (site_draw charges) 15 50 0 curve
site_load_curve-draws_example =
    site_load_curve-draws charges 15 50 ((omega arith, tt), ((omega arith, tt), tt)) (omega arith)
