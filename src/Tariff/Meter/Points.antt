-- ===== src/Tariff/Meter/Points.antt =====
-- The points of a curve in time order (sites/tariff.py: `pts = sorted(load_kw)`).
use otto_q_core.Base.{ℕ, ◌≤◌, ◌≡◌, true, List, [], ◌∷◌, arith, All, All-map}
use otto_q_core.Base.Sort.{IsSorted, IsOrder, sort-IsSorted}
use otto_q_core.Tariff.Meter.{point_le, Step, steps_of, end_of, sorted_points, Load}

point_le-IsOrder : IsOrder point_le
unfolding point_le
point_le-IsOrder = record { total = λ a b h. ground arith; trans = λ a b c h k. ground arith }

point_le-time : (p q : ℕ × ℕ) → point_le p q ≡ true → p.0 ≤ q.0
unfolding point_le
point_le-time p q h = ground arith

-- Times never fall along the curve.
abbrev pub InTime : Load → Type 0
InTime [] = Unit
InTime (p ∷ []) = Unit
InTime (p ∷ q ∷ ps) = (p.0 ≤ q.0) × InTime (q ∷ ps)

InTime-sorted : (pts : Load) → IsSorted point_le pts → InTime pts
InTime-sorted [] h = tt
InTime-sorted (p ∷ []) h = tt
InTime-sorted (p ∷ q ∷ ps) h = (point_le-time p q h.0.0, InTime-sorted (q ∷ ps) h.1)

pub sorted_points-InTime : (load : Load) → InTime (sorted_points load)
unfolding sorted_points
sorted_points-InTime load = InTime-sorted _ (sort-IsSorted point_le point_le-IsOrder load)

first-end_of : (p : ℕ × ℕ) (ps : Load) → InTime (p ∷ ps) → p.0 ≤ end_of (p ∷ ps)
unfolding end_of
first-end_of p [] h = omega arith
first-end_of p (q ∷ ps) h = omega (arith, first-end_of q ps h.1, h.0)

-- Every step is over by a minute.
abbrev pub EndsBy : ℕ → List Step → Type 0
EndsBy end = All λ s. s.till ≤ end

pub steps_of-EndsBy : (pts : Load) → InTime pts → EndsBy (end_of pts) (steps_of pts)
unfolding steps_of end_of
steps_of-EndsBy [] h = tt
steps_of-EndsBy (p ∷ []) h = (omega arith, tt)
steps_of-EndsBy (p ∷ q ∷ ps) h = (first-end_of q ps h.1, steps_of-EndsBy (q ∷ ps) h.1)

pub EndsBy-later : (a b : ℕ) (ss : List Step) → a ≤ b → EndsBy a ss → EndsBy b ss
EndsBy-later a b ss h k = All-map (λ s. s.till ≤ a) (λ s. s.till ≤ b) ss (λ s l. omega arith) k
