-- ===== src/Tariff/Meter/Conserves.antt =====
-- The meter's intervals share out the energy of the curve (sites/tariff.py: `_interval_peaks`).
use native.Mathlib.Nat.{div-mul-le_self, lt-div-mul-add}
use otto_q_core.Tariff.Meter.Points.{EndsBy-later, sorted_points-InTime, EndsBy, steps_of-EndsBy}
use otto_q_core.Tariff.Energy.Conserves.{curve_energy, energy_by_window-conserves}
use otto_q_core.Tariff.Energy.{energy_by_window, sum_kwh}
use otto_q_core.Tariff.{Tariff}
use otto_q_core.Base.{
  ℕ, zero, suc, ◌+◌, ◌-◌, ◌*◌, ◌/◌, ◌≤◌, ◌<◌, min, max, ◌≡◌, refl, sym, ap, subst, ◌∙◌, inl, inr,
  false, ◌&&◌, List, [], ◌∷◌, map, arith, ltb, ◌==◌, Bool-cases, ltb→le, if-false, All, returns,
}
use otto_q_core.Tariff.Meter.{
  Load, steps_of, end_of, sorted_points, interval_peaks, Step, step_energy, interval_energy,
  readings,
}

-- The minutes that a step shares with an interval.
unfoldable pub overlap : ℕ → ℕ → Step → ℕ
overlap a b s = min s.till b - max s.from a

pub step_energy-overlap : (a b : ℕ) (s : Step) → step_energy a b s ≡ s.kw * overlap a b s
unfolding step_energy overlap
step_energy-overlap a b s = elim (Bool-cases (ltb (max s.from a) (min s.till b))) [
  | inl e ↦ rw e refl
  | inr e ↦ rw e (sym (rw (sub_below (ltb→le (max s.from a) (min s.till b) e)) (omega arith)))
]
  where
    sub_below : {m n : ℕ} → n ≤ m → n - m ≡ 0
    sub_below h = omega arith

overlap-split :
    (a b c : ℕ) (s : Step) → a ≤ b → b ≤ c → overlap a c s ≡ overlap a b s + overlap b c s
unfolding overlap
overlap-split a b c s h k = split_span s.from s.till a b c h k
  where
    split_span :
        (f t a b c : ℕ)
        → a ≤ b
        → b ≤ c
        → min t c - max f a ≡ (min t b - max f a) + (min t c - max f b)
    split_span f t a b c h k = omega arith

step_energy-split :
    (a b c : ℕ) (s : Step)
    → a ≤ b
    → b ≤ c
    → step_energy a c s ≡ step_energy a b s + step_energy b c s
step_energy-split a b c s h k =
    step_energy-overlap a c s
    ∙ ap (λ x. s.kw * x) (overlap-split a b c s h k)
    ∙ omega (arith, step_energy-overlap a b s, step_energy-overlap b c s)

interval_energy-split :
    (ss : List Step) (a b c : ℕ)
    → a ≤ b
    → b ≤ c
    → interval_energy ss a c ≡ interval_energy ss a b + interval_energy ss b c
unfolding interval_energy
interval_energy-split [] a b c h k = omega arith
interval_energy-split (s ∷ ss) a b c h k =
    omega (arith, step_energy-split a b c s h k, interval_energy-split ss a b c h k)

step_energy-after : (a b : ℕ) (s : Step) → s.till ≤ a → step_energy a b s ≡ 0
unfolding overlap
step_energy-after a b s h =
    step_energy-overlap a b s ∙ rw (nothing s.from s.till a b h) (omega arith)
  where
    nothing : (f t a b : ℕ) → t ≤ a → min t b - max f a ≡ 0
    nothing f t a b h = omega arith

interval_energy-after : (ss : List Step) (a b : ℕ) → EndsBy a ss → interval_energy ss a b ≡ 0
unfolding interval_energy
interval_energy-after [] a b h = refl
interval_energy-after (s ∷ ss) a b h =
    omega (arith, step_energy-after a b s h.0, interval_energy-after ss a b h.1)

-- The energy under the curve between two minutes.
abbrev pub drawn : List Step → ℕ → ℕ → ℕ
drawn [] a b = 0
drawn (s ∷ ss) a b = s.kw * overlap a b s + drawn ss a b

interval_energy-drawn : (ss : List Step) (a b : ℕ) → interval_energy ss a b ≡ drawn ss a b
unfolding interval_energy
interval_energy-drawn [] a b = refl
interval_energy-drawn (s ∷ ss) a b =
    omega (arith, step_energy-overlap a b s, interval_energy-drawn ss a b)

-- The energy over the intervals that start as given.
abbrev pub metered : List Step → ℕ → List ℕ → ℕ
metered ss interval [] = 0
metered ss interval (a ∷ starts) = drawn ss a (a + interval) + metered ss interval starts

-- A reading is the average power over its interval, rounded down.
abbrev pub IsAverage : List Step → ℕ → ℕ × ℕ → Type 0
IsAverage ss interval r =
    (r.1 * interval ≤ drawn ss r.0 (r.0 + interval))
    × (drawn ss r.0 (r.0 + interval) < r.1 * interval + interval)

step_energy-start : (a : ℕ) (s : Step) → step_energy a a s ≡ 0
unfolding step_energy
step_energy-start a s = if-false (s.kw * (min s.till a - max s.from a)) 0 (never s.from s.till a)
  where
    never : (f t a : ℕ) → ltb (max f a) (min t a) ≡ false
    never f t a = ground arith

interval_energy-start : (ss : List Step) (a : ℕ) → interval_energy ss a a ≡ 0
unfolding interval_energy
interval_energy-start [] a = refl
interval_energy-start (s ∷ ss) a = omega (arith, step_energy-start a s, interval_energy-start ss a)

metered-readings :
    (fuel : ℕ) (ss : List Step) (interval end start : ℕ)
    → EndsBy end ss
    → metered ss interval (map (λ r. r.0) (readings fuel ss interval end start))
      ≡ interval_energy ss start (start + fuel * interval)
unfolding readings
metered-readings zero ss interval end start h =
    sym (ap (interval_energy ss start) (omega arith) ∙ interval_energy-start ss start)
metered-readings (suc fuel) ss interval end start h = elim (Bool-cases (ltb start end)) [
  | inl e ↦ rw e (
      omega (
        arith,
        interval_energy-drawn ss start (start + interval),
        metered-readings fuel ss interval end (start + interval) h,
      )
      ∙ sym (
          interval_energy-split ss start (start + interval) (start + interval + fuel * interval)
            (omega arith) (omega arith))
      ∙ ap (interval_energy ss start) (omega arith))
  | inr e ↦ rw e (
      sym (
        interval_energy-after ss start (start + suc fuel * interval)
          (EndsBy-later end start ss (ltb→le start end e) h)))
]

averaged : (n d : ℕ) → 1 ≤ d → ((n / d) * d ≤ n) × (n < (n / d) * d + d)
averaged n d h = (div-mul-le_self n d, lt-div-mul-add {a = n} {b = d} h)

readings-IsAverage :
    (fuel : ℕ) (ss : List Step) (interval end start : ℕ)
    → 1 ≤ interval
    → All (IsAverage ss interval) (readings fuel ss interval end start)
unfolding readings
readings-IsAverage zero ss interval end start h = tt
readings-IsAverage (suc fuel) ss interval end start h = elim (Bool-cases (ltb start end)) [
  | inl e ↦ rw e (
    subst
        (λ n.
          (n / interval * interval ≤ drawn ss start (start + interval))
          × (drawn ss start (start + interval) < n / interval * interval + interval))
        (sym (interval_energy-drawn ss start (start + interval)))
        (averaged (drawn ss start (start + interval)) interval h),
    readings-IsAverage fuel ss interval end (start + interval) h,
  )
  | inr e ↦ rw e tt
]

whole-step : (end : ℕ) (s : Step) → s.till ≤ end → step_energy 0 end s ≡ s.kw * (s.till - s.from)
unfolding overlap
whole-step end s h = step_energy-overlap 0 end s ∙ ap (λ x. s.kw * x) (whole s.from s.till end h)
  where
    whole : (f t e : ℕ) → t ≤ e → min t e - max f 0 ≡ t - f
    whole f t e h = omega arith

interval_energy-curve :
    (ss : List Step) (end : ℕ) → EndsBy end ss → interval_energy ss 0 end ≡ curve_energy ss
unfolding interval_energy
interval_energy-curve [] end h = refl
interval_energy-curve (s ∷ ss) end h =
    omega (arith, whole-step end s h.0, interval_energy-curve ss end h.1)

grown : (end interval : ℕ) → 1 ≤ interval → end ≤ 0 + end * interval
grown end zero h = omega arith
grown end (suc i) h = omega arith

-- With an interval of at least a minute, the passes of the loop are enough: the intervals that the
-- meter reads share out the whole energy under the curve, each part of it once.
readings-conserve :
    (load : Load) (interval : ℕ)
    → 1 ≤ interval
    → (let pts = sorted_points load in
        metered
          (steps_of pts)
          interval
          (map (λ r. r.0) (readings (end_of pts) (steps_of pts) interval (end_of pts) 0))
        ≡ curve_energy (steps_of pts))
readings-conserve load interval h =
    let pts = sorted_points load in
    let k = steps_of-EndsBy pts (sorted_points-InTime load) in
    metered-readings (end_of pts) (steps_of pts) interval (end_of pts) 0 k
    ∙ interval_energy-curve (steps_of pts) (0 + end_of pts * interval) (
        EndsBy-later (end_of pts) (0 + end_of pts * interval) (steps_of pts)
          (grown (end_of pts) interval h) k)

-- The meter and the windows agree on the energy of a curve.
abbrev pub Agree : Load → ℕ → Tariff → List (ℕ × ℕ) → Type 0
Agree load interval t rs =
    metered (steps_of (sorted_points load)) interval (map (λ r. r.0) rs)
    ≡ sum_kwh (energy_by_window load t)

-- With an interval of at least a minute the meter reads the whole curve: the loop returns readings,
-- each the average power over its interval rounded down, and the energy over these intervals is
-- exactly the energy that the windows of any tariff share out.
pub interval_peaks-energy :
    (load : Load) (interval : ℕ) (t : Tariff)
    → 1 ≤ interval
    → (rs : List (ℕ × ℕ)) × (interval_peaks load interval ≡ returns rs)
      × All (IsAverage (steps_of (sorted_points load)) interval) rs
      × Agree load interval t rs
unfolding interval_peaks
interval_peaks-energy load interval t h = (
  _,
  if-false {b = ltb 0 (end_of (sorted_points load)) && interval == 0} _ _ (ground arith),
  readings-IsAverage (end_of (sorted_points load)) (steps_of (sorted_points load)) interval
      (end_of (sorted_points load)) 0 h,
  readings-conserve load interval h ∙ sym (energy_by_window-conserves load t),
)
