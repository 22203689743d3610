-- ===== src/Solver/Segments/Laws.antt =====
-- The segments lead to the target and deliver its energy (solvers/cpsat/model.py: `charge_segments`).
use native.Mathlib.Nat.{zero-lt-suc, div-le_of_le-mul, mul-le-mul, mul-le-mul_right, lt-div-mul-add}
use otto_q_core.Base.Sort.{sort, All-sort, sort_cons}
use otto_q_core.Base.{
  ℕ, zero, suc, ◌+◌, ◌-◌, ◌*◌, ◌≤◌, ◌<◌, min, max, ◌≡◌, refl, sym, subst, inl, inr, Bool, true,
  false, List, [], ◌∷◌, arith, leb, Bool-cases, All,
}
use otto_q_core.Scenario.{Site, CurveStep, AssetClass}
use otto_q_core.Solver.Segments.{
  step_le, cold_started, charge_segments, edge_of, segments_from, ceil_div, segment_kw,
  segment_minutes, ChargeSegment, segment,
}

-- Segment after segment, each from where the one before ended, from one charge level to another.
abbrev pub Runs : ℕ → ℕ → List ChargeSegment → Type 0
Runs lo target [] = lo ≡ target
Runs lo target (s ∷ ss) = (s.from_soc ≡ lo) × (lo < s.to_soc) × Runs s.to_soc target ss

-- A segment within the point's power that lasts for the energy of its points of charge.
abbrev pub Delivers : AssetClass → ℕ → ChargeSegment → Type 0
Delivers cls point_kw s =
    (1 ≤ s.kw)
    × (s.kw ≤ max 1 point_kw)
    × (60 * (cls.battery_kwh * (s.to_soc - s.from_soc)) ≤ s.minutes * (100_000 * s.kw))

-- No step accepts more than the whole power.
abbrev pub Accepts : List CurveStep → Type 0
Accepts = All λ s. s.accept_frac ≤ 1000

ceil_div-covers : (a b : ℕ) → 1 ≤ b → a ≤ ceil_div a b * b
unfolding ceil_div
ceil_div-covers a (suc b) h = omega (arith, lt-div-mul-add {a = a + (suc b - 1)} (zero-lt-suc b))
ceil_div-covers a zero h = omega arith

segment_kw-positive :
    (cls : AssetClass) (point_kw : ℕ) (s : CurveStep) → 1 ≤ segment_kw cls point_kw s
unfolding segment_kw
segment_kw-positive cls point_kw s = omega arith

segment_kw-le :
    (cls : AssetClass) (point_kw : ℕ) (s : CurveStep)
    → s.accept_frac ≤ 1000
    → segment_kw cls point_kw s ≤ max 1 point_kw
unfolding segment_kw
segment_kw-le cls point_kw s h =
    let cap =
      mul-le-mul {n₁ = min (1000 * point_kw) cls.max_charge_kw} {n₂ = 1000 * point_kw} (omega arith)
        h in
    omega (
      arith,
      div-le_of_le-mul 1_000_000 {m = min (1000 * point_kw) cls.max_charge_kw * s.accept_frac}
          {n = point_kw} (omega (arith, cap)),
    )

segment_minutes-covers :
    (cls : AssetClass) (points kw : ℕ)
    → 1 ≤ kw
    → 60 * (cls.battery_kwh * points) ≤ segment_minutes cls points kw * (100_000 * kw)
unfolding segment_minutes
segment_minutes-covers cls points kw h =
    let need = 60 * (cls.battery_kwh * points) in
    let c = ceil_div need (100_000 * kw) in
    let grows = mul-le-mul_right {m = c} {n = max 1 c} (100_000 * kw) (omega arith) in
    omega (arith, grows, ceil_div-covers need (100_000 * kw) (omega (arith, h)))

segment-Delivers :
    (cls : AssetClass) (point_kw : ℕ) (s : CurveStep) (lo hi : ℕ)
    → s.accept_frac ≤ 1000
    → Delivers cls point_kw (segment cls point_kw s lo hi)
unfolding segment
segment-Delivers cls point_kw s lo hi h =
    let k = segment_kw-positive cls point_kw s in
    (k, segment_kw-le cls point_kw s h, segment_minutes-covers cls (hi - lo) _ k)

segments_from-Delivers :
    (cls : AssetClass) (point_kw target : ℕ) (ss : List CurveStep) (lo : ℕ)
    → Accepts ss
    → All (Delivers cls point_kw) (segments_from cls point_kw target ss lo)
unfolding segments_from
segments_from-Delivers cls point_kw target [] lo h = tt
segments_from-Delivers cls point_kw target (s ∷ ss) lo h =
    let hi = min target (edge_of ss) in
    elim (Bool-cases (leb hi lo)) [
      | inl e ↦ rw e (segments_from-Delivers cls point_kw target ss lo h.1)
      | inr e ↦ elim (Bool-cases (leb target hi)) [
        | inl q ↦ rw e (rw q (segment-Delivers cls point_kw s lo hi h.0, tt))
        | inr q ↦ rw e (
            rw q (
              segment-Delivers cls point_kw s lo hi h.0,
              segments_from-Delivers cls point_kw target ss hi h.1,
            ))
      ]
    ]

segments_from-Runs :
    (cls : AssetClass) (point_kw target : ℕ) (s : CurveStep) (ss : List CurveStep) (lo : ℕ)
    → lo < target
    → target ≤ 100
    → Runs lo target (segments_from cls point_kw target (s ∷ ss) lo)
unfolding segments_from segment edge_of
segments_from-Runs cls point_kw target s [] lo l h =
    rw (above lo target l h) (rw (whole target h) (refl, ground arith, ground arith))
  where
    above : (lo target : ℕ) → lo < target → target ≤ 100 → leb (min target 100) lo ≡ false
    above lo target l h = ground arith

    whole : (target : ℕ) → target ≤ 100 → leb target (min target 100) ≡ true
    whole target h = ground arith
segments_from-Runs cls point_kw target s (t ∷ ss) lo l h =
    let hi = min target t.above_soc_pct in
    elim (Bool-cases (leb hi lo)) [
      | inl e ↦ rw e (segments_from-Runs cls point_kw target t ss lo l h)
      | inr e ↦ elim (Bool-cases (leb target hi)) [
        | inl q ↦ rw e (rw q (refl, ground arith, ground arith))
        | inr q ↦ rw e (
            rw q
              (refl, ground arith, segments_from-Runs cls point_kw target t ss hi (ground arith) h))
      ]
    ]

cold_started-Runs :
    (cold : Bool) (penalty lo target : ℕ) (ss : List ChargeSegment)
    → Runs lo target ss
    → Runs lo target (cold_started cold penalty ss)
unfolding cold_started
cold_started-Runs cold penalty lo target [] h = h
cold_started-Runs false penalty lo target (s ∷ ss) h = h
cold_started-Runs true penalty lo target (s ∷ ss) h = h

cold_started-Delivers :
    (cold : Bool) (penalty : ℕ) (cls : AssetClass) (point_kw : ℕ) (ss : List ChargeSegment)
    → All (Delivers cls point_kw) ss
    → All (Delivers cls point_kw) (cold_started cold penalty ss)
unfolding cold_started
cold_started-Delivers cold penalty cls point_kw [] h = tt
cold_started-Delivers false penalty cls point_kw (s ∷ ss) h = h
cold_started-Delivers true penalty cls point_kw (s ∷ ss) h =
    ((h.0.0, h.0.1, longer (100_000 * s.kw) s.minutes penalty _ h.0.2), h.1)
  where
    longer : (k m p need : ℕ) → need ≤ m * k → need ≤ (m + p) * k
    longer k m p need h = omega (arith, h, mul-le-mul_right {m = m} {n = m + p} k (omega arith))

-- What one charge operation is: from the level of arrival to the target without a gap, on powers
-- that the point has, for long enough.
abbrev pub Charges : AssetClass → ℕ → ℕ → ℕ → List ChargeSegment → Type 0
Charges cls point_kw soc target ss = Runs soc target ss × All (Delivers cls point_kw) ss

sorted-Runs :
    (cls : AssetClass) (point_kw soc target : ℕ) (c : CurveStep) (cs : List CurveStep)
    → soc < target
    → target ≤ 100
    → Runs soc target (segments_from cls point_kw target (sort step_le (c ∷ cs)) soc)
sorted-Runs cls point_kw soc target c cs l h =
    let s = sort_cons step_le c cs in
    subst (λ ss. Runs soc target (segments_from cls point_kw target ss soc)) (sym s.2)
      (segments_from-Runs cls point_kw target s.0 s.1 soc l h)

-- For an asset that needs charge, up to a target of at most 100, and a class with an energy curve
-- whose steps accept at most the whole power: the segments run from the level of arrival to the
-- target without a gap or a repeat, each at a power of at least 1 kW and at most the point's (or the
-- 1 kW), and each lasts long enough for the energy of its points of charge; a cold start only adds.
pub charge_segments-Charges :
    (site : Site) (cls : AssetClass) (c : CurveStep) (cs : List CurveStep) (soc target : ℕ)
    (cold : Bool) (point_kw : ℕ)
    → cls.energy_curve ≡ c ∷ cs
    → Accepts (c ∷ cs)
    → soc < target
    → target ≤ 100
    → Charges cls point_kw soc target (charge_segments site cls soc target cold point_kw)
unfolding charge_segments
charge_segments-Charges site cls c cs soc target cold point_kw e a l h =
    subst
      (λ curve. Charges cls point_kw soc target (
        cold_started cold site.cold_start_penalty_min
          (segments_from cls point_kw target (sort step_le curve) soc)))
      (sym e)
      (
        cold_started-Runs cold site.cold_start_penalty_min soc target _
            (sorted-Runs cls point_kw soc target c cs l h),
        cold_started-Delivers cold site.cold_start_penalty_min cls point_kw _ (
            segments_from-Delivers cls point_kw target (sort step_le (c ∷ cs)) soc
              (All-sort step_le (λ s. s.accept_frac ≤ 1000) (c ∷ cs) a)),
      )
