-- ===== src/Solver/Segments.antt =====
-- The charge segments of an asset on a point (solvers/cpsat/model.py: `charge_segments`).
--
-- Energies, class powers and fractions are in thousandths; charge levels, point powers and minutes
-- are whole. Whether the pack is below the site's cold-start temperature is an argument, since a
-- temperature may be below zero. The product in `segment_kw` is exact, where the float product of the
-- code may come out a little below a whole number and lose a kW.
pub mod Laws
use otto_q_core.Base.Sort.{sort}
use otto_q_core.Base.{
  ℕ, ◌+◌, ◌-◌, ◌*◌, ◌/◌, min, max, Bool, true, false, List, [], ◌∷◌, leb, if◌then◌else◌,
}
use otto_q_core.Scenario.{Site, CurveStep, AssetClass}

pub record ChargeSegment : Type 0 where
  pub from_soc : ℕ
  pub to_soc : ℕ
  pub kw : ℕ
  pub minutes : ℕ
  pub cold_start : Bool

-- `key=lambda s: s["above_soc_pct"]`
pub step_le : CurveStep → CurveStep → Bool
step_le s t = leb s.above_soc_pct t.above_soc_pct

-- Where a step ends: where the next one begins, and the last at 100.
pub edge_of : List CurveStep → ℕ
edge_of [] = 100
edge_of (s ∷ ss) = s.above_soc_pct

-- `math.ceil(a / b)`
pub ceil_div : ℕ → ℕ → ℕ
ceil_div a b = (a + (b - 1)) / b

-- `kw`
pub segment_kw : AssetClass → ℕ → CurveStep → ℕ
segment_kw cls point_kw s =
    max 1 (min (1000 * point_kw) cls.max_charge_kw * s.accept_frac / 1_000_000)

-- `minutes`, from the points of charge and the power
pub segment_minutes : AssetClass → ℕ → ℕ → ℕ
segment_minutes cls points kw = max 1 (ceil_div (60 * (cls.battery_kwh * points)) (100_000 * kw))

pub segment : AssetClass → ℕ → CurveStep → ℕ → ℕ → ChargeSegment
segment cls point_kw s lo hi =
    let kw = segment_kw cls point_kw s in
    record {
      from_soc = lo;
      to_soc = hi;
      kw = kw;
      minutes = segment_minutes cls (hi - lo) kw;
      cold_start = false;
    }

-- The loop over the steps in order, from the charge level reached.
pub segments_from : AssetClass → ℕ → ℕ → List CurveStep → ℕ → List ChargeSegment
segments_from cls point_kw target_soc [] lo = []
segments_from cls point_kw target_soc (s ∷ ss) lo =
    let hi = min target_soc (edge_of ss) in
    if leb hi lo
    then segments_from cls point_kw target_soc ss lo
    else (let rest = segments_from cls point_kw target_soc ss hi in
        segment cls point_kw s lo hi ∷ (if leb target_soc hi then [] else rest))

-- The penalty of a cold start, on the first segment only.
pub cold_started : Bool → ℕ → List ChargeSegment → List ChargeSegment
cold_started cold penalty [] = []
cold_started false penalty (s ∷ ss) = s ∷ ss
cold_started true penalty (s ∷ ss) =
    record {
      from_soc = s.from_soc;
      to_soc = s.to_soc;
      kw = s.kw;
      minutes = s.minutes + penalty;
      cold_start = true;
    }
    ∷ ss

unfoldable pub charge_segments : Site → AssetClass → ℕ → ℕ → Bool → ℕ → List ChargeSegment
unfolding cold_started segments_from segment segment_kw segment_minutes ceil_div edge_of step_le
charge_segments site cls soc target_soc cold point_kw =
    cold_started cold site.cold_start_penalty_min
      (segments_from cls point_kw target_soc (sort step_le cls.energy_curve) soc)
