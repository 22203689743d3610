-- ===== src/Solver/Solution/Held.antt =====
-- The parts of the constraint model that a solution satisfies, and the figures of its plan against
-- their sums (solvers/cpsat/model.py: `build_and_solve` and `_extract`).

use otto_q_core.Solver.Solution.Figures.{tardies-le, flows-le, tardy_total-sort, flow_total-sort}
use otto_q_core.Solver.Solution.Power.{asset_plans-load, charge_segments_of-sort}
use otto_q_core.Solver.Solution.Forward.{extracted-IsForward}
use otto_q_core.Proposer.Measure.Peak.{peak_of-le_iff, load}
use otto_q_core.Proposer.Measure.{charge_segments_of, peak_of}
use otto_q_core.Solver.Build.Jobs.{Input}
use otto_q_core.Solver.Build.{
  CpModel, Block, need_flow, own_of, power_of, mode_constraints, site_constraints, build_model,
  blocks, tardies, flows,
}
use otto_q_core.Solver.Model.{Satisfies, Assignment, total, demand, Holds}
use otto_q_core.Solver.Extract.{plan_le, asset_plans}
use otto_q_core.Plan.{AssetPlan, tardy_total, flow_total}
use otto_q_core.Base.Sort.{sort}
use otto_q_core.Base.{ℕ, ◌≤◌, ◌≡◌, true, List, arith, All-split}

module _ (inp : Input) (σ : Assignment)
    (h : Satisfies σ (CpModel.constraints (build_model inp))) where
  abbrev pub bs : List Block
  bs = blocks inp 0 inp.sc.assets

  abbrev pub plans : List AssetPlan
  plans = sort plan_le (asset_plans inp σ 0 inp.sc.assets)

  pub own_held : Satisfies σ (own_of bs)
  unfolding build_model
  own_held = (All-split (Holds σ) (own_of bs) _ h).0

  pub site_held : Satisfies σ (site_constraints inp.sc bs)
  unfolding build_model
  site_held =
      (All-split (Holds σ) (site_constraints inp.sc bs) _ (All-split (Holds σ) (own_of bs) _ h).1).0

  pub mode_held : Satisfies σ (mode_constraints inp.sc.site inp.asked bs inp.asked.mode)
  unfolding build_model
  mode_held =
      (All-split (Holds σ) (site_constraints inp.sc bs) _ (All-split (Holds σ) (own_of bs) _ h).1).1

  pub tardy_of_plans : tardy_total plans ≤ total σ (tardies bs)
  tardy_of_plans = omega (
    arith,
    tardy_total-sort (asset_plans inp σ 0 inp.sc.assets),
    tardies-le inp σ 0 inp.sc.assets own_held,
  )

  pub flow_of_plans : need_flow inp.asked ≡ true → flow_total plans ≤ total σ (flows bs)
  flow_of_plans needed = omega (
    arith,
    flow_total-sort (asset_plans inp σ 0 inp.sc.assets),
    flows-le inp σ 0 inp.sc.assets needed own_held,
  )

  -- The site's charging load is at most the demand of the model's intervals.
  pub load_of_plans : (t : ℕ) → load t (charge_segments_of plans) ≤ demand σ t (power_of bs)
  load_of_plans t = omega (
    arith,
    charge_segments_of-sort t (asset_plans inp σ 0 inp.sc.assets),
    asset_plans-load inp σ t 0 inp.sc.assets,
  )

  -- A capacity of the power intervals bounds the measured peak.
  pub peak_of-plans :
      (kw : ℕ) → ((t : ℕ) → demand σ t (power_of bs) ≤ kw) → peak_of (charge_segments_of plans) ≤ kw
  peak_of-plans kw bound =
      (peak_of-le_iff kw (charge_segments_of plans)
          (extracted-IsForward inp σ inp.sc.assets own_held)).1
        (λ t. omega (arith, load_of_plans t, bound t))
