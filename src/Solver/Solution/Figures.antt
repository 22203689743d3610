-- ===== src/Solver/Solution/Figures.antt =====
-- The tardiness and the flow of an extracted plan are within the sums that the model bounds
-- (solvers/cpsat/model.py: `charged_tardy` and `all_finish` of `build_and_solve`).
use otto_q_core.Base.Sort.{sort, additive-sort}
use otto_q_core.Solver.Build.Charge.{charge_constraints}
use otto_q_core.Solver.Build.Jobs.{Input, candidates}
use otto_q_core.Solver.Build.Finish.{
  parallel_constraints, work_constraints, ready_constraints, tardy_var, flow_var, charged,
}
use otto_q_core.Solver.Build.{own_of, Block, need_flow, block, blocks, tardies, flows}
use otto_q_core.Solver.Model.{Satisfies, Assignment, Holds, wash, inspect, total}
use otto_q_core.Solver.Extract.{plan_le, asset_plans, is_refused, asset_plan}
use otto_q_core.Plan.{tardy_total, flow_total, AssetPlan}
use otto_q_core.Scenario.{Asset}
use otto_q_core.Base.{
  ℕ, suc, ◌≤◌, ◌≡◌, refl, true, Option, none, some, List, [], ◌∷◌, arith, All-split,
}

-- The constraints of an asset that say when it is ready.
pub own-ready :
    (inp : Input) (σ : Assignment) (a : Asset) (n : ℕ)
    → Satisfies σ (Block.own (block inp a n))
    → Satisfies σ (ready_constraints inp a n (need_flow inp.asked))
unfolding block
own-ready inp σ a n h =
    let after_charge =
      (All-split (Holds σ) (charge_constraints inp a n (candidates inp a)) _ h).1 in
    let after_ops = (All-split (Holds σ) (parallel_constraints inp a n) _ after_charge).1 in
    let after_wash = (All-split (Holds σ) (work_constraints inp a n wash) _ after_ops).1 in
    (All-split (Holds σ) (work_constraints inp a n inspect) _ after_wash).1

abbrev figure : Option ℕ → ℕ
figure none = 0
figure (some v) = v

module _ (inp : Input) (σ : Assignment) where
  tardy-le :
      (a : Asset) (n : ℕ)
      → Satisfies σ (ready_constraints inp a n (need_flow inp.asked))
      → figure (AssetPlan.tardy_min (asset_plan inp σ a n)) ≤ σ (tardy_var inp a n)
  unfolding asset_plan is_refused tardy_var ready_constraints charged
  tardy-le a n h = ground arith

  flow-le :
      (a : Asset) (n : ℕ)
      → need_flow inp.asked ≡ true
      → Satisfies σ (ready_constraints inp a n (need_flow inp.asked))
      → figure (AssetPlan.finish (asset_plan inp σ a n)) ≤ σ (flow_var inp a n)
  unfolding asset_plan is_refused flow_var ready_constraints charged
  flow-le a n needed h = ground arith

  pub tardies-le :
      (n : ℕ) (assets : List Asset)
      → Satisfies σ (own_of (blocks inp n assets))
      → tardy_total (asset_plans inp σ n assets) ≤ total σ (tardies (blocks inp n assets))
  unfolding tardy_total asset_plans blocks own_of block
  tardies-le n [] h = omega arith
  tardies-le n (a ∷ rest) h =
      let parts = All-split (Holds σ) (Block.own (block inp a n)) _ h in
      omega (arith, tardy-le a n (own-ready inp σ a n parts.0), tardies-le (suc n) rest parts.1)

  pub flows-le :
      (n : ℕ) (assets : List Asset)
      → need_flow inp.asked ≡ true
      → Satisfies σ (own_of (blocks inp n assets))
      → flow_total (asset_plans inp σ n assets) ≤ total σ (flows (blocks inp n assets))
  unfolding flow_total asset_plans blocks own_of block
  flows-le n [] needed h = omega arith
  flows-le n (a ∷ rest) needed h =
      let parts = All-split (Holds σ) (Block.own (block inp a n)) _ h in
      omega (
        arith,
        flow-le a n needed (own-ready inp σ a n parts.0),
        flows-le (suc n) rest needed parts.1,
      )

pub tardy_total-sort : (xs : List AssetPlan) → tardy_total (sort plan_le xs) ≡ tardy_total xs
unfolding tardy_total
tardy_total-sort = additive-sort plan_le tardy_total (λ a. figure a.tardy_min) (λ a xs. refl)

pub flow_total-sort : (xs : List AssetPlan) → flow_total (sort plan_le xs) ≡ flow_total xs
unfolding flow_total
flow_total-sort = additive-sort plan_le flow_total (λ a. figure a.finish) (λ a xs. refl)
