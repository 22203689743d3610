-- ===== src/Solver/Points.antt =====
-- No point of an extracted plan is taken twice at a time (solvers/cpsat/model.py: `AddNoOverlap` on
-- `per_point_intervals`, and `_extract`).
pub mod Apartness
mod Stays
mod Blocks
use otto_q_core.Solver.Points.Blocks.{raw_from-Embeds, asset_plans-Undisturbed}
use otto_q_core.Solver.Solution.Held.{own_held, site_held, plans}
use otto_q_core.Solver.Build.Jobs.{Input}
use otto_q_core.Solver.Build.{
  CpModel, point_constraints, site_constraints, build_model, occupied_of, intervals_at, blocks,
}
use otto_q_core.Solver.Model.{Interval, Apart, Satisfies, Assignment}
use otto_q_core.Solver.Extract.{Found, plan_le, extract}
use otto_q_core.Plan.{Plan, AssetPlan}
use otto_q_core.Scenario.{ServicePoint}
use otto_q_core.Base.Sort.{All-sort, Pairwise-sort}
use otto_q_core.Solver.Points.Apartness.{Separate, Separate-sym, Undisturbed, Embeds-Pairwise}
use otto_q_core.Solver.Points.Stays.{Rests}
use otto_q_core.Base.{
  ℕ, String, ◌≡◌, sym, subst, inl, inr, true, List, [], ◌∷◌, map, arith, eq_iff, str_eq, Bool-cases,
  All, Pairwise, elem, Cross-swap,
}

point_held :
    (σ : Assignment) (occupied : List (String × Interval)) (id : String)
    (points : List ServicePoint)
    → Satisfies σ (point_constraints occupied points)
    → elem id (map (λ p. ServicePoint.id p) points) ≡ true
    → Pairwise (Apart σ) (intervals_at id occupied)
unfolding point_constraints
point_held σ occupied id [] h e = cc
point_held σ occupied id (p ∷ points) h e = elim (Bool-cases (str_eq id p.id)) [
  | inl hit ↦
      subst (λ x. Pairwise (Apart σ) (intervals_at x occupied)) (sym ((eq_iff id p.id).0 hit)) h.0
  | inr miss ↦ point_held σ occupied id points h.1 (ground arith)
]

points_kept :
    (inp : Input) (σ : Assignment)
    → Satisfies σ (CpModel.constraints (build_model inp))
    → Satisfies σ
        (point_constraints (occupied_of (blocks inp 0 inp.sc.assets)) inp.sc.service_points)
unfolding site_constraints
points_kept inp σ h = let (_, (_, (_, (_, points)))) = site_held inp σ h in points

-- For a plan that is read back from values that satisfy the model, and a service point of the
-- scenario at which every declared gap is at least a given one: any two operations that take the
-- point, of one asset or of two, are apart, one ending with that gap before the other starts.
pub extract-Undisturbed :
    (inp : Input) (found : Found) (id : String) (gap : ℕ)
    → Satisfies found.values (CpModel.constraints (build_model inp))
    → elem id (map (λ p. ServicePoint.id p) inp.sc.service_points) ≡ true
    → All (Rests gap id) inp.sc.service_points
    → Undisturbed id gap (Plan.assets (extract inp found))
unfolding extract
extract-Undisturbed inp found id gap h known rests =
    let σ = found.values in
    let raw =
      Embeds-Pairwise σ id gap
        (raw_from-Embeds inp gap id rests σ 0 inp.sc.assets (own_held inp σ h))
        (point_held σ _ id inp.sc.service_points (points_kept inp σ h) known) in
    let plans = asset_plans-Undisturbed inp gap id rests σ 0 inp.sc.assets raw in
    (
      All-sort plan_le _ _ plans.0,
      Pairwise-sort plan_le _
          (λ p q.
            Cross-swap (Separate id gap) (Separate-sym id gap) (AssetPlan.ops p) (AssetPlan.ops q))
          _ plans.1,
    )
