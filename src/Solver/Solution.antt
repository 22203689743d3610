-- ===== src/Solver/Solution.antt =====
-- The search, the constraint model and the reading back of a solution together do what the chain
-- relies on (solvers/cpsat/model.py: `build_and_solve` and `_extract`).
pub mod Figures
pub mod Power
pub mod Forward
pub mod Held
mod Serving
pub mod Listed
use otto_q_core.Solver.Solution.Held.{
  own_held, site_held, mode_held, tardy_of_plans, flow_of_plans, load_of_plans, peak_of-plans,
}
use otto_q_core.Scenario.{Scenario}
use otto_q_core.Solver.Solution.Serving.{
  served_names-sort, asset_plans-required, asset_plans-listed,
}
use otto_q_core.Intent.Solve.{weighted}
use otto_q_core.Proposer.Measure.Peak.{load}
use otto_q_core.Proposer.Measure.{charge_segments_of, peak_of, Within}
use otto_q_core.Solver.Build.Jobs.{Input}
use otto_q_core.Solver.Build.{
  peak_ceiling, peak_constraints, CpModel, Block, need_flow, mode_constraints, site_constraints,
  build_model, blocks, tardies, flows, ceiling,
}
use otto_q_core.Solver.Model.{peak_excess, site_peak, Var, Satisfies, Assignment, total, Holds}
use otto_q_core.Solver.Extract.{SearchLaw, solve_model, Found, plan_le, asset_plans, extract}
use otto_q_core.Intent.Solve.{Mode, mode_eq, min_tardy, min_peak, min_flow, weighted}
use otto_q_core.Plan.{
  Status, Plan, served_names, AssetPlan, tardy_total, flow_total, optimal, feasible, infeasible,
  unknown,
}
use otto_q_core.Solver.{Budget, Request, CpSatLaws, names_of, ServesRequired, IsSolution, when_mode}
use otto_q_core.Base.Sort.{sort}
use otto_q_core.Base.{
  ℕ, ◌+◌, ◌≤◌, String, ◌≡◌, refl, sym, ◌∙◌, ◌⊎◌, inl, inr, true, ◌||◌, Option, none, some, List, [],
  arith, if-true, elem, All-split,
}

need_flow-peak :
    (r : Request) (n : ℕ) → r.mode ≡ min_peak → r.max_flow_total ≡ some n → need_flow r ≡ true
unfolding need_flow
need_flow-peak r n at_peak ceiled = rw (at_peak, ceiled) refl

module _ (inp : Input) (σ : Assignment)
    (h : Satisfies σ (CpModel.constraints (build_model inp))) where
  abbrev bs : List Block
  bs = blocks inp 0 inp.sc.assets

  abbrev plans : List AssetPlan
  plans = sort plan_le (asset_plans inp σ 0 inp.sc.assets)

  ceiling-Within :
      (vs : List Var) (most : Option ℕ) (n : ℕ)
      → Satisfies σ (ceiling vs most)
      → ((m : ℕ) → most ≡ some m → n ≤ total σ vs)
      → Within n most
  unfolding ceiling
  ceiling-Within vs none n c le = tt
  ceiling-Within vs (some m) n c le = omega (arith, c.0, le m refl)

  tardy_kept :
      (mode : Mode)
      → Satisfies σ (mode_constraints inp.sc.site inp.asked bs mode)
      → Within
          (tardy_total plans)
          (when_mode (mode_eq mode min_peak || mode_eq mode min_flow) inp.asked.max_tardy_total)
  unfolding mode_constraints
  tardy_kept weighted c = tt
  tardy_kept min_tardy c = tt
  tardy_kept min_peak c =
      ceiling-Within (tardies bs) _ _
        (All-split (Holds σ) (ceiling (tardies bs) inp.asked.max_tardy_total) _ c).0
        (λ m e. tardy_of_plans inp σ h)
  tardy_kept min_flow c =
      ceiling-Within (tardies bs) _ _
        (All-split (Holds σ) (ceiling (tardies bs) inp.asked.max_tardy_total) _ c).0
        (λ m e. tardy_of_plans inp σ h)

  flow_kept :
      (mode : Mode)
      → inp.asked.mode ≡ mode
      → Satisfies σ (mode_constraints inp.sc.site inp.asked bs mode)
      → Within (flow_total plans) (when_mode (mode_eq mode min_peak) inp.asked.max_flow_total)
  unfolding mode_constraints
  flow_kept weighted e c = tt
  flow_kept min_tardy e c = tt
  flow_kept min_flow e c = tt
  flow_kept min_peak e c =
      let later = (All-split (Holds σ) (ceiling (tardies bs) inp.asked.max_tardy_total) _ c).1 in
      let own = (All-split (Holds σ) (ceiling (flows bs) inp.asked.max_flow_total) _ later).0 in
      ceiling-Within (flows bs) inp.asked.max_flow_total _ own
        (λ m some_m. flow_of_plans inp σ h (need_flow-peak inp.asked m e some_m))

  peak_ceiling-Within :
      (most : Option ℕ)
      → Satisfies σ (peak_ceiling inp.sc.site bs most)
      → Within (peak_of (charge_segments_of plans)) most
  unfolding peak_ceiling peak_constraints
  peak_ceiling-Within none c = tt
  peak_ceiling-Within (some kw) (_, (held, (under, _))) =
      peak_of-plans inp σ h kw (λ t. omega (arith, held t, under))

  peak_kept :
      (mode : Mode)
      → Satisfies σ (mode_constraints inp.sc.site inp.asked bs mode)
      → Within
          (peak_of (charge_segments_of plans))
          (when_mode (mode_eq mode min_flow) inp.asked.max_peak_total)
  unfolding mode_constraints peak_constraints
  peak_kept weighted c = tt
  peak_kept min_tardy c = tt
  peak_kept min_peak c = tt
  peak_kept min_flow c =
      peak_ceiling-Within inp.asked.max_peak_total
        (All-split (Holds σ) (ceiling (tardies bs) inp.asked.max_tardy_total) _ c).1

  -- The reported peak bounds the load.
  peak_shown :
      (mode : Mode)
      → Satisfies σ (mode_constraints inp.sc.site inp.asked bs mode)
      → mode_eq mode min_peak ≡ true
      → peak_of (charge_segments_of plans) ≤ σ site_peak
  unfolding mode_constraints peak_constraints
  peak_shown weighted c e = cc
  peak_shown min_tardy c e = cc
  peak_shown min_flow c e = cc
  peak_shown min_peak c e =
      let later = (All-split (Holds σ) (ceiling (tardies bs) inp.asked.max_tardy_total) _ c).1 in
      let (_, (held, _)) =
        (All-split (Holds σ) (ceiling (flows bs) inp.asked.max_flow_total) _ later).1 in
      peak_of-plans inp σ h (σ site_peak) (λ t. omega (arith, held t))

  required_kept :
      inp.asked.budget.allow_rejection ≡ true
      → (names : List String) → inp.asked.require_served ≡ some names
      → (k : String) → elem k names ≡ true
      → elem k (names_of inp.sc) ≡ true
      → elem k (served_names plans) ≡ true
  required_kept allowed names asked k known e =
      served_names-sort k (asset_plans inp σ 0 inp.sc.assets)
      ∙ asset_plans-required inp σ names k 0 inp.sc.assets allowed asked known (own_held inp σ h) e

required-cases :
    (sc : Scenario) (o : Option (List String)) (p : Plan)
    → ((names : List String)
        → o ≡ some names
        → (k : String) → elem k names ≡ true
        → elem k (names_of sc) ≡ true
        → elem k (served_names p.assets) ≡ true)
    → ServesRequired sc o p
required-cases sc none p h = tt
required-cases sc (some names) p h = h names refl

status_read :
    (s : Status)
    → (elim s [ optimal ↦ optimal | _ ↦ feasible ] ≡ optimal)
      ⊎ (elim s [ optimal ↦ optimal | _ ↦ feasible ] ≡ feasible)
status_read optimal = inl refl
status_read feasible = inr refl
status_read infeasible = inr refl
status_read unknown = inr refl

-- What the search finds, read back as a plan, is a solution in the sense that the chain relies on.
pub extract-IsSolution :
    (inp : Input) (found : Found)
    → Satisfies found.values (CpModel.constraints (build_model inp))
    → IsSolution inp.sc inp.asked (extract inp found)
unfolding extract
extract-IsSolution inp found h = record {
  fresh = refl;
  solved = status_read found.status;
  tardy_held = tardy_kept inp found.values h inp.asked.mode (mode_held inp found.values h);
  flow_held = flow_kept inp found.values h inp.asked.mode refl (mode_held inp found.values h);
  peak_held = peak_kept inp found.values h inp.asked.mode (mode_held inp found.values h);
  peak_reported = λ e. (
    found.values site_peak,
    if-true _ _ e,
    peak_shown inp found.values h inp.asked.mode (mode_held inp found.values h) e,
  );
  listed = λ k e.
      asset_plans-listed inp found.values k 0 inp.sc.assets
        (sym (served_names-sort k (asset_plans inp found.values 0 inp.sc.assets)) ∙ e);
  required_served = λ allowed.
      required-cases inp.sc inp.asked.require_served (extract inp found)
        (required_kept inp found.values h allowed);
}

-- Where the search keeps its promise, the constraint model and the reading back of its solutions
-- give the chain all that it relies on.
pub solve_model-CpSatLaws :
    (search : CpModel → Budget → Found) → SearchLaw search → CpSatLaws (solve_model search)
unfolding solve_model
solve_model-CpSatLaws search law sc r solved =
    extract-IsSolution (record { sc = sc; asked = r; t_now = 0; blocked = [] }) _ (law _ _ solved)

-- For a plan that is read back from values that satisfy the model: at every minute the site's
-- charging load is at most its hard cap, and at most its soft target and the reported excess.
pub extract-load :
    (inp : Input) (found : Found) (t : ℕ)
    → Satisfies found.values (CpModel.constraints (build_model inp))
    → (load t (charge_segments_of (Plan.assets (extract inp found)))
        ≤ inp.sc.site.power_cap_kw_hard)
      × (load t (charge_segments_of (Plan.assets (extract inp found)))
          ≤ found.values peak_excess + inp.sc.site.power_soft_target_kw)
unfolding extract site_constraints
extract-load inp found t h =
    let (_, (hard, (_, (soft, _)))) = site_held inp found.values h in
    let drawn = load_of_plans inp found.values h t in
    (omega (arith, drawn, hard t), omega (arith, drawn, soft t))
