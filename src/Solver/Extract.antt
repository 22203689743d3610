-- ===== src/Solver/Extract.antt =====
-- The plan that a solution stands for (solvers/cpsat/model.py: `_extract`, and the end of
-- `build_and_solve`). The plan's hash, its excess over the soft target and its scenario name
-- are read by nothing modelled; the texts of the reasons and the proposals are left out.
use otto_q_core.Solver.Segments.{ChargeSegment}
use otto_q_core.Solver.Model.{
  Work, Satisfies, seg_start, seg_end, op_start, op_end, work_start, work_end, work_at, site_peak,
  Assignment, wash, inspect, served, finished, tardy, chosen,
}
use otto_q_core.Intent.Solve.{mode_eq, min_peak}
use otto_q_core.Plan.{Segment, Op, AssetPlan, Status, Repro, Plan, optimal, feasible}
use otto_q_core.Scenario.{ServicePoint, Asset, Scenario}
use otto_q_core.Solver.{Budget, Request, has_solution}
use otto_q_core.Base.Sort.{sort}
use otto_q_core.Solver.Build.Jobs.{Input, Candidate, candidates}
use otto_q_core.Solver.Build.Finish.{needs, bays, work_name}
use otto_q_core.Solver.Build.Costs.{Cost, times, unless}
use otto_q_core.Solver.Build.{CpModel, build_model}
use otto_q_core.Base.{
  ℕ, suc, ◌+◌, ◌-◌, ◌*◌, String, ◌≡◌, Bool, true, false, not, ◌&&◌, ◌||◌, Option, none, some, List,
  [], ◌∷◌, ◌++◌, ltb, ◌==◌, str_le, if◌then◌else◌, length,
}

-- What the search reports: its status and, where it has a solution, the value of each variable.
pub record Found : Type 0 where
  pub status : Status
  pub values : Assignment
  pub version : String
  pub work : ℕ

unfoldable pub cost : Assignment → List Cost → ℕ
cost σ [] = 0
cost σ (times w v ∷ rest) = w * σ v + cost σ rest
cost σ (unless w v ∷ rest) = w * (1 - σ v) + cost σ rest

-- `key=lambda o: (o["start"], o["op"])`
unfoldable pub op_le : Op → Op → Bool
op_le o p = ltb o.start p.start || (o.start == p.start && str_le o.op p.op)

unfoldable pub plan_le : AssetPlan → AssetPlan → Bool
plan_le a b = str_le a.aid b.aid

-- `next(p["id"] for l, p in wl if solver.Value(l))`; a solution has one.
unfoldable pub bay_of : Assignment → Work → ℕ → ℕ → List ServicePoint → Option String
bay_of σ w n j [] = none
bay_of σ w n j (p ∷ ps) = if σ (work_at w n j) == 1 then some p.id else bay_of σ w n (suc j) ps

module _ (σ : Assignment) (n : ℕ) where
  unfoldable pub segs_of : ℕ → ℕ → List ChargeSegment → List Segment
  segs_of j i [] = []
  segs_of j i (seg ∷ segs) =
      record {
        kw = seg.kw;
        minutes = seg.minutes;
        start = σ (seg_start n j i);
        finish = σ (seg_end n j i);
        cold_start = seg.cold_start;
      }
      ∷ segs_of j (suc i) segs

  unfoldable pub charge_op : ℕ → Candidate → Op
  charge_op j c = record {
    op = "charge";
    point = some c.point.id;
    kind = some c.kind;
    start = σ (seg_start n j 0);
    finish = σ (seg_end n j (length c.segs - 1));
    parallel = false;
    segments = segs_of j 0 c.segs;
  }

  unfoldable pub charge_ops : ℕ → List Candidate → List Op
  charge_ops j [] = []
  charge_ops j (c ∷ cs) =
      if σ (chosen n j) == 1 then charge_op j c ∷ charge_ops (suc j) cs else charge_ops (suc j) cs

  unfoldable pub beside_ops : Option String → ℕ → List String → List Op
  beside_ops point k [] = []
  beside_ops point k (op ∷ ops) =
      record {
        op = op;
        point = point;
        kind = none;
        start = σ (op_start n k);
        finish = σ (op_end n k);
        parallel = true;
        segments = [];
      }
      ∷ beside_ops point (suc k) ops

abbrev pub point_of_first : List Op → Option String
point_of_first [] = none
point_of_first (o ∷ ops) = o.point

module _ (inp : Input) (σ : Assignment) where
  unfoldable pub work_op : Work → Asset → ℕ → Op
  work_op w a n = record {
    op = work_name w;
    point = bay_of σ w n 0 (bays inp a n w);
    kind = none;
    start = σ (work_start w n);
    finish = σ (work_end w n);
    parallel = false;
    segments = [];
  }

  unfoldable pub work_ops : Work → Asset → ℕ → List Op
  work_ops w a n = if needs a w then work_op w a n ∷ [] else []

  unfoldable pub ops_of : Asset → ℕ → List Op
  ops_of a n =
      let charge = charge_ops σ n 0 (candidates inp a) in
      charge
      ++ (beside_ops σ n (point_of_first charge) 0 a.parallel_ops
          ++ (work_ops wash a n ++ work_ops inspect a n))

  unfoldable pub is_refused : ℕ → Bool
  is_refused n = inp.asked.budget.allow_rejection && not (σ (served n) == 1)

  unfoldable pub refused_plan : Asset → AssetPlan
  refused_plan a = record {
    aid = a.aid;
    class_name = a.cls;
    ready_by = a.ready_by_min;
    served = some false;
    finish = none;
    tardy_min = none;
    ops = [];
  }

  unfoldable pub served_plan : Asset → ℕ → AssetPlan
  served_plan a n = record {
    aid = a.aid;
    class_name = a.cls;
    ready_by = a.ready_by_min;
    served = if inp.asked.budget.allow_rejection then some true else none;
    finish = some (σ (finished n));
    tardy_min = some (σ (tardy n));
    ops = sort op_le (ops_of a n);
  }

  unfoldable pub asset_plan : Asset → ℕ → AssetPlan
  unfolding refused_plan served_plan
  asset_plan a n = if is_refused n then refused_plan a else served_plan a n

  -- The loop over the assets, whose names differ: `plan_vars` is a dict by name.
  unfoldable pub asset_plans : ℕ → List Asset → List AssetPlan
  asset_plans n [] = []
  asset_plans n (a ∷ rest) = asset_plan a n ∷ asset_plans (suc n) rest

  unfoldable pub rejected_of : ℕ → List Asset → List String
  rejected_of n [] = []
  rejected_of n (a ∷ rest) =
      if is_refused n then a.aid ∷ rejected_of (suc n) rest else rejected_of (suc n) rest

unfoldable pub repro_of : Budget → Found → Repro
repro_of b found = record {
  ortools_version = some found.version;
  det_budget = b.det_budget;
  deterministic_time = some found.work;
  wall_limit = b.time_limit;
  reproducible = some (elim found.status [
    | optimal ↦ true
    | _ ↦ elim b.time_limit [ none ↦ true | some _ ↦ false ]
  ]);
}

unfoldable pub extract : Input → Found → Plan
extract inp found =
    let model = build_model inp in
    record {
      solver_status = elim found.status [ optimal ↦ optimal | _ ↦ feasible ];
      objective = cost found.values model.objective + model.base_cost;
      site_peak_kw =
          if mode_eq inp.asked.mode min_peak then some (found.values site_peak) else none;
      assets = sort plan_le (asset_plans inp found.values 0 inp.sc.assets);
      rejected = sort str_le (rejected_of inp found.values 0 inp.sc.assets);
      retained_previous = false;
      kept_held_plan = false;
      repro = some (repro_of inp.asked.budget found);
    }

-- What the search promises: the values that it reports with a solution satisfy the model.
abbrev pub SearchLaw : (CpModel → Budget → Found) → Type 0
SearchLaw search =
    (m : CpModel) (b : Budget)
    → has_solution (search m b).status ≡ true
    → Satisfies (search m b).values m.constraints

module _ (search : CpModel → Budget → Found) where
  unfoldable pub solve_model_at : ℕ → List String → Scenario → Request → Status × Plan
  solve_model_at t_now blocked sc r =
      let inp : Input = record { sc = sc; asked = r; t_now = t_now; blocked = blocked } in
      let found = search (build_model inp) r.budget in (found.status, extract inp found)

  -- The search and the reading back of its solution, with the defaults of the chain's calls.
  unfoldable pub solve_model : Scenario → Request → Status × Plan
  unfolding solve_model_at
  solve_model sc r = solve_model_at 0 [] sc r
