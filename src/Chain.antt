-- ===== src/Chain.antt =====
-- The lexicographic chain (policies/forward.py: `lexicographic_solve_traced`): ordered passes of
-- the solver, each holding what the earlier ones reached.
--
-- `optima` is a dict from a pass mode to its value, in insertion order; its extra entry "served"
-- is the field `served`. `plan["objective"] - max_flow + held_flow` is a sum of naturals
-- first and a difference then; an objective is at least the flow that it contains.
pub mod Honoured
pub mod Passes
pub mod Served
pub mod Total
pub mod Covered
use otto_q_core.Proposer.Measure.{Optima}
use otto_q_core.Base.{
  ℕ, ◌+◌, ◌-◌, String, Bool, true, false, not, ◌&&◌, Option, none, some, List, [], ◌∷◌, ◌++◌, ltb,
  if◌then◌else◌, all, elem,
}
use otto_q_core.Intent.Solve.{Mode, weighted, min_tardy, min_peak, min_flow, mode_eq}
use otto_q_core.Plan.{
  Status, Plan, tardy_total, flow_total, served_names, is_reproducible, work_of, optimal,
}
use otto_q_core.Scenario.{Scenario}
use otto_q_core.Solver.{
  build_and_solve, Budget, Request, Result, ok, err, ◌>>=◌, chain_start, unknown_pass_mode,
  missing_site_peak, request, when_mode,
}

-- One entry of the trace.
pub record PassTrace : Type 0 where
  pub mode : Mode
  pub status : Status
  pub retained : Bool
  pub kept_held_plan : Bool
  pub proven : Bool
  pub objective : Option ℕ
  pub deterministic_time : Option ℕ
  pub reproducible : Bool

-- `optima[mode] = value`
unfoldable pub set_optimum : Mode → Option ℕ → Optima → Optima
set_optimum m v [] = (m, v) ∷ []
set_optimum m v ((n, w) ∷ rest) =
    if mode_eq m n then (n, v) ∷ rest else (n, w) ∷ set_optimum m v rest

-- The loop's variables; `plan` is the plan of the last pass.
pub record ChainState : Type 0 where
  pub plan : Option Plan
  pub max_tardy : Option ℕ
  pub max_peak : Option ℕ
  pub max_flow : Option ℕ
  pub served_floor : Option (List String)
  pub optima : Optima
  pub passes : List PassTrace

pub start : ChainState
start = record {
  plan = none;
  max_tardy = none;
  max_peak = none;
  max_flow = none;
  served_floor = none;
  optima = [];
  passes = [];
}

-- `_served_set(held) == _served_set(plan)`
pub subset : List String → List String → Bool
subset xs ys = all (λ k. elem k ys) xs

unfoldable pub same_served : Plan → Plan → Bool
unfolding subset
same_served p q =
    subset (served_names p.assets) (served_names q.assets)
    && subset (served_names q.assets) (served_names p.assets)

-- The plan that the flow pass ships when the one it was handed is better (finding G401).
pub keep_held : Plan → Plan → Plan
keep_held held plan = record held {
  solver_status = plan.solver_status;
  objective = plan.objective + flow_total held.assets - flow_total plan.assets;
  repro = elim plan.repro [ none ↦ held.repro | some r ↦ some r ];
  kept_held_plan = true;
}

-- The test: a solved plan serves the assets that the held one served, with a worse flow.
pub is_better : Plan → Plan → Bool
unfolding same_served
is_better held plan =
    not plan.retained_previous
    && same_served held plan
    && ltb (flow_total held.assets) (flow_total plan.assets)

pub better_flow : Plan → Plan → Plan
unfolding is_better keep_held
better_flow held plan = if is_better held plan then keep_held held plan else plan

pub flow_plan : Option Plan → Plan → Plan
unfolding better_flow
flow_plan none plan = plan
flow_plan (some held) plan = better_flow held plan

-- The requests of the three kinds of pass.
pub tardy_request : Budget → Request
tardy_request budget = request min_tardy budget

pub soft_request : Mode → Budget → ChainState → Request
soft_request mode budget st = record (request mode budget) {
  previous_plan = st.plan;
  max_tardy_total = st.max_tardy;
  max_peak_total = when_mode (mode_eq mode min_flow) st.max_peak;
  max_flow_total = when_mode (mode_eq mode min_peak) st.max_flow;
  price_churn = false;
  require_served = st.served_floor;
}

pub after_tardy : Bool → ChainState → Plan → ChainState
after_tardy allow_rejection st plan =
    let total = tardy_total plan.assets in
    record st {
      plan = some plan;
      max_tardy = some total;
      optima = set_optimum min_tardy (some total) st.optima;
      served_floor = if allow_rejection then some (served_names plan.assets) else st.served_floor;
    }

-- The peak pass reads `site_peak_kw`, unless its plan is a retained one.
pub peak_value : Plan → Result (Option ℕ)
peak_value plan =
    if plan.retained_previous
    then ok none
    else elim plan.site_peak_kw [ none ↦ err missing_site_peak | some kw ↦ ok (some kw) ]

pub after_peak : ChainState → Plan → Option ℕ → ChainState
after_peak st plan value = record st {
  plan = some plan;
  max_peak = value;
  optima = set_optimum min_peak value st.optima;
}

pub after_flow : ChainState → Plan → ChainState
after_flow st plan =
    let total = flow_total plan.assets in
    record st {
      plan = some plan;
      max_flow = some total;
      optima = set_optimum min_flow (some total) st.optima;
    }

pub trace_of : Mode → Plan → PassTrace
trace_of mode plan =
    if plan.retained_previous
    then record {
      mode = mode;
      status = plan.solver_status;
      retained = true;
      kept_held_plan = false;
      proven = false;
      objective = none;
      deterministic_time = none;
      reproducible = false;
    }
    else record {
      mode = mode;
      status = plan.solver_status;
      retained = false;
      kept_held_plan = plan.kept_held_plan;
      proven = elim plan.solver_status [ optimal ↦ true | _ ↦ false ];
      objective = some plan.objective;
      deterministic_time = some (work_of plan);
      reproducible = is_reproducible plan;
    }

-- What the chain returns, and what it has when a pass is over.
pub record Outcome : Type 0 where
  pub plan : Plan
  pub optima : Optima
  pub served : Option (List String)
  pub passes : List PassTrace

-- The end of a pass: it is traced, and a retained one clears its optimum and ends the chain.
pub pass_over : Mode → ChainState → Plan → ChainState
unfolding trace_of
pass_over mode st plan = record st {
  passes = st.passes ++ trace_of mode plan ∷ [];
  optima = if plan.retained_previous then set_optimum mode none st.optima else st.optima;
}

pub outcome : ChainState → Plan → Outcome
outcome st plan = record {
  plan = plan;
  optima = st.optima;
  served = st.served_floor;
  passes = st.passes;
}

module _ (cp_sat : Scenario → Request → Status × Plan) (sc : Scenario) (budget : Budget) where
  -- One pass: its plan and the state behind it.
  pub run_pass : Mode → ChainState → Result (Plan × ChainState)
  unfolding tardy_request soft_request after_tardy peak_value after_peak flow_plan after_flow
  run_pass weighted st = err unknown_pass_mode
  run_pass min_tardy st = do
    plan ← build_and_solve cp_sat sc (tardy_request budget)
    ok (plan, after_tardy budget.allow_rejection st plan)
  run_pass min_peak st = do
    plan ← build_and_solve cp_sat sc (soft_request min_peak budget st)
    value ← peak_value plan
    ok (plan, after_peak st plan value)
  run_pass min_flow st = do
    solved ← build_and_solve cp_sat sc (soft_request min_flow budget st)
    let plan = flow_plan st.plan solved
    ok (plan, after_flow st plan)

  -- The loop over the rest of `pass_modes`, behind a pass that returned `plan`.
  pub run_passes : List Mode → ChainState → Plan → Result Outcome
  unfolding run_pass pass_over outcome
  run_passes [] st plan = ok (outcome st plan)
  run_passes (mode ∷ modes) st plan = run_pass mode st >>= λ r.
      let st' = pass_over mode r.1 r.0 in
      let rest = run_passes modes st' r.0 in
      if r.0.retained_previous then ok (outcome st' r.0) else rest

  -- `lexicographic_solve_traced`
  unfoldable pub lexicographic_solve_traced : List Mode → Result Outcome
  unfolding run_pass pass_over outcome run_passes start
  lexicographic_solve_traced [] = err chain_start
  lexicographic_solve_traced (mode ∷ modes) =
      if not (mode_eq mode min_tardy)
      then err chain_start
      else run_pass mode start >>= λ r.
          let st' = pass_over mode r.1 r.0 in
          let rest = run_passes modes st' r.0 in
          if r.0.retained_previous then ok (outcome st' r.0) else rest
