-- ===== src/Tests/Yards.antt =====
-- Two vehicles that charge on one point, with an assignment that satisfies the constraint model
-- (solvers/cpsat/model.py), the chain on it (policies/forward.py), and a later re-solve of it.
use otto_q_core.Solver.Blocked.{IsOpen, extract-IsOpen}
use otto_q_core.Solver.Points.Apartness.{Undisturbed}
use otto_q_core.Solver.Points.{extract-Undisturbed}
use otto_q_core.Solver.Solution.{solve_model-CpSatLaws, extract-load}
use otto_q_core.Solver.Timing.{IsTimed, extract-IsTimed}
use otto_q_core.Solver.Pinned.{has_charge_at, candidate_at, extract-keeps}
use otto_q_core.Proposer.Translate.{name_eq}
use otto_q_core.Solver.Build.Costs.{
  onpeak_costs, chain_costs, last_charge, previous_charge, leaves_op, leaves_plan, move_costs,
  weighted_costs, leaves, churn, rejection,
}
use otto_q_core.Solver.Build.Charge.{
  is_place, seg_interval, seg_constraints, candidate_constraints, chain_constraints, seg_power,
  one_if_served, served_domain, is_required, charge_constraints, joins, onpeak, occupancy, lits,
  power, occupancies, choice, floor, pins,
}
use otto_q_core.Solver.Build.Jobs.{
  Input, accepts_work, points_for, candidates_from, pinned, class_of, candidate, candidates, cool,
}
use otto_q_core.Solver.Build.Finish.{
  one_at_a_time, work_minutes, op_interval, op_constraints, op_intervals, op_ends,
  parallel_constraints, work_interval, gap_interval, work_occupancy, bay_constraints, bay_lits,
  bay_occupancies, move_interval, bay_pins, work_pins, work_constraints, move_count,
  finish_candidates, ready_constraints, tardy_var, flow_var, duration, needs, bays, before, charged,
}
use otto_q_core.Solver.Segments.{charge_segments}
use otto_q_core.Proposer.Measure.{
  events_of, charge_segments_of, peak_of, measure_plan, check_optima, sweep,
}
use otto_q_core.Proposer.Measure.Peak.{load}
use otto_q_core.Composed.{chain-honours, chain-serves}
use otto_q_core.Intent.Solve.{Mode, min_tardy, min_peak, min_flow}
use otto_q_core.Chain.{set_optimum, PassTrace, Outcome, lexicographic_solve_traced, start}
use otto_q_core.Plan.{
  Op, AssetPlan, is_charge, tardy_total, flow_total, is_reproducible, work_of, Plan, served_names,
  optimal, unknown,
}
use otto_q_core.Solver.Model.Check.{check-Satisfies, check}
use otto_q_core.Solver.Build.{
  need_flow, move_of, bays_of, intervals_at, own_of, power_of, moving_of, occupied_of, weighted_of,
  side_of, fixed_moves_of, point_constraints, peak_constraints, peak_ceiling, mode_constraints,
  site_constraints, objective_of, base_cost_of, build_model, CpModel, block, blocks, ceiling,
}
use otto_q_core.Solver.Model.{
  Satisfies, charge_start, seg_start, charge_end, charged_tardy, charged_finish, occupied_until,
  occupied_for, seg_end, overlap_from, overlap_to, site_peak, Assignment, stay, served, finished,
  tardy, chosen, value, overlap, gated,
}
use otto_q_core.Solver.Extract.{
  op_le, plan_le, bay_of, segs_of, charge_op, charge_ops, beside_ops, work_op, work_ops, ops_of,
  is_refused, asset_plan, asset_plans, rejected_of, repro_of, solve_model, Found, SearchLaw, cost,
  extract,
}
use otto_q_core.Scenario.{Site, AssetClass, ServicePoint, ClassName, Asset, Scenario}
use otto_q_core.Solver.{
  IsSolution, rejection_saving_ceiling, rejection_penalty_of, build_and_solve, ServesAll, Budget,
  has_solution, request, ok,
}
use otto_q_core.Base.{
  ℕ, zero, suc, ◌+◌, ◌≤◌, String, ◌≡◌, refl, inl, inr, true, false, ◌&&◌, none, some, List, [], ◌∷◌,
  arith, str_eq, if◌then◌else◌, Bool-cases, any, all, All,
}

abbrev yard : Site
yard = record {
  power_cap_kw_hard = 300;
  onpeak_window_min = some (60, 90);
  dcfc_cooldown_min = some 18;
  cold_start_below_c = 5;
  cold_start_penalty_min = 8;
  power_soft_target_kw = 200;
  path_capacity = 2;
  move_duration_min = 4;
  wash_min = none;
  inspect_min = none;
}

abbrev van : ClassName
van = record { key = some "van"; kw = 100; inlet = "CCS1" }

abbrev vans : AssetClass
vans = record {
  battery_kwh = 60_000;
  max_charge_kw = 100_000;
  inlet = "CCS1";
  charge_kinds = "dcfc" ∷ [];
  energy_curve = record { above_soc_pct = 0; accept_frac = 1000 } ∷ [];
}

abbrev point : ServicePoint
point = record { id = "p1"; kind = "dcfc"; kw = 50; min_gap_min = some 18; stall_type = "dcfc" }

abbrev asset : Asset
asset = record {
  aid = "av1";
  cls = van;
  arrival_min = 0;
  soc = 50;
  target_soc = 80;
  ready_by_min = 20;
  pack_temp_c = 18;
  needs_wash = false;
  needs_inspect = false;
  parallel_ops = [];
}

abbrev scenario : Scenario
scenario = record {
  horizon_min = 120;
  site = yard;
  weights = record {
    tardiness_per_min = 10;
    onpeak_kw_min = 1;
    peak_excess_per_kw = 0;
    per_move = 0;
    rejection_penalty = none;
    churn_per_change = none;
  };
  asset_classes = (van, vans) ∷ [];
  service_points = point ∷ [];
  parallel_ops_menu = [];
  assets = asset ∷ record asset { aid = "av2"; ready_by_min = 50 } ∷ [];
}

-- Both take 22 minutes at 50 kW: the first from arrival, ready 2 minutes late, and the second once
-- the point has cooled down at 40, ready 12 minutes late and for 2 minutes on peak.
abbrev found_values : Assignment
found_values (chosen n j) = 1
found_values (seg_start zero j i) = 0
found_values (seg_start (suc n) j i) = 40
found_values (seg_end zero j i) = 22
found_values (seg_end (suc n) j i) = 62
found_values (overlap_from n j i) = 60
found_values (overlap_to zero j i) = 22
found_values (overlap_to (suc n) j i) = 62
found_values (overlap (suc n) j i) = 2
found_values (gated (suc n) j i) = 2
found_values (occupied_until zero j) = 40
found_values (occupied_until (suc n) j) = 80
found_values (occupied_for n j) = 40
found_values (served n) = 1
found_values (stay zero) = 22
found_values (stay (suc n)) = 62
found_values (charge_start (suc n)) = 40
found_values (charge_end zero) = 22
found_values (charge_end (suc n)) = 62
found_values (finished zero) = 22
found_values (finished (suc n)) = 62
found_values (tardy zero) = 2
found_values (tardy (suc n)) = 12
found_values (charged_tardy zero) = 2
found_values (charged_tardy (suc n)) = 12
found_values (charged_finish zero) = 22
found_values (charged_finish (suc n)) = 62
found_values site_peak = 50
found_values v = 0

-- A search that reports these values where they satisfy the model, and else has no answer.
abbrev search : CpModel → Budget → Found
search m b = record {
  status = if all (check found_values) m.constraints then optimal else unknown;
  values = found_values;
  version = "9.15";
  work = 1;
}

search-SearchLaw : SearchLaw search
unfolding has_solution
search-SearchLaw m b h = elim (Bool-cases (all (check found_values) m.constraints)) [
  | inl e ↦ check-Satisfies found_values m.constraints e
  | inr e ↦ cc (rw e at h)
]

abbrev budget : Budget
budget = record { allow_rejection = true; det_budget = some 2; time_limit = none }

-- A vehicle that charges from a minute on, and how late it is.
abbrev charged_vehicle : String → ℕ → ℕ → ℕ → AssetPlan
charged_vehicle aid start ready_by late = record {
  aid = aid;
  class_name = van;
  ready_by = ready_by;
  served = some true;
  finish = some (22 + start);
  tardy_min = some late;
  ops =
      record {
        op = "charge";
        point = some "p1";
        kind = some "dcfc";
        start = start;
        finish = 22 + start;
        parallel = false;
        segments =
            record { kw = 50; minutes = 22; start = start; finish = 22 + start; cold_start = false }
            ∷ [];
      }
      ∷ [];
}

abbrev charged_plan : Plan
charged_plan = record {
  solver_status = optimal;
  objective = 84;
  site_peak_kw = none;
  assets = charged_vehicle "av1" 0 20 2 ∷ charged_vehicle "av2" 40 50 12 ∷ [];
  rejected = [];
  retained_previous = false;
  kept_held_plan = false;
  repro = some (record {
    ortools_version = some "9.15";
    det_budget = some 2;
    deterministic_time = some 1;
    wall_limit = none;
    reproducible = some true;
  });
}

abbrev traced : Mode → ℕ → PassTrace
traced mode value = record {
  mode = mode;
  status = optimal;
  retained = false;
  kept_held_plan = false;
  proven = true;
  objective = some value;
  deterministic_time = some 1;
  reproducible = true;
}

abbrev outcome : Outcome
outcome = record {
  plan = charged_plan;
  optima = (min_tardy, some 14) ∷ (min_peak, some 50) ∷ (min_flow, some 84) ∷ [];
  served = some ("av1" ∷ "av2" ∷ []);
  passes = traced min_tardy 14 ∷ traced min_peak 50 ∷ traced min_flow 84 ∷ [];
}

-- A re-solve five minutes in, when the first charge has started.
abbrev later : Input
later = record {
  sc = scenario;
  asked = record (request min_peak budget) {
    previous_plan = some charged_plan;
    max_tardy_total = some 14;
  };
  t_now = 5;
  blocked = [];
}

abbrev found : Found
found = record { status = optimal; values = found_values; version = "9.15"; work = 1 }

abbrev first_charge : Op
first_charge = record {
  op = "charge";
  point = some "p1";
  kind = some "dcfc";
  start = 0;
  finish = 22;
  parallel = false;
  segments = record { kw = 50; minutes = 22; start = 0; finish = 22; cold_start = false } ∷ [];
}

-- What the code computes: the first pass, the chain, and the model and the pinned charge of the
-- re-solve.
runs :
    (build_and_solve (solve_model search) scenario (request min_tardy budget)
      ≡ ok (record charged_plan { objective = 14 }))
    × (lexicographic_solve_traced
          (solve_model search)
          scenario
          budget
          (min_tardy ∷ min_peak ∷ min_flow ∷ [])
        ≡ ok outcome)
    × (has_solution (solve_model search scenario (request min_tardy budget)).0 ≡ true)
    × (all (check found_values) (CpModel.constraints (build_model later)) ≡ true)
    × (pinned later "av1" "charge" ≡ some first_charge)
    × (any
          (λ a. str_eq (Asset.aid a) "av1" && any (candidate_at "p1") (candidates later a))
          scenario.assets
        ≡ true)
unfolding solve_model one_at_a_time is_place need_flow move_of bays_of block blocks intervals_at
    own_of power_of moving_of occupied_of weighted_of side_of fixed_moves_of point_constraints
    ceiling peak_constraints peak_ceiling mode_constraints site_constraints objective_of
    base_cost_of build_model pinned accepts_work points_for class_of candidate candidates_from
    candidates cool seg_interval joins onpeak seg_constraints occupancy candidate_constraints
    chain_constraints lits seg_power power occupancies one_if_served served_domain choice
    is_required floor pins charge_constraints duration work_minutes needs op_interval op_constraints
    op_intervals op_ends parallel_constraints work_interval gap_interval work_occupancy bays
    bay_constraints bay_lits bay_occupancies move_interval before bay_pins work_pins
    work_constraints move_count finish_candidates charged ready_constraints tardy_var flow_var
    onpeak_costs chain_costs last_charge previous_charge leaves leaves_op leaves_plan churn
    rejection move_costs weighted_costs cost op_le plan_le bay_of segs_of charge_op charge_ops
    beside_ops work_op work_ops ops_of is_refused asset_plan asset_plans extract check
    charge_segments name_eq lexicographic_solve_traced build_and_solve request rejection_penalty_of
    rejection_saving_ceiling has_solution served_names flow_total tardy_total peak_of events_of
    sweep charge_segments_of set_optimum work_of is_reproducible repro_of rejected_of is_charge
runs = (refl, refl, refl, refl, refl, refl)

later_held : Satisfies found_values (CpModel.constraints (build_model later))
later_held =
    let (_, _, _, held, _, _) = runs in
    check-Satisfies found_values (CpModel.constraints (build_model later)) held

chain_run :
    lexicographic_solve_traced
      (solve_model search)
      scenario
      budget
      (min_tardy ∷ min_peak ∷ min_flow ∷ [])
    ≡ ok outcome
chain_run = let (_, run, _, _, _, _) = runs in run

chain-honours_example : check_optima (measure_plan outcome.plan) outcome.optima ≡ none
chain-honours_example =
    chain-honours search search-SearchLaw scenario budget (min_peak ∷ min_flow ∷ []) outcome refl
      chain_run

chain-serves_example : ServesAll ("av1" ∷ "av2" ∷ []) outcome.plan
unfolding served_names
chain-serves_example =
    chain-serves search search-SearchLaw scenario budget (min_peak ∷ min_flow ∷ [])
      (record charged_plan { objective = 14 }) outcome refl refl runs.0 chain_run

-- What a plan reads back from the values of the re-solve.
abbrev later_plans : List AssetPlan
later_plans = Plan.assets (extract later found)

extract-Undisturbed_example : Undisturbed "p1" 18 later_plans
extract-Undisturbed_example =
    extract-Undisturbed later found "p1" 18 later_held refl ((λ _. omega arith), tt)

extract-IsTimed_example : All (IsTimed 4) later_plans
extract-IsTimed_example = extract-IsTimed later found later_held

extract-load_example :
    (load 21 (charge_segments_of later_plans) ≤ 300)
    × (load 21 (charge_segments_of later_plans) ≤ 200)
extract-load_example = extract-load later found 21 later_held

extract-keeps_example : any (has_charge_at "av1" "p1" 0) later_plans ≡ true
extract-keeps_example =
    let (_, _, _, _, started, known) = runs in
    extract-keeps later found "av1" "p1" first_charge later_held started refl known

solve_model-CpSatLaws_example :
    IsSolution scenario
      (request min_tardy budget)
      (solve_model search scenario (request min_tardy budget)).1
solve_model-CpSatLaws_example =
    let (_, _, solved, _, _, _) = runs in
    solve_model-CpSatLaws search search-SearchLaw scenario (request min_tardy budget) solved

-- With the point blocked, only the charge that has started may stand there.
abbrev blocked_later : Input
blocked_later = record later { blocked = "p1" ∷ [] }

extract-IsOpen_example : All (IsOpen blocked_later) (Plan.assets (extract blocked_later found))
extract-IsOpen_example = extract-IsOpen blocked_later found
