-- ===== src/Tests/Fires.antt =====
-- A fire over a search that serves nobody (proposer/forward_proposer.py: `propose`).
use otto_q_core.Proposer.Points.{offered_points}
use otto_q_core.Proposer.Batch.{keep_chosen, choose}
use otto_q_core.Proposer.Measure.{
  charge_segments_of, peak_of, measure_plan, check_optima, events_of, sweep,
}
use otto_q_core.Proposer.Inlets.{
  accepted_inlets, capability_kind, capability_inlets, connector, capability,
}
use otto_q_core.Proposer.Frame.{frame_facts_version}
use otto_q_core.Proposer.Held.{
  vehicle_is_held, resolved_target_soc, serviceable_pred, serviceable_predicate, plannable_in,
}
use otto_q_core.Solver.Build.Costs.{
  onpeak_costs, chain_costs, last_charge, previous_charge, leaves_op, leaves_plan, move_costs,
  weighted_costs, leaves, churn, rejection,
}
use otto_q_core.Solver.Build.Charge.{
  seg_interval, seg_constraints, candidate_constraints, chain_constraints, seg_power, one_if_served,
  served_domain, is_required, charge_constraints, joins, onpeak, occupancy, lits, power,
  occupancies, choice, floor, pins,
}
use otto_q_core.Solver.Build.Jobs.{
  accepts_work, points_for, candidates_from, pinned, class_of, candidate, candidates, cool,
}
use otto_q_core.Solver.Build.Finish.{
  work_minutes, op_interval, op_constraints, op_intervals, op_ends, parallel_constraints,
  work_interval, gap_interval, work_occupancy, bay_constraints, bay_lits, bay_occupancies,
  move_interval, bay_pins, work_pins, work_constraints, move_count, finish_candidates,
  ready_constraints, tardy_var, flow_var, duration, needs, bays, before, charged,
}
use otto_q_core.Solver.Segments.{charge_segments}
use otto_q_core.Base.Ascii.{lower, upper, strip}
use otto_q_core.Composed.{propose-Accounts}
use otto_q_core.Chain.{set_optimum}
use otto_q_core.Solver.Build.{
  need_flow, move_of, bays_of, intervals_at, own_of, power_of, moving_of, occupied_of, weighted_of,
  side_of, fixed_moves_of, point_constraints, peak_constraints, peak_ceiling, mode_constraints,
  site_constraints, objective_of, base_cost_of, build_model, CpModel, block, blocks, ceiling,
}
use otto_q_core.Solver.Extract.{
  op_le, plan_le, bay_of, segs_of, charge_ops, beside_ops, work_op, work_ops, ops_of, is_refused,
  asset_plan, asset_plans, rejected_of, repro_of, Found, solve_model, cost, charge_op, extract,
}
use otto_q_core.Proposer.Offer.{
  stall_is_free, reason_text, stall_block_reason, is_charge_stall, stalls_blocked,
}
use otto_q_core.Proposer.Translate.{name_eq, frame_to_scenario}
use otto_q_core.Proposer.Rows.{plan_to_proposals, not_served, abstain}
use otto_q_core.Intent.Solve.{min_tardy, min_peak}
use otto_q_core.Base.{◌+◌, ◌≡◌, refl, true, false, none, some, [], ◌∷◌, length}
use otto_q_core.Tests.Frames.{frame, options}
use otto_q_core.Plan.{is_charge, tardy_total, flow_total, is_reproducible, work_of, optimal}
use otto_q_core.Solver.{
  rejection_saving_ceiling, rejection_penalty_of, has_solution, build_and_solve, Budget, request,
}
use otto_q_core.Proposer.Propose.{Call, Fire, propose}

-- A search that reports a solution in which every variable is 0: nobody is served.
abbrev idle : CpModel → Budget → Found
idle m b = record { status = optimal; values = λ v. 0; version = "9.15"; work = 0 }

abbrev call : Call
call = record {
  options = options;
  serviceable_states = none;
  priority = none;
  max_assets = some 8;
  budget = record { allow_rejection = true; det_budget = some 2; time_limit = none };
  hour_of_day = none;
  signals = [];
  intent = record { objectives = []; regimes = []; fingerprint = "f"; version = 1 };
}

abbrev fired : Fire
fired = record {
  proposals = abstain "av1" not_served ∷ [];
  planned = 0;
  abstained = 1;
  deferred = 0;
  solver = some (record {
    regime = none;
    pass_modes = [];
    passes = [];
    pass_statuses = optimal ∷ optimal ∷ [];
    measured = record { total_tardy_min = 0; total_flow_min = 0; site_peak_kw = 0 };
    optima_reached = (min_tardy, some 0) ∷ (min_peak, some 0) ∷ [];
    retained_previous = false;
    complete = true;
    reproducible = true;
    rejected = "av1" ∷ [];
    deterministic_time = 0;
    identity = record { ortools_version = some "9.15"; det_budget = some 2; wall_limit = none };
  });
  stalls_busy = 1;
  stalls_blocked = ("occupied", 1) ∷ [];
  vehicles_held = 1;
  facts_version = none;
}

propose-Accounts_example : fired.planned + fired.abstained ≡ length fired.proposals
unfolding propose check_optima keep_chosen choose plannable_in serviceable_predicate
    serviceable_pred vehicle_is_held resolved_target_soc frame_to_scenario offered_points
    is_charge_stall stall_block_reason stall_is_free reason_text accepted_inlets capability
    connector capability_kind capability_inlets upper strip lower build_and_solve request
    rejection_penalty_of rejection_saving_ceiling has_solution plan_to_proposals is_charge
    measure_plan peak_of events_of sweep charge_segments_of tardy_total flow_total is_reproducible
    work_of stalls_blocked frame_facts_version set_optimum name_eq repro_of rejected_of solve_model
    need_flow move_of bays_of block blocks intervals_at own_of power_of moving_of occupied_of
    weighted_of side_of fixed_moves_of point_constraints ceiling peak_constraints peak_ceiling
    mode_constraints site_constraints objective_of base_cost_of build_model pinned accepts_work
    points_for class_of candidate candidates_from candidates cool seg_interval joins onpeak
    seg_constraints occupancy candidate_constraints chain_constraints lits seg_power power
    occupancies one_if_served served_domain choice is_required floor pins charge_constraints
    duration work_minutes needs op_interval op_constraints op_intervals op_ends parallel_constraints
    work_interval gap_interval work_occupancy bays bay_constraints bay_lits bay_occupancies
    move_interval before bay_pins work_pins work_constraints move_count finish_candidates charged
    ready_constraints tardy_var flow_var onpeak_costs chain_costs last_charge previous_charge leaves
    leaves_op leaves_plan churn rejection move_costs weighted_costs cost op_le plan_le bay_of
    segs_of charge_op charge_ops beside_ops work_op work_ops ops_of is_refused asset_plan
    asset_plans extract charge_segments
propose-Accounts_example =
    (propose-Accounts idle call frame {f = fired} (refl, (refl, tt)) refl).2.counted
