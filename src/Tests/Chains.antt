-- ===== src/Tests/Chains.antt =====
-- A search that answers the first pass only (policies/forward.py), and the chain's theorems applied
-- to it.
use otto_q_core.Chain.Total.{lexicographic_solve_traced-total}
use otto_q_core.Proposer.Measure.{charge_segments_of, events_of, peak_of, Within, sweep}
use otto_q_core.Base.{
  ℕ, String, ◌≡◌, refl, sym, subst, inl, inr, Bool, true, false, Option, none, some, List, [], ◌∷◌,
  arith, eq_iff, if◌then◌else◌, Bool-cases, Option-cases, elem,
}
use otto_q_core.Intent.Solve.{min_tardy, min_peak}
use otto_q_core.Solver.{
  names_of, Request, has_solution, build_and_solve, CpSatLaws, Budget, request, ok,
}
use otto_q_core.Plan.{
  served_names, AssetPlan, Status, tardy_total, flow_total, Plan, optimal, unknown,
}
use otto_q_core.Chain.{Outcome, lexicographic_solve_traced}
use otto_q_core.Scenario.{Site, Scenario}

abbrev site : Site
site = record {
  power_cap_kw_hard = 500;
  onpeak_window_min = none;
  dcfc_cooldown_min = none;
  cold_start_below_c = 0;
  cold_start_penalty_min = 0;
  power_soft_target_kw = 450;
  path_capacity = 2;
  move_duration_min = 4;
  wash_min = none;
  inspect_min = none;
}

abbrev scenario : Scenario
scenario = record {
  horizon_min = 720;
  site = site;
  weights = record {
    tardiness_per_min = 10;
    onpeak_kw_min = 0;
    peak_excess_per_kw = 0;
    per_move = 0;
    rejection_penalty = none;
    churn_per_change = none;
  };
  asset_classes = [];
  service_points = [];
  parallel_ops_menu = [];
  assets =
      record {
        aid = "av1";
        cls = record { key = some "van"; kw = 100; inlet = "CCS1" };
        arrival_min = 0;
        soc = 80;
        target_soc = 80;
        ready_by_min = 240;
        pack_temp_c = 18;
        needs_wash = false;
        needs_inspect = false;
        parallel_ops = [];
      }
      ∷ [];
}

-- The plan serves one vehicle, at once.
abbrev served_asset : AssetPlan
served_asset = record {
  aid = "av1";
  class_name = record { key = some "van"; kw = 100; inlet = "CCS1" };
  ready_by = 240;
  served = some true;
  finish = some 0;
  tardy_min = some 0;
  ops = [];
}

abbrev plan : Plan
plan = record {
  solver_status = optimal;
  objective = 0;
  site_peak_kw = some 0;
  assets = served_asset ∷ [];
  rejected = [];
  retained_previous = false;
  kept_held_plan = false;
  repro = none;
}

abbrev budget : Bool → Budget
budget allowed = record { allow_rejection = allowed; det_budget = some 2; time_limit = none }

-- The search gives up where a served set is required, and on a site without the vehicle.
abbrev search : Scenario → Request → Status × Plan
search sc r = elim r.require_served [
  | none ↦ (if elem "av1" (names_of sc) then optimal else unknown, plan)
  | some _ ↦ (unknown, plan)
]

served_listed :
    (xs : List String) (k : String)
    → elem "av1" xs ≡ true
    → elem k (served_names plan.assets) ≡ true
    → elem k xs ≡ true
unfolding served_names
served_listed xs k known h =
    subst (λ x. elem x xs ≡ true) (sym ((eq_iff k "av1").0 (ground arith))) known

Within-zero : (v : Option ℕ) → Within 0 v
Within-zero none = tt
Within-zero (some n) = omega arith

search-CpSatLaws : CpSatLaws search
unfolding tardy_total flow_total peak_of events_of sweep charge_segments_of has_solution
search-CpSatLaws sc r h = elim (Option-cases r.require_served) [
  | inr (names, e) ↦ cc (rw e at h)
  | inl free ↦ elim (Bool-cases (elem "av1" (names_of sc))) [
    | inr unknown_site ↦ cc (rw (free, unknown_site) at h)
    | inl known ↦ rw free record {
      fresh = refl;
      solved = inl refl;
      tardy_held = Within-zero _;
      flow_held = Within-zero _;
      peak_held = Within-zero _;
      peak_reported = λ k. (0, refl, omega arith);
      listed = λ k e. served_listed (names_of sc) k known e;
      required_served = λ k. tt;
    }
  ]
]

lexicographic_solve_traced-total_example :
    (o : Outcome) × (lexicographic_solve_traced search scenario
        (budget true)
        (min_tardy ∷ min_peak ∷ [])
      ≡ ok o)
unfolding build_and_solve request
lexicographic_solve_traced-total_example =
    lexicographic_solve_traced-total search scenario search-CpSatLaws (budget true) (min_peak ∷ [])
      plan refl ((refl, refl), tt)
