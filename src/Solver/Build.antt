-- ===== src/Solver/Build.antt =====
-- The constraint model of a scenario (solvers/cpsat/model.py: `build_and_solve` up to the search).
pub mod Jobs
pub mod Charge
pub mod Finish
pub mod Costs
use otto_q_core.Solver.Build.Jobs.{Input, candidates}
use otto_q_core.Solver.Build.Charge.{charge_constraints, power, occupancies}
use otto_q_core.Solver.Build.Finish.{
  needs, move_interval, bay_occupancies, bays, parallel_constraints, work_constraints,
  ready_constraints, tardy_var, flow_var, move_count,
}
use otto_q_core.Solver.Build.Costs.{Cost, times, weighted_costs, rejection, churn}
use otto_q_core.Solver.Model.{
  Work, Var, Sum, Interval, Constraint, peak_excess, site_peak, at_most, no_overlap, var, num, plus,
  wash, inspect, within, cumulative,
}
use otto_q_core.Intent.Solve.{weighted, Mode, mode_eq, min_tardy, min_peak, min_flow}
use otto_q_core.Scenario.{Site, ServicePoint, Asset, Scenario}
use otto_q_core.Solver.{Request}
use otto_q_core.Base.{
  ℕ, suc, ◌+◌, ◌*◌, String, Bool, true, false, ◌&&◌, ◌||◌, Option, none, some, List, [], ◌∷◌, ◌++◌,
  map, str_eq, if◌then◌else◌,
}

pub record CpModel : Type 0 where
  pub constraints : List Constraint
  pub objective : List Cost
  pub base_cost : ℕ

-- What the code adds for one asset.
pub record Block : Type 0 where
  pub own : List Constraint
  pub power : List (Interval × ℕ)
  pub moving : List (Interval × ℕ)
  pub occupied : List (String × Interval)
  pub tardy : Var
  pub flow : Var
  pub weighted_cost : List Cost
  pub side : List Cost
  pub fixed_moves : ℕ

unfoldable pub need_flow : Request → Bool
need_flow r =
    mode_eq r.mode min_flow
    || (mode_eq r.mode min_peak && elim r.max_flow_total [ none ↦ false | some _ ↦ true ])

module _ (inp : Input) where
  unfoldable pub move_of : Asset → ℕ → Work → List (Interval × ℕ)
  move_of a n w = if needs a w then (move_interval inp a n w, 1) ∷ [] else []

  unfoldable pub bays_of : Asset → ℕ → Work → List (String × Interval)
  bays_of a n w = if needs a w then bay_occupancies inp a n w 0 (bays inp a n w) else []

  -- One round of the loop over the assets.
  unfoldable pub block : Asset → ℕ → Block
  block a n =
      let cs = candidates inp a in
      record {
        own =
            charge_constraints inp a n cs
            ++ (parallel_constraints inp a n
                ++ (work_constraints inp a n wash
                    ++ (work_constraints inp a n inspect
                        ++ ready_constraints inp a n (need_flow inp.asked))));
        power = power inp a n 0 cs;
        moving = move_of a n wash ++ move_of a n inspect;
        occupied = occupancies inp a n 0 cs ++ (bays_of a n wash ++ bays_of a n inspect);
        tardy = tardy_var inp a n;
        flow = flow_var inp a n;
        weighted_cost = weighted_costs inp a n cs;
        side = rejection inp n ++ churn inp a n cs;
        fixed_moves = if inp.asked.budget.allow_rejection then 0 else move_count inp a n;
      }

  unfoldable pub blocks : ℕ → List Asset → List Block
  blocks n [] = []
  blocks n (a ∷ rest) = block a n ∷ blocks (suc n) rest

-- The intervals of one point.
unfoldable pub intervals_at : String → List (String × Interval) → List Interval
intervals_at id [] = []
intervals_at id ((pid, iv) ∷ rest) =
    if str_eq pid id then iv ∷ intervals_at id rest else intervals_at id rest

unfoldable pub own_of : List Block → List Constraint
own_of [] = []
own_of (b ∷ bs) = b.own ++ own_of bs

unfoldable pub power_of : List Block → List (Interval × ℕ)
power_of [] = []
power_of (b ∷ bs) = b.power ++ power_of bs

unfoldable pub moving_of : List Block → List (Interval × ℕ)
moving_of [] = []
moving_of (b ∷ bs) = b.moving ++ moving_of bs

unfoldable pub occupied_of : List Block → List (String × Interval)
occupied_of [] = []
occupied_of (b ∷ bs) = b.occupied ++ occupied_of bs

unfoldable pub weighted_of : List Block → List Cost
weighted_of [] = []
weighted_of (b ∷ bs) = b.weighted_cost ++ weighted_of bs

unfoldable pub side_of : List Block → List Cost
side_of [] = []
side_of (b ∷ bs) = b.side ++ side_of bs

unfoldable pub fixed_moves_of : List Block → ℕ
fixed_moves_of [] = 0
fixed_moves_of (b ∷ bs) = b.fixed_moves + fixed_moves_of bs

abbrev pub tardies : List Block → List Var
tardies = map λ b. Block.tardy b

abbrev pub flows : List Block → List Var
flows = map λ b. Block.flow b

-- A point serves one asset at a time.
unfoldable pub point_constraints : List (String × Interval) → List ServicePoint → List Constraint
point_constraints occupied [] = []
point_constraints occupied (p ∷ ps) =
    no_overlap (intervals_at p.id occupied) ∷ point_constraints occupied ps

abbrev sum_of : List Var → Sum
sum_of vs = record { terms = vs; constant = 0 }

unfoldable pub ceiling : List Var → Option ℕ → List Constraint
ceiling vs none = []
ceiling vs (some n) = at_most (sum_of vs) (num n) ∷ []

-- The site's peak, as a capacity of its own.
unfoldable pub peak_constraints : Site → List Block → List Constraint
peak_constraints site bs =
    within site_peak 0 site.power_cap_kw_hard ∷ cumulative (power_of bs) (var site_peak) ∷ []

unfoldable pub peak_ceiling : Site → List Block → Option ℕ → List Constraint
peak_ceiling site bs none = []
peak_ceiling site bs (some kw) = peak_constraints site bs ++ at_most (var site_peak) (num kw) ∷ []

-- What a mode adds.
unfoldable pub mode_constraints : Site → Request → List Block → Mode → List Constraint
mode_constraints site r bs weighted = []
mode_constraints site r bs min_tardy = []
mode_constraints site r bs min_peak =
    ceiling (tardies bs) r.max_tardy_total
    ++ (ceiling (flows bs) r.max_flow_total ++ peak_constraints site bs)
mode_constraints site r bs min_flow =
    ceiling (tardies bs) r.max_tardy_total ++ peak_ceiling site bs r.max_peak_total

unfoldable pub site_constraints : Scenario → List Block → List Constraint
site_constraints sc bs =
    cumulative (moving_of bs) (num sc.site.path_capacity)
    ∷ cumulative (power_of bs) (num sc.site.power_cap_kw_hard)
    ∷ within peak_excess 0 sc.site.power_cap_kw_hard
    ∷ cumulative (power_of bs) (plus peak_excess sc.site.power_soft_target_kw)
    ∷ point_constraints (occupied_of bs) sc.service_points

-- `m.Minimize(...)`
unfoldable pub objective_of : Scenario → List Block → Mode → List Cost
objective_of sc bs weighted =
    weighted_of bs ++ (times sc.weights.peak_excess_per_kw peak_excess ∷ side_of bs)
objective_of sc bs min_tardy = map (times 1) (tardies bs) ++ side_of bs
objective_of sc bs min_peak = times 1 site_peak ∷ side_of bs
objective_of sc bs min_flow = map (times 1) (flows bs) ++ side_of bs

unfoldable pub base_cost_of : Scenario → List Block → Mode → ℕ
base_cost_of sc bs weighted = sc.weights.per_move * fixed_moves_of bs
base_cost_of sc bs min_tardy = 0
base_cost_of sc bs min_peak = 0
base_cost_of sc bs min_flow = 0

unfoldable pub build_model : Input → CpModel
build_model inp =
    let bs = blocks inp 0 inp.sc.assets in
    record {
      constraints =
          own_of bs
          ++ (site_constraints inp.sc bs
              ++ mode_constraints inp.sc.site inp.asked bs inp.asked.mode);
      objective = objective_of inp.sc bs inp.asked.mode;
      base_cost = base_cost_of inp.sc bs inp.asked.mode;
    }
