-- ===== src/Solver.antt =====
-- `build_and_solve` (solvers/cpsat/model.py) around its search: the refusals before it, the price
-- of a rejection, and what is handed back when the search has no answer.
--
-- CP-SAT over the constraint model and the reading back of its solution are the parameter `cp_sat`
-- here, and `solve_model` of Solver/Extract. What later stages rely on is the record `CpSatLaws`: a
-- solution meets the ceilings that the model states, and the reported peak bounds the load.
-- `t_now` and `blocked_points` keep their defaults, as in every call that is modelled, and the name
-- of a mode is a constructor, so that an unknown one cannot be asked for.
use otto_q_core.Proposer.Measure.{Within, charge_segments_of, peak_of}
use otto_q_core.Base.{
  ℕ, ◌+◌, ◌-◌, ◌*◌, ◌≤◌, min, max, String, ◌≡◌, ◌⊎◌, Bool, true, false, ◌&&◌, ◌||◌, Option, none,
  some, List, [], ◌∷◌, map, leb, if◌then◌else◌, elem,
}
use otto_q_core.Intent.Solve.{Mode, weighted, min_tardy, min_peak, min_flow, mode_eq}
use otto_q_core.Plan.{
  Status, Repro, Plan, tardy_total, flow_total, served_names, optimal, feasible, infeasible,
  unknown,
}
use otto_q_core.Scenario.{Asset, ServicePoint, Scenario}
pub mod Laws
pub mod Segments
pub mod Model
pub mod Build
pub mod Extract
pub mod Solution
pub mod Points
pub mod Timing
pub mod Blocked
pub mod Pinned

pub record Budget : Type 0 where
  pub allow_rejection : Bool
  pub det_budget : Option ℕ
  pub time_limit : Option ℕ

pub record Request : Type 0 where
  pub mode : Mode
  pub previous_plan : Option Plan
  pub max_tardy_total : Option ℕ
  pub max_peak_total : Option ℕ
  pub max_flow_total : Option ℕ
  pub price_churn : Bool
  pub require_served : Option (List String)
  pub budget : Budget

-- The keyword defaults of `build_and_solve`.
unfoldable pub request : Mode → Budget → Request
request mode budget = record {
  mode = mode;
  previous_plan = none;
  max_tardy_total = none;
  max_peak_total = none;
  max_flow_total = none;
  price_churn = true;
  require_served = none;
  budget = budget;
}

pub data Error : Type 0 where
  needs_max_tardy : Mode → Error
  penalty_too_low : ℕ → ℕ → Error
  no_schedule : Status → Error
  chain_start : Error
  unknown_pass_mode : Error
  missing_site_peak : Error

pub data Result {ℓ} (A : Type ℓ) : Type ℓ where
  ok : A → Result A
  err : Error → Result A

infixl 5 ◌>>=◌
abbrev pub ◌>>=◌ {ℓ κ} : {A : Type ℓ} {B : Type κ} → Result A → (A → Result B) → Result B
ok found >>= next = next found
err why >>= next = err why

-- `DEFAULT_REJECTION_PENALTY`
abbrev pub default_rejection_penalty : ℕ
default_rejection_penalty = 100_000

-- `max([...] or [0])` over the points' kW.
pub max_point_kw : List ServicePoint → ℕ
max_point_kw [] = 0
max_point_kw (p ∷ ps) = max p.kw (max_point_kw ps)

-- Minutes of the on-peak window inside the horizon.
pub onpeak_minutes : Option (ℕ × ℕ) → ℕ → ℕ
onpeak_minutes none h = 0
onpeak_minutes (some (w0, w1)) h = min w1 h - w0

unfoldable pub rejection_saving_ceiling : Scenario → Mode → ℕ
rejection_saving_ceiling sc min_tardy = sc.horizon_min
rejection_saving_ceiling sc min_peak = sc.site.power_cap_kw_hard
rejection_saving_ceiling sc min_flow = sc.horizon_min
rejection_saving_ceiling sc weighted =
    let kw = max_point_kw sc.service_points in
    let onpeak = onpeak_minutes sc.site.onpeak_window_min sc.horizon_min in
    sc.weights.tardiness_per_min * sc.horizon_min
    + sc.weights.onpeak_kw_min * kw * onpeak
    + sc.weights.peak_excess_per_kw * kw
    + sc.weights.per_move * 2

-- A soft pass needs a tardiness ceiling.
pub lacks_ceiling : Request → Bool
lacks_ceiling r = elim r.max_tardy_total [
  | some _ ↦ false
  | none ↦ mode_eq r.mode min_peak || mode_eq r.mode min_flow
]

unfoldable pub rejection_penalty_of : Scenario → ℕ
rejection_penalty_of sc = elim sc.weights.rejection_penalty [
  | none ↦ default_rejection_penalty
  | some n ↦ n
]

unfoldable pub has_solution : Status → Bool
has_solution optimal = true
has_solution feasible = true
has_solution infeasible = false
has_solution unknown = false

-- The `repro` of a retained plan: with a wall clock it is not reproducible.
pub retained_repro : Option ℕ → Option Repro → Option Repro
retained_repro none r = r
retained_repro (some _) none = some (record {
  ortools_version = none;
  det_budget = none;
  deterministic_time = none;
  wall_limit = none;
  reproducible = some false;
})
retained_repro (some _) (some r) = some (record r { reproducible = some false })

-- The previous plan, handed back because the search had no answer.
unfoldable pub retain : Status → Request → Plan → Plan
unfolding retained_repro
retain status r p = record p {
  retained_previous = true;
  solver_status = status;
  repro = retained_repro r.budget.time_limit p.repro;
}

pub or_retain : Status → Request → Option Plan → Result Plan
unfolding retain
or_retain status r none = err (no_schedule status)
or_retain status r (some p) = ok (retain status r p)

module _ (cp_sat : Scenario → Request → Status × Plan) where
  -- The end of `build_and_solve`: the solution, or the previous plan, or an error.
  pub solve_or_retain : Scenario → Request → Result Plan
  unfolding has_solution or_retain
  solve_or_retain sc r =
      let (status, solution) = cp_sat sc r in
      if has_solution status then ok solution else or_retain status r r.previous_plan

  unfoldable pub build_and_solve : Scenario → Request → Result Plan
  unfolding lacks_ceiling rejection_penalty_of rejection_saving_ceiling solve_or_retain
  build_and_solve sc r =
      if lacks_ceiling r
      then err (needs_max_tardy r.mode)
      else if r.budget.allow_rejection
          && leb (rejection_penalty_of sc) (rejection_saving_ceiling sc r.mode)
      then err (penalty_too_low (rejection_penalty_of sc) (rejection_saving_ceiling sc r.mode))
      else solve_or_retain sc r

-- A ceiling that the model states only for some modes.
abbrev pub when_mode : Bool → Option ℕ → Option ℕ
when_mode true v = v
when_mode false v = none

-- The plan serves every asset of the list.
abbrev pub ServesAll : List String → Plan → Type 0
ServesAll names p = (k : String) → elem k names ≡ true → elem k (served_names p.assets) ≡ true

-- The names of the scenario's assets.
abbrev pub names_of : Scenario → List String
names_of sc = map (λ a. Asset.aid a) sc.assets

-- The plan serves every asset of the list that the scenario has.
abbrev pub ServesRequired : Scenario → Option (List String) → Plan → Type 0
ServesRequired sc none p = Unit
ServesRequired sc (some names) p =
    (k : String)
    → elem k names ≡ true
    → elem k (names_of sc) ≡ true
    → elem k (served_names p.assets) ≡ true

-- What a solution of the constraint model satisfies.
pub record IsSolution (sc : Scenario) (r : Request) (p : Plan) : Type 0 where
  pub fresh : p.retained_previous ≡ false
  pub solved : (p.solver_status ≡ optimal) ⊎ (p.solver_status ≡ feasible)
  pub tardy_held :
      Within
        (tardy_total p.assets)
        (when_mode (mode_eq r.mode min_peak || mode_eq r.mode min_flow) r.max_tardy_total)
  pub flow_held :
      Within (flow_total p.assets) (when_mode (mode_eq r.mode min_peak) r.max_flow_total)
  pub peak_held :
      Within
        (peak_of (charge_segments_of p.assets))
        (when_mode (mode_eq r.mode min_flow) r.max_peak_total)
  pub peak_reported :
      mode_eq r.mode min_peak ≡ true
      → (kw : ℕ) × (p.site_peak_kw ≡ some kw) × (peak_of (charge_segments_of p.assets) ≤ kw)
  pub listed : (k : String) → elem k (served_names p.assets) ≡ true → elem k (names_of sc) ≡ true
  pub required_served : r.budget.allow_rejection ≡ true → ServesRequired sc r.require_served p

-- What the search promises: whenever it reports a solution, the solution is one.
abbrev pub CpSatLaws : (Scenario → Request → Status × Plan) → Type 0
CpSatLaws cp_sat =
    (sc : Scenario) (r : Request)
    → has_solution (cp_sat sc r).0 ≡ true
    → IsSolution sc r (cp_sat sc r).1
