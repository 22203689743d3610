-- ===== src/Plan.antt =====
-- The plan that the solver returns (solvers/cpsat/model.py: the dict that `_extract` builds and
-- `build_and_solve` hands on). Minutes and kW are whole numbers there. A key that is there only
-- sometimes is an `Option`. Solver work is in millionths, as the code rounds it; the texts of the
-- proposals inside the plan, its hash and its scenario name are read by nothing modelled here.
use otto_q_core.Scenario.{ClassName}
use otto_q_core.Base.{
  ℕ, ◌+◌, String, Bool, true, false, Option, none, some, List, [], ◌∷◌, str_eq, if◌then◌else◌,
}

pub record Segment : Type 0 where
  pub kw : ℕ
  pub minutes : ℕ
  pub start : ℕ
  pub finish : ℕ
  pub cold_start : Bool

pub record Op : Type 0 where
  pub op : String
  pub point : Option String
  pub kind : Option String
  pub start : ℕ
  pub finish : ℕ
  pub parallel : Bool
  pub segments : List Segment

pub record AssetPlan : Type 0 where
  pub aid : String
  pub class_name : ClassName
  pub ready_by : ℕ
  pub served : Option Bool
  pub finish : Option ℕ
  pub tardy_min : Option ℕ
  pub ops : List Op

pub data Status : Type 0 where
  optimal feasible infeasible unknown : Status

pub record Repro : Type 0 where
  pub ortools_version : Option String
  pub det_budget : Option ℕ
  pub deterministic_time : Option ℕ
  pub wall_limit : Option ℕ
  pub reproducible : Option Bool

pub record Plan : Type 0 where
  pub solver_status : Status
  pub objective : ℕ
  pub site_peak_kw : Option ℕ
  pub assets : List AssetPlan
  pub rejected : List String
  pub retained_previous : Bool
  pub kept_held_plan : Bool
  pub repro : Option Repro

-- `op["op"] == "charge"`
unfoldable pub is_charge : Op → Bool
is_charge o = str_eq o.op "charge"

-- `sum(a["tardy_min"] for a in assets if a["tardy_min"] is not None)`
unfoldable pub tardy_total : List AssetPlan → ℕ
tardy_total [] = 0
tardy_total (a ∷ rest) = elim a.tardy_min [ none ↦ 0 | some n ↦ n ] + tardy_total rest

-- `sum(a["finish"] for a in assets if a["finish"] is not None)`
unfoldable pub flow_total : List AssetPlan → ℕ
flow_total [] = 0
flow_total (a ∷ rest) = elim a.finish [ none ↦ 0 | some n ↦ n ] + flow_total rest

-- `a.get("served") is not False`
unfoldable pub is_served : AssetPlan → Bool
is_served a = elim a.served [ some false ↦ false | _ ↦ true ]

-- `_served_set` of policies/forward.py, in the plan's order.
unfoldable pub served_names : List AssetPlan → List String
unfolding is_served
served_names [] = []
served_names (a ∷ rest) = if is_served a then a.aid ∷ served_names rest else served_names rest

-- `plan["repro"]["reproducible"]` and `["deterministic_time"]`, with their defaults.
unfoldable pub is_reproducible : Plan → Bool
is_reproducible p = elim p.repro [
  | none ↦ false
  | some r ↦ elim r.reproducible [ none ↦ false | some b ↦ b ]
]

unfoldable pub work_of : Plan → ℕ
work_of p = elim p.repro [ none ↦ 0 | some r ↦ elim r.deterministic_time [ none ↦ 0 | some n ↦ n ] ]
