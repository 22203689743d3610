-- ===== src/Solver/Build/Costs.antt =====
-- The terms of the objective (solvers/cpsat/model.py: `onpeak_terms`, `churn_terms`,
-- `reject_terms` and `obj_terms` of `build_and_solve`).
use otto_q_core.Solver.Build.Charge.{onpeak}
use otto_q_core.Solver.Build.Finish.{tardy_var}
use otto_q_core.Solver.Build.Jobs.{Input, Candidate, pinned}
use otto_q_core.Solver.Segments.{ChargeSegment}
use otto_q_core.Solver.Model.{Var, served, moves, chosen, gated}
use otto_q_core.Plan.{Plan, Op, AssetPlan, is_charge}
use otto_q_core.Scenario.{Asset}
use otto_q_core.Solver.{rejection_penalty_of}
use otto_q_core.Base.{
  ℕ, suc, ◌*◌, String, true, false, not, ◌||◌, Option, none, some, List, [], ◌∷◌, ◌++◌, ◌==◌,
  str_eq, if◌then◌else◌,
}

-- A weight times a variable, or times one less the variable.
pub data Cost : Type 0 where
  times unless : ℕ → Var → Cost

-- The kW-minutes in the on-peak window, where the window meets the horizon.
unfoldable pub onpeak_costs : Input → ℕ → ℕ → ℕ → List ChargeSegment → List Cost
onpeak_costs inp n j i [] = []
onpeak_costs inp n j i (seg ∷ segs) =
    (elim (onpeak inp n j i) [
      | [] ↦ []
      | _ ∷ _ ↦ times (inp.sc.weights.onpeak_kw_min * seg.kw) (gated n j i) ∷ []
    ])
    ++ onpeak_costs inp n j (suc i) segs

unfoldable pub chain_costs : Input → ℕ → ℕ → List Candidate → List Cost
chain_costs inp n j [] = []
chain_costs inp n j (c ∷ cs) = onpeak_costs inp n j 0 c.segs ++ chain_costs inp n (suc j) cs

-- `prev_ops["charge"]`: the last one, as in a dict.
unfoldable pub last_charge : List Op → Option Op
last_charge [] = none
last_charge (o ∷ ops) = elim (last_charge ops) [
  | some later ↦ some later
  | none ↦ if is_charge o then some o else none
]

unfoldable pub previous_charge : String → List AssetPlan → Option Op
previous_charge aid [] = none
previous_charge aid (a ∷ rest) = elim (previous_charge aid rest) [
  | some later ↦ some later
  | none ↦ if str_eq a.aid aid then last_charge a.ops else none
]

-- The first candidate at the previous point is the one to stay at.
unfoldable pub leaves : ℕ → ℕ → String → ℕ → List Candidate → List Cost
leaves w n id j [] = []
leaves w n id j (c ∷ cs) = elim (str_eq c.point.id id) [
  | true ↦ unless w (chosen n j) ∷ []
  | false ↦ leaves w n id (suc j) cs
]

unfoldable pub leaves_op : ℕ → ℕ → Option Op → List Candidate → List Cost
leaves_op w n none cs = []
leaves_op w n (some o) cs = elim o.point [ none ↦ [] | some id ↦ leaves w n id 0 cs ]

unfoldable pub leaves_plan : ℕ → Asset → ℕ → List Candidate → Option Plan → List Cost
leaves_plan w a n cs none = []
leaves_plan w a n cs (some p) = leaves_op w n (previous_charge a.aid p.assets) cs

-- What leaving the previous point costs, in a re-solve that prices it: not for work that has
-- started, and not without a weight.
unfoldable pub churn : Input → Asset → ℕ → List Candidate → List Cost
churn inp a n cs =
    let w : ℕ = elim inp.sc.weights.churn_per_change [ none ↦ 0 | some w ↦ w ] in
    let priced : List Cost = elim (pinned inp a.aid "charge") [
      | some _ ↦ []
      | none ↦ leaves_plan w a n cs inp.asked.previous_plan
    ] in
    if not inp.asked.price_churn || w == 0 then [] else priced

unfoldable pub rejection : Input → ℕ → List Cost
rejection inp n =
    if inp.asked.budget.allow_rejection
    then unless (rejection_penalty_of inp.sc) (served n) ∷ []
    else []

-- The moves of an asset, as a cost: their number is fixed unless the asset may be refused.
unfoldable pub move_costs : Input → Asset → ℕ → List Cost
move_costs inp a n =
    if inp.asked.budget.allow_rejection then times inp.sc.weights.per_move (moves n) ∷ [] else []

unfoldable pub weighted_costs : Input → Asset → ℕ → List Candidate → List Cost
weighted_costs inp a n cs =
    times inp.sc.weights.tardiness_per_min (tardy_var inp a n)
    ∷ (chain_costs inp n 0 cs ++ move_costs inp a n)
