-- ===== src/Solver/Build/Finish.antt =====
-- The constraints of what an asset does besides charging, and of when it is ready
-- (solvers/cpsat/model.py: the rest of the loop over the assets in `build_and_solve`, with
-- `_exactly_one_if_served`, `_move_interval` and `_point_gap_interval`).

use otto_q_core.Solver.Build.Charge.{is_place, one_if_served}
use otto_q_core.Solver.Build.Jobs.{Input, points_for, pinned}
use otto_q_core.Solver.Model.{
  Work, Var, Sum, Interval, Constraint, charge_start, charge_end, charged_tardy, charged_finish,
  op_start, op_end, work_start, work_end, move_start, move_end, work_at, gap_until, at_most, is_max,
  no_overlap, only_if, var, num, plus, wash, inspect, stay, served, tardy, moves, lit, negated,
  within, equal, interval, finished,
}
use otto_q_core.Plan.{Op}
use otto_q_core.Scenario.{Site, ServicePoint, Asset}
use otto_q_core.Base.{
  ℕ, suc, ◌+◌, String, Bool, none, some, List, [], ◌∷◌, ◌++◌, ltb, ◌==◌, if◌then◌else◌, length,
  lookup,
}

-- `sc["parallel_ops_menu"][op]["dur_min"]`
unfoldable pub duration : String → List (String × ℕ) → ℕ
duration op menu = elim (lookup op menu) [ none ↦ 0 | some d ↦ d ]

abbrev pub work_name : Work → String
work_name wash = "wash"
work_name inspect = "inspect"

abbrev pub work_kind : Work → String
work_kind wash = "wash_bay"
work_kind inspect = "service_bay"

unfoldable pub work_minutes : Site → Work → ℕ
work_minutes site wash = elim site.wash_min [ none ↦ 12 | some m ↦ m ]
work_minutes site inspect = elim site.inspect_min [ none ↦ 20 | some m ↦ m ]

unfoldable pub needs : Asset → Work → Bool
needs a wash = a.needs_wash
needs a inspect = a.needs_inspect

abbrev pub declared_gap : ServicePoint → ℕ
declared_gap p = elim p.min_gap_min [ none ↦ 0 | some gap ↦ gap ]

module _ (inp : Input) (a : Asset) (n : ℕ) where
  unfoldable pub op_interval : ℕ → String → Interval
  op_interval k op = record {
    start = op_start n k;
    size = num (duration op inp.sc.parallel_ops_menu);
    end = op_end n k;
    present = none;
  }

  unfoldable pub op_constraints : ℕ → List String → List Constraint
  op_constraints k [] = []
  op_constraints k (op ∷ ops) =
      within (op_start n k) 0 inp.sc.horizon_min
      ∷ within (op_end n k) 0 inp.sc.horizon_min
      ∷ interval (op_interval k op)
      ∷ at_most (var (charge_start n)) (var (op_start n k))
      ∷ op_constraints (suc k) ops

  unfoldable pub op_intervals : ℕ → List String → List Interval
  op_intervals k [] = []
  op_intervals k (op ∷ ops) = op_interval k op ∷ op_intervals (suc k) ops

  unfoldable pub op_ends : ℕ → List String → List Sum
  op_ends k [] = []
  op_ends k (op ∷ ops) = var (op_end n k) ∷ op_ends (suc k) ops

  -- One technician per car.
  unfoldable pub one_at_a_time : List Constraint
  one_at_a_time =
      if ltb 1 (length a.parallel_ops) then no_overlap (op_intervals 0 a.parallel_ops) ∷ [] else []

  -- The operations beside the charge: one at a time, and the asset stays until all are done.
  unfoldable pub parallel_constraints : List Constraint
  parallel_constraints =
      op_constraints 0 a.parallel_ops
      ++ (one_at_a_time ++ is_max (stay n) (var (charge_end n) ∷ op_ends 0 a.parallel_ops) ∷ [])

  unfoldable pub work_interval : Work → ℕ → Interval
  work_interval w j = record {
    start = work_start w n;
    size = num (work_minutes inp.sc.site w);
    end = work_end w n;
    present = some (work_at w n j);
  }

  -- `_point_gap_interval`
  unfoldable pub gap_interval : Work → ℕ → ℕ → Interval
  gap_interval w j gap = record {
    start = work_start w n;
    size = num (work_minutes inp.sc.site w + gap);
    end = gap_until w n j;
    present = some (work_at w n j);
  }

  -- What the point is taken for: with its gap, if it declares one.
  unfoldable pub work_occupancy : Work → ℕ → ServicePoint → Interval
  work_occupancy w j p =
      if declared_gap p == 0 then work_interval w j else gap_interval w j (declared_gap p)

  unfoldable pub bays : Work → List ServicePoint
  bays w = points_for inp a.aid (work_name w) (work_kind w)

  unfoldable pub bay_constraints : Work → ℕ → List ServicePoint → List Constraint
  bay_constraints w j [] = []
  bay_constraints w j (p ∷ ps) =
      within (work_at w n j) 0 1
      ∷ interval (work_interval w j)
      ∷ ((if declared_gap p == 0
            then []
            else within (gap_until w n j) 0 (inp.sc.horizon_min + declared_gap p)
              ∷ interval (gap_interval w j (declared_gap p))
              ∷ [])
          ++ bay_constraints w (suc j) ps)

  unfoldable pub bay_lits : Work → ℕ → List ServicePoint → List Var
  bay_lits w j [] = []
  bay_lits w j (p ∷ ps) = work_at w n j ∷ bay_lits w (suc j) ps

  unfoldable pub bay_occupancies : Work → ℕ → List ServicePoint → List (String × Interval)
  bay_occupancies w j [] = []
  bay_occupancies w j (p ∷ ps) = (p.id, work_occupancy w j p) ∷ bay_occupancies w (suc j) ps

  -- `_move_interval`: a move that a refused asset does not make.
  unfoldable pub move_interval : Work → Interval
  move_interval w = record {
    start = move_start w n;
    size = num inp.sc.site.move_duration_min;
    end = move_end w n;
    present = if inp.asked.budget.allow_rejection then some (served n) else none;
  }

  -- What the move to the work waits for.
  unfoldable pub before : Work → Var
  before wash = stay n
  before inspect = if a.needs_wash then work_end wash n else stay n

  unfoldable pub bay_pins : Op → ℕ → List ServicePoint → List Constraint
  bay_pins o j [] = []
  bay_pins o j (p ∷ ps) =
      (if is_place o p.id then equal (var (work_at wash n j)) (num 1) ∷ [] else [])
      ++ bay_pins o (suc j) ps

  -- A wash that has started keeps its start and its bay; an inspection is not pinned.
  unfoldable pub work_pins : Work → List ServicePoint → List Constraint
  work_pins inspect ps = []
  work_pins wash ps = elim (pinned inp a.aid "wash") [
    | none ↦ []
    | some o ↦ equal (var (work_start wash n)) (num o.start) ∷ bay_pins o 0 ps
  ]

  unfoldable pub work_constraints : Work → List Constraint
  work_constraints w =
      if needs a w
      then within (work_start w n) 0 inp.sc.horizon_min
        ∷ within (work_end w n) 0 inp.sc.horizon_min
        ∷ within (move_start w n) 0 inp.sc.horizon_min
        ∷ within (move_end w n) 0 inp.sc.horizon_min
        ∷ interval (move_interval w)
        ∷ at_most (var (before w)) (var (move_start w n))
        ∷ at_most (var (move_end w n)) (var (work_start w n))
        ∷ (one_if_served inp a n (bay_lits w 0 (bays w))
            ++ (work_pins w (bays w) ++ bay_constraints w 0 (bays w)))
      else []

  abbrev moves_of : Work → ℕ
  moves_of w = if needs a w then 1 else 0

  unfoldable pub move_count : ℕ
  move_count = moves_of wash + moves_of inspect

  unfoldable pub finish_candidates : List Sum
  finish_candidates =
      var (stay n)
      ∷ ((if needs a wash then var (work_end wash n) ∷ [] else [])
          ++ (if needs a inspect then var (work_end inspect n) ∷ [] else []))

  -- A figure that a refused asset does not pay.
  unfoldable pub charged : Var → ℕ → Sum → List Constraint
  charged v most full =
      within v 0 most
      ∷ only_if (lit (served n)) (equal (var v) full)
      ∷ only_if (negated (served n)) (equal (var v) (num 0))
      ∷ []

  unfoldable pub ready_constraints : Bool → List Constraint
  ready_constraints with_flow =
      within (finished n) 0 inp.sc.horizon_min
      ∷ is_max (finished n) finish_candidates
      ∷ within (tardy n) 0 inp.sc.horizon_min
      ∷ at_most (var (finished n)) (plus (tardy n) a.ready_by_min)
      ∷ (if inp.asked.budget.allow_rejection
          then charged (charged_tardy n) inp.sc.horizon_min (var (tardy n))
            ++ (charged (moves n) move_count (num move_count)
                ++ (if with_flow
                    then charged (charged_finish n) inp.sc.horizon_min (var (finished n))
                    else []))
          else [])

  -- What the sums of tardiness and of finish times run over.
  unfoldable pub tardy_var : Var
  tardy_var = if inp.asked.budget.allow_rejection then charged_tardy n else tardy n

  unfoldable pub flow_var : Var
  flow_var = if inp.asked.budget.allow_rejection then charged_finish n else finished n
