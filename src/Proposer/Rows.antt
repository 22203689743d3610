-- ===== src/Proposer/Rows.antt =====
-- The advisory rows (proposer/forward_proposer.py: `_abstain`, `plan_to_proposals`).
--
-- A row is an abstention for a vehicle or an assignment. The constant fields of a row (its
-- contexts, verb and source) are left out, and a reason is a constructor with the values that its
-- text prints. Energy is in thousandths of a kWh: `kw * minutes / 60` never ends in one half
-- of a thousandth, so the rounding is to the nearest.
pub mod Laws
use otto_q_core.Base.{
  ℕ, ◌+◌, ◌-◌, ◌*◌, ◌/◌, max, String, Bool, true, false, Option, none, some, List, [], ◌∷◌, ◌++◌,
  find, Dict, lookup,
}
use otto_q_core.Plan.{Op, AssetPlan, Plan, is_charge, Segment}
use otto_q_core.Scenario.{Scenario, ServicePoint}

pub data Reason : Type 0 where
  no_soc no_inlet : Reason
  at_target : ℕ → ℕ → Reason
  no_class : Option String → Reason
  no_point : String → List String → List String → Reason
  not_served no_charge_op : Reason
  not_in_queue : Reason
  outside_batch : ℕ → Bool → ℕ → ℕ → Reason

pub record Assignment : Type 0 where
  pub stall_id : String
  pub stall_type : String
  pub vehicle_id : String
  pub requested_kw : ℕ
  pub planned_start_min : ℕ
  pub planned_end_min : ℕ
  pub planned_kwh : ℕ
  pub segments : List Segment
  pub tardy_min : Option ℕ
  pub ready_by_source : String

pub data Row : Type 0 where
  abstain : String → Reason → Row
  assign : Assignment → Row

-- `row["entity_id"]`
abbrev pub entity : Row → String
entity (abstain id r) = id
entity (assign a) = a.vehicle_id

-- `r["proposal"].get("abstain")`
abbrev pub is_abstain : Row → Bool
is_abstain (abstain id r) = true
is_abstain (assign a) = false

-- `next((o for o in a["ops"] if o["op"] == "charge"), None)`
pub charge_op : List Op → Option Op
charge_op ops = find is_charge ops

-- `kinds`: the database's stall type of each point. A later point of the same id wins, so it
-- stands first here.
pub kinds_of : List ServicePoint → Dict String
kinds_of [] = []
kinds_of (p ∷ ps) = kinds_of ps ++ (p.id, p.stall_type) ∷ []

-- `max(sg["kw"] for sg in segments)`, which raises on no segment.
pub max_from : ℕ → List Segment → ℕ
max_from m [] = m
max_from m (s ∷ ss) = max_from (max m s.kw) ss

pub max_kw : List Segment → Option ℕ
unfolding max_from
max_kw [] = none
max_kw (s ∷ ss) = some (max_from s.kw ss)

-- `sum(sg["kw"] * (sg["end"] - sg["start"]) for sg in segments)`, where no segment ends before
-- it starts.
pub kw_minutes : List Segment → ℕ
kw_minutes [] = 0
kw_minutes (s ∷ ss) = s.kw * (s.finish - s.start) + kw_minutes ss

pub planned_kwh_of : List Segment → ℕ
unfolding kw_minutes
planned_kwh_of ss = (50 * kw_minutes ss + 1) / 3

-- The reason of an asset without a charge operation.
pub unserved_reason : AssetPlan → Reason
unserved_reason a = elim a.served [ some false ↦ not_served | _ ↦ no_charge_op ]

-- The row of an asset whose charge operation, its point, the point's type and its greatest kW are
-- known. `none` is a raised exception: an operation without a point, at a point that the scenario
-- does not have, or without a segment.
pub row_at : Dict String → AssetPlan → Op → String → Option String → Option ℕ → Option Row
unfolding planned_kwh_of
row_at ready_by_used a o point none kw = none
row_at ready_by_used a o point (some kind) none = none
row_at ready_by_used a o point (some kind) (some kw) = some (
    assign (record {
      stall_id = point;
      stall_type = kind;
      vehicle_id = a.aid;
      requested_kw = kw;
      planned_start_min = o.start;
      planned_end_min = o.finish;
      planned_kwh = planned_kwh_of o.segments;
      segments = o.segments;
      tardy_min = a.tardy_min;
      ready_by_source = elim (lookup a.aid ready_by_used) [ none ↦ "default" | some s ↦ s ];
    }))

pub row_on : Dict String → Dict String → AssetPlan → Op → Option String → Option Row
unfolding row_at max_kw
row_on kinds ready_by_used a o none = none
row_on kinds ready_by_used a o (some point) =
    row_at ready_by_used a o point (lookup point kinds) (max_kw o.segments)

pub row_of : Dict String → Dict String → AssetPlan → Option Op → Option Row
unfolding unserved_reason row_on
row_of kinds ready_by_used a none = some (abstain a.aid (unserved_reason a))
row_of kinds ready_by_used a (some o) = row_on kinds ready_by_used a o o.point

infixl 5 ◌>>=◌
abbrev pub ◌>>=◌ {ℓ κ} : {A : Type ℓ} {B : Type κ} → Option A → (A → Option B) → Option B
none >>= f = none
some a >>= f = f a

-- The loop of `plan_to_proposals`.
pub rows_of : Dict String → Dict String → List AssetPlan → Option (List Row)
unfolding row_of charge_op
rows_of kinds ready_by_used [] = some []
rows_of kinds ready_by_used (a ∷ rest) = do
  row ← row_of kinds ready_by_used a (charge_op a.ops)
  rows ← rows_of kinds ready_by_used rest
  some (row ∷ rows)

unfoldable pub plan_to_proposals : Plan → Scenario → Dict String → Option (List Row)
unfolding rows_of kinds_of
plan_to_proposals plan sc ready_by_used =
    rows_of (kinds_of sc.service_points) ready_by_used plan.assets
