-- ===== src/Scenario.antt =====
-- The scenario dict that the solver is given (solvers/cpsat/model.py), as the proposer builds it.
-- Energies and the powers of classes are naturals in thousandths; minutes, percentages and the
-- powers of points are whole numbers; a pack's temperature is in degrees, at least nought. A key that may be absent is an `Option`.
use otto_q_core.Base.{ℕ, String, Bool, Option, List}

pub record Site : Type 0 where
  pub power_cap_kw_hard : ℕ
  pub onpeak_window_min : Option (ℕ × ℕ)
  pub dcfc_cooldown_min : Option ℕ
  pub cold_start_below_c : ℕ
  pub cold_start_penalty_min : ℕ
  pub power_soft_target_kw : ℕ
  pub path_capacity : ℕ
  pub move_duration_min : ℕ
  pub wash_min : Option ℕ
  pub inspect_min : Option ℕ

pub record Weights : Type 0 where
  pub tardiness_per_min : ℕ
  pub onpeak_kw_min : ℕ
  pub peak_excess_per_kw : ℕ
  pub per_move : ℕ
  pub rejection_penalty : Option ℕ
  pub churn_per_change : Option ℕ

-- One step of an energy curve: above this charge level, this fraction (in thousandths).
pub record CurveStep : Type 0 where
  pub above_soc_pct : ℕ
  pub accept_frac : ℕ

pub record AssetClass : Type 0 where
  pub battery_kwh : ℕ
  pub max_charge_kw : ℕ
  pub inlet : String
  pub charge_kinds : List String
  pub energy_curve : List CurveStep

pub record ServicePoint : Type 0 where
  pub id : String
  pub kind : String
  pub kw : ℕ
  pub min_gap_min : Option ℕ
  pub stall_type : String

-- The name that the proposer gives a class: the table's key, the whole kW and the inlet.
pub record ClassName : Type 0 where
  pub key : Option String
  pub kw : ℕ
  pub inlet : String

pub record Asset : Type 0 where
  pub aid : String
  pub cls : ClassName
  pub arrival_min : ℕ
  pub soc : ℕ
  pub target_soc : ℕ
  pub ready_by_min : ℕ
  pub pack_temp_c : ℕ
  pub needs_wash : Bool
  pub needs_inspect : Bool
  pub parallel_ops : List String

pub record Scenario : Type 0 where
  pub horizon_min : ℕ
  pub site : Site
  pub weights : Weights
  pub asset_classes : List (ClassName × AssetClass)
  pub service_points : List ServicePoint
  pub parallel_ops_menu : List (String × ℕ)
  pub assets : List Asset
