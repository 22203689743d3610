-- ===== src/Recall/Inputs.antt =====
-- What a recall decision reads and returns, and the configuration of the ladder
-- (recall/recall_decision.py: the inputs, `RecallOutcome`, `NAIVE_DEFAULTS`).
use otto_q_core.Base.{ℕ, String, Bool, false, Option, none, List, []}

pub record AssetState : Type 0 where
  pub asset_id : String
  pub soc_pct : ℕ
  pub reserve_soc_pct : ℕ
  pub worst_fault_rank : ℕ
  pub open_fault_count : ℕ
  pub km_since_pm : ℕ
  pub hours_since_calibration : ℕ
  pub soil_index : ℕ
  pub comms_age_min : Option ℕ
  pub home_site : String

pub record WorkSideSignals : Type 0 where
  pub mission_active : Bool
  pub mission_min_remaining : ℕ
  pub demand_forecast : ℕ

pub record SiteForecast : Type 0 where
  pub sim_min_now : ℕ
  pub eta_min : ℕ
  pub free_capable_points : ℕ
  pub inbound_assets : ℕ
  pub price_window_active : Bool
  pub congestion_wait_min : ℕ

pub data Trigger : Type 0 where
  critical_reserve fault_safety_critical fault_major low_soc_reserve comms_stale : Trigger
  service_interval_due sensor_soil wash_cadence fixed_window work_side_refusal : Trigger

pub data Urgency : Type 0 where
  critical urgent routine scheduled calm : Urgency

pub record RecallOutcome : Type 0 where
  pub recall : Bool
  pub recall_time : Option ℕ
  pub target_site : Option String
  pub service_bundle : List String
  pub target_ready_time : Option ℕ
  pub trigger : Option Trigger
  pub urgency : Urgency
  pub deferrable : Option Bool

-- The configuration of the ladder.
pub record Thresholds : Type 0 where
  pub p99_burn_pct_per_min : ℕ
  pub reserve_margin_pct : ℕ
  pub dtc_debt_threshold : ℕ
  pub comms_stale_min : ℕ
  pub sensor_soil_threshold : ℕ
  pub wash_soil_threshold : ℕ
  pub pm_interval_km : ℕ
  pub calib_interval_h : ℕ
  pub horizon_min : ℕ
  pub service_min_estimate : ℕ

-- `NAIVE_DEFAULTS`
abbrev pub naive_defaults : Thresholds
naive_defaults = record {
  p99_burn_pct_per_min = 250;
  reserve_margin_pct = 15_000;
  dtc_debt_threshold = 3;
  comms_stale_min = 90_000;
  sensor_soil_threshold = 350;
  wash_soil_threshold = 500;
  pm_interval_km = 8_000_000;
  calib_interval_h = 250_000;
  horizon_min = 30_000;
  service_min_estimate = 45_000;
}

-- What an implementation returns when it recalls nothing, and for a refusal.
unfoldable pub no_recall : Option Trigger → RecallOutcome
no_recall trigger = record {
  recall = false;
  recall_time = none;
  target_site = none;
  service_bundle = [];
  target_ready_time = none;
  trigger = trigger;
  urgency = calm;
  deferrable = none;
}
