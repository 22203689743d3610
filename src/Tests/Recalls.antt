-- ===== src/Tests/Recalls.antt =====
-- An asset that is dirty but not in need (recall/recall_decision.py), and the theorems applied to it.
use otto_q_core.Base.{◌≡◌, ◌≢◌, ◌↔◌, true, false, none, some, [], arith, elem}
use otto_q_core.Recall.{RecallDecision, World, decide_naive}
use otto_q_core.Recall.Inputs.{
  AssetState, WorkSideSignals, SiteForecast, naive_defaults, wash_cadence, critical,
}
use otto_q_core.Recall.Ladder.{InDanger, decide_naive-no_wash, decide_naive-urgency}

abbrev asset : AssetState
asset = record {
  asset_id = "av1";
  soc_pct = 80_000;
  reserve_soc_pct = 20_000;
  worst_fault_rank = 99;
  open_fault_count = 0;
  km_since_pm = 0;
  hours_since_calibration = 0;
  soil_index = 600;
  comms_age_min = none;
  home_site = "alpha";
}

abbrev work : WorkSideSignals
work = record { mission_active = true; mission_min_remaining = 40; demand_forecast = 500 }

abbrev site : SiteForecast
site = record {
  sim_min_now = 600;
  eta_min = 10_000;
  free_capable_points = 1;
  inbound_assets = 0;
  price_window_active = false;
  congestion_wait_min = 0;
}

abbrev naive : RecallDecision
naive = record { name = "naive_threshold_v1"; decide = λ a w s. decide_naive naive_defaults a s }

abbrev world : World
world = record { sim_run_id = "run"; records = []; resolves = [] }

decide_naive-urgency_example :
    (decide_naive naive_defaults asset site).urgency ≡ critical ↔ InDanger naive_defaults asset site
decide_naive-urgency_example = (decide_naive-urgency naive_defaults asset site).0

-- It is as dirty as a wash asks for, and is not sent to one.
decide_naive-no_wash_example :
    ((decide_naive naive_defaults asset site).trigger ≢ some wash_cadence)
    × (elem "exterior_wash" (decide_naive naive_defaults asset site).service_bundle ≡ false)
decide_naive-no_wash_example = decide_naive-no_wash naive_defaults asset site (omega arith)
