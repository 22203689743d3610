-- ===== src/Tests/Frames.antt =====
-- A frame of the proposer (proposer/forward_proposer.py) and the theorems applied to it.
use otto_q_core.Proposer.Points.{offered_points}
use otto_q_core.Base.Ascii.{upper, strip}
use otto_q_core.Proposer.Rows.Laws.{RowsOf, plan_to_proposals-RowsOf}
use otto_q_core.Proposer.Measure.{events_of, event_le, peak_of, sweep}
use otto_q_core.Proposer.Inlets.{
  accepted_inlets, capability_inlets, capability_kind, capability, connector,
}
use otto_q_core.Base.{◌≤◌, ◌≡◌, refl, true, false, none, some, List, [], ◌∷◌, arith, All}
use otto_q_core.Proposer.Frame.{Stall, Frame, Vehicle}
use otto_q_core.Proposer.Held.{resolved_target_soc}
use otto_q_core.Proposer.Rows.{plan_to_proposals, no_soc, Row, abstain, assign}
use otto_q_core.Proposer.Translate.{Options, frame_to_scenario}
use otto_q_core.Proposer.Translate.Laws.{frame_to_scenario-Accounted, Chargeable}
use otto_q_core.Proposer.Offer.{
  stall_block_reason, is_charge_stall, stalls_blocked, sum_values, stall_is_free,
}
use otto_q_core.Proposer.Offer.Laws.{sum_values-stalls_blocked}
use otto_q_core.Proposer.Inlets.Laws.{capability_roundtrip}
use otto_q_core.Proposer.Measure.Peak.{peak_of-le_iff, load}
use otto_q_core.Plan.{is_charge, Op, Plan, Segment, optimal}
use otto_q_core.Scenario.{ClassName, Scenario, Site}

-- A free DC stall, and one whose vehicle overstays.
abbrev free_stall : Stall
free_stall = record {
  id = "s1";
  type = "dcfc";
  status = some "available";
  vehicle_id = none;
  offerable = some (some true);
  ocpp_charger_id = some "c1";
  charger_state = some "Available";
  charger_fresh = some true;
  reservation_live = false;
  calendar_held_by = none;
  connector_type = some "ccs1";
  supported_inlet_types = [];
  connector_max_kw = some 150_000;
}

abbrev taken_stall : Stall
taken_stall = record free_stall {
  id = "s2";
  vehicle_id = some "av2";
  offerable = some (some false);
}

-- A vehicle at 40 % of 80 %, and one that overstays on its charger.
abbrev arrival : Vehicle
arrival = record {
  id = "av1";
  state = "arrived_at_gate";
  soc = some 40_000;
  target_soc = some 80_000;
  class_code = some "van";
  inlet_type = some "CCS1";
  inlet_max_kw = none;
  reserved_stall_id = none;
  has_live_booking = false;
  holds_charge_place = some (some false);
  has_live_holds_tick_proposal = none;
  occupies_charge_stall_unbooked = false;
}

abbrev overstayer : Vehicle
overstayer = record arrival {
  id = "av2";
  state = "charging_dcfc";
  occupies_charge_stall_unbooked = true;
}

abbrev pub frame : Frame
frame = record {
  stalls = free_stall ∷ taken_stall ∷ [];
  vehicles = arrival ∷ record overstayer { soc = none } ∷ [];
  selector = none;
}

sum_values-stalls_blocked_example : sum_values (stalls_blocked frame.stalls) ≡ 1
unfolding stall_is_free is_charge_stall
sum_values-stalls_blocked_example = sum_values-stalls_blocked frame.stalls

capability_roundtrip_example : capability_kind (capability "dcfc" ("NACS" ∷ "CCS1" ∷ [])) ≡ "dcfc"
capability_roundtrip_example =
    (capability_roundtrip "dcfc" "NACS" ("CCS1" ∷ []) refl (refl, (refl, tt))).0

-- Two segments that overlap for ten minutes.
abbrev segments : List Segment
segments =
    record { kw = 50; minutes = 30; start = 0; finish = 30; cold_start = false }
    ∷ record { kw = 20; minutes = 40; start = 20; finish = 60; cold_start = false }
    ∷ []

peak_of-le_iff_example : load 25 segments ≤ 70
unfolding peak_of events_of event_le sweep
peak_of-le_iff_example =
    (peak_of-le_iff 70 segments (omega arith, (omega arith, tt))).0 (omega arith) 25

abbrev site : Site
site = record {
  power_cap_kw_hard = 500;
  onpeak_window_min = none;
  dcfc_cooldown_min = some 18;
  cold_start_below_c = 0;
  cold_start_penalty_min = 0;
  power_soft_target_kw = 450;
  path_capacity = 2;
  move_duration_min = 4;
  wash_min = none;
  inspect_min = none;
}

abbrev pub options : Options
options = record {
  site = site;
  horizon_min = 720;
  ready_by_min = [];
  default_ready_delta_min = 240;
  class_of = λ v. v.class_code;
  class_table =
      (
        "van",
        record {
          battery_kwh = 70_000;
          max_charge_kw = 100_000;
          charge_kinds = some ("dcfc" ∷ []);
          energy_curve = none;
        },
      )
      ∷ [];
}

-- The scenario of the frame, with an abstention for the vehicle without a charge level.
abbrev van : ClassName
van = record { key = some "van"; kw = 100; inlet = "CCS1" }

abbrev pub scenario : Scenario
scenario = record {
  horizon_min = 720;
  site = site;
  weights = record {
    tardiness_per_min = 10;
    onpeak_kw_min = 0;
    peak_excess_per_kw = 0;
    per_move = 0;
    rejection_penalty = none;
    churn_per_change = none;
  };
  asset_classes =
      (
        van,
        record {
          battery_kwh = 70_000;
          max_charge_kw = 100_000;
          inlet = "CCS1";
          charge_kinds = "dcfc@CCS1" ∷ [];
          energy_curve = record { above_soc_pct = 0; accept_frac = 1000 } ∷ [];
        },
      )
      ∷ [];
  service_points =
      record { id = "s1"; kind = "dcfc@CCS1"; kw = 150; min_gap_min = some 18; stall_type = "dcfc" }
      ∷ [];
  parallel_ops_menu = [];
  assets =
      record {
        aid = "av1";
        cls = van;
        arrival_min = 0;
        soc = 40;
        target_soc = 80;
        ready_by_min = 240;
        pack_temp_c = 18;
        needs_wash = false;
        needs_inspect = false;
        parallel_ops = [];
      }
      ∷ [];
}

frame_to_scenario-Accounted_example : All (Chargeable scenario) scenario.assets
unfolding frame_to_scenario offered_points is_charge_stall stall_block_reason stall_is_free
    accepted_inlets capability connector capability_kind capability_inlets resolved_target_soc upper
    strip
frame_to_scenario-Accounted_example =
    (frame_to_scenario-Accounted options (λ v. true) frame {sc = scenario}
      {rows = abstain "av2" no_soc ∷ []} refl).1

-- A plan that charges the vehicle, with a taper.
abbrev charge : Op
charge = record {
  op = "charge";
  point = some "s1";
  kind = none;
  start = 0;
  finish = 60;
  parallel = false;
  segments = segments;
}

abbrev plan : Plan
plan = record {
  solver_status = optimal;
  objective = 0;
  site_peak_kw = none;
  assets =
      record {
        aid = "av1";
        class_name = van;
        ready_by = 240;
        served = some true;
        finish = some 60;
        tardy_min = some 0;
        ops = charge ∷ [];
      }
      ∷ [];
  rejected = [];
  retained_previous = false;
  kept_held_plan = false;
  repro = none;
}

abbrev row : Row
row = assign (record {
  stall_id = "s1";
  stall_type = "dcfc";
  vehicle_id = "av1";
  requested_kw = 50;
  planned_start_min = 0;
  planned_end_min = 60;
  planned_kwh = 38_333;
  segments = segments;
  tardy_min = some 0;
  ready_by_source = "default";
})

plan_to_proposals-RowsOf_example : RowsOf scenario.service_points plan.assets (row ∷ [])
unfolding plan_to_proposals is_charge
plan_to_proposals-RowsOf_example = plan_to_proposals-RowsOf plan scenario [] {rows = row ∷ []} refl
