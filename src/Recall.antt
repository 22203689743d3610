-- ===== src/Recall.antt =====
-- The recall decision (recall/recall_decision.py): a naive ladder of thresholds, a fixed window, and
-- the cycle that logs what was decided.
--
-- Levels, distances, hours, rates and travel times are naturals in thousandths, minutes of the
-- simulated clock whole naturals: every one of them is compared and added and none is negative.
-- The product in the burn guard is in millionths, and so is what it is compared with. Release
-- windows, the payload and other inputs that no rule reads are left out, as is the hash of a record.
pub mod Inputs
pub mod Ladder
pub mod Cycle
use otto_q_core.Recall.Inputs.{
  AssetState, WorkSideSignals, SiteForecast, Trigger, Urgency, RecallOutcome, Thresholds, no_recall,
  critical_reserve, fault_safety_critical, fault_major, low_soc_reserve, comms_stale,
  service_interval_due, sensor_soil, wash_cadence, fixed_window, work_side_refusal, critical,
  urgent, routine, scheduled,
}
use otto_q_core.Base.{
  ℕ, ◌+◌, ◌*◌, ◌/◌, String, Bool, true, false, ◌&&◌, ◌||◌, Option, none, some, List, [], ◌∷◌, ◌++◌,
  ltb, leb, ◌==◌, str_eq, if◌then◌else◌,
}

module _ (c : Thresholds) (asset : AssetState) (site : SiteForecast) where
  -- The local function `out`.
  pub out : Trigger → Urgency → Bool → ℕ → List String → RecallOutcome
  out trigger urgency deferrable lead_min bundle = record {
    recall = true;
    recall_time = some (site.sim_min_now + lead_min);
    target_site = some asset.home_site;
    service_bundle = bundle;
    target_ready_time =
        some
          ((1000 * (site.sim_min_now + lead_min) + site.eta_min + c.service_min_estimate) / 1000);
    trigger = some trigger;
    urgency = urgency;
    deferrable = some deferrable;
  }

  pub bundle_charge : List String
  bundle_charge = if ltb asset.soc_pct 55_000 then "dc_fast_charge" ∷ [] else "l2_charge" ∷ []

  -- The charge that may burn on the way, in millionths.
  pub burn_guard : ℕ
  burn_guard = c.p99_burn_pct_per_min * (site.eta_min + c.horizon_min)

  -- The tests of the rungs, by the name that each gives.
  pub is_critical : Bool
  unfolding burn_guard
  is_critical = leb (1000 * asset.soc_pct) (1000 * asset.reserve_soc_pct + burn_guard)

  pub is_major_fault : Bool
  is_major_fault = asset.worst_fault_rank == 1 || leb c.dtc_debt_threshold asset.open_fault_count

  pub is_low : Bool
  is_low = leb asset.soc_pct (asset.reserve_soc_pct + c.reserve_margin_pct)

  pub is_stale : Bool
  is_stale = elim asset.comms_age_min [ none ↦ false | some age ↦ leb c.comms_stale_min age ]

  pub calibration_due : Bool
  calibration_due = leb c.calib_interval_h asset.hours_since_calibration

  pub service_bundle_due : List String
  unfolding calibration_due
  service_bundle_due =
      if calibration_due then "inspection" ∷ "adas_calibration" ∷ [] else "inspection" ∷ []

  -- The routine rungs, behind the contention gate.
  pub routine_rungs : RecallOutcome
  unfolding calibration_due service_bundle_due out bundle_charge no_recall
  routine_rungs =
      if leb c.pm_interval_km asset.km_since_pm || calibration_due
      then out service_interval_due routine true 60 service_bundle_due
      else if leb c.sensor_soil_threshold asset.soil_index
      then out sensor_soil routine true 30 ("sensor_clean" ∷ bundle_charge)
      else if leb c.wash_soil_threshold asset.soil_index
      then out wash_cadence routine true 60 ("exterior_wash" ∷ [])
      else no_recall none

  -- `NaiveThresholdRecall.decide`
  unfoldable pub decide_naive : RecallOutcome
  unfolding is_critical is_major_fault is_low is_stale routine_rungs out bundle_charge no_recall
  decide_naive =
      if is_critical
      then out critical_reserve critical false 0 bundle_charge
      else if asset.worst_fault_rank == 0
      then out fault_safety_critical critical false 0 ("inspection" ∷ bundle_charge)
      else if is_major_fault
      then out fault_major urgent false 0 ("inspection" ∷ [])
      else if is_low
      then out low_soc_reserve urgent false 0 bundle_charge
      else if is_stale
      then out comms_stale urgent false 0 ("inspection" ∷ [])
      else if leb site.congestion_wait_min 30_000
      then routine_rungs
      else no_recall none

-- `FixedWindowRecall.decide`
pub decide_window : ℕ → ℕ → AssetState → SiteForecast → RecallOutcome
unfolding no_recall
decide_window from to asset site =
    if leb from site.sim_min_now && ltb site.sim_min_now to
    then record {
      recall = true;
      recall_time = some site.sim_min_now;
      target_site = some asset.home_site;
      service_bundle = "l2_charge" ∷ [];
      target_ready_time = some ((1000 * (site.sim_min_now + 480) + site.eta_min) / 1000);
      trigger = some fixed_window;
      urgency = scheduled;
      deferrable = some true;
    }
    else no_recall none

-- The interface: a name and a pure function of the three inputs.
pub record RecallDecision : Type 0 where
  pub name : String
  pub decide : AssetState → WorkSideSignals → SiteForecast → RecallOutcome

-- A configuration, its overrides of the defaults already merged.
pub record Config : Type 0 where
  pub implementation : Option String
  pub thresholds : Thresholds
  pub from_min : Option ℕ
  pub to_min : Option ℕ

-- `make_recall`; `none` is the `KeyError` of an unknown implementation.
pub make_named : Config → String → Option RecallDecision
unfolding decide_naive decide_window
make_named config name =
    if str_eq name "naive_threshold_v1"
    then some (record {
      name = "naive_threshold_v1";
      decide = λ asset work site. decide_naive config.thresholds asset site;
    })
    else if str_eq name "fixed_window_dummy"
    then some (record {
      name = "fixed_window_dummy";
      decide = λ asset work site.
          decide_window (elim config.from_min [ none ↦ 960 | some n ↦ n ])
            (elim config.to_min [ none ↦ 1440 | some n ↦ n ]) asset site;
    })
    else none

pub make_recall : Config → Option RecallDecision
unfolding make_named
make_recall config =
    make_named config (elim config.implementation [ none ↦ "naive_threshold_v1" | some n ↦ n ])

-- One record of the log; `refused` also stands for its extra text.
pub record RecallRecord : Type 0 where
  pub refused : Bool
  pub sim_run_id : String
  pub implementation : String
  pub asset : AssetState
  pub work : WorkSideSignals
  pub site : SiteForecast
  pub decision : RecallOutcome

-- A call of the re-solve hook.
pub record Resolve : Type 0 where
  pub asset_id : String
  pub retry_after_min : ℕ

-- What a cycle reads and writes outside itself: the log's records and the calls of the hook.
pub record World : Type 0 where
  pub sim_run_id : String
  pub records : List RecallRecord
  pub resolves : List Resolve

module _ (impl : RecallDecision) (asset : AssetState) (work : WorkSideSignals)
    (site : SiteForecast) where
  -- `RecallEventLog.emit`
  pub emit : Bool → RecallOutcome → World → World
  emit refused outcome w = record w {
    records =
        w.records
        ++ record {
          refused = refused;
          sim_run_id = w.sim_run_id;
          implementation = impl.name;
          asset = asset;
          work = work;
          site = site;
          decision = outcome;
        }
          ∷ [];
  }

  -- What follows the decision: nothing without a recall, else the work side's answer.
  pub settle : Bool → Bool → RecallOutcome → World → RecallOutcome × World
  unfolding no_recall
  settle false accepted outcome w = (outcome, w)
  settle true true outcome w = (outcome, emit false outcome w)
  settle true false outcome w = (
    no_recall (some work_side_refusal),
    record (emit true outcome w) {
      resolves =
          w.resolves
          ++ record { asset_id = asset.asset_id; retry_after_min = work.mission_min_remaining }
            ∷ [];
    },
  )

  -- `run_recall_cycle`
  pub run_recall_cycle : (RecallOutcome → Bool) → World → RecallOutcome × World
  unfolding settle
  run_recall_cycle accepts w =
      let outcome = impl.decide asset work site in settle outcome.recall (accepts outcome) outcome w
