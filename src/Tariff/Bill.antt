-- ===== src/Tariff/Bill.antt =====
-- What a tariff bills for a load curve (sites/tariff.py: `Tariff.bill`, `_bill_hours_use`). The
-- figures stand as they are before they are rounded for the report.
pub mod Floors
pub mod Errors
use otto_q_core.Base.Sort.{sort}
use otto_q_core.Base.{
  ℕ, ◌+◌, ◌-◌, ◌*◌, min, max, String, Bool, true, ◌&&◌, Option, none, some, List, [], ◌∷◌, ◌++◌,
  ltb, leb, str_eq, str_le, if◌then◌else◌, Dict, insert, ◌>>=◌, raises, returns,
}
use otto_q_core.Tariff.{
  Billing, DemandComponent, HoursUseBlocks, Ratchet, price_from, floor_kw, season_of,
  season_applies, energy_rate, is_none, no_energy_rate, Tariff, price,
}
use otto_q_core.Tariff.Meter.{interval_peaks, max_reading, peak_for, Load}
use otto_q_core.Tariff.Energy.{sum_kwh, energy_by_window}

pub data Line : Type 0 where
  energy_line : String → ℕ → ℕ → ℕ → Line
  demand_line : DemandComponent → ℕ → ℕ → ℕ → ℕ → ℕ → Line
  hours_use_line : ℕ → ℕ → ℕ → ℕ → Line

-- `min_bill_floor` and `floor_binding` stand on a bill by hours of use only.
pub record Statement : Type 0 where
  pub billed_season : String
  pub energy_cost : ℕ
  pub demand_cost : ℕ
  pub min_bill_floor : Option (ℕ × Bool)
  pub fixed_cost : ℕ
  pub total : ℕ
  pub billed_peaks_kw : Dict ℕ
  pub lines : List Line

-- The arguments of `bill`.
pub record Period : Type 0 where
  pub month : ℕ
  pub days : ℕ
  pub historical_peak_kw : ℕ
  pub coincident_minutes : Option (List ℕ)

-- The order of the items, whose names differ.
pub item_le : String × ℕ → String × ℕ → Bool
item_le e f = str_le e.0 f.0

-- One window: its cost and line before those of the rest, or the missing rate.
pub bill_window : String → String → ℕ → Option ℕ → Billing (ℕ × List Line) → Billing (ℕ × List Line)
bill_window season name kwh none rest = raises (no_energy_rate season name)
bill_window season name kwh (some rate) rest =
    rest >>= λ r. returns (kwh * rate + r.0, energy_line name kwh rate (kwh * rate) ∷ r.1)

-- The loop over the windows: the cost and the lines.
pub bill_energy : Tariff → String → Dict ℕ → Billing (ℕ × List Line)
bill_energy t season [] = returns (0, [])
bill_energy t season (e ∷ es) =
    bill_window season e.0 e.1 (energy_rate t season e.0) (bill_energy t season es)

-- The floor of a ratchet, which holds for the site's own peak only.
pub ratchet_of : Option Ratchet → DemandComponent → ℕ → ℕ
ratchet_of none comp historical_peak_kw = 0
ratchet_of (some r) comp historical_peak_kw =
    if str_eq comp.basis "NCP" && is_none comp.tou_window then floor_kw r historical_peak_kw else 0

-- The demand part so far.
pub record Demand : Type 0 where
  pub cost : ℕ
  pub peaks : Dict ℕ
  pub lines : List Line

pub periods_of : Period → DemandComponent → ℕ
periods_of period comp = if str_eq comp.period "day" then period.days else 1

-- A component's charge on what the meter measured.
pub charge : Tariff → Period → DemandComponent → ℕ → Demand → Demand
charge t period comp measured so_far =
    let floor = ratchet_of t.ratchet comp period.historical_peak_kw in
    let billed = max measured floor in
    let periods = periods_of period comp in
    let cost = price comp billed * periods in
    record {
      cost = so_far.cost + cost;
      peaks = insert comp.label billed so_far.peaks;
      lines = so_far.lines ++ demand_line comp measured floor billed periods cost ∷ [];
    }

-- The loop over the components.
pub bill_demand : Tariff → Load → Period → String → List DemandComponent → Demand → Billing Demand
bill_demand t load period season [] so_far = returns so_far
bill_demand t load period season (comp ∷ comps) so_far =
    if season_applies comp.season season
    then (peak_for load comp t period.coincident_minutes >>= λ measured.
        bill_demand t load period season comps (charge t period comp measured so_far))
    else bill_demand t load period season comps so_far

-- The loop over the tail blocks, from the hours where the block before ends.
pub tail_from : List (Option ℕ × ℕ) → ℕ → ℕ → ℕ → ℕ
tail_from [] prev_hours demand_kw excess = 0
tail_from ((none, rate) ∷ bs) prev_hours demand_kw excess = excess * rate
tail_from ((some up_to, rate) ∷ bs) prev_hours demand_kw excess =
    let span = min excess ((up_to - prev_hours) * demand_kw) in
    span * rate
    + (if leb (excess - span) 0 then 0 else tail_from bs up_to demand_kw (excess - span))

-- `HoursUseBlocks.energy_cost`
pub blocks_cost : HoursUseBlocks → ℕ → ℕ → ℕ
blocks_cost hub kwh billing_demand_kw =
    let base_cap = hub.base_hours * billing_demand_kw in
    price_from hub.first_blocks 0 (min kwh base_cap)
    + tail_from hub.tail_blocks hub.base_hours billing_demand_kw (kwh - base_cap)

-- `HoursUseBlocks.floor`
pub floor_bill : HoursUseBlocks → ℕ → ℕ
floor_bill hub billing_demand_kw = hub.min_bill_fixed + hub.min_bill_per_kw * billing_demand_kw

-- The interval of the first component, else half an hour.
pub hours_use_interval : List DemandComponent → ℕ
hours_use_interval [] = 30
hours_use_interval (c ∷ cs) = c.interval_min

-- The floor of the ratchet on a bill by hours of use.
pub hours_use_ratchet : Option Ratchet → ℕ → ℕ
hours_use_ratchet none historical_peak_kw = 0
hours_use_ratchet (some r) historical_peak_kw = floor_kw r historical_peak_kw

-- `_bill_hours_use` after its readings.
pub hours_use_statement : Tariff → HoursUseBlocks → Load → Period → List (ℕ × ℕ) → Statement
hours_use_statement t hub load period peaks =
    let floor = hours_use_ratchet t.ratchet period.historical_peak_kw in
    let billed = max (max_reading (λ start. true) peaks) floor in
    let month_kwh = sum_kwh (energy_by_window load t) * period.days in
    let blocks = blocks_cost hub month_kwh billed in
    let least = floor_bill hub billed in
    let core = max blocks least in
    record {
      billed_season = season_of t period.month;
      energy_cost = blocks;
      demand_cost = 0;
      min_bill_floor = some (least, ltb blocks least);
      fixed_cost = t.fixed_charge_per_month;
      total = core + t.fixed_charge_per_month;
      billed_peaks_kw = ("billing demand", billed) ∷ [];
      lines = hours_use_line month_kwh billed floor core ∷ [];
    }

-- `_bill_hours_use`
pub bill_hours_use : Tariff → HoursUseBlocks → Load → Period → Billing Statement
bill_hours_use t hub load period = interval_peaks load (hours_use_interval t.demand) >>= λ peaks.
    returns (hours_use_statement t hub load period peaks)

pub no_demand : Demand
no_demand = record { cost = 0; peaks = []; lines = [] }

-- The demand part, none on a tariff without demand charges.
pub demand_part : Tariff → Load → Period → Billing Demand
demand_part t load period =
    if t.demand_charge_free
    then returns no_demand
    else bill_demand t load period (season_of t period.month) t.demand no_demand

-- The end of `bill`.
pub statement : Tariff → Period → ℕ × List Line → Demand → Statement
statement t period energy demand = record {
  billed_season = season_of t period.month;
  energy_cost = energy.0;
  demand_cost = demand.cost;
  min_bill_floor = none;
  fixed_cost = t.fixed_charge_per_month;
  total = energy.0 + demand.cost + t.fixed_charge_per_month;
  billed_peaks_kw = demand.peaks;
  lines = energy.1 ++ demand.lines;
}

-- `Tariff.bill` on a tariff that bills energy and demand apart.
pub bill_apart : Tariff → Load → Period → Billing Statement
bill_apart t load period =
    bill_energy t (season_of t period.month) (sort item_le (energy_by_window load t)) >>= λ energy.
    demand_part t load period >>= λ demand. returns (statement t period energy demand)

-- Hours-use blocks return early.
pub bill_by : Option HoursUseBlocks → Tariff → Load → Period → Billing Statement
bill_by none t load period = bill_apart t load period
bill_by (some hub) t load period = bill_hours_use t hub load period

-- `Tariff.bill`
pub bill : Tariff → Load → Period → Billing Statement
bill t load period = bill_by t.hours_use_blocks t load period
