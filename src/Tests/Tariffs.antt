-- ===== src/Tests/Tariffs.antt =====
-- A tariff in the shape of NES GSA-3 with an evening window (sites/tariff.py), and the theorems on it.
use otto_q_core.Tariff.Meter.Bounds.{peak_for-le}
use otto_q_core.Tariff.Ladder.{price_by_unit, price-by_unit}
use otto_q_core.Tariff.Energy.{energy_by_window, sum_kwh}
use otto_q_core.Base.{
  ℕ, ◌%◌, ◌≤◌, ◌≡◌, refl, false, none, some, List, [], ◌∷◌, arith, any, All, Returned, Succeeds,
  returns,
}
use otto_q_core.Tariff.{
  season_of, season_applies, or_empty, is_none, TouWindow, DemandComponent, is_general, Tariff,
  contains, price, window,
}
use otto_q_core.Tariff.Windows.{contains-covers, covers}
use otto_q_core.Tariff.Meter.{peak_for, steps_of, sorted_points, interval_peaks}
use otto_q_core.Tariff.Meter.Conserves.{IsAverage, Agree, interval_peaks-energy}
use otto_q_core.Tariff.Energy.Conserves.{curve_energy, energy_by_window-conserves}
use otto_q_core.Tariff.Load.{
  has_inner_unbounded, load_tier, checked_tiers, raw_tiers, tiers_from, tiers_of, names_window,
  load_rest, load_interval, load_component, load_demand, load_energy, tariff_of, has_window,
  check_windows, is_empty, add_row, checked_tariff, TierDoc, DemandDoc, TariffDoc, load_tariff,
  component,
}
use otto_q_core.Tariff.Load.Laws.{IsLoaded, load_tariff-IsLoaded}
use otto_q_core.Tariff.Bill.{Period, bill}
use otto_q_core.Tariff.Bill.Errors.{HasRate, bill-Succeeds}
use otto_q_core.Tariff.Bill.Floors.{with_peak, AtMostAs, bill-ratchet}

-- From nine in the evening to seven in the morning.
abbrev night : TouWindow
night = record { name = "night"; ranges = (1260, 420) ∷ [] }

abbrev peak_tiers : List TierDoc
peak_tiers =
    record { up_to_kw = some 1000; rate = 2140 } ∷ record { up_to_kw = none; rate = 2178 } ∷ []

abbrev site_peak : DemandDoc
site_peak = record {
  label = some "site";
  basis = none;
  interval_min = some 30;
  tiers = some peak_tiers;
  rate_per_kw = none;
  tou_window = none;
  season = none;
  period = none;
}

abbrev night_peak : DemandDoc
night_peak = record {
  label = some "night";
  basis = some "TOU";
  interval_min = some 15;
  tiers = none;
  rate_per_kw = some 500;
  tou_window = some "night";
  season = some "summer";
  period = some "day";
}

abbrev document : TariffDoc
document = record {
  tariff_id = "nes";
  fixed_charge_per_month = some 900;
  demand = site_peak ∷ night_peak ∷ [];
  energy =
      record { season = none; tou_window = none; rate_per_kwh = 9 }
      ∷ record { season = none; tou_window = some "night"; rate_per_kwh = 4 }
      ∷ [];
  ratchet = some record { percent = 30; lookback_months = 12 };
  hours_use_blocks = none;
  tou_windows = night ∷ [];
  summer_months = none;
  winter_months = none;
  demand_charge_free = none;
}

abbrev site_component : DemandComponent
site_component = record {
  label = "site";
  basis = "NCP";
  interval_min = 30;
  tiers =
      record { up_to_kw = some 1000; rate = 2140 } ∷ record { up_to_kw = none; rate = 2178 } ∷ [];
  tou_window = none;
  season = "all";
  period = "month";
}

abbrev components : List DemandComponent
components =
    site_component
    ∷ record {
      label = "night";
      basis = "TOU";
      interval_min = 15;
      tiers = record { up_to_kw = none; rate = 500 } ∷ [];
      tou_window = some "night";
      season = "summer";
      period = "day";
    }
    ∷ []

abbrev tariff : Tariff
tariff = record {
  tariff_id = "nes";
  fixed_charge_per_month = 900;
  demand = components;
  energy =
      record { season = "all"; tou_window = none; rate_per_kwh = 9 }
      ∷ record { season = "all"; tou_window = some "night"; rate_per_kwh = 4 }
      ∷ [];
  ratchet = some record { percent = 30; lookback_months = 12 };
  hours_use_blocks = none;
  tou_windows = night ∷ [];
  summer_months = 6 ∷ 7 ∷ 8 ∷ 9 ∷ [];
  winter_months = 12 ∷ 1 ∷ 2 ∷ 3 ∷ [];
  demand_charge_free = false;
}

abbrev curve : List (ℕ × ℕ)
curve = (0, 600) ∷ (20, 1800) ∷ (50, 300) ∷ (60, 0) ∷ []

abbrev july : Period
july = record { month = 7; days = 30; historical_peak_kw = 2000; coincident_minutes = some [] }

document_loads : load_tariff document ≡ returns tariff
unfolding load_tariff load_demand load_component load_interval load_rest tiers_of tiers_from
    raw_tiers checked_tiers load_tier has_inner_unbounded names_window component load_energy
    tariff_of check_windows checked_tariff add_row has_window is_empty or_empty window is_none
document_loads = refl

has_rate : HasRate tariff (season_of tariff 7)
unfolding is_general season_applies season_of
has_rate = refl

contains-covers_example : contains night 1300 ≡ any (covers (1300 % 1440)) night.ranges
contains-covers_example = contains-covers night 1300 ((omega arith, omega arith), tt)

energy_by_window-conserves_example :
    sum_kwh (energy_by_window curve tariff) ≡ curve_energy (steps_of (sorted_points curve))
energy_by_window-conserves_example = energy_by_window-conserves curve tariff

interval_peaks-energy_example :
    (rs : List (ℕ × ℕ)) × (interval_peaks curve 15 ≡ returns rs)
    × All (IsAverage (steps_of (sorted_points curve)) 15) rs
    × Agree curve 15 tariff rs
interval_peaks-energy_example = interval_peaks-energy curve 15 tariff (omega arith)

load_tariff-IsLoaded_example : IsLoaded tariff
load_tariff-IsLoaded_example = load_tariff-IsLoaded document tariff document_loads

bill-Succeeds_example : Succeeds (bill tariff curve july)
bill-Succeeds_example =
    bill-Succeeds document tariff curve july [] document_loads (omega arith, (omega arith, tt))
      has_rate refl

bill-ratchet_example :
    AtMostAs
      (λ x. x.total)
      (bill tariff curve (with_peak july 2000))
      (bill tariff curve (with_peak july 9000))
bill-ratchet_example = bill-ratchet tariff curve july 2000 9000 refl (omega arith)

price-by_unit_example : price site_component 1400 ≡ price_by_unit site_component.tiers 1400
price-by_unit_example = price-by_unit site_component 1400 (omega arith, refl)

peak_for-le_example : Returned (λ kw. kw ≤ 1800) (peak_for curve site_component tariff none)
peak_for-le_example =
    peak_for-le curve site_component tariff none 1800
      (omega arith, (omega arith, (omega arith, (omega arith, tt))))
