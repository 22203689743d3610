-- ===== src/Intent/Signals.antt =====
-- From a forecast to signals (intent/signals.py): the thresholds with their domains, the checks of
-- the forecast, and the three signals.
--
-- A number is in thousandths and its product with another in millionths. Provenance keeps the
-- evidence label; texts and units that no code compares are left out.
pub mod Windows
pub mod Thresholds
pub mod Domains
pub mod Fires
pub mod Hours
pub mod Total
pub mod Resolved
use otto_q_core.Intent.Signals.Windows.{
  Hour, Forecast, require_section, HourMap, hour_map, window_from, sum_arrivals, max_load,
}
use otto_q_core.Intent.Signals.Thresholds.{
  Value, Assessed, Effective, defaults, apply_overrides, threshold, number, below_zero, not_finite,
  not_number, missing_section, missing_hours, malformed_hour, not_covered, missing_field,
  bad_number, no_baseline, bad_now_hour, bad_target,
}
use otto_q_core.Base.{
  ℕ, zero, suc, ◌+◌, ◌*◌, ◌/◌, ◌%◌, max, String, Bool, true, false, not, ◌&&◌, Option, none, some,
  List, [], ◌∷◌, ◌++◌, map, ltb, leb, ◌==◌, if◌then◌else◌, Dict, lookup, insert, Raises, ◌>>=◌,
  raises, returns,
}

-- One signal's entry in `reasoning`: what was measured against what; the baseline is nought where
-- there is none.
pub record Reason : Type 0 where
  pub triggered : Bool
  pub value : ℕ
  pub baseline : ℕ
  pub threshold_value : ℕ
  pub window_hours : ℕ
  pub evidence : String

pub record SignalAssessment : Type 0 where
  pub signals : List String
  pub surge : Reason
  pub grid_peak : Reason
  pub weather_hold : Bool
  pub thresholds : Dict ℕ

pub is_some_hour : List Hour → Bool
is_some_hour [] = false
is_some_hour (h ∷ hs) = true

pub evidence_of : String → Effective → String
evidence_of name e = elim (lookup name e.prov) [ none ↦ "" | some label ↦ label ]

-- The surge: at least the multiple of the window's own baseline.
pub surge_reason : Effective → List Hour → ℕ × ℕ → Reason
surge_reason e hs sums =
    let bar = threshold "surge_multiplier" e * sums.1 in
    record {
      triggered = is_some_hour hs && ltb 0 sums.1 && leb bar (1000 * sums.0);
      value = sums.0;
      baseline = sums.1;
      threshold_value = bar;
      window_hours = threshold "surge_window_hours" e / 1000;
      evidence = evidence_of "surge_multiplier" e;
    }

pub surge_of : Effective → ℕ → HourMap → Assessed Reason
surge_of e now m = window_from m now (threshold "surge_window_hours" e / 1000) >>= λ hs.
    sum_arrivals hs >>= λ sums.
    if leb sums.1 0 then raises no_baseline else returns (surge_reason e hs sums)

-- The grid peak: at least the fraction of the soft power target.
pub peak_reason : Effective → ℕ → List Hour → ℕ → Reason
peak_reason e target hs peak =
    let bar = threshold "peak_fraction" e * target in
    record {
      triggered = is_some_hour hs && leb bar (1000 * peak);
      value = peak;
      baseline = 0;
      threshold_value = bar;
      window_hours = threshold "peak_window_hours" e / 1000;
      evidence = evidence_of "peak_fraction" e;
    }

pub peak_signal : Effective → ℕ → ℕ → HourMap → Assessed Reason
peak_signal e target now m = window_from m now (threshold "peak_window_hours" e / 1000) >>= λ hs.
    max_load hs >>= λ peak. returns (peak_reason e target hs peak)

-- The name where the signal is triggered.
pub named : Bool → String → List String
named true s = s ∷ []
named false s = []

pub assessment : Effective → Bool → Reason → Reason → SignalAssessment
assessment e weather surge peak = record {
  signals =
      named surge.triggered "demand_surge"
      ++ (named peak.triggered "grid_peak_imminent" ++ named weather "weather_hold");
  surge = surge;
  grid_peak = peak;
  weather_hold = weather;
  thresholds = e.eff;
}

-- `now_hour`, none where it is no integer or negative.
pub valid_hour : Option ℕ → Assessed ℕ
valid_hour none = raises bad_now_hour
valid_hour (some h) = if leb h 23 then returns h else raises bad_now_hour

pub valid_target : Value → Assessed ℕ
valid_target (number v) = if leb v 0 then raises bad_target else returns v
valid_target (below_zero v) = raises bad_target
valid_target not_finite = raises bad_target
valid_target not_number = raises bad_target

-- The arguments of `forecast_signals`.
pub record Query : Type 0 where
  pub forecast : Forecast
  pub site_power_target_kw : Value
  pub now_hour : Option ℕ
  pub weather_hold : Bool
  pub thresholds : Dict Value

-- `forecast_signals` after the checks of its arguments.
pub signals_from : Query → ℕ → ℕ → Effective → Assessed SignalAssessment
signals_from q now target e = require_section "arrivals" q.forecast.arrivals >>= λ arrivals.
    require_section "load" q.forecast.load >>= λ load. hour_map "arrivals" arrivals >>= λ amap.
    hour_map "load" load >>= λ lmap. surge_of e now amap >>= λ surge.
    peak_signal e target now lmap >>= λ peak. returns (assessment e q.weather_hold surge peak)

pub forecast_signals : Query → Assessed SignalAssessment
forecast_signals q = valid_hour q.now_hour >>= λ now.
    valid_target q.site_power_target_kw >>= λ target.
    apply_overrides q.thresholds defaults >>= λ e. signals_from q now target e
