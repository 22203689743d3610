-- ===== src/Tests/Forecasts.antt =====
-- A flat forecast with a surge (intent/signals.py), and the theorems on it.
use otto_q_core.Intent.Signals.Resolved.{
  KnowsSignals, refused_signals, resolve_intent-forecast_signals,
}
use otto_q_core.Intent.Signals.Fires.{IsGrounded, forecast_signals-IsGrounded}
use otto_q_core.Intent.{Regime, Intent, known_signals, resolve_intent}
use otto_q_core.Base.{
  ℕ, zero, suc, ◌<◌, String, ◌≡◌, refl, inl, inr, true, false, none, some, List, [], ◌∷◌, arith,
  ◌==◌, Bool-cases, any, All, Returned, Succeeds,
}
use otto_q_core.Intent.Signals.{Query, forecast_signals}
use otto_q_core.Intent.Signals.Windows.{Hour}
use otto_q_core.Intent.Signals.Thresholds.{in_domain, ratio_kind, number}
use otto_q_core.Intent.Signals.Hours.{IsArrivals, IsLoad, at}
use otto_q_core.Intent.Signals.Total.{of_hours, forecast_signals-Succeeds}

abbrev hours_to : ℕ → List Hour
hours_to zero = []
hours_to (suc n) =
    record {
      hour_of_day = n;
      expected_arrivals = some (number 9_000);
      baseline_arrivals = some (number 4_000);
      total_kw_p90 = some (number 800_000);
    }
    ∷ hours_to n

hours_to-at : (n k : ℕ) → k < n → any (at k) (hours_to n) ≡ true
hours_to-at zero k h = ground arith
hours_to-at (suc n) k h = elim (Bool-cases (k == n)) [
  | inl e ↦ rw e refl
  | inr e ↦ rw e (hours_to-at n k (ground arith))
]

IsArrivals-hours_to : (n : ℕ) → All IsArrivals (hours_to n)
IsArrivals-hours_to zero = tt
IsArrivals-hours_to (suc n) = (((9_000, refl), (4_000, refl, omega arith)), IsArrivals-hours_to n)

IsLoad-hours_to : (n : ℕ) → All IsLoad (hours_to n)
IsLoad-hours_to zero = tt
IsLoad-hours_to (suc n) = ((800_000, refl), IsLoad-hours_to n)

abbrev query : Query
query = record {
  forecast = record { arrivals = of_hours (hours_to 24); load = of_hours (hours_to 24) };
  site_power_target_kw = number 1_000_000;
  now_hour = some 22;
  weather_hold = false;
  thresholds = ("surge_multiplier", number 1_500) ∷ [];
}

multiple : in_domain ratio_kind 1_500 ≡ true
unfolding in_domain
multiple = refl

forecast_signals-Succeeds_example : Succeeds (forecast_signals query)
forecast_signals-Succeeds_example =
    forecast_signals-Succeeds query 22 1_000_000 (hours_to 24) (hours_to 24) refl (omega arith) refl
      (omega arith) ((_, 1_500, refl, refl, multiple), tt) refl refl
      (IsArrivals-hours_to 24, hours_to-at 24) (IsLoad-hours_to 24, hours_to-at 24)

forecast_signals-IsGrounded_example : Returned IsGrounded (forecast_signals query)
forecast_signals-IsGrounded_example = forecast_signals-IsGrounded query

abbrev regime : String → Regime
regime signal = record {
  key = signal;
  label = "r";
  match = record { hour_range = none; signals = signal ∷ [] };
  priority = [];
  rationale = "";
}

abbrev intent : Intent
intent = record {
  objectives = [];
  regimes = regime "weather_hold" ∷ regime "demand_surge" ∷ regime "grid_peak_imminent" ∷ [];
  fingerprint = "f";
  version = 1;
}

knows : KnowsSignals intent
unfolding known_signals
knows = (refl, refl, refl)

resolve_intent-forecast_signals_example :
    Returned
      (λ a. refused_signals (resolve_intent intent 22 a.signals) ≡ false)
      (forecast_signals query)
resolve_intent-forecast_signals_example = resolve_intent-forecast_signals intent query 22 knows
